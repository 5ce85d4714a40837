-- ===== src/Text/Split.antt =====
-- Texts split at a byte, as Go's `Split` does.
use otus.Text.{split_on, cons_head}
use otus.Base.{
  ℕ, Bytes, All, List, ◌++◌, ◌≡◌, ◌==◌, ◌∷◌, false, refl, Bool-cases, true, [], inl, arith, inr,
  if_intro, if◌then◌else◌, Bool, not, ◌&&◌,
}

abbrev pub Lacks : ℕ → Bytes → Type 0
Lacks b = All (λ c. (c == b) ≡ false)

-- There is always a first part.
pub split_on-cons :
    (sep : ℕ) (s : Bytes) → (x : Bytes) × (xs : List Bytes) × (split_on sep s ≡ x ∷ xs)
unfolding split_on
split_on-cons sep [] = ([], [], refl)
split_on-cons sep (c ∷ s) = elim (Bool-cases (c == sep)) [
  | inl hit ↦ ([], split_on sep s, rw hit refl)
  | inr miss ↦ let (x, xs, e) = split_on-cons sep s in (c ∷ x, xs, rw (miss, e) refl)
]

pub split_on-append :
    (sep : ℕ) (s t : Bytes) → split_on sep (s ++ sep ∷ t) ≡ split_on sep s ++ split_on sep t
unfolding split_on
split_on-append sep [] t = let e : (sep == sep) ≡ true = ground arith in rw e refl
split_on-append sep (c ∷ s) t =
    let (x, xs, e) = split_on-cons sep s in
    rw (split_on-append sep s t, e)
      (if_intro
        (λ b.
          (if c == sep
            then [] ∷ (x ∷ xs) ++ split_on sep t
            else cons_head c ((x ∷ xs) ++ split_on sep t))
          ≡ b ++ split_on sep t)
        (c == sep) (λ hit. rw hit refl) (λ miss. rw miss refl))

pub split_on-Lacks : (sep : ℕ) (s : Bytes) → Lacks sep s → split_on sep s ≡ s ∷ []
unfolding split_on
split_on-Lacks sep [] h = refl
split_on-Lacks sep (c ∷ s) h = rw (h.0, split_on-Lacks sep s h.1) refl

pub split_on-empty : (sep : ℕ) → split_on sep [] ≡ [] ∷ []
unfolding split_on
split_on-empty sep = refl

abbrev pub lacks : ℕ → Bytes → Bool
lacks b [] = true
lacks b (c ∷ s) = not (c == b) && lacks b s

-- For a literal, whose test computes.
pub lacks-Lacks : (b : ℕ) (s : Bytes) → lacks b s ≡ true → Lacks b s
lacks-Lacks b [] h = tt
lacks-Lacks b (c ∷ s) h = (ground arith, lacks-Lacks b s (ground arith))
