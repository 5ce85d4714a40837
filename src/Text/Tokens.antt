-- ===== src/Text/Tokens.antt =====
-- Texts without white space, and the white space around texts.
use otus.Text.Split.{Lacks, lacks, lacks-Lacks}
use otus.Text.{trim_right, trim_left, split_space, trim, is_space, fields, cons_trim, drop_empty}
use otus.Base.{Bytes, ℕ, List, ◌≢◌, ◌≡◌, All, ◌++◌, [], false, true, ◌∷◌, refl, ap, ◌∙◌, arith}

abbrev pub IsToken : Bytes → Type 0
IsToken s = (s ≢ []) × All (λ c. is_space c ≡ false) s

-- No white space at either end.
abbrev pub IsTrimmed : Bytes → Type 0
IsTrimmed s = (trim_left s ≡ s) × (trim_right s ≡ s)

pub trim-IsTrimmed : (s : Bytes) → IsTrimmed s → trim s ≡ s
trim-IsTrimmed s (l, r) = rw l r

cons_trim-nonempty : (c : ℕ) (s : Bytes) → s ≢ [] → cons_trim c s ≡ c ∷ s
cons_trim-nonempty c [] n = absurd (n refl)
cons_trim-nonempty c (d ∷ s) n = refl

pub append-nonempty {ℓ} : {A : Type ℓ} (s t : List A) → t ≢ [] → (s ++ t) ≢ []
append-nonempty [] t n = n
append-nonempty (c ∷ s) t n = λ e. cc

-- A text that ends in one without white space at the end has none there.
pub trim_right-append : (s t : Bytes) → t ≢ [] → trim_right t ≡ t → trim_right (s ++ t) ≡ s ++ t
unfolding trim_right
trim_right-append [] t n e = e
trim_right-append (c ∷ s) t n e =
    rw (trim_right-append s t n e) (cons_trim-nonempty c (s ++ t) (append-nonempty s t n))

pub trim_right-token : (s : Bytes) → All (λ c. is_space c ≡ false) s → trim_right s ≡ s
unfolding trim_right
trim_right-token [] h = refl
trim_right-token (c ∷ []) h = rw (h.0) refl
trim_right-token (c ∷ d ∷ s) h = rw (trim_right-token (d ∷ s) h.1) refl

pub trim_right-space :
    (s : Bytes) (c : ℕ) → is_space c ≡ true → trim_right (s ++ c ∷ []) ≡ trim_right s
unfolding trim_right
trim_right-space [] c h = rw h refl
trim_right-space (d ∷ s) c h = ap (cons_trim d) (trim_right-space s c h)

pub trim_left-token : (s t : Bytes) → IsToken s → trim_left (s ++ t) ≡ s ++ t
unfolding trim_left
trim_left-token [] t (n, h) = absurd (n refl)
trim_left-token (c ∷ s) t (n, h) = rw (trim_left, h.0) refl

pub trim_left-whole : (s : Bytes) → IsToken s → trim_left s ≡ s
unfolding trim_left
trim_left-whole [] (n, h) = absurd (n refl)
trim_left-whole (c ∷ s) (n, h) = rw (trim_left, h.0) refl

-- A trimmed text is read back from in front of a carriage return.
pub trim-cr :
    (c : ℕ) (s : Bytes)
    → is_space c ≡ false
    → trim_right (c ∷ s) ≡ c ∷ s
    → trim ((c ∷ s) ++ b'\r' ∷ []) ≡ c ∷ s
unfolding trim_left
trim-cr c s h e = rw (trim_left, h) (trim_right-space (c ∷ s) b'\r' refl ∙ e)

pub split_space-token : (s : Bytes) → All (λ c. is_space c ≡ false) s → split_space s ≡ s ∷ []
unfolding split_space
split_space-token [] h = refl
split_space-token (c ∷ s) h = rw (h.0, split_space-token s h.1) refl

-- The text up to a space is a part of its own.
pub split_space-append :
    (s t : Bytes)
    → All (λ c. is_space c ≡ false) s
    → split_space (s ++ b' ' ∷ t) ≡ s ∷ split_space t
unfolding split_space
split_space-append [] t h = refl
split_space-append (c ∷ s) t h = rw (h.0, split_space-append s t h.1) refl

pub drop_empty-cons :
    (s : Bytes) (ss : List Bytes) → s ≢ [] → drop_empty (s ∷ ss) ≡ s ∷ drop_empty ss
drop_empty-cons [] ss n = absurd (n refl)
drop_empty-cons (c ∷ s) ss n = refl

pub fields-append : (s t : Bytes) → IsToken s → fields (s ++ b' ' ∷ t) ≡ s ∷ fields t
fields-append s t (n, h) = rw (split_space-append s t h) (drop_empty-cons s (split_space t) n)

pub fields-token : (s : Bytes) → IsToken s → fields s ≡ s ∷ []
fields-token s (n, h) = rw (split_space-token s h) (drop_empty-cons s [] n)

-- A token has no line feed.
pub token-Lacks : (s : Bytes) → All (λ c. is_space c ≡ false) s → Lacks b'\n' s
token-Lacks [] h = tt
token-Lacks (c ∷ s) h = (ground arith, token-Lacks s h.1)

pub Lacks-append : (b : ℕ) (s t : Bytes) → Lacks b s → Lacks b t → Lacks b (s ++ t)
Lacks-append b [] t h k = k
Lacks-append b (c ∷ s) t h k = (h.0, Lacks-append b s t h.1 k)

pub prefix-Lacks : (b : ℕ) (s t : Bytes) → lacks b s ≡ true → Lacks b t → Lacks b (s ++ t)
prefix-Lacks b s t h = Lacks-append b s t (lacks-Lacks b s h)
