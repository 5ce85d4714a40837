-- ===== src/Decoder/Reassembly/Content.antt =====
-- The bytes that the fragment list of internal/core/decoder/reassembly.go holds, by position in the
-- datagram, and what an arriving fragment does to them (`insertBSDRight`).
use otus.Base.{
  ℕ, ◌+◌, ◌-◌, ◌≤◌, ◌≡◌, refl, Bool, true, false, ◌&&◌, Option, none, some, List, [], ◌∷◌, arith,
  get_elem?, get_elem?-slice, ◌⊎◌, inl, inr, Option-cases, Bool-cases, leb, ltb, leb→le,
  if◌then◌else◌, ◌∙◌, ap,
}
use otus.Decoder.Fragments.{insert_bsd_right, Fragment, FragmentList, trim, attach, place}
use otus.Decoder.Reassembly.{mark_final, add_fragment}
use otus.Decoder.Reassembly.Chain.{
  IsFlow, IsFragment, Chain, prev_end, Ahead, Trimmed, trim-Trimmed,
}

abbrev pub covers : Fragment → ℕ → Bool
covers f i = leb f.offset i && ltb i (f.offset + f.length)

-- The byte at a position of the datagram, if a fragment of the list has it.
unfoldable pub byte_at : List Fragment → ℕ → Option ℕ
byte_at [] i = none
byte_at (f ∷ fs) i = if covers f i then get_elem? f.payload (i - f.offset) else byte_at fs i

pub byte_at-ge :
    (lo : ℕ) (fs : List Fragment) (i b : ℕ) → Chain lo fs → byte_at fs i ≡ some b → lo ≤ i
unfolding byte_at
byte_at-ge lo [] i b c e = absurd (cc)
byte_at-ge lo (f ∷ fs) i b c e = ground (arith, byte_at-ge (f.offset + f.length) fs i b c.2)

-- A trimmed fragment's byte is the original's.
Trimmed-byte :
    (prev next : Option Fragment) (f t : Fragment) (i : ℕ)
    → Trimmed prev next f t
    → covers t i ≡ true
    → get_elem? t.payload (i - t.offset) ≡ get_elem? f.payload (i - f.offset)
Trimmed-byte prev next f t i tr h =
    let e : t.offset - f.offset + (i - t.offset) ≡ i - f.offset = ground (arith, tr.within) in
    rw tr.cut (
      get_elem?-slice f.payload (t.offset - f.offset) (t.offset + t.length - f.offset)
        (i - t.offset) (ground (arith, tr.within))
      ∙ ap (get_elem? f.payload) e)

-- What the list holds stays as it was.
attach-keeps :
    (prev next : Option Fragment) (f : Fragment) (rest : List Fragment) (i b : ℕ)
    → IsFragment f
    → prev_end prev ≤ 65535
    → Ahead f.offset next
    → ((t : Fragment) → Trimmed prev next f t → Chain (t.offset + t.length) rest)
    → byte_at rest i ≡ some b
    → byte_at (attach (trim prev next f) rest).0 i ≡ some b
attach-keeps prev next f rest i b g h a step e = elim (Option-cases (trim prev next f)) [
  | inl none' ↦ rw none' e
  | inr (t, some') ↦ rw some' (
      unfold byte_at in
      ground (
        arith,
        byte_at-ge (t.offset + t.length) rest i b (step t (trim-Trimmed prev next f t g h a some'))
            e,
      ))
]

byte_at-cons :
    (x : Fragment) (xs ys : List Fragment) (i b : ℕ)
    → (byte_at xs i ≡ some b → byte_at ys i ≡ some b)
    → byte_at (x ∷ xs) i ≡ some b
    → byte_at (x ∷ ys) i ≡ some b
unfolding byte_at
byte_at-cons x xs ys i b h e = ground arith

place-keeps :
    (prev : Option Fragment) (f : Fragment) (fs : List Fragment) (i b : ℕ)
    → IsFragment f
    → prev_end prev ≤ 65535
    → Chain (prev_end prev) fs
    → byte_at fs i ≡ some b
    → byte_at (place prev f fs).0 i ≡ some b
unfolding place
place-keeps prev f [] i b g h c e = attach-keeps prev none f [] i b g h tt (λ t tr. tt) e
place-keeps prev f (x ∷ xs) i b g h c e = elim (Bool-cases (leb f.offset x.offset)) [
  | inl stop ↦ rw stop (
      attach-keeps prev (some x) f (x ∷ xs) i b g h (leb→le _ _ stop) (λ t tr. (tr.ahead, c.1, c.2))
        e)
  | inr on ↦ rw on (byte_at-cons x xs _ i b (place-keeps (some x) f xs i b g c.1.fits c.2) e)
]

-- A byte that the list gains is the arriving fragment's byte for that position.
abbrev pub FromOr : Fragment → List Fragment → ℕ → ℕ → Type 0
FromOr f fs i b =
    (byte_at fs i ≡ some b) ⊎ ((f.offset ≤ i) × (get_elem? f.payload (i - f.offset) ≡ some b))

attach-FromOr :
    (prev next : Option Fragment) (f : Fragment) (rest : List Fragment) (i b : ℕ)
    → IsFragment f
    → prev_end prev ≤ 65535
    → Ahead f.offset next
    → byte_at (attach (trim prev next f) rest).0 i ≡ some b
    → FromOr f rest i b
attach-FromOr prev next f rest i b g h a = elim (Option-cases (trim prev next f)) [
  | inl none' ↦ rw none' (λ e. inl e)
  | inr (t, some') ↦
      let tr = trim-Trimmed prev next f t g h a some' in
      rw some' (unfold byte_at in λ e. ground (arith, tr, Trimmed-byte prev next f t i tr))
]

FromOr-cons :
    (f x : Fragment) (xs ys : List Fragment) (i b : ℕ)
    → (byte_at ys i ≡ some b → FromOr f xs i b)
    → byte_at (x ∷ ys) i ≡ some b
    → FromOr f (x ∷ xs) i b
unfolding byte_at
FromOr-cons f x xs ys i b h e = ground arith

place-FromOr :
    (prev : Option Fragment) (f : Fragment) (fs : List Fragment) (i b : ℕ)
    → IsFragment f
    → prev_end prev ≤ 65535
    → Chain (prev_end prev) fs
    → byte_at (place prev f fs).0 i ≡ some b
    → FromOr f fs i b
unfolding place
place-FromOr prev f [] i b g h c = attach-FromOr prev none f [] i b g h tt
place-FromOr prev f (x ∷ xs) i b g h c = elim (Bool-cases (leb f.offset x.offset)) [
  | inl stop ↦ rw stop (attach-FromOr prev (some x) f (x ∷ xs) i b g h (leb→le _ _ stop))
  | inr on ↦ rw on (FromOr-cons f x xs _ i b (place-FromOr (some x) f xs i b g c.1.fits c.2))
]

pub add_fragment-frags :
    (more : Bool) (f : Fragment) (now : ℕ) (fl : FragmentList)
    → (add_fragment more f now fl).frags ≡ (place none f fl.frags).0
unfolding add_fragment insert_bsd_right mark_final
add_fragment-frags true f now fl = refl
add_fragment-frags false f now fl = refl

-- Data that arrived earlier is never overwritten, and what a fragment adds are its own bytes at
-- their own positions.
pub add_fragment-earlier_wins :
    (more : Bool) (f : Fragment) (now : ℕ) (fl : FragmentList) (i b : ℕ)
    → IsFragment f
    → IsFlow fl
    → (byte_at fl.frags i ≡ some b → byte_at (add_fragment more f now fl).frags i ≡ some b)
      × (byte_at (add_fragment more f now fl).frags i ≡ some b → FromOr f fl.frags i b)
add_fragment-earlier_wins more f now fl i b g v = rw (add_fragment-frags more f now fl) (
  place-keeps none f fl.frags i b g (omega arith) v.chain,
  place-FromOr none f fl.frags i b g (omega arith) v.chain,
)

-- A byte that has arrived in a sound flow is never overwritten: the flow still holds it after
-- any further fragment that has bytes and ends by 65535.
pub add_fragment-keeps :
    (more : Bool) (f : Fragment) (now : ℕ) (fl : FragmentList) (i b : ℕ)
    → IsFragment f
    → IsFlow fl
    → byte_at fl.frags i ≡ some b
    → byte_at (add_fragment more f now fl).frags i ≡ some b
add_fragment-keeps more f now fl i b g v e = (add_fragment-earlier_wins more f now fl i b g v).0 e
