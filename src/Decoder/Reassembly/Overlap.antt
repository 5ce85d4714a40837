-- ===== src/Decoder/Reassembly/Overlap.antt =====
-- What `insertBSDRight` of internal/core/decoder/reassembly.go drops of an overlapping fragment.
use otus.Decoder.Reassembly.Chain.{IsFragment, prev_end, IsFlow, Chain, trim-Trimmed}
use otus.Decoder.Reassembly.Content.{byte_at, add_fragment-frags}
use otus.Base.{
  ◌≡◌, Option, Bool, ℕ, List, ◌∷◌, [], ◌≤◌, arith, ◌⊎◌, inl, some, inr, none, Option-cases, ◌+◌,
  Bool-cases, leb, leb→le,
}
use otus.Decoder.Fragments.{place, Fragment, FragmentList, attach, trim}
use otus.Decoder.Reassembly.{add_fragment}

-- The list has a fragment that starts at or behind `f` and not behind the position `i`.
abbrev pub Stops : Fragment → ℕ → List Fragment → Type 0
Stops f i [] = ⊥
Stops f i (e ∷ es) = ((f.offset ≤ e.offset) × (e.offset ≤ i)) ⊎ Stops f i es

attach-lost :
    (prev : Option Fragment) (e f : Fragment) (rest : List Fragment) (i : ℕ)
    → IsFragment f
    → prev_end prev ≤ 65535
    → f.offset ≤ e.offset
    → e.offset ≤ i
    → byte_at (attach (trim prev (some e) f) rest).0 i ≡ byte_at rest i
attach-lost prev e f rest i g h a b = elim (Option-cases (trim prev (some e) f)) [
  | inl gone ↦ rw gone
  | inr (t, kept) ↦
      let tr = trim-Trimmed prev (some e) f t g h a kept in
      rw kept (unfold byte_at in ground (arith, tr.ahead))
]

byte_at-cons_eq :
    (x : Fragment) (xs ys : List Fragment) (i : ℕ)
    → byte_at xs i ≡ byte_at ys i
    → byte_at (x ∷ xs) i ≡ byte_at (x ∷ ys) i
unfolding byte_at
byte_at-cons_eq x xs ys i e = ground arith

Stops-ge :
    (lo : ℕ) (f : Fragment) (i : ℕ) (fs : List Fragment) → Chain lo fs → Stops f i fs → lo ≤ i
Stops-ge lo f i [] c s = absurd s
Stops-ge lo f i (e ∷ es) c (inl s) = omega (arith, c.0, s.1)
Stops-ge lo f i (e ∷ es) c (inr s) = omega (arith, c.0, Stops-ge (e.offset + e.length) f i es c.2 s)

Stops-first :
    (e : Fragment) (es : List Fragment) (lo : ℕ) (f : Fragment) (i : ℕ)
    → Chain lo (e ∷ es)
    → Stops f i (e ∷ es)
    → e.offset ≤ i
Stops-first e es lo f i c (inl s) = s.1
Stops-first e es lo f i c (inr s) = omega (arith, Stops-ge (e.offset + e.length) f i es c.2 s)

pub place-lost :
    (prev : Option Fragment) (f : Fragment) (fs : List Fragment) (i : ℕ)
    → IsFragment f
    → prev_end prev ≤ 65535
    → Chain (prev_end prev) fs
    → Stops f i fs
    → byte_at (place prev f fs).0 i ≡ byte_at fs i
unfolding place
place-lost prev f [] i g h c s = absurd s
place-lost prev f (e ∷ es) i g h c s = elim (Bool-cases (leb f.offset e.offset)) [
  | inl stop ↦ rw stop (
      attach-lost prev e f (e ∷ es) i g h (leb→le _ _ stop)
        (Stops-first e es (prev_end prev) f i c s))
  | inr on ↦
      rw on (
        byte_at-cons_eq e _ es i
          (place-lost (some e) f es i g c.1.fits c.2 (ground (arith, on, s))))
]

-- In a sound flow, a fragment that overlaps later ones is cut at the first fragment that starts
-- at or behind its own start: from there on the flow holds what it held, also where it has a gap
-- that the fragment would fill.
pub add_fragment-tail_lost :
    (more : Bool) (f : Fragment) (now : ℕ) (fl : FragmentList) (i : ℕ)
    → IsFragment f
    → IsFlow fl
    → Stops f i fl.frags
    → byte_at (add_fragment more f now fl).frags i ≡ byte_at fl.frags i
add_fragment-tail_lost more f now fl i g v s =
    rw (add_fragment-frags more f now fl) (place-lost none f fl.frags i g (omega arith) v.chain s)
