-- ===== src/Decoder/Reassembly/Tiling.antt =====
-- Fragments that do not overlap: each is kept in full by `insertBSDRight`
-- (internal/core/decoder/reassembly.go).
use otus.Decoder.Reassembly.Chain.{IsFragment, prev_end, Chain, place-All}
use otus.Base.{◌≡◌, Option, ◌+◌, List, ◌≤◌, length, ◌⊎◌, arith, All, ◌∷◌, [], some, none}
use otus.Decoder.Fragments.{place, Fragment, trim}

abbrev pub Disjoint : Fragment → Fragment → Type 0
Disjoint f g = (f.offset + f.length ≤ g.offset) ⊎ (g.offset + g.length ≤ f.offset)

-- A fragment that overlaps nothing adds its whole length.
pub place_disjoint :
    (prev : Option Fragment) (f : Fragment) (fs : List Fragment)
    → IsFragment f
    → prev_end prev ≤ f.offset
    → Chain (prev_end prev) fs
    → All (Disjoint f) fs
    → (place prev f fs).1 ≡ f.length
unfolding place trim
place_disjoint none f [] g p c d = ground arith
place_disjoint (some prev) f [] g p c d = ground arith
place_disjoint none f (e ∷ es) g p c d = ground (arith, c.1, d.0, place_disjoint (some e) f es g)
place_disjoint (some prev) f (e ∷ es) g p c d =
    ground (arith, c.1, d.0, place_disjoint (some e) f es g)

-- What overlaps neither the list nor the arriving fragment does not overlap the new list.
pub place-Disjoint :
    (h f : Fragment) (fs : List Fragment)
    → IsFragment f
    → Chain 0 fs
    → Disjoint h f
    → All (Disjoint h) fs
    → All (Disjoint h) (place none f fs).0
place-Disjoint h f fs g c d a =
    place-All (Disjoint h) none f fs g (omega arith) c (λ t from to. grind (arith, from, to, d)) a

pub length-place-le :
    (prev : Option Fragment) (f : Fragment) (fs : List Fragment)
    → length (place prev f fs).0 ≤ length fs + 1
unfolding place
length-place-le prev f [] = ground arith
length-place-le prev f (e ∷ es) = ground (arith, length-place-le (some e) f es)
