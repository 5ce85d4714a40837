-- ===== src/Decoder/Reassembly/Chain.antt =====
-- The fragment list of internal/core/decoder/reassembly.go: sorted, without overlaps, and counted.
use otus.Base.{
  ℕ, ◌+◌, ◌-◌, ◌≤◌, ◌<◌, ◌≡◌, Bool, true, false, Option, none, some, List, [], ◌∷◌, length, arith,
  length-slice, slice, inl, inr, Option-cases, Bool-cases, leb, leb→le, All,
}
use otus.Decoder.Fragments.{
  Fragment, FragmentList, start_at, end_at, trim, attach, place, insert_bsd_right,
}
use otus.Decoder.Reassembly.{add_fragment, mark_final}

-- A fragment as `Process` makes it: within an IPv4 datagram, with all its bytes.
pub record IsFragment (f : Fragment) : Type 0 where
  pub nonempty : 0 < f.length
  pub fits : f.offset + f.length ≤ 65535
  pub full : length f.payload ≡ f.length

-- Fragments in order of their offsets, from `lo` on, each behind the end of the one before it.
abbrev pub Chain : ℕ → List Fragment → Type 0
Chain lo [] = Unit
Chain lo (f ∷ fs) = (lo ≤ f.offset) × IsFragment f × Chain (f.offset + f.length) fs

abbrev pub total : List Fragment → ℕ
total [] = 0
total (f ∷ fs) = f.length + total fs

abbrev pub prev_end : Option Fragment → ℕ
prev_end none = 0
prev_end (some p) = p.offset + p.length

abbrev pub Ahead : ℕ → Option Fragment → Type 0
Ahead n none = Unit
Ahead n (some next) = n ≤ next.offset

pub record Trimmed (prev next : Option Fragment) (f t : Fragment) : Type 0 where
  pub behind : prev_end prev ≤ t.offset
  pub within : f.offset ≤ t.offset
  pub up_to : t.offset + t.length ≤ f.offset + f.length
  pub ahead : Ahead (t.offset + t.length) next
  pub good : IsFragment t
  pub cut : t.payload ≡ slice f.payload (t.offset - f.offset) (t.offset + t.length - f.offset)

pub trim-Trimmed :
    (prev next : Option Fragment) (f t : Fragment)
    → IsFragment f
    → prev_end prev ≤ 65535
    → Ahead f.offset next
    → trim prev next f ≡ some t
    → Trimmed prev next f t
unfolding trim
trim-Trimmed prev next f t g h a e =
    ground (arith, length-slice f.payload (start_at prev f - f.offset) (end_at next f - f.offset))

-- Placing a fragment keeps the list sorted and without overlaps, and adds the bytes that it says.
attach-Chain :
    (prev next : Option Fragment) (f : Fragment) (rest : List Fragment)
    → IsFragment f
    → prev_end prev ≤ 65535
    → Ahead f.offset next
    → Chain (prev_end prev) rest
    → ((t : Fragment) → Trimmed prev next f t → Chain (t.offset + t.length) rest)
    → Chain (prev_end prev) (attach (trim prev next f) rest).0
attach-Chain prev next f rest g h a c step = elim (Option-cases (trim prev next f)) [
  | inl e ↦ rw e c
  | inr (t, e) ↦ let tr = trim-Trimmed prev next f t g h a e in rw e (tr.behind, tr.good, step t tr)
]

place-Chain :
    (prev : Option Fragment) (f : Fragment) (fs : List Fragment)
    → IsFragment f
    → prev_end prev ≤ 65535
    → Chain (prev_end prev) fs
    → Chain (prev_end prev) (place prev f fs).0
unfolding place
place-Chain prev f [] g h c = attach-Chain prev none f [] g h tt tt (λ t tr. tt)
place-Chain prev f (e ∷ es) g h c = elim (Bool-cases (leb f.offset e.offset)) [
  | inl stop ↦
      rw stop (
        attach-Chain prev (some e) f (e ∷ es) g h (leb→le _ _ stop) c
          (λ t tr. (tr.ahead, c.1, c.2)))
  | inr on ↦ rw on (c.0, c.1, place-Chain (some e) f es g c.1.fits c.2)
]

attach-total :
    (o : Option Fragment) (rest : List Fragment)
    → total (attach o rest).0 ≡ total rest + (attach o rest).1
attach-total none rest = omega arith
attach-total (some f) rest = omega arith

pub place-total :
    (prev : Option Fragment) (f : Fragment) (fs : List Fragment)
    → total (place prev f fs).0 ≡ total fs + (place prev f fs).1
unfolding place
place-total prev f [] = attach-total (trim prev none f) []
place-total prev f (e ∷ es) = elim (Bool-cases (leb f.offset e.offset)) [
  | inl stop ↦ rw stop (attach-total (trim prev (some e) f) (e ∷ es))
  | inr on ↦ rw on (omega (arith, place-total (some e) f es))
]

-- Disjoint fragments that end by 65535 have at most 65535 bytes, so a `uint16` counts them.
pub total-le : (lo : ℕ) (fs : List Fragment) → lo ≤ 65535 → Chain lo fs → lo + total fs ≤ 65535
total-le lo [] h c = omega arith
total-le lo (f ∷ fs) h c =
    omega (arith, total-le (f.offset + f.length) fs c.1.fits c.2, c.1.nonempty)

-- A flow between two packets.
pub record IsFlow (fl : FragmentList) : Type 0 where
  pub chain : Chain 0 fl.frags
  pub counted : fl.current ≡ total fl.frags

insert_bsd_right-IsFlow :
    (f : Fragment) (fl : FragmentList) → IsFragment f → IsFlow fl → IsFlow (insert_bsd_right fl f)
unfolding insert_bsd_right
insert_bsd_right-IsFlow f fl g v =
    let c = place-Chain none f fl.frags g (omega arith) v.chain in
    record {
      chain = c;
      counted = omega (arith, v.counted, place-total none f fl.frags, total-le 0 _ (omega arith) c);
    }

mark_final-IsFlow :
    (more : Bool) (f : Fragment) (fl : FragmentList) → IsFlow fl → IsFlow (mark_final more f fl)
unfolding mark_final
mark_final-IsFlow true f fl v = v
mark_final-IsFlow false f fl v = record { chain = v.chain; counted = v.counted }

-- The list stays sorted, disjoint and exactly counted, whatever arrives and in whatever order.
pub add_fragment-IsFlow :
    (more : Bool) (f : Fragment) (now : ℕ) (fl : FragmentList)
    → IsFragment f
    → IsFlow fl
    → IsFlow (add_fragment more f now fl)
unfolding add_fragment
add_fragment-IsFlow more f now fl g v = insert_bsd_right-IsFlow f _ g (
    mark_final-IsFlow more f (record fl { last_seen = now })
      (record { chain = v.chain; counted = v.counted }))

attach-All {κ} :
    (P : Fragment → Type κ) (prev next : Option Fragment) (f : Fragment) (rest : List Fragment)
    → IsFragment f
    → prev_end prev ≤ 65535
    → Ahead f.offset next
    → ((t : Fragment) → f.offset ≤ t.offset → t.offset + t.length ≤ f.offset + f.length → P t)
    → All P rest
    → All P (attach (trim prev next f) rest).0
attach-All P prev next f rest g h a part all = elim (Option-cases (trim prev next f)) [
  | inl e ↦ rw e all
  | inr (t, e) ↦
      let tr = trim-Trimmed prev next f t g h a e in rw e (part t tr.within tr.up_to, all)
]

-- Every fragment of the new list is an old one, or a part of the one that arrived.
pub place-All {κ} :
    (P : Fragment → Type κ) (prev : Option Fragment) (f : Fragment) (fs : List Fragment)
    → IsFragment f
    → prev_end prev ≤ 65535
    → Chain (prev_end prev) fs
    → ((t : Fragment) → f.offset ≤ t.offset → t.offset + t.length ≤ f.offset + f.length → P t)
    → All P fs
    → All P (place prev f fs).0
unfolding place
place-All P prev f [] g h c part a = attach-All P prev none f [] g h tt part a
place-All P prev f (e ∷ es) g h c part a = elim (Bool-cases (leb f.offset e.offset)) [
  | inl stop ↦ rw stop (attach-All P prev (some e) f (e ∷ es) g h (leb→le _ _ stop) part a)
  | inr on ↦ rw on (a.0, place-All P (some e) f es g c.1.fits c.2 part a.1)
]
