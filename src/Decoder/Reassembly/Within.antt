-- ===== src/Decoder/Reassembly/Within.antt =====
-- Which fragments end behind `highest` (internal/core/decoder/reassembly.go): `Process` moves `highest`
-- with each fragment until the last fragment has come, and then no more.
use otus.Decoder.Reassembly.Content.{add_fragment-frags}
use otus.Decoder.Fragments.{Fragment, insert_bsd_right, FragmentList, place}
use otus.Decoder.Reassembly.{add_fragment, mark_final}
use otus.Base.{
  ◌≡◌, ℕ, Bool, List, All, ◌∷◌, [], ◌⊎◌, ◌≤◌, ◌+◌, ◌<◌, inl, arith, if◌then◌else◌, not, ◌&&◌, ◌||◌,
  none, max, true,
}
use otus.Decoder.Reassembly.Chain.{place-All, IsFragment, Chain, IsFlow}

-- Every fragment ends by `h`.
abbrev pub Within : ℕ → List Fragment → Type 0
Within h fs = All (λ (f : Fragment). f.offset + f.length ≤ h) fs

-- Some fragment ends behind `h`.
abbrev pub Overruns : ℕ → List Fragment → Type 0
Overruns h [] = ⊥
Overruns h (f ∷ fs) = (h < f.offset + f.length) ⊎ Overruns h fs

pub Within-or_Overruns : (h : ℕ) (fs : List Fragment) → Within h fs ⊎ Overruns h fs
Within-or_Overruns h [] = inl tt
Within-or_Overruns h (f ∷ fs) = ground (arith, Within-or_Overruns h fs)

pub Within-mono : (h k : ℕ) (fs : List Fragment) → h ≤ k → Within h fs → Within k fs
Within-mono h k [] g w = tt
Within-mono h k (f ∷ fs) g w = (omega (arith, w.0), Within-mono h k fs g w.1)

place-Within :
    (h : ℕ) (f : Fragment) (fs : List Fragment)
    → IsFragment f
    → Chain 0 fs
    → f.offset + f.length ≤ h
    → Within h fs
    → Within h (place none f fs).0
place-Within h f fs g c e w =
    place-All _ none f fs g (omega arith) c (λ t _ up. omega (arith, up, e)) w

-- A fragment moves `highest` to its end, unless it comes after the last one and is not itself last.
pub add_fragment-highest :
    (more : Bool) (f : Fragment) (now : ℕ) (fl : FragmentList)
    → IsFragment f
    → (add_fragment more f now fl).highest
      ≡ (if more && fl.final_received then fl.highest else max fl.highest (f.offset + f.length))
unfolding add_fragment insert_bsd_right mark_final
add_fragment-highest more f now fl g = ground arith

pub add_fragment-final :
    (more : Bool) (f : Fragment) (now : ℕ) (fl : FragmentList)
    → (add_fragment more f now fl).final_received ≡ (not more || fl.final_received)
unfolding add_fragment insert_bsd_right mark_final
add_fragment-final more f now fl = ground arith

-- No fragment ends behind `highest`, as long as none comes from behind it after the last one.
pub add_fragment-Within :
    (more : Bool) (f : Fragment) (now : ℕ) (fl : FragmentList)
    → IsFragment f
    → IsFlow fl
    → ((more && fl.final_received) ≡ true → f.offset + f.length ≤ fl.highest)
    → Within fl.highest fl.frags
    → Within (add_fragment more f now fl).highest (add_fragment more f now fl).frags
add_fragment-Within more f now fl g v late w =
    let h = (add_fragment more f now fl).highest in
    let e = add_fragment-highest more f now fl g in
    rw (add_fragment-frags more f now fl) (
      place-Within h f fl.frags g v.chain (ground (arith, e, late))
        (Within-mono fl.highest h fl.frags (ground (arith, e)) w))
