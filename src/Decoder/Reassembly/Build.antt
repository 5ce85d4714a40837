-- ===== src/Decoder/Reassembly/Build.antt =====
-- `build` of internal/core/decoder/reassembly.go: when it panics, and what it returns when it does not.
use otus.Decoder.Reassembly.Copy.{
  overlay_all, copy_fragments-Overruns, copy_fragments-fits, length-overlay_all,
  get_elem?-overlay_all,
}
use otus.Base.{
  ℕ, ◌+◌, ◌-◌, ◌≤◌, ◌<◌, ◌≡◌, true, Bytes, some, List, [], ◌∷◌, length, arith, get_elem?, inl, inr,
  Bool-cases, le→not_ltb, ◌∙◌, replicate, length-replicate, get_elem?-lt, ◌↔◌,
}
use otus.Decoder.Fragments.{Fragment, FragmentList}
use otus.Decoder.Reassembly.{ReassemblyConfig, build, complete, panicked, is_complete}
use otus.Decoder.Reassembly.Within.{Within, Overruns, Within-or_Overruns}
use otus.Decoder.Reassembly.Chain.{Chain, IsFlow, total}
use otus.Decoder.Reassembly.Content.{covers, byte_at}

-- Disjoint fragments that end by `h` and add up to what lies between `lo` and `h` leave no hole.
total-le_Within :
    (lo h : ℕ) (fs : List Fragment) → lo ≤ h → Chain lo fs → Within h fs → lo + total fs ≤ h
total-le_Within lo h [] g c w = omega arith
total-le_Within lo h (f ∷ fs) g c w =
    omega (arith, total-le_Within (f.offset + f.length) h fs w.0 c.2 w.1)

no_holes :
    (lo h : ℕ) (fs : List Fragment) (i : ℕ)
    → Chain lo fs
    → Within h fs
    → h ≤ lo + total fs
    → lo ≤ i
    → i < h
    → (b : ℕ) × (byte_at fs i ≡ some b)
unfolding byte_at
no_holes lo h [] i c w t g k = absurd (omega arith)
no_holes lo h (f ∷ fs) i c w t g k =
    let tight = total-le_Within (f.offset + f.length) h fs w.0 c.2 w.1 in
    elim (Bool-cases (covers f i)) [
      | inl here ↦ rw here (get_elem?-lt f.payload (i - f.offset) (ground (arith, c.1.full)))
      | inr later ↦
          rw later
            (no_holes (f.offset + f.length) h fs i c.2 w.1 (omega arith) (ground (arith, tight)) k)
    ]

length-zeros : (n : ℕ) → length {A = ℕ} (replicate n 0) ≡ n
length-zeros n = length-replicate n 0

build-fits :
    (cfg : ReassemblyConfig) (fl : FragmentList)
    → IsFlow fl
    → Within fl.highest fl.frags
    → fl.highest ≤ cfg.max_reassemble_size
    → build cfg fl ≡ complete (overlay_all (replicate fl.highest 0) fl.frags)
unfolding build
build-fits cfg fl v w m = rw (
  le→not_ltb fl.highest cfg.max_reassemble_size m,
  copy_fragments-fits (replicate fl.highest 0) 0 fl.frags v.chain (rw (length-zeros fl.highest) w),
)

-- For a sound flow whose `highest` is within the configured size, `build` panics exactly when a
-- fragment ends behind `highest`.
pub build-panics_iff :
    (cfg : ReassemblyConfig) (fl : FragmentList)
    → IsFlow fl
    → fl.highest ≤ cfg.max_reassemble_size
    → (build cfg fl ≡ panicked) ↔ Overruns fl.highest fl.frags
unfolding build
build-panics_iff cfg fl v m = (
  λ e. elim (Within-or_Overruns fl.highest fl.frags) [
    | inl w ↦ absurd (cc (build-fits cfg fl v w m))
    | inr o ↦ o
  ],
  λ o. rw (
    le→not_ltb _ _ m,
    copy_fragments-Overruns (replicate fl.highest 0) 0 fl.frags v.chain
        (rw (length-zeros fl.highest) o),
  ),
)

counted_enough :
    (fl : FragmentList) → IsFlow fl → is_complete fl ≡ true → fl.highest ≤ 0 + total fl.frags
counted_enough fl v d = ground (arith, v.counted)

-- A complete flow in which no fragment ends behind `highest` is built: the result has `highest` bytes,
-- each one the byte that the fragments hold for its position, and none is missing.
pub build_complete :
    (cfg : ReassemblyConfig) (fl : FragmentList)
    → IsFlow fl
    → Within fl.highest fl.frags
    → is_complete fl ≡ true
    → fl.highest ≤ cfg.max_reassemble_size
    → (r : Bytes) × (build cfg fl ≡ complete r)
      × (length r ≡ fl.highest)
      × ((i : ℕ)
          → i < fl.highest
          → (b : ℕ) × (byte_at fl.frags i ≡ some b) × (get_elem? r i ≡ some b))
unfolding build
build_complete cfg fl v w d m =
    let same = length-zeros fl.highest in
    let w' : Within (length (replicate fl.highest 0)) fl.frags = rw same w in
    let r = overlay_all (replicate fl.highest 0) fl.frags in
    (
      r,
      build-fits cfg fl v w m,
      length-overlay_all (replicate fl.highest 0) 0 fl.frags v.chain w' ∙ same,
      λ i h.
          let (b, e) =
            no_holes 0 fl.highest fl.frags i v.chain w (counted_enough fl v d) (omega arith) h in
          (b, e, get_elem?-overlay_all (replicate fl.highest 0) 0 fl.frags i v.chain w' ∙ rw e),
    )
