-- ===== src/Decoder/Reassembly/Copy.antt =====
-- The loop of `build` in internal/core/decoder/reassembly.go: fragments copied one over the other.
use otus.Base.{
  ℕ, ◌+◌, ◌-◌, ◌≤◌, ◌<◌, ◌≡◌, refl, Bytes, Option, none, some, List, [], ◌∷◌, ◌++◌, length, arith,
  get_elem?, inl, inr, Option-cases, Bool-cases, ltb, ltb→lt, ltb→ge, if◌then◌else◌, ◌∙◌, ap, sym,
  u16, take, drop, length-append, length-take, length-drop, get_elem?-append_left,
  get_elem?-append_right, get_elem?-drop, get_elem?-take, min, max, take_length, get_elem?-lt,
}
use mathlib.Core.List.{append-nil}
use otus.Decoder.Fragments.{Fragment, copy_fragment, copy_fragments}
use otus.Decoder.Reassembly.Within.{Within, Overruns}
use otus.Decoder.Reassembly.Chain.{IsFragment, Chain}
use otus.Decoder.Reassembly.Content.{covers, byte_at, byte_at-ge}

pub overlay : Bytes → Fragment → Bytes
overlay r f = take f.offset r ++ (f.payload ++ drop (f.offset + f.length) r)

pub overlay_all : Bytes → List Fragment → Bytes
overlay_all r [] = r
overlay_all r (f ∷ fs) = overlay_all (overlay r f) fs

pub take_all : (n : ℕ) (xs : Bytes) → length xs ≡ n → take n xs ≡ xs
take_all n xs h = ap (take n) (sym (append-nil xs)) ∙ take_length xs [] n h

pub copy_fragment-fits :
    (r : Bytes) (f : Fragment)
    → IsFragment f
    → f.offset + f.length ≤ length r
    → copy_fragment r f ≡ some (overlay r f)
unfolding copy_fragment overlay
copy_fragment-fits r f g h =
    let e : u16 (f.offset + f.length) ≡ f.offset + f.length = omega arith in
    let n : min (f.offset + f.length - f.offset) (length f.payload) ≡ f.length = omega arith in
    rw (e, n, take_all f.length f.payload g.full) (ground arith)

pub copy_fragment-overruns :
    (r : Bytes) (f : Fragment)
    → IsFragment f
    → length r < f.offset + f.length
    → copy_fragment r f ≡ none
unfolding copy_fragment
copy_fragment-overruns r f g h = ground arith

pub length-overlay :
    (r : Bytes) (f : Fragment)
    → IsFragment f
    → f.offset + f.length ≤ length r
    → length (overlay r f) ≡ length r
unfolding overlay
length-overlay r f g h =
    let tail = f.payload ++ drop (f.offset + f.length) r in
    omega (
      arith,
      length-append (take f.offset r) tail,
      length-append f.payload (drop (f.offset + f.length) r),
      length-take f.offset r,
      length-drop (f.offset + f.length) r,
      g.full,
    )

abbrev pub or_else : Option ℕ → Option ℕ → Option ℕ
or_else none o = o
or_else (some b) o = some b

-- The three parts of an overwritten slice, indexed.
pub get_elem?-parts :
    (a b c : Bytes) (i : ℕ)
    → get_elem? (a ++ (b ++ c)) i ≡ (
        if ltb i (length a)
        then get_elem? a i
        else if ltb i (length a + length b)
        then get_elem? b (i - length a)
        else get_elem? c (i - length a - length b))
get_elem?-parts a b c i = ground (
  arith,
  get_elem?-append_left a (b ++ c) i,
  get_elem?-append_right a (b ++ c) i,
  get_elem?-append_left b c (i - length a),
  get_elem?-append_right b c (i - length a),
)

pub get_elem?-overlay :
    (r : Bytes) (f : Fragment) (i : ℕ)
    → IsFragment f
    → f.offset + f.length ≤ length r
    → get_elem? (overlay r f) i
      ≡ (if covers f i then get_elem? f.payload (i - f.offset) else get_elem? r i)
unfolding overlay
get_elem?-overlay r f i g h =
    let a : length (take f.offset r) ≡ f.offset = omega (arith, length-take f.offset r) in
    get_elem?-parts (take f.offset r) f.payload (drop (f.offset + f.length) r) i
    ∙ rw (a, g.full)
        (ground (
          arith,
          get_elem?-take f.offset r i,
          get_elem?-drop (f.offset + f.length) r (i - f.offset - f.length),
          ap (get_elem? r) (back i),
        ))
  where
    back : (i : ℕ) → f.offset + f.length + (i - f.offset - f.length) ≡ max i (f.offset + f.length)
    back i = omega arith

pub copy_fragments-fits :
    (r : Bytes) (lo : ℕ) (fs : List Fragment)
    → Chain lo fs
    → Within (length r) fs
    → copy_fragments r fs ≡ some (overlay_all r fs)
unfolding copy_fragments overlay_all
copy_fragments-fits r lo [] c w = refl
copy_fragments-fits r lo (f ∷ fs) c w =
    let same = length-overlay r f c.1 w.0 in
    rw (copy_fragment-fits r f c.1 w.0, copy_fragments)
      (copy_fragments-fits (overlay r f) (f.offset + f.length) fs c.2 (rw same w.1))

pub length-overlay_all :
    (r : Bytes) (lo : ℕ) (fs : List Fragment)
    → Chain lo fs
    → Within (length r) fs
    → length (overlay_all r fs) ≡ length r
unfolding overlay_all
length-overlay_all r lo [] c w = refl
length-overlay_all r lo (f ∷ fs) c w =
    let same = length-overlay r f c.1 w.0 in
    length-overlay_all (overlay r f) (f.offset + f.length) fs c.2 (rw same w.1) ∙ same

pub byte_at_before :
    (lo : ℕ) (fs : List Fragment) (i : ℕ) → Chain lo fs → i < lo → byte_at fs i ≡ none
byte_at_before lo fs i c h = elim (Option-cases (byte_at fs i)) [
  | inl e ↦ e
  | inr (b, e) ↦ absurd (omega (arith, byte_at-ge lo fs i b c e))
]

-- Writing one fragment and then the others is looking among them in order.
pub or_else-byte_at :
    (f : Fragment) (fs : List Fragment) (i : ℕ) (old new : Option ℕ) (lo : ℕ)
    → Chain lo (f ∷ fs)
    → new ≡ (if covers f i then get_elem? f.payload (i - f.offset) else old)
    → or_else (byte_at fs i) new ≡ or_else (byte_at (f ∷ fs) i) old
unfolding byte_at
or_else-byte_at f fs i old new lo c e = ground (
  arith,
  byte_at_before (f.offset + f.length) fs i c.2,
  get_elem?-lt f.payload (i - f.offset),
  c.1.full,
)

pub get_elem?-overlay_all :
    (r : Bytes) (lo : ℕ) (fs : List Fragment) (i : ℕ)
    → Chain lo fs
    → Within (length r) fs
    → get_elem? (overlay_all r fs) i ≡ or_else (byte_at fs i) (get_elem? r i)
unfolding overlay_all byte_at
get_elem?-overlay_all r lo [] i c w = refl
get_elem?-overlay_all r lo (f ∷ fs) i c w =
    let same = length-overlay r f c.1 w.0 in
    get_elem?-overlay_all (overlay r f) (f.offset + f.length) fs i c.2 (rw same w.1)
    ∙ or_else-byte_at f fs i (get_elem? r i) (get_elem? (overlay r f) i) lo c
        (get_elem?-overlay r f i c.1 w.0)

-- Copying panics where a fragment runs over the end of the result.
pub copy_fragments-Overruns :
    (r : Bytes) (lo : ℕ) (fs : List Fragment)
    → Chain lo fs
    → Overruns (length r) fs
    → copy_fragments r fs ≡ none
unfolding copy_fragments
copy_fragments-Overruns r lo [] c o = absurd o
copy_fragments-Overruns r lo (f ∷ fs) c (inl o) =
    rw (copy_fragment-overruns r f c.1 o, copy_fragments)
copy_fragments-Overruns r lo (f ∷ fs) c (inr o) =
    elim (Bool-cases (ltb (length r) (f.offset + f.length))) [
      | inl over ↦ rw (copy_fragment-overruns r f c.1 (ltb→lt _ _ over), copy_fragments)
      | inr fits ↦
          let w = ltb→ge _ _ fits in
          let same = length-overlay r f c.1 w in
          rw (copy_fragment-fits r f c.1 w, copy_fragments)
            (copy_fragments-Overruns (overlay r f) (f.offset + f.length) fs c.2 (rw same o))
    ]
