-- ===== src/Decoder/Ethernet/Frames.antt =====
-- Frames with any number of VLAN tags through internal/core/decoder/ethernet.go.
use mathlib.Core.List.{append-nil, append_assoc}
use otus.Core.{ok}
use otus.Base.{
  ◌≡◌, ℕ, List, Bytes, ◌∷◌, [], ◌++◌, true, length, ◌<◌, map, put16, be16, All, ◌%◌, ◌≤◌, ◌+◌,
  arith, false, at, u8, ◌*◌, ◌/◌, suc, ap, zero, sym, ◌∙◌, get_or-append_right, length-append, ltb,
  slice, drop, take_length, take, drop_length,
}
use otus.Decoder.Ethernet.{vlan_loop, is_vlan, next_tag, Tags, decode_ethernet, first_tag}

-- A tag: its EtherType, and the 16 bits of its control information.
pub record Tag : Type 0 where
  pub tpid : ℕ
  pub tci : ℕ

-- The EtherType that stands in front of the tags that are left.
abbrev pub first_type : List Tag → ℕ → ℕ
first_type [] t = t
first_type (g ∷ gs) t = g.tpid

-- The tags behind the first EtherType.
abbrev pub tag_bytes : List Tag → ℕ → Bytes
tag_bytes [] t = []
tag_bytes (g ∷ gs) t = put16 g.tci ++ (put16 (first_type gs t) ++ tag_bytes gs t)

unfoldable pub frame : Bytes → Bytes → List Tag → ℕ → Bytes → Bytes
frame dst src tags t payload =
    dst ++ (src ++ (put16 (first_type tags t) ++ (tag_bytes tags t ++ payload)))

abbrev pub IsTag : Tag → Type 0
IsTag g = (is_vlan g.tpid ≡ true) × (g.tci < 65536)

be16-put16 :
    (pre rest : Bytes) (n o : ℕ)
    → length pre ≡ o
    → n < 65536
    → be16 (pre ++ (put16 n ++ rest)) o ≡ n
be16-put16 pre rest n o h b =
    let zero' : o + 0 ≡ o = omega arith in
    let hi : at (pre ++ (put16 n ++ rest)) o ≡ u8 (n / 256) =
      ap (at (pre ++ (put16 n ++ rest))) (sym zero')
      ∙ get_or-append_right pre (put16 n ++ rest) o 0 0 h in
    let lo : at (pre ++ (put16 n ++ rest)) (o + 1) ≡ u8 n =
      get_or-append_right pre (put16 n ++ rest) o 1 0 h in
    omega (arith, hi, lo)

first_type-lt : (tags : List Tag) (t : ℕ) → t < 65536 → All IsTag tags → first_type tags t < 65536
first_type-lt [] t h a = h
first_type-lt (g ∷ gs) t h a = ground (arith, a.0)

abbrev reached : ℕ → ℕ → List ℕ → Tags
reached t o vs = record { ether_type = t; offset = o; vlans = vs }

abbrev ids : List Tag → List ℕ
ids gs = map (λ (g : Tag). g.tci % 4096) gs

next_tag-tag :
    (pre rest : Bytes) (g : Tag) (n t o : ℕ) (vs : List ℕ)
    → length pre ≡ o
    → g.tci < 65536
    → n < 65536
    → next_tag (pre ++ (put16 g.tci ++ (put16 n ++ rest))) (reached t o vs)
      ≡ reached n (o + 4) (vs ++ (g.tci % 4096) ∷ [])
unfolding next_tag
next_tag-tag pre rest g n t o vs h c b =
    let two : length (pre ++ put16 g.tci) ≡ o + 2 =
      omega (arith, length-append pre (put16 g.tci)) in
    let id = be16-put16 pre (put16 n ++ rest) g.tci o h c in
    let next : be16 (pre ++ (put16 g.tci ++ (put16 n ++ rest))) (o + 2) ≡ n =
      ap (λ bs. be16 bs (o + 2)) (sym (append_assoc pre (put16 g.tci) (put16 n ++ rest)))
      ∙ be16-put16 (pre ++ put16 g.tci) rest n (o + 2) two b in
    rw (id, next)

vlan_loop-tags :
    (fuel : ℕ) (pre payload : Bytes) (tags : List Tag) (t o : ℕ) (vs : List ℕ)
    → length pre ≡ o
    → length tags ≤ fuel
    → is_vlan t ≡ false
    → t < 65536
    → All IsTag tags
    → vlan_loop fuel (pre ++ (tag_bytes tags t ++ payload)) (reached (first_type tags t) o vs)
      ≡ ok (reached t (o + 4 * length tags) (vs ++ ids tags))
unfolding vlan_loop
vlan_loop-tags zero pre payload [] t o vs h f v b a = rw v (ground (arith, append-nil vs))
vlan_loop-tags zero pre payload (g ∷ gs) t o vs h f v b a = absurd (omega arith)
vlan_loop-tags (suc fuel) pre payload [] t o vs h f v b a = rw v (ground (arith, append-nil vs))
vlan_loop-tags (suc fuel) pre payload (g ∷ gs) t o vs h f v b a =
    let n = first_type gs t in
    let rest = tag_bytes gs t ++ payload in
    let four = put16 g.tci ++ put16 n in
    let bs = pre ++ (put16 g.tci ++ (put16 n ++ rest)) in
    let split : bs ≡ (pre ++ four) ++ rest = sym (append_assoc pre four rest) in
    let o' : length (pre ++ four) ≡ o + 4 = omega (arith, length-append pre four) in
    let long : length bs ≡ o + 4 + length rest =
      ap length split ∙ omega (arith, length-append (pre ++ four) rest, o') in
    let step = next_tag-tag pre rest g n g.tpid o vs h a.0.1 (first_type-lt gs t b a.1) in
    let later =
      vlan_loop-tags fuel (pre ++ four) payload gs t (o + 4) (vs ++ (g.tci % 4096) ∷ []) o'
        (omega arith) v b a.1 in
    let fits : ltb (length bs) (o + 4) ≡ false = ground (arith, long) in
    rw (a.0.0, fits, step, split, later)
      (ground (arith, append_assoc vs ((g.tci % 4096) ∷ []) (ids gs)))

length-tag_bytes : (tags : List Tag) (t : ℕ) → length (tag_bytes tags t) ≡ 4 * length tags
length-tag_bytes [] t = omega arith
length-tag_bytes (g ∷ gs) t = omega (arith, length-tag_bytes gs t)

-- Where the parts of a frame stand.
module _ (dst src : Bytes) (tags : List Tag) (t : ℕ) (payload : Bytes) (hd : length dst ≡ 6)
    (hs : length src ≡ 6) where
  abbrev header : Bytes
  header = dst ++ (src ++ put16 (first_type tags t))

  frame-header : frame dst src tags t payload ≡ header ++ (tag_bytes tags t ++ payload)
  unfolding frame
  frame-header = sym (
      append_assoc dst (src ++ put16 (first_type tags t)) (tag_bytes tags t ++ payload)
      ∙ ap (◌++◌ dst) (append_assoc src (put16 (first_type tags t)) (tag_bytes tags t ++ payload)))

  length-header : length header ≡ 14
  length-header = omega (
    arith,
    length-append dst (src ++ put16 (first_type tags t)),
    length-append src (put16 (first_type tags t)),
  )

  frame-type :
      t < 65536 → All IsTag tags → be16 (frame dst src tags t payload) 12 ≡ first_type tags t
  unfolding frame
  frame-type b a =
      ap (λ bs. be16 bs 12)
        (sym (append_assoc dst src (put16 (first_type tags t) ++ (tag_bytes tags t ++ payload))))
      ∙ be16-put16 (dst ++ src) (tag_bytes tags t ++ payload) (first_type tags t) 12
          (omega (arith, length-append dst src)) (first_type-lt tags t b a)

  frame-dst : slice (frame dst src tags t payload) 0 6 ≡ dst
  unfolding frame
  frame-dst = take_length dst _ 6 hd

  frame-src : slice (frame dst src tags t payload) 6 12 ≡ src
  unfolding frame
  frame-src = ap (take 6) (drop_length dst _ 6 hd) ∙ take_length src _ 6 hs

  frame-payload : drop (14 + 4 * length tags) (frame dst src tags t payload) ≡ payload
  frame-payload =
      ap (drop (14 + 4 * length tags))
        (frame-header ∙ sym (append_assoc header (tag_bytes tags t) payload))
      ∙ drop_length (header ++ tag_bytes tags t) payload (14 + 4 * length tags) (
          omega (
            arith,
            length-append header (tag_bytes tags t),
            length-header,
            length-tag_bytes tags t,
          ))

  length-frame : length (frame dst src tags t payload) ≡ 14 + 4 * length tags + length payload
  length-frame =
      ap length frame-header
      ∙ omega (
        arith,
        length-append header (tag_bytes tags t ++ payload),
        length-append (tag_bytes tags t) payload,
        length-header,
        length-tag_bytes tags t,
      )

-- A frame with two addresses of 6 bytes, any VLAN tags of either tag type, and a 16-bit
-- EtherType that is no tag type is taken apart into what it was made of: the addresses, the VLAN
-- IDs in order, the EtherType behind the tags, and the payload.
pub decode_ethernet-frame :
    (dst src : Bytes) (tags : List Tag) (t : ℕ) (payload : Bytes)
    → length dst ≡ 6
    → length src ≡ 6
    → All IsTag tags
    → is_vlan t ≡ false
    → t < 65536
    → decode_ethernet (frame dst src tags t payload)
      ≡ ok (record { src_mac = src; dst_mac = dst; ether_type = t; vlans = ids tags }, payload)
unfolding decode_ethernet
decode_ethernet-frame dst src tags t payload hd hs a v b =
    let bs = frame dst src tags t payload in
    let pre = header dst src tags t payload hd hs in
    let len = length-frame dst src tags t payload hd hs in
    let type = frame-type dst src tags t payload hd hs b a in
    let long : ltb (length bs) 14 ≡ false = ground (arith, len) in
    let loop : vlan_loop (length bs) bs (first_tag bs)
        ≡ ok (reached t (14 + 4 * length tags) (ids tags)) =
      rw type (
        ap (λ xs. vlan_loop (length bs) xs (reached (first_type tags t) 14 []))
          (frame-header dst src tags t payload hd hs)
        ∙ vlan_loop-tags (length bs) pre payload tags t 14 []
            (length-header dst src tags t payload hd hs) (omega (arith, len)) v b a) in
    rw (
      long,
      loop,
      frame-dst dst src tags t payload hd hs,
      frame-src dst src tags t payload hd hs,
      frame-payload dst src tags t payload hd hs,
    )
