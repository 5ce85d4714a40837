-- ===== src/Hep/Encode.antt =====
-- `Encode` of plugins/reporter/hep/encoder.go as a whole: what its frames say, and when it panics.
use mathlib.Core.Path.{subst}
use otus.Output.{OutputPacket}
use otus.Hep.Frame.{
  Chunk, rest_chunks, all_bytes, read_frame, optional, IsChunk, chunk, appends, chunk_bytes,
  length-chunk_bytes, append_rest-chunks, read_chunks-all,
}
use otus.Core.{Addr, is6}
use mathlib.Core.Option
use otus.Base.{
  ◌≡◌, ℕ, Option, Bytes, ◌<◌, List, if◌then◌else◌, ◌++◌, All, some, length, ◌∷◌, [], ◌≤◌, arith,
  length-append, none, Option-cases, ◌↔◌, inl, false, inr, ◌⊎◌, Bool-cases, le_or_lt, ap, ◌+◌, ◌∙◌,
  put16, u8, ◌/◌, ◌*◌, ◌≢◌,
}
use otus.Hep.{
  encode, append_addrs, fill_length, EncodeOptions, append_bytes, frame_start, encoded, panicked,
  as16, as4, resolve_correlation_id, append_uint8, resolve_from, resolve_to, hep_magic, append_rest,
  Encoded,
}

-- Chunks 3 and 4, or 5 and 6.
pub addr_chunks : Addr → Addr → Option (List Chunk)
addr_chunks src dst =
    if is6 src then some (chunk 5 (as16 src) ∷ chunk 6 (as16 dst) ∷ []) else elim (as4 src) [
      | none ↦ none
      | some s ↦ elim (as4 dst) [ none ↦ none | some d ↦ some (chunk 3 s ∷ chunk 4 d ∷ []) ]
    ]

-- All chunks of a packet, `addrs` those of its addresses.
pub chunks : (Addr → ℕ → Bytes) → ℕ → EncodeOptions → OutputPacket → List Chunk → List Chunk
chunks sprint now opts p addrs =
    chunk 1 ((if is6 p.src_ip then 10 else 2) ∷ [])
    ∷ chunk 2 (p.protocol ∷ [])
    ∷ (addrs ++ rest_chunks sprint now opts p)

two_chunks :
    (buf : Bytes) (t u : ℕ) (v w : Bytes)
    → append_bytes (append_bytes buf t v) u w ≡ buf ++ all_bytes (chunk t v ∷ chunk u w ∷ [])
two_chunks buf t u v w = simp appends

append_addrs-chunks :
    (buf : Bytes) (src dst : Addr)
    → append_addrs buf src dst
      ≡ Option.map (λ (cs : List Chunk). buf ++ all_bytes cs) (addr_chunks src dst)
unfolding append_addrs addr_chunks
append_addrs-chunks buf src dst = elim (Bool-cases (is6 src)) [
  | inl six ↦ rw six (ap some (two_chunks buf 5 6 (as16 src) (as16 dst)))
  | inr four ↦ elim (Option-cases (as4 src)) [
    | inl missing ↦ ground arith
    | inr (s, src4) ↦ elim (Option-cases (as4 dst)) [
      | inl missing ↦ ground arith
      | inr (d, dst4) ↦ ground (arith, two_chunks buf 3 4 s d)
    ]
  ]
]

-- The types are 16-bit numbers.
abbrev HasType : Chunk → Type 0
HasType c = c.type < 65536

HasType-append : (xs ys : List Chunk) → All HasType xs → All HasType ys → All HasType (xs ++ ys)
HasType-append [] ys a b = b
HasType-append (x ∷ xs) ys a b = (a.0, HasType-append xs ys a.1 b)

optional-HasType : (t : ℕ) (v : Bytes) → t < 65536 → All HasType (optional t v)
optional-HasType t [] h = tt
optional-HasType t (b ∷ v) h = (h, tt)

rest_chunks-HasType :
    (sprint : Addr → ℕ → Bytes) (now : ℕ) (opts : EncodeOptions) (p : OutputPacket)
    → All HasType (rest_chunks sprint now opts p)
unfolding rest_chunks
rest_chunks-HasType sprint now opts p =
    let o14 = optional-HasType 14 opts.auth_key (omega arith) in
    let o15 = optional-HasType 15 p.raw_payload (omega arith) in
    let o17 = optional-HasType 17 (resolve_correlation_id p) (omega arith) in
    let o19 = optional-HasType 19 opts.node_name (omega arith) in
    let o48 = optional-HasType 48 (resolve_from sprint p) (omega arith) in
    let o49 = optional-HasType 49 (resolve_to sprint p) (omega arith) in
    let tail = HasType-append (optional 14 opts.auth_key) _ o14 (
      HasType-append (optional 15 p.raw_payload) _ o15 (
        HasType-append (optional 17 (resolve_correlation_id p)) _ o17 (
          HasType-append (optional 19 opts.node_name) _ o19
            (HasType-append (optional 48 (resolve_from sprint p)) _ o48 o49)))) in
    (omega arith, (omega arith, (omega arith, (omega arith, (omega arith, (omega arith, tail))))))

addr_chunks-HasType :
    (src dst : Addr) (cs : List Chunk) → addr_chunks src dst ≡ some cs → All HasType cs
unfolding addr_chunks
addr_chunks-HasType src dst cs e = ground arith

chunks-HasType :
    (sprint : Addr → ℕ → Bytes) (now : ℕ) (opts : EncodeOptions) (p : OutputPacket)
    (addrs : List Chunk)
    → All HasType addrs
    → All HasType (chunks sprint now opts p addrs)
unfolding chunks
chunks-HasType sprint now opts p addrs a =
    (omega arith, (omega arith, HasType-append addrs _ a (rest_chunks-HasType sprint now opts p)))

all_bytes-IsChunk :
    (cs : List Chunk) → All HasType cs → length (all_bytes cs) < 65536 → All IsChunk cs
unfolding all_bytes
all_bytes-IsChunk [] t h = tt
all_bytes-IsChunk (c ∷ cs) t h =
    let len = length-append (chunk_bytes c) (all_bytes cs) in
    let own = length-chunk_bytes c in
    ((t.0, omega (arith, len, own)), all_bytes-IsChunk cs t.1 (omega (arith, len)))

length-all_bytes-ge : (cs : List Chunk) → length cs ≤ length (all_bytes cs)
unfolding all_bytes
length-all_bytes-ge [] = omega arith
length-all_bytes-ge (c ∷ cs) = omega (
  arith,
  length-append (chunk_bytes c) (all_bytes cs),
  length-chunk_bytes c,
  length-all_bytes-ge cs,
)

-- The filled-in length is the frame's, and the frame is read back.
fill_length-reads :
    (cs : List Chunk) (f : Bytes)
    → All HasType cs
    → fill_length (frame_start ++ all_bytes cs) ≡ encoded f
    → read_frame f ≡ some cs
unfolding fill_length read_frame
fill_length-reads cs f t e = elim (le_or_lt (6 + length (all_bytes cs)) 0xFFFF) [
  | inl fits ↦
      let n = 6 + length (all_bytes cs) in
      let same : hep_magic ++ (put16 n ++ all_bytes cs) ≡ f = ground arith in
      let len : u8 (n / 256) * 256 + u8 n ≡ n = omega arith in
      subst (λ (g : Bytes). read_frame g ≡ some cs) same
        (ground (
          arith,
          len,
          read_chunks-all n cs (omega (arith, length-all_bytes-ge cs))
              (all_bytes-IsChunk cs t (omega arith)),
        ))
  | inr big ↦ absurd (ground arith)
]

after_family : OutputPacket → Bytes
after_family p =
    append_uint8 (append_uint8 frame_start 1 (if is6 p.src_ip then 10 else 2)) 2 p.protocol

encode-append_addrs :
    (sprint : Addr → ℕ → Bytes) (now : ℕ) (opts : EncodeOptions) (p : OutputPacket)
    (o : Option Bytes)
    → append_addrs (after_family p) p.src_ip p.dst_ip ≡ o
    → encode sprint now opts (some p)
      ≡ elim o [ none ↦ panicked | some b6 ↦ fill_length (append_rest sprint now opts p b6) ]
unfolding encode after_family
encode-append_addrs sprint now opts p o e =
    ap
      (λ (x : Option Bytes). elim x as (λ _. Encoded) [
        | none ↦ panicked
        | some b6 ↦ fill_length (append_rest sprint now opts p b6)
      ])
      e

after_family-chunks :
    (sprint : Addr → ℕ → Bytes) (now : ℕ) (opts : EncodeOptions) (p : OutputPacket)
    (cs : List Chunk)
    → append_rest sprint now opts p (after_family p ++ all_bytes cs)
      ≡ frame_start ++ all_bytes (chunks sprint now opts p cs)
unfolding after_family chunks
after_family-chunks sprint now opts p cs =
    append_rest-chunks sprint now opts p (after_family p ++ all_bytes cs) ∙ simp appends

encode-panicked :
    (sprint : Addr → ℕ → Bytes) (now : ℕ) (opts : EncodeOptions) (p : OutputPacket)
    → addr_chunks p.src_ip p.dst_ip ≡ none
    → encode sprint now opts (some p) ≡ panicked
encode-panicked sprint now opts p e = encode-append_addrs sprint now opts p none (
    append_addrs-chunks (after_family p) p.src_ip p.dst_ip
    ∙ ap (Option.map (λ (cs : List Chunk). after_family p ++ all_bytes cs)) e)

encode-chunks :
    (sprint : Addr → ℕ → Bytes) (now : ℕ) (opts : EncodeOptions) (p : OutputPacket)
    (cs : List Chunk)
    → addr_chunks p.src_ip p.dst_ip ≡ some cs
    → encode sprint now opts (some p)
      ≡ fill_length (frame_start ++ all_bytes (chunks sprint now opts p cs))
encode-chunks sprint now opts p cs e =
    encode-append_addrs sprint now opts p (some (after_family p ++ all_bytes cs)) (
      append_addrs-chunks (after_family p) p.src_ip p.dst_ip
      ∙ ap (Option.map (λ (ds : List Chunk). after_family p ++ all_bytes ds)) e)
    ∙ ap fill_length (after_family-chunks sprint now opts p cs)

-- Every frame that the encoder makes is read back as the chunks of its packet: the magic and the total
-- length are right, each chunk is as long as it says, and nothing else is in the frame.
pub encode-reads :
    (sprint : Addr → ℕ → Bytes) (now : ℕ) (opts : EncodeOptions) (p : OutputPacket) (f : Bytes)
    → encode sprint now opts (some p) ≡ encoded f
    → (addrs : List Chunk) × (addr_chunks p.src_ip p.dst_ip ≡ some addrs)
      × (read_frame f ≡ some (chunks sprint now opts p addrs))
encode-reads sprint now opts p f e = elim (Option-cases (addr_chunks p.src_ip p.dst_ip)) [
  | inl missing ↦ absurd (ground (arith, encode-panicked sprint now opts p missing))
  | inr (addrs, some') ↦ (
    addrs,
    some',
    fill_length-reads (chunks sprint now opts p addrs) f
        (chunks-HasType sprint now opts p addrs (addr_chunks-HasType p.src_ip p.dst_ip addrs some'))
        (ground (arith, encode-chunks sprint now opts p addrs some')),
  )
]

addr_chunks-none :
    (src dst : Addr)
    → (addr_chunks src dst ≡ none) ↔ ((is6 src ≡ false) × ((as4 src ≡ none) ⊎ (as4 dst ≡ none)))
unfolding addr_chunks
addr_chunks-none src dst = ground arith

fill_length-panicked : (buf : Bytes) → fill_length buf ≢ panicked
unfolding fill_length
fill_length-panicked buf e = ground arith

-- The encoder panics exactly when the source address is not IPv6 and one of the two addresses has no
-- 4-byte form: the zero address of a frame that is no IP packet among them.
pub encode-panics_iff :
    (sprint : Addr → ℕ → Bytes) (now : ℕ) (opts : EncodeOptions) (p : OutputPacket)
    → (encode sprint now opts (some p) ≡ panicked)
      ↔ ((is6 p.src_ip ≡ false) × ((as4 p.src_ip ≡ none) ⊎ (as4 p.dst_ip ≡ none)))
encode-panics_iff sprint now opts p = elim (Option-cases (addr_chunks p.src_ip p.dst_ip)) [
  | inl missing ↦
      ground (arith, encode-panicked sprint now opts p missing, addr_chunks-none p.src_ip p.dst_ip)
  | inr (cs, e) ↦ ground (
    arith,
    encode-chunks sprint now opts p cs e,
    fill_length-panicked (frame_start ++ all_bytes (chunks sprint now opts p cs)),
    addr_chunks-none p.src_ip p.dst_ip,
  )
]
