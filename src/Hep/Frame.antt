-- ===== src/Hep/Frame.antt =====
-- HEPv3 frames read back: what `Encode` of plugins/reporter/hep/encoder.go promises a collector.
use otus.Output.{OutputPacket}
use mathlib.Core.List.{append_assoc, append-nil}
use otus.Core.{Addr}
use otus.Base.{
  ◌≡◌, ℕ, Bytes, List, ◌<◌, length, Option, put16, ◌∷◌, [], ◌+◌, suc, ◌≤◌, some, if◌then◌else◌,
  ◌++◌, arith, All, none, list_beq, be16, ◌∙◌, drop, take, length-append, ap, ltb, drop_length,
  zero, ◌||◌, ◌&&◌, slice, not, ◌==◌, take_length, nat_eq, ◌-◌, le→not_ltb, refl, sym, put32,
}
use mathlib.Core.Option
use otus.Hep.{
  vendor_homer, hep_magic, is_empty, append_bytes, append_uint8, append_uint16, append_uint32,
  append_nonempty, append_rest, EncodeOptions, append_chunk_header, is_zero, unix32, microsecond,
  resolve_proto_type, resolve_correlation_id, resolve_from, resolve_to,
}

-- A chunk of the HOMER vendor: its type and its value.
pub record Chunk : Type 0 where
  pub type : ℕ
  pub value : Bytes

-- A collector reads a chunk, as long as its header says, and what follows it.
unfoldable pub read_chunk : Bytes → Option (Chunk × Bytes)
read_chunk bs =
    let len = be16 bs 4 in
    if ltb len 6 || ltb (length bs) len || not (be16 bs 0 == vendor_homer)
    then none
    else some (record { type = be16 bs 2; value = slice bs 6 len }, drop len bs)

unfoldable pub read_chunks : ℕ → Bytes → Option (List Chunk)
read_chunks fuel [] = some []
read_chunks zero (b ∷ bs) = none
read_chunks (suc fuel) (b ∷ bs) = elim (read_chunk (b ∷ bs)) [
  | none ↦ none
  | some (c, rest) ↦ Option.map (λ (cs : List Chunk). c ∷ cs) (read_chunks fuel rest)
]

-- The magic, the total length, and the chunks.
unfoldable pub read_frame : Bytes → Option (List Chunk)
read_frame bs =
    if list_beq (take 4 bs) hep_magic && be16 bs 4 == length bs
    then read_chunks (length bs) (drop 6 bs)
    else none

unfoldable pub chunk_bytes : Chunk → Bytes
chunk_bytes c = put16 vendor_homer ++ (put16 c.type ++ (put16 (6 + length c.value) ++ c.value))

unfoldable pub all_bytes : List Chunk → Bytes
all_bytes [] = []
all_bytes (c ∷ cs) = chunk_bytes c ++ all_bytes cs

abbrev pub IsChunk : Chunk → Type 0
IsChunk c = (c.type < 65536) × (6 + length c.value < 65536)

pub length-chunk_bytes : (c : Chunk) → length (chunk_bytes c) ≡ 6 + length c.value
unfolding chunk_bytes
length-chunk_bytes c = omega arith

read_chunk_at :
    (all : Bytes) (n t : ℕ) (v rest : Bytes)
    → be16 all 0 ≡ vendor_homer
    → be16 all 4 ≡ n
    → be16 all 2 ≡ t
    → 6 ≤ n
    → n ≤ length all
    → slice all 6 n ≡ v
    → drop n all ≡ rest
    → read_chunk all ≡ some (record { type = t; value = v }, rest)
unfolding read_chunk
read_chunk_at all n t v rest vendor len type lo hi value behind =
    rw (vendor, len, type) (rw (value, behind, le→not_ltb 6 n lo, le→not_ltb n (length all) hi))

read_chunk-chunk :
    (c : Chunk) (rest : Bytes) → IsChunk c → read_chunk (chunk_bytes c ++ rest) ≡ some (c, rest)
unfolding chunk_bytes
read_chunk-chunk c rest g =
    let n = 6 + length c.value in
    let all = chunk_bytes c ++ rest in
    read_chunk_at all n c.type c.value rest refl (omega (arith, g)) (omega (arith, g)) (omega arith)
      (omega (arith, length-append c.value rest)) (take_length c.value rest (n - 6) (omega arith))
      (drop_length (chunk_bytes c) rest n (omega arith))

read_chunks-step :
    (fuel : ℕ) (all rest : Bytes) (c : Chunk)
    → read_chunk all ≡ some (c, rest)
    → read_chunks (suc fuel) all ≡ Option.map (λ (cs : List Chunk). c ∷ cs) (read_chunks fuel rest)
unfolding read_chunks
read_chunks-step fuel [] rest c e = absurd (unfold read_chunk in cc)
read_chunks-step fuel (b ∷ bs) rest c e = rw (e, read_chunks)

pub read_chunks-all :
    (fuel : ℕ) (cs : List Chunk)
    → length cs ≤ fuel
    → All IsChunk cs
    → read_chunks fuel (all_bytes cs) ≡ some cs
unfolding all_bytes
read_chunks-all zero [] f a = unfold read_chunks in refl
read_chunks-all (suc fuel) [] f a = unfold read_chunks in refl
read_chunks-all zero (c ∷ cs) f a = absurd (omega arith)
read_chunks-all (suc fuel) (c ∷ cs) f a =
    read_chunks-step fuel _ (all_bytes cs) c (read_chunk-chunk c (all_bytes cs) a.0)
    ∙ ap (Option.map (λ (ds : List Chunk). c ∷ ds)) (read_chunks-all fuel cs (omega arith) a.1)

-- The chunks of a packet, as the protocol describes them: the optional ones where they have a value.
abbrev pub optional : ℕ → Bytes → List Chunk
optional type value = if is_empty value then [] else record { type = type; value = value } ∷ []

abbrev pub chunk : ℕ → Bytes → Chunk
chunk type value = record { type = type; value = value }

unfoldable pub rest_chunks : (Addr → ℕ → Bytes) → ℕ → EncodeOptions → OutputPacket → List Chunk
rest_chunks sprint now opts p =
    let ts = if is_zero p.timestamp then now else p.timestamp in
    chunk 7 (put16 p.src_port)
    ∷ chunk 8 (put16 p.dst_port)
    ∷ chunk 9 (put32 (unix32 ts))
    ∷ chunk 10 (put32 (microsecond ts))
    ∷ chunk 11 (resolve_proto_type p.payload_type ∷ [])
    ∷ chunk 12 (put32 opts.capture_id)
    ∷ (optional 14 opts.auth_key
        ++ (optional 15 p.raw_payload
            ++ (optional 17 (resolve_correlation_id p)
                ++ (optional 19 opts.node_name
                    ++ (optional 48 (resolve_from sprint p)
                        ++ optional 49 (resolve_to sprint p))))))

all_bytes-append : (xs ys : List Chunk) → all_bytes (xs ++ ys) ≡ all_bytes xs ++ all_bytes ys
unfolding all_bytes
all_bytes-append [] ys = refl
all_bytes-append (x ∷ xs) ys =
    ap (◌++◌ (chunk_bytes x)) (all_bytes-append xs ys)
    ∙ sym (append_assoc (chunk_bytes x) (all_bytes xs) (all_bytes ys))

-- Each append puts a chunk behind the buffer.
pub append_bytes-chunk :
    (buf : Bytes) (t : ℕ) (v : Bytes) → append_bytes buf t v ≡ buf ++ all_bytes (chunk t v ∷ [])
unfolding append_bytes append_chunk_header all_bytes chunk_bytes
append_bytes-chunk buf t v = simp (append_assoc, append-nil)

pub append_uint8-chunk :
    (buf : Bytes) (t v : ℕ) → append_uint8 buf t v ≡ buf ++ all_bytes (chunk t (v ∷ []) ∷ [])
unfolding append_uint8 append_chunk_header all_bytes chunk_bytes
append_uint8-chunk buf t v = simp (append_assoc, append-nil)

pub append_uint16-chunk :
    (buf : Bytes) (t v : ℕ) → append_uint16 buf t v ≡ buf ++ all_bytes (chunk t (put16 v) ∷ [])
unfolding append_uint16 append_chunk_header all_bytes chunk_bytes
append_uint16-chunk buf t v = simp (append_assoc, append-nil)

pub append_uint32-chunk :
    (buf : Bytes) (t v : ℕ) → append_uint32 buf t v ≡ buf ++ all_bytes (chunk t (put32 v) ∷ [])
unfolding append_uint32 append_chunk_header all_bytes chunk_bytes
append_uint32-chunk buf t v = simp (append_assoc, append-nil)

pub append_nonempty-optional :
    (buf : Bytes) (t : ℕ) (v : Bytes) → append_nonempty buf t v ≡ buf ++ all_bytes (optional t v)
unfolding append_nonempty
append_nonempty-optional buf t [] = unfold all_bytes in sym (append-nil buf)
append_nonempty-optional buf t (b ∷ v) = append_bytes-chunk buf t (b ∷ v)

-- Appending chunks to chunks.
pub join :
    (buf : Bytes) (cs ds : List Chunk)
    → (buf ++ all_bytes cs) ++ all_bytes ds ≡ buf ++ all_bytes (cs ++ ds)
join buf cs ds = simp (append_assoc, all_bytes-append)

pub ruleset appends = (
  append_bytes-chunk, append_uint8-chunk, append_uint16-chunk, append_uint32-chunk,
  append_nonempty-optional, join, append_assoc,
)

pub append_rest-chunks :
    (sprint : Addr → ℕ → Bytes) (now : ℕ) (opts : EncodeOptions) (p : OutputPacket) (buf : Bytes)
    → append_rest sprint now opts p buf ≡ buf ++ all_bytes (rest_chunks sprint now opts p)
unfolding append_rest rest_chunks
append_rest-chunks sprint now opts p buf = simp appends
