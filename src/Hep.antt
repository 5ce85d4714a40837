-- ===== src/Hep.antt =====
-- plugins/reporter/hep/encoder.go: HEPv3 frames. `time.Now()` is an argument, and so is the text that
-- `fmt.Sprintf("%s:%d", ip, port)` makes. `panicked` is the panic of `netip.Addr.As4`.
pub mod Frame
pub mod Encode
pub mod Reporter
use Prim.Native.String.{String}
use otus.Base.{
  ◌≡◌, Bytes, ℕ, Option, ◌∷◌, Bool, none, replicate, ◌++◌, length, if◌then◌else◌, u32, ◌%◌, some,
  [], list_beq, put16, put32, ◌=?◌, true, ◌==◌, ◌/◌, ltb, take, ◌+◌, string_eq, false, nat_eq, drop,
  ◌*◌, ◌-◌,
}
use otus.Core.{Addr, v4, is6, v6, zero_addr}
use otus.Output.{
  OutputPacket, label, label_sip_from_uri, label_sip_to_uri, label_sip_call_id, label_rtp_call_id,
}

abbrev pub hep_magic : Bytes
hep_magic = 72 ∷ 69 ∷ 80 ∷ 51 ∷ []

abbrev pub chunk_header_len : ℕ
chunk_header_len = 6

abbrev pub vendor_homer : ℕ
vendor_homer = 0

pub record EncodeOptions : Type 0 where
  pub capture_id : ℕ
  pub auth_key : Bytes
  pub node_name : Bytes

pub data Encoded : Type 0 where
  encoded : Bytes → Encoded
  nil_packet frame_too_large panicked : Encoded

-- `Addr.As4` (with its panic) and `Addr.As16`.
abbrev pub is_4in6 : Bytes → Bool
is_4in6 bs = list_beq (take 12 bs) (replicate 10 0 ++ (255 ∷ 255 ∷ []))

unfoldable pub as4 : Addr → Option Bytes
as4 zero_addr = none
as4 (v4 bs) = some bs
as4 (v6 bs) = if is_4in6 bs then some (drop 12 bs) else none

unfoldable pub as16 : Addr → Bytes
as16 zero_addr = replicate 16 0
as16 (v4 bs) = replicate 10 0 ++ (255 ∷ 255 ∷ bs)
as16 (v6 bs) = bs

unfoldable pub append_chunk_header : Bytes → ℕ → ℕ → Bytes
append_chunk_header buf type value_len =
    buf ++ (put16 vendor_homer ++ (put16 type ++ put16 (chunk_header_len + value_len)))

unfoldable pub append_bytes : Bytes → ℕ → Bytes → Bytes
append_bytes buf type value = append_chunk_header buf type (length value) ++ value

unfoldable pub append_uint8 : Bytes → ℕ → ℕ → Bytes
append_uint8 buf type value = append_chunk_header buf type 1 ++ value ∷ []

unfoldable pub append_uint16 : Bytes → ℕ → ℕ → Bytes
append_uint16 buf type value = append_chunk_header buf type 2 ++ put16 value

unfoldable pub append_uint32 : Bytes → ℕ → ℕ → Bytes
append_uint32 buf type value = append_chunk_header buf type 4 ++ put32 value

unfoldable pub resolve_proto_type : String → ℕ
resolve_proto_type payload_type =
    if payload_type =? "sip"
    then 1
    else if payload_type =? "rtp"
    then 5
    else if payload_type =? "rtcp"
    then 8
    else if payload_type =? "json"
    then 100
    else 0

abbrev pub is_empty : Bytes → Bool
is_empty [] = true
is_empty (b ∷ bs) = false

abbrev pub first_nonempty : Bytes → Bytes → Bytes
first_nonempty v d = if is_empty v then d else v

unfoldable pub resolve_from : (Addr → ℕ → Bytes) → OutputPacket → Bytes
resolve_from sprint p =
    first_nonempty (label p.labels label_sip_from_uri) (sprint p.src_ip p.src_port)

unfoldable pub resolve_to : (Addr → ℕ → Bytes) → OutputPacket → Bytes
resolve_to sprint p = first_nonempty (label p.labels label_sip_to_uri) (sprint p.dst_ip p.dst_port)

unfoldable pub resolve_correlation_id : OutputPacket → Bytes
resolve_correlation_id p =
    first_nonempty (label p.labels label_sip_call_id)
      (first_nonempty (label p.labels label_rtp_call_id) p.task_id)

abbrev pub is_zero : ℕ → Bool
is_zero t = t == 0

-- `uint32(ts.Unix())`: the Unix epoch is 62135596800 seconds after the zero time.
abbrev pub unix32 : ℕ → ℕ
unix32 ts = u32 (ts / 1000000000 + 15 * 4294967296 - 62135596800)

abbrev pub microsecond : ℕ → ℕ
microsecond ts = ts % 1000000000 / 1000

-- Chunks 3 and 4, or 5 and 6; `none` is the panic.
unfoldable pub append_addrs : Bytes → Addr → Addr → Option Bytes
append_addrs buf src dst =
    if is6 src
    then some (append_bytes (append_bytes buf 5 (as16 src)) 6 (as16 dst))
    else elim (as4 src) [
      | none ↦ none
      | some s ↦ elim (as4 dst) [
        | none ↦ none
        | some d ↦ some (append_bytes (append_bytes buf 3 s) 4 d)
      ]
    ]

-- `if v != "" { buf = appendBytes(buf, type, v) }`
unfoldable pub append_nonempty : Bytes → ℕ → Bytes → Bytes
append_nonempty buf type value = if is_empty value then buf else append_bytes buf type value

-- From chunk 7 on.
unfoldable pub append_rest : (Addr → ℕ → Bytes) → ℕ → EncodeOptions → OutputPacket → Bytes → Bytes
append_rest sprint now opts p buf =
    let ts = if is_zero p.timestamp then now else p.timestamp in
    let b7 = append_uint16 buf 7 p.src_port in
    let b8 = append_uint16 b7 8 p.dst_port in
    let b9 = append_uint32 b8 9 (unix32 ts) in
    let b10 = append_uint32 b9 10 (microsecond ts) in
    let b11 = append_uint8 b10 11 (resolve_proto_type p.payload_type) in
    let b12 = append_uint32 b11 12 opts.capture_id in
    let b14 = append_nonempty b12 14 opts.auth_key in
    let b15 = append_nonempty b14 15 p.raw_payload in
    let b17 = append_nonempty b15 17 (resolve_correlation_id p) in
    let b19 = append_nonempty b17 19 opts.node_name in
    let b48 = append_nonempty b19 48 (resolve_from sprint p) in
    append_nonempty b48 49 (resolve_to sprint p)

-- The back-filled length, bytes 4 and 5.
unfoldable pub fill_length : Bytes → Encoded
fill_length buf =
    if ltb 0xFFFF (length buf)
    then frame_too_large
    else encoded (take 4 buf ++ (put16 (length buf) ++ drop 6 buf))

abbrev pub frame_start : Bytes
frame_start = hep_magic ++ (0 ∷ 0 ∷ [])

unfoldable pub encode : (Addr → ℕ → Bytes) → ℕ → EncodeOptions → Option OutputPacket → Encoded
encode sprint now opts none = nil_packet
encode sprint now opts (some p) =
    let family = if is6 p.src_ip then 10 else 2 in
    let b2 = append_uint8 (append_uint8 frame_start 1 family) 2 p.protocol in
    elim (append_addrs b2 p.src_ip p.dst_ip) [
      | none ↦ panicked
      | some b6 ↦ fill_length (append_rest sprint now opts p b6)
    ]
