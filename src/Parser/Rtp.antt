-- ===== src/Parser/Rtp.antt =====
-- plugins/parser/rtp/rtp.go. `dec` and `hex` are the texts that `fmt.Sprintf` makes with `%d` and
-- `0x%08X`. A value of the flow registry is the map of the SIP parser or something else.
pub mod Labelling
use otus.Output.{
  Labels, label, label_rtcp_call_id, label_rtcp_codec, label_rtp_version, label_rtcp_payload_type,
  label_rtp_call_id, label_rtp_codec, label_rtp_payload_type, label_rtcp_ssrc, label_rtp_seq,
  label_rtp_timestamp, label_rtp_ssrc, label_rtp_marker, label_rtp_extension,
}
use Prim.Native.String.{String}
use otus.Core.{DecodedPacket, FlowKey}
use otus.Base.{
  ℕ, Dict, Bool, Bytes, Option, leb, at, if◌then◌else◌, ◌∷◌, ◌&&◌, ◌/◌, ltb, some, not, [], none,
  ◌%◌, length, ◌==◌, true, insert, false, string_eq, be32, be16,
}
use otus.Task.Flows.{FlowRegistry, get}

pub data FlowValue : Type 0 where
  context : Dict String Bytes → FlowValue
  other_value : FlowValue

abbrev pub rtp_min_length : ℕ
rtp_min_length = 12

abbrev pub rtcp_min_length : ℕ
rtcp_min_length = 8

abbrev pub is_rtcp_type : ℕ → Bool
is_rtcp_type pt = leb 200 pt && leb pt 209

abbrev pub rtp_version : Bytes → ℕ
rtp_version b = at b 0 / 64 % 4

abbrev pub rtp_key : DecodedPacket → FlowKey
rtp_key pkt = record {
  src_ip = pkt.ip.src_ip;
  dst_ip = pkt.ip.dst_ip;
  src_port = pkt.transport.src_port;
  dst_port = pkt.transport.dst_port;
  proto = 17;
}

unfoldable pub looks_like_rtp_or_rtcp : Bytes → Bool
looks_like_rtp_or_rtcp payload =
    if ltb (length payload) rtcp_min_length
    then false
    else if not (rtp_version payload == 2)
    then false
    else if is_rtcp_type (at payload 1)
    then leb rtcp_min_length (length payload)
    else ltb (at payload 1 % 128) 128 && leb rtp_min_length (length payload)

abbrev pub registered : Option (FlowRegistry FlowValue) → FlowKey → Option FlowValue
registered none key = none
registered (some r) key = get r key

unfoldable pub can_handle_rtp : Option (FlowRegistry FlowValue) → DecodedPacket → Bool
can_handle_rtp registry pkt =
    if not (pkt.transport.protocol == 17) then false else elim (registered registry (rtp_key pkt)) [
      | some _ ↦ true
      | none ↦ looks_like_rtp_or_rtcp pkt.payload
    ]

abbrev pub bool_str : Bool → Bytes
bool_str true = 116 ∷ 114 ∷ 117 ∷ 101 ∷ []
bool_str false = 102 ∷ 97 ∷ 108 ∷ 115 ∷ 101 ∷ []

-- `if v, ok := ctx[from]; ok && v != "" { labels[to] = v }`
unfoldable pub copy_label : Dict String Bytes → String → String → Labels → Labels
copy_label ctx from to labels = elim (label ctx from) [
  | [] ↦ labels
  | c ∷ cs ↦ insert to (c ∷ cs) labels
]

abbrev pub call_id_label : Bool → String
call_id_label true = label_rtcp_call_id
call_id_label false = label_rtp_call_id

abbrev pub codec_label : Bool → String
codec_label true = label_rtcp_codec
codec_label false = label_rtp_codec

unfoldable pub enrich_from_registry :
    Option (FlowRegistry FlowValue) → DecodedPacket → Labels → Bool → Labels
enrich_from_registry registry pkt labels is_rtcp = elim (registered registry (rtp_key pkt)) [
  | none ↦ labels
  | some v ↦ elim v [
    | other_value ↦ labels
    | context ctx ↦
        copy_label ctx "codec" (codec_label is_rtcp)
          (copy_label ctx "call_id" (call_id_label is_rtcp) labels)
  ]
]

module _ (dec hex : ℕ → Bytes) where
  unfoldable pub rtp_labels : Bytes → ℕ → Labels
  rtp_labels b pt =
      (label_rtp_version, dec (rtp_version b))
      ∷ (label_rtp_payload_type, dec pt)
      ∷ (label_rtp_seq, dec (be16 b 2))
      ∷ (label_rtp_timestamp, dec (be32 b 4))
      ∷ (label_rtp_ssrc, hex (be32 b 8))
      ∷ (label_rtp_marker, bool_str (at b 1 / 128 % 2 == 1))
      ∷ (label_rtp_extension, bool_str (at b 0 / 16 % 2 == 1))
      ∷ []

  -- `none` is the error.
  unfoldable pub handle_rtp : Option (FlowRegistry FlowValue) → DecodedPacket → ℕ → Option Labels
  handle_rtp registry pkt pt =
      if ltb (length pkt.payload) rtp_min_length
      then none
      else if not (rtp_version pkt.payload == 2)
      then none
      else some (enrich_from_registry registry pkt (rtp_labels pkt.payload pt) false)

  unfoldable pub rtcp_labels : Bytes → ℕ → Labels
  rtcp_labels b pt = (label_rtcp_payload_type, dec pt) ∷ (label_rtcp_ssrc, hex (be32 b 4)) ∷ []

  unfoldable pub handle_rtcp : Option (FlowRegistry FlowValue) → DecodedPacket → ℕ → Option Labels
  handle_rtcp registry pkt pt =
      if ltb (length pkt.payload) rtcp_min_length
      then none
      else if not (rtp_version pkt.payload == 2)
      then none
      else some (enrich_from_registry registry pkt (rtcp_labels pkt.payload pt) true)

  unfoldable pub handle_rtp_or_rtcp :
      Option (FlowRegistry FlowValue) → DecodedPacket → Option Labels
  handle_rtp_or_rtcp registry pkt =
      if ltb (length pkt.payload) 2
      then none
      else if is_rtcp_type (at pkt.payload 1)
      then handle_rtcp registry pkt (at pkt.payload 1)
      else handle_rtp registry pkt (at pkt.payload 1 % 128)
