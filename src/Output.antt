-- ===== src/Output.antt =====
-- `OutputPacket` and the labels of internal/core (packet.go, labels.go). A Go string is its bytes; the
-- keys of the labels are the constants of the source. `Payload` is `nil` for every parser of the
-- repository and is left out.
use Prim.Native.String.{String}
use otus.Base.{Dict, Bytes, ℕ, lookup, none, [], some, string_eq}
use otus.Core.{Addr}

abbrev pub Labels : Type 0
Labels = Dict String Bytes

pub record OutputPacket : Type 0 where
  pub task_id : Bytes
  pub agent_id : Bytes
  pub pipeline_id : ℕ
  pub timestamp : ℕ
  pub src_ip : Addr
  pub dst_ip : Addr
  pub src_port : ℕ
  pub dst_port : ℕ
  pub protocol : ℕ
  pub labels : Labels
  pub payload_type : String
  pub raw_payload : Bytes

abbrev pub label_sip_method : String
label_sip_method = "sip.method"

abbrev pub label_sip_call_id : String
label_sip_call_id = "sip.call_id"

abbrev pub label_sip_from_uri : String
label_sip_from_uri = "sip.from_uri"

abbrev pub label_sip_to_uri : String
label_sip_to_uri = "sip.to_uri"

abbrev pub label_sip_status_code : String
label_sip_status_code = "sip.status_code"

abbrev pub label_sip_via : String
label_sip_via = "sip.via"

abbrev pub label_rtp_version : String
label_rtp_version = "rtp.version"

abbrev pub label_rtp_payload_type : String
label_rtp_payload_type = "rtp.payload_type"

abbrev pub label_rtp_seq : String
label_rtp_seq = "rtp.seq"

abbrev pub label_rtp_timestamp : String
label_rtp_timestamp = "rtp.timestamp"

abbrev pub label_rtp_ssrc : String
label_rtp_ssrc = "rtp.ssrc"

abbrev pub label_rtp_call_id : String
label_rtp_call_id = "rtp.call_id"

abbrev pub label_rtp_codec : String
label_rtp_codec = "rtp.codec"

abbrev pub label_rtp_marker : String
label_rtp_marker = "rtp.marker"

abbrev pub label_rtp_extension : String
label_rtp_extension = "rtp.has_ext"

abbrev pub label_rtcp_payload_type : String
label_rtcp_payload_type = "rtcp.payload_type"

abbrev pub label_rtcp_call_id : String
label_rtcp_call_id = "rtcp.call_id"

abbrev pub label_rtcp_ssrc : String
label_rtcp_ssrc = "rtcp.ssrc"

abbrev pub label_rtcp_codec : String
label_rtcp_codec = "rtcp.codec"

-- `m[k]` on a map of strings: the empty string if the key is missing.
unfoldable pub label : Labels → String → Bytes
label m k = elim (lookup k m) [ none ↦ [] | some v ↦ v ]
