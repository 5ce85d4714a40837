-- ===== src/Examples/Reports.antt =====
-- plugins/reporter/hep and plugins/parser/rtp on short packets.
use otus.Parser.Rtp.Labelling.{looks_like-handled}
use otus.Hep.Encode.{addr_chunks, chunks, encode-reads}
use Prim.Native.String.{String}
use otus.Parser.Rtp.{handle_rtp_or_rtcp, FlowValue, rtp_key, context, looks_like_rtp_or_rtcp}
use otus.Hep.Frame.{Chunk, read_frame}
use otus.Task.Flows.{FlowRegistry}
use otus.Hep.Reporter.{
  open_conns, HepReporter, report_hep, start_hep, report_hep-sends, flow_index, sent_to,
}
use otus.Core.{Addr, zero_addr, v6, DecodedPacket, v4, no_ethernet, no_ip, no_transport}
use otus.Base.{
  ℕ, [], ◌∷◌, List, Bytes, Dict, Option, some, true, ◌≡◌, none, false, refl, arith, lookup,
  get_elem?,
}
use otus.Hep.{
  EncodeOptions, Encoded, encode, encoded, as4, append_addrs, fill_length, append_rest,
  append_nonempty, resolve_to, resolve_from, append_bytes, append_chunk_header,
  resolve_correlation_id, append_uint32, append_uint8, append_uint16,
}
use otus.Output.{OutputPacket, Labels, label}

abbrev some_options : EncodeOptions
some_options = record { capture_id = 9; auth_key = []; node_name = 110 ∷ [] }

abbrev no_text : Addr → ℕ → Bytes
no_text a p = []

abbrev sip_packet : OutputPacket
sip_packet = record {
  task_id = 116 ∷ [];
  agent_id = [];
  pipeline_id = 0;
  timestamp = 63000000000000000000;
  src_ip = v4 (10 ∷ 0 ∷ 0 ∷ 1 ∷ []);
  dst_ip = v4 (10 ∷ 0 ∷ 0 ∷ 2 ∷ []);
  src_port = 5060;
  dst_port = 5060;
  protocol = 17;
  labels = [];
  payload_type = "sip";
  raw_payload = 65 ∷ [];
}

abbrev arp_output : OutputPacket
arp_output = record sip_packet { src_ip = zero_addr; dst_ip = zero_addr }

abbrev frame_of : Encoded → Bytes
frame_of (encoded f) = f
frame_of _ = []

encode-reads_example :
    (addrs : List Chunk) × (addr_chunks sip_packet.src_ip sip_packet.dst_ip ≡ some addrs)
    × (read_frame (frame_of (encode no_text 0 some_options (some sip_packet)))
        ≡ some (chunks no_text 0 some_options sip_packet addrs))
unfolding encode append_addrs as4 fill_length append_rest append_nonempty resolve_to label lookup
    resolve_from append_bytes append_chunk_header resolve_correlation_id append_uint32 append_uint8
    append_uint16
encode-reads_example =
    encode-reads no_text 0 some_options sip_packet
      (frame_of (encode no_text 0 some_options (some sip_packet))) refl

abbrev two_servers : HepReporter
two_servers = record {
  servers = (1 ∷ []) ∷ (2 ∷ []) ∷ [];
  options = some_options;
  conns = [];
  sent_count = 0;
  error_count = 0;
}

abbrev two_open : HepReporter
two_open = record two_servers { conns = two_servers.servers }

report_hep-sends_example :
    (conn : Bytes) × (get_elem? two_servers.servers (flow_index two_servers.servers sip_packet)
      ≡ some conn)
    × (report_hep no_text 0 (λ c f. true) (some sip_packet) (start_hep (λ s. true) two_servers).0
        ≡ sent_to true conn two_open)
unfolding open_conns start_hep encode append_addrs as4 fill_length append_rest append_nonempty
    resolve_to label lookup resolve_from append_bytes append_chunk_header resolve_correlation_id
    append_uint32 append_uint8 append_uint16
report_hep-sends_example =
    report_hep-sends (λ s. true) two_servers no_text 0 (λ c f. true) sip_packet
      (frame_of (encode no_text 0 some_options (some sip_packet))) (omega arith) (omega arith) refl
      refl

abbrev mapped_packet : OutputPacket
mapped_packet = record sip_packet {
  src_ip = v6 (0 ∷ 0 ∷ 0 ∷ 0 ∷ 0 ∷ 0 ∷ 0 ∷ 0 ∷ 0 ∷ 0 ∷ 255 ∷ 255 ∷ 10 ∷ 0 ∷ 0 ∷ 1 ∷ []);
}

abbrev started_servers : HepReporter
started_servers = record two_servers { conns = (1 ∷ []) ∷ (2 ∷ []) ∷ [] }

abbrev rtp_packet : DecodedPacket
rtp_packet = record {
  timestamp = 1;
  ethernet = no_ethernet;
  ip = record no_ip { protocol = 17 };
  transport = record no_transport { protocol = 17; src_port = 4000; dst_port = 4002 };
  payload = 0x80 ∷ 8 ∷ 0 ∷ 1 ∷ 0 ∷ 0 ∷ 0 ∷ 1 ∷ 0 ∷ 0 ∷ 0 ∷ 2 ∷ [];
  capture_len = 12;
  orig_len = 12;
  reassembled = false;
}

abbrev no_digits : ℕ → Bytes
no_digits n = []

looks_like-handled_example :
    (labels : Labels) × (handle_rtp_or_rtcp no_digits no_digits none rtp_packet ≡ some labels)
unfolding looks_like_rtp_or_rtcp
looks_like-handled_example = looks_like-handled no_digits no_digits none rtp_packet refl

abbrev call_context : Dict String Bytes
call_context = ("call_id", 99 ∷ []) ∷ ("codec", 80 ∷ []) ∷ []

abbrev call_registry : FlowRegistry FlowValue
call_registry = record { flows = (rtp_key rtp_packet, context call_context) ∷ []; count = 1 }

abbrev labels_or_none : Option Labels → Labels
labels_or_none none = []
labels_or_none (some ls) = ls

abbrev call_labels : Labels
call_labels =
    labels_or_none (handle_rtp_or_rtcp no_digits no_digits (some call_registry) rtp_packet)
