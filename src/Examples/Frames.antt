-- ===== src/Examples/Frames.antt =====
-- internal/core/decoder and internal/pipeline on short frames.
use otus.Decoder.Reassembly.{new_reassembler}
use otus.Pipeline.Accounting.{lost, run-balances}
use otus.Task.Flows.{u64}
use otus.Pipeline.Parsing.{non_ip-panics}
use otus.Output.{OutputPacket}
use otus.Hep.{EncodeOptions, encode, panicked}
use otus.Pipeline.{
  Parser, Pipeline, run, process_packet, Sending, no_metrics, sent, full, cancelled,
}
use otus.Core.{RawPacket, EthernetHeader, DecodedPacket, FlowKey, v4, ok}
use otus.Decoder.Standard.{Config, StandardDecoder, start, decode}
use otus.Decoder.Ethernet.{decode_ethernet}
use otus.Base.{
  ℕ, Bytes, List, ◌∷◌, [], ◌++◌, none, true, ◌==◌, Bool, ◌≡◌, ◌+◌, some, ltb, length, ◌&&◌, refl,
  arith,
}
use otus.Decoder.Ethernet.Frames.{frame, Tag, decode_ethernet-frame}

abbrev mac_a : Bytes
mac_a = 1 ∷ 2 ∷ 3 ∷ 4 ∷ 5 ∷ 6 ∷ []

abbrev mac_b : Bytes
mac_b = 6 ∷ 5 ∷ 4 ∷ 3 ∷ 2 ∷ 1 ∷ []

abbrev two_tags : List Tag
two_tags = record { tpid = 0x88A8; tci = 100 } ∷ record { tpid = 0x8100; tci = 4196 } ∷ []

decode_ethernet-frame_example :
    decode_ethernet (frame mac_a mac_b two_tags 0x0800 (69 ∷ []))
    ≡ ok (
      record { src_mac = mac_b; dst_mac = mac_a; ether_type = 0x0800; vlans = 100 ∷ 100 ∷ [] },
      69 ∷ [],
    )
decode_ethernet-frame_example =
    decode_ethernet-frame mac_a mac_b two_tags 0x0800 (69 ∷ []) refl refl
      ((refl, omega arith), ((refl, omega arith), tt)) refl (omega arith)

abbrev plain_config : Config
plain_config = record {
  tunnels = [];
  ip_reassembly = true;
  max_fragments = 0;
  max_reassemble_size = 0;
  reassembly_timeout = 0;
}

-- An ARP frame.
abbrev arp_bytes : Bytes
arp_bytes = mac_a ++ (mac_b ++ (0x08 ∷ 0x06 ∷ 0 ∷ 1 ∷ []))

abbrev arp_packet : RawPacket
arp_packet = record { bytes = arp_bytes; timestamp = 5; capture_len = 16; orig_len = 16 }

abbrev arp_header : EthernetHeader
arp_header = record { src_mac = mac_b; dst_mac = mac_a; ether_type = 0x0806; vlans = [] }

abbrev arp_decoded : DecodedPacket
arp_decoded = record (start arp_packet) { ethernet = arp_header; payload = 0 ∷ 1 ∷ [] }

abbrev plain_decoder : StandardDecoder
plain_decoder = record { config = plain_config; reassembler = none; tunnels = [] }

abbrev sip_parser : Parser ℕ
sip_parser = record { name = "sip"; can_handle = λ s d. true; handle = λ s d. (s + 1, none) }

abbrev rtp_parser : Parser ℕ
rtp_parser = record {
  name = "rtp";
  can_handle = λ s d. s == 1;
  handle = λ s d. (s, some (("rtp.seq", 55 ∷ []) ∷ []));
}

abbrev arp_pipeline : Pipeline ℕ
arp_pipeline = record {
  id = 0;
  task_id = 116 ∷ [];
  agent_id = 97 ∷ [];
  decode = λ s raw. (s, some arp_decoded);
  parsers = sip_parser ∷ rtp_parser ∷ [];
  processors = [];
}

abbrev no_options : EncodeOptions
no_options = record { capture_id = 1; auth_key = []; node_name = [] }

non_ip-panics_example :
    (o : OutputPacket) × ((process_packet arp_pipeline arp_packet 0 no_metrics).2 ≡ some o)
    × (encode (λ a p. []) 0 no_options (some o) ≡ panicked)
unfolding decode_ethernet decode
non_ip-panics_example =
    non_ip-panics plain_decoder arp_packet arp_header (0 ∷ 1 ∷ []) arp_pipeline 0 no_metrics
      (λ a p. []) 0 no_options (omega arith) refl refl refl refl

abbrev some_input : List (RawPacket × Sending)
some_input = (arp_packet, sent) ∷ (arp_packet, full) ∷ (arp_packet, cancelled) ∷ []

run-balances_example :
    let r = run arp_pipeline some_input 0 no_metrics in
    u64 r.1.received ≡ u64 (length r.2 + lost r.3 + r.1.decode_errors + r.1.dropped)
run-balances_example = run-balances arp_pipeline some_input 0

-- A UDP packet, and the same flow with another payload in a tagged frame.
abbrev udp_packet : Bytes → Bytes
udp_packet payload =
    (0x45 ∷ 0 ∷ 0 ∷ 30 ∷ 0 ∷ 1 ∷ 0 ∷ 0 ∷ 64 ∷ 17 ∷ 0 ∷ 0 ∷ [])
    ++ ((10 ∷ 0 ∷ 0 ∷ 1 ∷ 10 ∷ 0 ∷ 0 ∷ 2 ∷ [])
        ++ ((19 ∷ 196 ∷ 19 ∷ 197 ∷ 0 ∷ 10 ∷ 0 ∷ 0 ∷ []) ++ payload))

abbrev udp_frame : Bytes
udp_frame = mac_a ++ (mac_b ++ (8 ∷ 0 ∷ udp_packet (1 ∷ 2 ∷ [])))

abbrev tagged_frame : Bytes
tagged_frame = mac_b ++ (mac_a ++ (0x81 ∷ 0 ∷ 0 ∷ 7 ∷ 8 ∷ 0 ∷ udp_packet (3 ∷ 4 ∷ [])))

abbrev udp_key : FlowKey
udp_key = record {
  src_ip = v4 (10 ∷ 0 ∷ 0 ∷ 1 ∷ []);
  dst_ip = v4 (10 ∷ 0 ∷ 0 ∷ 2 ∷ []);
  src_port = 5060;
  dst_port = 5061;
  proto = 17;
}

abbrev all_bytes? : Bytes → Bool
all_bytes? [] = true
all_bytes? (b ∷ bs) = ltb b 256 && all_bytes? bs

abbrev reassembling_decoder : StandardDecoder
reassembling_decoder = record plain_decoder {
  reassembler = some (
      new_reassembler
        (record {
          max_fragments = 0;
          max_reassemble_size = 0;
          timeout = 0;
          max_frags_per_ip = 0;
          rate_limit_window = 0;
        })
        0);
}
