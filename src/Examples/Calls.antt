-- ===== src/Examples/Calls.antt =====
-- plugins/parser/sip on a call with one audio stream, with a session cache that is a map.
use otus.Text.Split.{lacks-Lacks}
use otus.Parser.Sip.Headers.{cut-panics, parse-not_panics}
use otus.Parser.Sip.Calls.{handle_all, end-forgets, ok-labels_rtp}
use otus.Parser.Rtp.{handle_rtp_or_rtcp}
use otus.Output.{
  Labels, label_rtp_version, label, label_rtp_payload_type, label_rtp_call_id, label_rtp_seq,
  label_rtp_timestamp, label_rtp_ssrc, label_rtp_marker, label_rtp_extension, label_rtp_codec,
}
use otus.Task.Flows.{new_flow_registry, get}
use otus.Text.{
  codes, pos, split_on, index_of, has_prefix, trim_right, trim_left, contains, index_byte, split_n,
  atoi, parse_uint, scan_digits, split_space,
}
use otus.Parser.Sip.Message.{
  SipMessage, parse_sip_message, no_message, parsed, message_lines, header_end, headers,
  header_step, set_body, header_line, set_header, first_line, extract_uri, panics,
}
use otus.Parser.Sip.Sdp.{
  MediaStream, SdpInfo, parse_sdp_body, finish_sdp, sdp_lines, sdp_line, typed_line, attribute,
  attribute_line, connection_line, media_line, parse_connection_line,
}
use otus.Core.{Addr, v4, zero_addr, DecodedPacket, no_ethernet, no_ip, no_transport}
use otus.Parser.Sip.Session.{
  SessionCache, IsLawful, SipState, SipSession, handle_sdp, take_answer, udp_key,
}
use otus.Base.{
  Dict, Bytes, lookup-insert, [], ◌∷◌, ◌≡◌, ℕ, beq_refl, false, true, Option, lookup, insert, ◌=?◌,
  le→not_ltb, some, refl, none, ◌+◌, option_intro, if◌then◌else◌, list_eq, nat_eq, delete, ltb, ap,
  ◌≤◌, ◌∙◌, lookup-delete, if_intro, ◌≢◌, arith, inl,
}

abbrev live : ℕ → Option (SipSession × ℕ) → Option SipSession
live now none = none
live now (some (v, until)) = if ltb until now then none else some v

abbrev map_get : Dict Bytes (SipSession × ℕ) → ℕ → Bytes → Option SipSession
map_get s now k = live now (lookup k s)

abbrev map_assign : Dict Bytes (SipSession × ℕ) → Bytes → SipSession → Dict Bytes (SipSession × ℕ)
map_assign s k v = elim (lookup k s) [ none ↦ s | some (w, until) ↦ insert k (v, until) s ]

abbrev map_cache : SessionCache
map_cache = record {
  State = Dict Bytes (SipSession × ℕ);
  get = map_get;
  set = λ s t k v ttl. insert k (v, t + ttl) s;
  delete = λ s k. delete k s;
  flush = λ s. [];
  assign = map_assign;
}

get-insert_other :
    (s : Dict Bytes (SipSession × ℕ)) (now : ℕ) (k j : Bytes) (w : SipSession × ℕ)
    → (k =? j) ≡ false
    → map_get (insert k w s) now j ≡ map_get s now j
get-insert_other s now k j w e = ap (live now) (lookup-insert k j w s ∙ rw e refl)

get-insert_same :
    (s : Dict Bytes (SipSession × ℕ)) (now until : ℕ) (k : Bytes) (v : SipSession)
    → now ≤ until
    → map_get (insert k (v, until) s) now k ≡ some v
get-insert_same s now until k v h =
    let found : lookup k (insert k (v, until) s) ≡ some (v, until) =
      lookup-insert k k (v, until) s ∙ rw (beq_refl k) refl in
    ap (live now) found ∙ rw (le→not_ltb now until h) refl

get-deleted :
    (s : Dict Bytes (SipSession × ℕ)) (now : ℕ) (k j : Bytes)
    → map_get (delete k s) now j ≡ (if k =? j then none else map_get s now j)
get-deleted s now k j =
    ap (live now) (lookup-delete k j s)
    ∙ if_intro (λ b. live now b ≡ (if k =? j then none else map_get s now j)) (k =? j)
        (λ hit. rw hit refl) (λ miss. rw miss refl)

map_assign-other :
    (s : Dict Bytes (SipSession × ℕ)) (now : ℕ) (k j : Bytes) (v : SipSession)
    → (k =? j) ≡ false
    → map_get (map_assign s k v) now j ≡ map_get s now j
map_assign-other s now k j v e =
    option_intro (λ (q : Dict Bytes (SipSession × ℕ)). map_get q now j ≡ map_get s now j)
      (lookup k s) (λ _. refl) (λ w _. get-insert_other s now k j (v, w.1) e)

map_cache-IsLawful : IsLawful map_cache
map_cache-IsLawful = record {
  get-set_same = λ s t ttl now k v h. get-insert_same s now (t + ttl) k v h;
  get-set_other = λ s t ttl now k j v e. get-insert_other s now k j (v, t + ttl) e;
  get-delete = λ s now k j. get-deleted s now k j;
  get-assign_other = map_assign-other;
}

abbrev no_calls : SipState map_cache
no_calls = record { cache = []; flows = new_flow_registry }

-- Addresses are the bytes of their text here.
abbrev text_addr : Bytes → Addr
text_addr = v4

abbrev caller_ip : Addr
caller_ip = v4 (codes "10.0.0.1")

abbrev callee_ip : Addr
callee_ip = v4 (codes "10.0.0.2")

abbrev invite_text : Bytes
invite_text =
    codes
      "INVITE sip:b@h SIP/2.0\r\nFrom: \"A\" <sip:a@h>;tag=1\r\nCall-ID: c1\r\nCSeq: 1 INVITE\r\nContent-Type: application/sdp\r\n\r\nv=0\r\nc=IN IP4 10.0.0.1\r\nm=audio 4000 RTP/AVP 0\r\na=rtpmap:0 PCMU/8000\r\n"

abbrev ok_text : Bytes
ok_text =
    codes
      "SIP/2.0 200 OK\r\nCall-ID: c1\r\nCSeq: 1 INVITE\r\nContent-Type: application/sdp\r\n\r\nv=0\r\nc=IN IP4 10.0.0.2\r\nm=audio 5000 RTP/AVP 0\r\na=rtcp-mux\r\n"

abbrev offer_stream : MediaStream
offer_stream = record {
  media_type = codes "audio";
  rtp_port = 4000;
  rtcp_port = 4001;
  rtcp_mux = false;
  codec = codes "PCMU/8000";
  direction = codes "sendrecv";
  connection_ip = zero_addr;
}

abbrev answer_stream : MediaStream
answer_stream = record {
  media_type = codes "audio";
  rtp_port = 5000;
  rtcp_port = 5000;
  rtcp_mux = true;
  codec = [];
  direction = codes "sendrecv";
  connection_ip = zero_addr;
}

abbrev offer : SdpInfo
offer = record { connection_ip = caller_ip; media_streams = offer_stream ∷ [] }

abbrev answer : SdpInfo
answer = record { connection_ip = callee_ip; media_streams = answer_stream ∷ [] }

abbrev invite : SipMessage
invite = record {
  method = codes "INVITE";
  status_code = pos 0;
  call_id = codes "c1";
  from_uri = codes "sip:a@h";
  to_uri = [];
  via_list = [];
  cseq = codes "1 INVITE";
  sdp = some offer;
}

abbrev ok_message : SipMessage
ok_message = record {
  method = [];
  status_code = pos 200;
  call_id = codes "c1";
  from_uri = [];
  to_uri = [];
  via_list = [];
  cseq = codes "1 INVITE";
  sdp = some answer;
}

abbrev bye : SipMessage
bye = record no_message { method = codes "BYE"; call_id = codes "c1" }

abbrev other_bye : SipMessage
other_bye = record no_message { method = codes "BYE"; call_id = codes "c2" }

invite-parsed : parse_sip_message text_addr invite_text ≡ parsed invite
unfolding parse_sip_message message_lines split_on header_end index_of has_prefix headers
    header_step trim_right trim_left set_body contains header_line parse_sdp_body index_byte
    set_header finish_sdp first_line extract_uri sdp_lines split_n sdp_line typed_line attribute
    attribute_line connection_line media_line parse_connection_line atoi parse_uint scan_digits
    split_space
invite-parsed = refl

ok-parsed : parse_sip_message text_addr ok_text ≡ parsed ok_message
unfolding parse_sip_message message_lines split_on header_end index_of has_prefix headers
    header_step trim_right trim_left set_body contains header_line parse_sdp_body index_byte
    set_header finish_sdp first_line extract_uri sdp_lines split_n sdp_line typed_line attribute
    attribute_line connection_line media_line parse_connection_line atoi parse_uint scan_digits
    split_space
ok-parsed = refl

-- The call, with the end of another call between offer and answer.
abbrev answered : SipState map_cache
answered =
    handle_sdp map_cache ok_message 5
      (handle_all map_cache ((other_bye, 3) ∷ []) (handle_sdp map_cache invite 1 no_calls))

abbrev rtp_packet : DecodedPacket
rtp_packet = record {
  timestamp = 0;
  ethernet = no_ethernet;
  ip = record no_ip { src_ip = caller_ip; dst_ip = callee_ip };
  transport = record no_transport { src_port = 4000; dst_port = 5000; protocol = 17 };
  payload = 128 ∷ 0 ∷ 0 ∷ 1 ∷ 0 ∷ 0 ∷ 0 ∷ 2 ∷ 0 ∷ 0 ∷ 0 ∷ 3 ∷ [];
  capture_len = 12;
  orig_len = 12;
  reassembled = false;
}

abbrev no_digits : ℕ → Bytes
no_digits n = []

abbrev rtp_call_labels : Labels
rtp_call_labels =
    (label_rtp_version, [])
    ∷ (label_rtp_payload_type, [])
    ∷ (label_rtp_seq, [])
    ∷ (label_rtp_timestamp, [])
    ∷ (label_rtp_ssrc, [])
    ∷ (label_rtp_marker, codes "false")
    ∷ (label_rtp_extension, codes "false")
    ∷ (label_rtp_call_id, codes "c1")
    ∷ (label_rtp_codec, codes "PCMU/8000")
    ∷ []

ok-labels_rtp_example : label rtp_call_labels label_rtp_call_id ≡ codes "c1"
unfolding handle_rtp_or_rtcp contains index_of has_prefix otus.Parser.Rtp.handle_rtp
    otus.Parser.Rtp.enrich_from_registry get lookup handle_sdp handle_all delete insert
    otus.Parser.Sip.Session.register_media_flows otus.Parser.Sip.Session.register_streams
    otus.Parser.Sip.Session.register_stream otus.Parser.Sip.Session.register_bidirectional_flow
    otus.Task.Flows.set otus.Parser.Sip.Session.cleanup_flows label otus.Parser.Rtp.copy_label
    otus.Parser.Rtp.handle_rtcp otus.Parser.Rtp.rtcp_labels otus.Parser.Rtp.rtp_labels
    otus.Task.Flows.delete_flow otus.Task.Flows.range otus.Task.Flows.visit new_flow_registry
ok-labels_rtp_example =
    ok-labels_rtp map_cache map_cache-IsLawful no_calls invite ok_message ((other_bye, 3) ∷ []) 1 5
      b'c' (codes "1") offer answer refl refl refl (refl, tt) refl refl refl refl (omega arith) 0
      offer_stream answer_stream refl refl refl refl refl no_digits no_digits rtp_packet
      rtp_call_labels (inl refl) refl

end-forgets_example :
    (get (handle_sdp map_cache bye 9 answered).flows (udp_key caller_ip callee_ip 4000 5000) ≡ none)
    × (map_get (handle_sdp map_cache bye 9 answered).cache 10 (codes "c1") ≡ none)
unfolding handle_rtp_or_rtcp contains index_of has_prefix otus.Parser.Rtp.handle_rtp
    otus.Parser.Rtp.enrich_from_registry get lookup handle_sdp handle_all delete insert
    otus.Parser.Sip.Session.register_media_flows otus.Parser.Sip.Session.register_streams
    otus.Parser.Sip.Session.register_stream otus.Parser.Sip.Session.register_bidirectional_flow
    otus.Task.Flows.set otus.Parser.Sip.Session.cleanup_flows label otus.Parser.Rtp.copy_label
    otus.Parser.Rtp.handle_rtcp otus.Parser.Rtp.rtcp_labels otus.Parser.Rtp.rtp_labels
    otus.Task.Flows.delete_flow otus.Task.Flows.range otus.Task.Flows.visit new_flow_registry
end-forgets_example =
    end-forgets map_cache map_cache-IsLawful bye 9 10 answered
      (udp_key caller_ip callee_ip 4000 5000) refl refl (refl, (refl, tt))

abbrev bare_offer : SdpInfo
bare_offer = record {
  connection_ip = zero_addr;
  media_streams = record offer_stream { connection_ip = caller_ip } ∷ [];
}

abbrev bare_answer : SdpInfo
bare_answer = record {
  connection_ip = zero_addr;
  media_streams = record answer_stream { connection_ip = callee_ip } ∷ [];
}

abbrev bare_session : SipSession
bare_session = record {
  call_id = codes "c1";
  offer_sdp = some bare_offer;
  answer_sdp = none;
  created_at = 1;
}

abbrev bare_state : SipState map_cache
bare_state = record { cache = (codes "c1", (bare_session, 100)) ∷ []; flows = new_flow_registry }

cut-panics_example :
    parse_sip_message text_addr (codes "OPTIONS sip:b SIP/2.0\r\nVia: x\r\n") ≡ panics
unfolding index_of has_prefix trim_left trim_right
cut-panics_example =
    cut-panics text_addr (codes "OPTIONS sip:b SIP/2.0\r") (codes "Via: x\r")
      (lacks-Lacks b'\n' (codes "Via: x\r") refl) (λ e. cc) refl refl (omega arith)

parse-not_panics_example :
    parse_sip_message text_addr (codes "OPTIONS sip:b SIP/2.0\r\nVia: x\r\n\r\n") ≢ panics
unfolding split_on header_end index_of has_prefix
parse-not_panics_example =
    parse-not_panics text_addr (codes "OPTIONS sip:b SIP/2.0\r\nVia: x\r\n\r\n")
      (codes "OPTIONS sip:b SIP/2.0\r") (codes "Via: x" ∷ []) refl ((λ e. cc), tt)
