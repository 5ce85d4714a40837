-- ===== src/Parser/Sip/Session.antt =====
-- plugins/parser/sip/sip.go: the parser with its session cache and the flow registry, and `Handle`.
-- The cache is the package go-cache: an interface here. `itoa` is `strconv.Itoa`.
use otus.Output.{
  Labels, label_sip_to_uri, label, label_sip_via, label_sip_status_code, label_sip_from_uri,
  label_sip_call_id, label_sip_method,
}
use otus.Parser.Rtp.{FlowValue, context, other_value}
use Prim.Native.String.{String}
use otus.Text.{ℤ, pos, codes, contains, negsuc, join, has_prefix}
use otus.Parser.Sip.Message.{SipMessage, Parsed, parse_sip_message, parsed, too_short, panics}
use otus.Parser.Sip.Sdp.{MediaStream, SdpInfo}
use otus.Core.{Addr, DecodedPacket, FlowKey, is_valid}
use otus.Task.Flows.{FlowRegistry, set, range, delete_flow}
use otus.Base.{
  Bytes, ℕ, none, List, Option, ◌≤◌, Dict, if◌then◌else◌, some, Bool, ◌+◌, ◌∷◌, not, false, ◌=?◌,
  ◌&&◌, [], insert, take, ◌≡◌, ◌||◌, true, ◌==◌, string_eq, list_eq, nat_eq, ltb, length,
}

pub record SipSession : Type 0 where
  pub call_id : Bytes
  pub offer_sdp : Option SdpInfo
  pub answer_sdp : Option SdpInfo
  pub created_at : ℕ

-- What the parser calls of go-cache, with the clock as an argument. The cache holds pointers:
-- `assign` is what a write through the pointer that `get` answers does to the session held.
pub record SessionCache : Type 1 where
  pub State : Type 0
  pub get : State → ℕ → Bytes → Option SipSession
  pub set : State → ℕ → Bytes → SipSession → ℕ → State
  pub delete : State → Bytes → State
  pub flush : State → State
  pub assign : State → Bytes → SipSession → State

-- An item is there until its time to live is over.
pub record IsLawful (C : SessionCache) : Type 0 where
  pub get-set_same :
      (s : C.State) (t ttl now : ℕ) (k : Bytes) (v : SipSession)
      → now ≤ t + ttl
      → C.get (C.set s t k v ttl) now k ≡ some v
  pub get-set_other :
      (s : C.State) (t ttl now : ℕ) (k j : Bytes) (v : SipSession)
      → (k =? j) ≡ false
      → C.get (C.set s t k v ttl) now j ≡ C.get s now j
  pub get-delete :
      (s : C.State) (now : ℕ) (k j : Bytes)
      → C.get (C.delete s k) now j ≡ (if k =? j then none else C.get s now j)
  pub get-assign_other :
      (s : C.State) (now : ℕ) (k j : Bytes) (v : SipSession)
      → (k =? j) ≡ false
      → C.get (C.assign s k v) now j ≡ C.get s now j

-- 24 hours
abbrev pub default_session_ttl : ℕ
default_session_ttl = 86400000000000

abbrev pub Flows : Type 0
Flows = FlowRegistry FlowValue

abbrev pub flow_context : Bytes → Bytes → Dict String Bytes
flow_context call_id codec = ("call_id", call_id) ∷ ("codec", codec) ∷ []

abbrev pub udp_key : Addr → Addr → ℕ → ℕ → FlowKey
udp_key src_ip dst_ip src_port dst_port = record {
  src_ip = src_ip;
  dst_ip = dst_ip;
  src_port = src_port;
  dst_port = dst_port;
  proto = 17;
}

unfoldable pub register_bidirectional_flow : Addr → Addr → ℕ → ℕ → Bytes → Bytes → Flows → Flows
register_bidirectional_flow ip_a ip_b port_a port_b call_id codec r =
    set (set r (udp_key ip_a ip_b port_a port_b) (context (flow_context call_id codec)))
      (udp_key ip_b ip_a port_b port_a) (context (flow_context call_id codec))

-- The address of a stream, or that of its session.
abbrev pub media_ip : MediaStream → Addr → Addr
media_ip m base = if is_valid m.connection_ip then m.connection_ip else base

abbrev pub register_rtcp : Addr → Addr → MediaStream → MediaStream → Bytes → Flows → Flows
register_rtcp offer_ip answer_ip offer answer call_id r =
    if not offer.rtcp_mux && not answer.rtcp_mux
    then register_bidirectional_flow offer_ip answer_ip offer.rtcp_port answer.rtcp_port call_id
        (codes "RTCP") r
    else r

abbrev pub register_at : Addr → Addr → MediaStream → MediaStream → Bytes → Flows → Flows
register_at offer_ip answer_ip offer answer call_id r =
    if not (is_valid offer_ip) || not (is_valid answer_ip)
    then r
    else register_rtcp offer_ip answer_ip offer answer call_id (
        register_bidirectional_flow offer_ip answer_ip offer.rtp_port answer.rtp_port call_id
          offer.codec r)

-- The body of the loop, on the streams of one index.
unfoldable pub register_stream : Addr → Addr → MediaStream → MediaStream → Bytes → Flows → Flows
register_stream offer_base answer_base offer answer call_id r =
    register_at (media_ip offer offer_base) (media_ip answer answer_base) offer answer call_id r

unfoldable pub register_streams :
    Addr → Addr → List MediaStream → List MediaStream → Bytes → Flows → Flows
register_streams offer_base answer_base (o ∷ os) (a ∷ as') call_id r =
    register_streams offer_base answer_base os as' call_id
      (register_stream offer_base answer_base o a call_id r)
register_streams offer_base answer_base _ _ call_id r = r

abbrev pub register_media : SdpInfo → SdpInfo → Bytes → Flows → Flows
register_media offer answer call_id r =
    if not (is_valid offer.connection_ip) && not (is_valid answer.connection_ip)
    then r
    else register_streams offer.connection_ip answer.connection_ip offer.media_streams
        answer.media_streams call_id r

unfoldable pub register_media_flows : SipSession → Flows → Flows
register_media_flows session r = elim session.offer_sdp [
  | none ↦ r
  | some offer ↦ elim session.answer_sdp [
    | none ↦ r
    | some answer ↦ register_media offer answer session.call_id r
  ]
]

abbrev pub is_flow_of : Bytes → FlowValue → Bool
is_flow_of call_id other_value = false
is_flow_of call_id (context ctx) = label ctx "call_id" =? call_id

-- The callback of `Range`
abbrev pub drop_flow : Bytes → FlowKey → FlowValue → Flows → Flows × Bool
drop_flow call_id key value r = (if is_flow_of call_id value then delete_flow r key else r, true)

unfoldable pub cleanup_flows : Bytes → Flows → Flows
cleanup_flows call_id r = range (drop_flow call_id) r r

abbrev pub is_invite : SipMessage → Bool
is_invite msg = msg.method =? codes "INVITE"

abbrev pub int_is : ℤ → ℕ → Bool
int_is (pos n) m = n == m
int_is (negsuc n) m = false

abbrev pub is_200_ok : SipMessage → Bool
is_200_ok msg = int_is msg.status_code 200 && contains (codes "INVITE") msg.cseq

abbrev pub is_end : SipMessage → Bool
is_end msg = (msg.method =? codes "BYE") || (msg.method =? codes "CANCEL")

abbrev pub add_text : String → Bytes → Labels → Labels
add_text name [] labels = labels
add_text name (c ∷ s) labels = insert name (c ∷ s) labels

abbrev pub add_via : List Bytes → Labels → Labels
add_via [] labels = labels
add_via (v ∷ vs) labels = insert label_sip_via (join (codes ",") (v ∷ vs)) labels

module _ (itoa : ℤ → Bytes) where
  abbrev pub add_status : ℤ → Labels → Labels
  add_status code labels =
      if int_is code 0 then labels else insert label_sip_status_code (itoa code) labels

  unfoldable pub sip_labels : SipMessage → Labels
  sip_labels msg = add_via msg.via_list (
      add_text label_sip_to_uri msg.to_uri (
        add_text label_sip_from_uri msg.from_uri (
          add_text label_sip_call_id msg.call_id
            (add_status msg.status_code (add_text label_sip_method msg.method [])))))

unfoldable pub can_handle_sip : DecodedPacket → Bool
can_handle_sip pkt =
    let prefix = take 8 pkt.payload in
    if pkt.transport.src_port == 5060
      || pkt.transport.dst_port == 5060
      || pkt.transport.src_port == 5061
      || pkt.transport.dst_port == 5061
    then true
    else if ltb (length pkt.payload) 8
    then false
    else has_prefix (codes "SIP/2.0 ") prefix
      || has_prefix (codes "INVITE ") prefix
      || has_prefix (codes "REGISTER") prefix
      || has_prefix (codes "BYE ") prefix
      || has_prefix (codes "CANCEL ") prefix
      || has_prefix (codes "ACK ") prefix
      || has_prefix (codes "OPTIONS ") prefix
      || has_prefix (codes "SUBSCRI") prefix
      || has_prefix (codes "NOTIFY ") prefix

module _ (C : SessionCache) where
  -- The cache and the registry, which the parser shares with the RTP parser.
  pub record SipState : Type 0 where
    pub cache : C.State
    pub flows : Flows

  abbrev pub end_call : Bytes → SipState → SipState
  end_call call_id s = record {
    cache = C.delete s.cache call_id;
    flows = cleanup_flows call_id s.flows;
  }

  abbrev pub offer_session : Bytes → SdpInfo → ℕ → SipSession
  offer_session call_id sdp now = record {
    call_id = call_id;
    offer_sdp = some sdp;
    answer_sdp = none;
    created_at = now;
  }

  abbrev pub store_offer : Bytes → SdpInfo → ℕ → SipState → SipState
  store_offer call_id sdp now s = record s {
    cache = C.set s.cache now call_id (offer_session call_id sdp now) default_session_ttl;
  }

  abbrev pub take_answer : Bytes → SdpInfo → ℕ → SipState → SipState
  take_answer call_id sdp now s = elim (C.get s.cache now call_id) [
    | none ↦ s
    | some session ↦
        let answered = record session { answer_sdp = some sdp } in
        record {
          cache = C.assign s.cache call_id answered;
          flows = register_media_flows answered s.flows;
        }
  ]

  unfoldable pub handle_sdp : SipMessage → ℕ → SipState → SipState
  handle_sdp msg now s =
      if msg.call_id =? [] then s else if is_end msg then end_call msg.call_id s else elim msg.sdp [
        | none ↦ s
        | some sdp ↦
            if is_invite msg
            then store_offer msg.call_id sdp now s
            else if is_200_ok msg
            then take_answer msg.call_id sdp now s
            else s
      ]

  -- `Stop`
  unfoldable pub stop_sip : SipState → SipState
  stop_sip s = record s { cache = C.flush s.cache }

  module _ (parse_addr : Bytes → Addr) (itoa : ℤ → Bytes) where
    -- `Handle` of a parser that a flow registry was given to.
    unfoldable pub handle_sip : Bytes → ℕ → SipState → Parsed (Labels × SipState)
    handle_sip payload now s = elim (parse_sip_message parse_addr payload) [
      | parsed msg ↦ parsed (sip_labels itoa msg, handle_sdp msg now s)
      | too_short ↦ too_short
      | panics ↦ panics
    ]
