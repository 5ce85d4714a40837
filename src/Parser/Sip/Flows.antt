-- ===== src/Parser/Sip/Flows.antt =====
-- plugins/parser/sip/sip.go: what `registerMediaFlows` puts into the flow registry and what
-- `cleanupFlows` takes out of it.
use otus.Text.{codes}
use Prim.Native.String.{String}
use otus.Parser.Rtp.{FlowValue, context}
use otus.Parser.Sip.Sdp.{MediaStream}
use otus.Core.{Addr, FlowKey, is_valid, flow_key_eq}
use otus.Output.{label}
use otus.Parser.Sip.Session.{
  cleanup_flows, Flows, register_streams, register_stream, flow_context,
  register_bidirectional_flow, register_rtcp, udp_key, media_ip, drop_flow, is_flow_of,
}
use otus.Task.Flows.{get, visit, delete_flow, set, range}
use otus.Base.{
  Bytes, Option, lookup, Dict, ℕ, List, some, ◌≡◌, Distinct, if_intro, ◌∷◌, [], get_elem?,
  if◌then◌else◌, refl, beq_refl, Bool-cases, not, true, ◌=?◌, arith, ◌&&◌, ◌||◌, none,
  lookup-insert, ap, inl, suc, lookup-delete, inr, zero,
}

-- What `cleanupFlows` leaves of the flow found under a key.
abbrev pub kept : Bytes → Option FlowValue → Option FlowValue → Option FlowValue
kept call_id none before = before
kept call_id (some v) before = if is_flow_of call_id v then none else before

get-delete_flow :
    (r : Flows) (k j : FlowKey) → get (delete_flow r k) j ≡ (if k =? j then none else get r j)
unfolding get delete_flow
get-delete_flow r k j = lookup-delete k j r.flows

get-set :
    (r : Flows) (k j : FlowKey) (v : FlowValue)
    → get (set r k v) j ≡ (if k =? j then some v else get r j)
unfolding get set
get-set r k j v = lookup-insert k j v r.flows

visit-kept :
    (call_id : Bytes) (m : Dict FlowKey FlowValue) (r : Flows) (j : FlowKey)
    → Distinct m
    → get (visit (drop_flow call_id) m r) j ≡ kept call_id (lookup j m) (get r j)
unfolding visit lookup
visit-kept call_id [] r j d = refl
visit-kept call_id ((k, v) ∷ m) r j d = ground (
  arith,
  visit-kept call_id m (drop_flow call_id k v r).0 j d.1,
  get-delete_flow r k j,
  flow_key_eq.beq_iff k j,
  ap (λ i. lookup i m) {x = k} {y = j},
)

pub cleanup_flows-kept :
    (call_id : Bytes) (r : Flows) (j : FlowKey)
    → Distinct r.flows
    → get (cleanup_flows call_id r) j ≡ kept call_id (get r j) (get r j)
unfolding cleanup_flows range get
cleanup_flows-kept call_id r j d = visit-kept call_id r.flows r j d

-- A flow is registered under a call.
abbrev pub Registered : Bytes → Flows → FlowKey → Type 0
Registered call_id r key =
    (ctx : Dict String Bytes) × (get r key ≡ some (context ctx)) × (label ctx "call_id" ≡ call_id)

module _ (call_id : Bytes) where
  label-flow_context : (codec : Bytes) → label (flow_context call_id codec) "call_id" ≡ call_id
  unfolding label lookup
  label-flow_context codec = refl

  Registered-set_same :
      (codec : Bytes) (r : Flows) (k : FlowKey)
      → Registered call_id (set r k (context (flow_context call_id codec))) k
  Registered-set_same codec r k =
      (flow_context call_id codec, rw (get-set, beq_refl k) refl, label-flow_context codec)

  Registered-set :
      (codec : Bytes) (r : Flows) (k j : FlowKey)
      → Registered call_id r j
      → Registered call_id (set r k (context (flow_context call_id codec))) j
  Registered-set codec r k j (ctx, e, c) = elim (Bool-cases (k =? j)) [
    | inl hit ↦ (flow_context call_id codec, rw (get-set, hit) refl, label-flow_context codec)
    | inr miss ↦ (ctx, rw (get-set, miss) e, c)
  ]

  module _ (ip_a ip_b : Addr) (port_a port_b : ℕ) (codec : Bytes) (r : Flows) where
    pub Registered-bidirectional :
        (j : FlowKey)
        → Registered call_id r j
        → Registered call_id (register_bidirectional_flow ip_a ip_b port_a port_b call_id codec r) j
    unfolding register_bidirectional_flow
    Registered-bidirectional j h =
        Registered-set codec _ (udp_key ip_b ip_a port_b port_a) j
          (Registered-set codec r (udp_key ip_a ip_b port_a port_b) j h)

    pub bidirectional-Registered :
        Registered call_id
          (register_bidirectional_flow ip_a ip_b port_a port_b call_id codec r)
          (udp_key ip_a ip_b port_a port_b)
        × Registered call_id
            (register_bidirectional_flow ip_a ip_b port_a port_b call_id codec r)
            (udp_key ip_b ip_a port_b port_a)
    unfolding register_bidirectional_flow
    bidirectional-Registered = (
      Registered-set codec _ (udp_key ip_b ip_a port_b port_a) _
          (Registered-set_same codec r (udp_key ip_a ip_b port_a port_b)),
      Registered-set_same codec _ (udp_key ip_b ip_a port_b port_a),
    )

  module _ (o a : MediaStream) where
    Registered-register_rtcp :
        (x y : Addr) (r : Flows) (j : FlowKey)
        → Registered call_id r j
        → Registered call_id (register_rtcp x y o a call_id r) j
    Registered-register_rtcp x y r j h =
        if_intro (λ q. Registered call_id q j) (not o.rtcp_mux && not a.rtcp_mux)
          (λ _. Registered-bidirectional x y o.rtcp_port a.rtcp_port (codes "RTCP") r j h) (λ _. h)

    Registered-register_stream :
        (x y : Addr) (r : Flows) (j : FlowKey)
        → Registered call_id r j
        → Registered call_id (register_stream x y o a call_id r) j
    unfolding register_stream
    Registered-register_stream x y r j h =
        if_intro (λ q. Registered call_id q j)
          (not (is_valid (media_ip o x)) || not (is_valid (media_ip a y))) (λ _. h)
          (λ _. Registered-register_rtcp (media_ip o x) (media_ip a y) _ j (
            Registered-bidirectional (media_ip o x) (media_ip a y) o.rtp_port a.rtp_port o.codec r j
              h))

  Registered-register_streams :
      (x y : Addr) (os bs : List MediaStream) (r : Flows) (j : FlowKey)
      → Registered call_id r j
      → Registered call_id (register_streams x y os bs call_id r) j
  unfolding register_streams
  Registered-register_streams x y [] bs r j h = h
  Registered-register_streams x y (o ∷ os) [] r j h = h
  Registered-register_streams x y (o ∷ os) (a ∷ bs) r j h =
      Registered-register_streams x y os bs (register_stream x y o a call_id r) j
        (Registered-register_stream o a x y r j h)

  -- The two keys of a stream: from the caller to the callee and back.
  abbrev pub BothWays : Flows → Addr → Addr → ℕ → ℕ → Type 0
  BothWays r x y p q =
      Registered call_id r (udp_key x y p q) × Registered call_id r (udp_key y x q p)

  register_stream-BothWays :
      (x y : Addr) (o a : MediaStream) (r : Flows)
      → is_valid (media_ip o x) ≡ true
      → is_valid (media_ip a y) ≡ true
      → BothWays
          (register_stream x y o a call_id r)
          (media_ip o x)
          (media_ip a y)
          o.rtp_port
          a.rtp_port
  unfolding register_stream
  register_stream-BothWays x y o a r vo va =
      let (there, back) =
        bidirectional-Registered (media_ip o x) (media_ip a y) o.rtp_port a.rtp_port o.codec r in
      rw (vo, va)
        (
          Registered-register_rtcp o a (media_ip o x) (media_ip a y) _ _ there,
          Registered-register_rtcp o a (media_ip o x) (media_ip a y) _ _ back,
        )

  pub register_streams-BothWays :
      (x y : Addr) (os bs : List MediaStream) (i : ℕ) (o a : MediaStream) (r : Flows)
      → get_elem? os i ≡ some o
      → get_elem? bs i ≡ some a
      → is_valid (media_ip o x) ≡ true
      → is_valid (media_ip a y) ≡ true
      → BothWays
          (register_streams x y os bs call_id r)
          (media_ip o x)
          (media_ip a y)
          o.rtp_port
          a.rtp_port
  unfolding register_streams
  register_streams-BothWays x y [] bs i o a r ho ha vo va = absurd (cc)
  register_streams-BothWays x y (o' ∷ os) [] i o a r ho ha vo va = absurd (cc)
  register_streams-BothWays x y (o' ∷ os) (a' ∷ bs) zero o a r ho ha vo va =
      let eo : o' ≡ o = ground arith in
      let ea : a' ≡ a = ground arith in
      let (there, back) = register_stream-BothWays x y o a r vo va in
      rw (eo, ea)
        (
          Registered-register_streams x y os bs _ _ there,
          Registered-register_streams x y os bs _ _ back,
        )
  register_streams-BothWays x y (o' ∷ os) (a' ∷ bs) (suc i) o a r ho ha vo va =
      register_streams-BothWays x y os bs i o a (register_stream x y o' a' call_id r) ho ha vo va
