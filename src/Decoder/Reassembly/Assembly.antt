-- ===== src/Decoder/Reassembly/Assembly.antt =====
-- Fragmentation and reassembly (internal/core/decoder/reassembly.go): the fragments of a datagram, in
-- any order, give the datagram back.
use otus.Decoder.Reassembly.Steps.{
  receive_known, update_flow-outcome, update_flow_within, created, receive_new,
}
use otus.Decoder.Reassembly.Within.{add_fragment-final}
use otus.Decoder.Reassembly.Panic.{add_fragment-current}
use otus.Decoder.Reassembly.Content.{add_fragment-frags}
use otus.Decoder.Reassembly.Chain.{IsFragment, Chain}
use otus.Decoder.Reassembly.Tiling.{Disjoint, place-Disjoint, place_disjoint, length-place-le}
use otus.Decoder.Reassembly.Datagram.{
  FlowOf, Genuine, Genuine-IsFragment, add_fragment-FlowOf, FlowOf-build, empty_list-FlowOf,
}
use otus.Decoder.Reassembly.Delivery.{deliver, Arrival, lookup-store_flow}
use otus.Base.{
  ◌≡◌, List, Bytes, ℕ, ◌∷◌, [], All, length, ◌+◌, false, ◌≤◌, ◌⊎◌, true, arith, lookup, some, none,
  replicate, ◌++◌, ap, ◌∙◌, refl, lookup-insert, beq_refl, sym, inr,
}
use otus.Decoder.Fragments.{
  FragmentList, Fragment, FragmentKey, place, ipv4_max_frag_list_len, fragment_key_eq, empty_list,
}
use otus.Decoder.Reassembly.{
  receive, Reassembler, is_complete, add_fragment, incomplete, complete, Outcome, store_flow,
}

abbrev pub sizes : List Arrival → ℕ
sizes [] = 0
sizes (a ∷ as') = a.frag.length + sizes as'

-- The last fragment is among them.
abbrev pub HasFinal : List Arrival → Type 0
HasFinal [] = ⊥
HasFinal (a ∷ as') = (a.more ≡ false) ⊎ HasFinal as'

abbrev pub Pairwise : List Arrival → Type 0
Pairwise [] = Unit
Pairwise (a ∷ as') = All (λ (b : Arrival). Disjoint b.frag a.frag) as' × Pairwise as'

-- The fragments of `d`, each once, in any order.
pub record Tiling (d : Bytes) (arrivals : List Arrival) : Type 0 where
  pub genuine : All (λ (a : Arrival). Genuine d a.more a.frag) arrivals
  pub apart : Pairwise arrivals
  pub whole : sizes arrivals ≡ length d
  pub final : HasFinal arrivals

-- A flow in which some of the fragments have come, and `rest` has not.
record Pending (d : Bytes) (fl : FragmentList) (rest : List Arrival) : Type 0 where
  flow : FlowOf d fl
  genuine : All (λ (a : Arrival). Genuine d a.more a.frag) rest
  clear : All (λ (a : Arrival). All (Disjoint a.frag) fl.frags) rest
  apart : Pairwise rest
  whole : fl.current + sizes rest ≡ length d
  final : (fl.final_received ≡ true) ⊎ HasFinal rest

clear_empty : (rest : List Arrival) → All (λ (b : Arrival). All (Disjoint b.frag) []) rest
clear_empty [] = tt
clear_empty (b ∷ rest) = (tt, clear_empty rest)

clear_step :
    (d : Bytes) (a : Arrival) (fs : List Fragment) (rest : List Arrival)
    → IsFragment a.frag
    → Chain 0 fs
    → All (λ (b : Arrival). Disjoint b.frag a.frag) rest
    → All (λ (b : Arrival). All (Disjoint b.frag) fs) rest
    → All (λ (b : Arrival). All (Disjoint b.frag) (place none a.frag fs).0) rest
clear_step d a fs [] g c p q = tt
clear_step d a fs (b ∷ rest) g c p q =
    (place-Disjoint b.frag a.frag fs g c p.0 q.0, clear_step d a fs rest g c p.1 q.1)

Pending-step :
    (d : Bytes) (fl : FragmentList) (a : Arrival) (rest : List Arrival)
    → length d ≤ 65535
    → Pending d fl (a ∷ rest)
    → Pending d (add_fragment a.more a.frag a.now fl) rest
Pending-step d fl a rest h p =
    let g = Genuine-IsFragment d a.more a.frag h p.genuine.0 in
    let chain = p.flow.flow.chain in
    let added = place_disjoint none a.frag fl.frags g (omega arith) chain p.clear.0 in
    record {
      flow = add_fragment-FlowOf d a.more a.frag a.now fl h p.genuine.0 p.flow;
      genuine = p.genuine.1;
      clear =
          rw (add_fragment-frags a.more a.frag a.now fl)
            (clear_step d a fl.frags rest g chain p.apart.0 p.clear.1);
      apart = p.apart.1;
      whole = omega (arith, p.whole, added, add_fragment-current a.more a.frag a.now fl);
      final = ground (arith, p.final, add_fragment-final a.more a.frag a.now fl);
    }

-- The last fragment completes the flow, and none before it does.
Pending-complete : (d : Bytes) (fl : FragmentList) → Pending d fl [] → is_complete fl ≡ true
Pending-complete d fl p = ground (arith, p.final, p.whole, p.flow.final)

Pending-incomplete :
    (d : Bytes) (fl : FragmentList) (a : Arrival) (rest : List Arrival)
    → Pending d fl (a ∷ rest)
    → is_complete fl ≡ false
Pending-incomplete d fl a rest p = ground (arith, p.whole, p.genuine.0.nonempty, p.flow.final)

deliver_known :
    (d : Bytes) (r : Reassembler) (key : FragmentKey) (fl : FragmentList) (a : Arrival)
    (rest : List Arrival)
    → length d ≤ 65535
    → length d ≤ r.config.max_reassemble_size
    → lookup key r.flows ≡ some fl
    → length fl.frags + length (a ∷ rest) ≤ r.config.max_fragments
    → length fl.frags + length (a ∷ rest) ≤ ipv4_max_frag_list_len
    → Pending d fl (a ∷ rest)
    → (deliver r key (a ∷ rest)).1 ≡ replicate (length rest) incomplete ++ complete d ∷ []
unfolding deliver
deliver_known d r key fl a [] h size e few short p =
    let fl' = add_fragment a.more a.frag a.now fl in
    let p' = Pending-step d fl a [] h p in
    let done = Pending-complete d fl' p' in
    ap (λ (o : Outcome). o ∷ [])
      (ap (λ (q : Reassembler × Outcome). q.1) (receive_known r key fl a.more a.frag a.now e)
        ∙ update_flow-outcome r key fl a.more a.frag a.now (omega arith) (omega arith)
        ∙ ground (arith, done, FlowOf-build r.config d fl' p'.flow done size))
deliver_known d r key fl a (b ∷ rest) h size e few short p =
    let fl' = add_fragment a.more a.frag a.now fl in
    let p' = Pending-step d fl a (b ∷ rest) h p in
    let step : receive r key a.more a.frag a.now ≡ (store_flow r key fl', incomplete) =
      receive_known r key fl a.more a.frag a.now e
      ∙ update_flow_within r key fl a.more a.frag a.now (omega arith) (omega arith)
      ∙ ground (arith, Pending-incomplete d fl' b rest p') in
    let grown : length fl'.frags ≤ length fl.frags + 1 =
      rw (add_fragment-frags a.more a.frag a.now fl) (length-place-le none a.frag fl.frags) in
    let same : (store_flow r key fl').config ≡ r.config = unfold store_flow in refl in
    let few' : length fl'.frags + length (b ∷ rest) ≤ (store_flow r key fl').config.max_fragments =
      rw same (omega arith) in
    let later =
      deliver_known d (store_flow r key fl') key fl' b rest h (rw same size)
        (lookup-store_flow r key fl') few' (omega arith) p' in
    rw step (ap (λ (os : List Outcome). incomplete ∷ os) later)

-- Fragment a datagram, of at most 65535 bytes and of the configured size, into pieces that do
-- not overlap, no more than the two limits of a flow allow, and give them in any order to `receive`,
-- which is `Process` behind its checks and the rate limiter, of a reassembler that has no such
-- flow yet: every piece but the last is answered by "not yet", and the last one by the datagram.
pub deliver-Tiling :
    (d : Bytes) (r : Reassembler) (key : FragmentKey) (a : Arrival) (rest : List Arrival)
    → length d ≤ 65535
    → length d ≤ r.config.max_reassemble_size
    → lookup key r.flows ≡ none
    → length (a ∷ rest) ≤ r.config.max_fragments
    → length (a ∷ rest) ≤ ipv4_max_frag_list_len
    → Tiling d (a ∷ rest)
    → (deliver r key (a ∷ rest)).1 ≡ replicate (length rest) incomplete ++ complete d ∷ []
unfolding deliver
deliver-Tiling d r key a rest h size e few short t =
    let here : lookup key (created r key).flows ≡ some empty_list =
      rw (lookup-insert key key empty_list r.flows, beq_refl key) in
    ap (λ (p : Reassembler × Outcome). p.1 ∷ (deliver p.0 key rest).1)
      (receive_new r key a.more a.frag a.now e
        ∙ sym (receive_known (created r key) key empty_list a.more a.frag a.now here))
    ∙ deliver_known d (created r key) key empty_list a rest h size here (omega arith) (omega arith)
        (record {
          flow = empty_list-FlowOf d;
          genuine = t.genuine;
          clear = clear_empty (a ∷ rest);
          apart = t.apart;
          whole = omega (arith, t.whole);
          final = inr t.final;
        })
