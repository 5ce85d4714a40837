-- ===== src/Decoder/Reassembly/Delivery.antt =====
-- Packets of one datagram given to the reassembler (internal/core/decoder/reassembly.go) in any order,
-- with repetitions and overlaps.
use mathlib.Core.Path.{subst}
use otus.Core.{reassembled_too_large, list_too_long, too_many_fragments}
use otus.Decoder.Reassembly.Steps.{receive_new, created, receive_known}
use otus.Decoder.Reassembly.Datagram.{
  FlowOf, Genuine, add_fragment-FlowOf, empty_list-FlowOf, FlowOf-build,
}
use otus.Base.{
  ◌≡◌, Bool, Bytes, Option, ℕ, List, some, lookup, ◌∷◌, [], none, lookup-insert, length,
  Option-cases, beq_refl, true, ◌≤◌, inl, All, inr, ◌<◌, lookup-delete, arith, le_or_lt, sym, refl,
}
use otus.Decoder.Fragments.{Fragment, FragmentKey, FragmentList, fragment_key_eq, empty_list}
use otus.Decoder.Reassembly.{
  receive, Reassembler, evict_flow, store_flow, ReassemblyConfig, update_flow, Outcome, complete,
  after_build, failed, is_complete, incomplete, panicked, build, add_fragment,
}

pub record Arrival : Type 0 where
  pub more : Bool
  pub frag : Fragment
  pub now : ℕ

-- The outcomes of a sequence of packets of one flow.
unfoldable pub deliver : Reassembler → FragmentKey → List Arrival → Reassembler × List Outcome
deliver r key [] = (r, [])
deliver r key (a ∷ as') =
    let (r', o) = receive r key a.more a.frag a.now in
    let (r'', os) = deliver r' key as' in (r'', o ∷ os)

-- The flow of the key, if there is one, holds bytes of `d` only.
abbrev pub FlowAt : Bytes → Option FragmentList → Type 0
FlowAt d none = Unit
FlowAt d (some fl) = FlowOf d fl

-- No panic, and no other datagram than `d`.
abbrev pub Fair : Bytes → Outcome → Type 0
Fair d (complete b) = b ≡ d
Fair d incomplete = Unit
Fair d (failed e) = Unit
Fair d panicked = ⊥

pub record Sound (d : Bytes) (key : FragmentKey) (p : Reassembler × Outcome) : Type 0 where
  pub flow : FlowAt d (lookup key p.0.flows)
  pub fair : Fair d p.1

pub lookup-evict_flow :
    (r : Reassembler) (key : FragmentKey) → lookup key (evict_flow r key).flows ≡ none
unfolding evict_flow
lookup-evict_flow r key = elim (Option-cases (lookup key r.flows)) [
  | inl e ↦ rw (e, evict_flow) e
  | inr (fl, e) ↦ rw (e, evict_flow) (rw (lookup-delete key key r.flows, beq_refl key))
]

pub lookup-store_flow :
    (r : Reassembler) (key : FragmentKey) (fl : FragmentList)
    → lookup key (store_flow r key fl).flows ≡ some fl
unfolding store_flow
lookup-store_flow r key fl = rw (lookup-insert key key fl r.flows, beq_refl key)

evicted-Sound :
    (d : Bytes) (r : Reassembler) (key : FragmentKey) (o : Outcome)
    → Fair d o
    → Sound d key (evict_flow r key, o)
evicted-Sound d r key o f = record { flow = rw (lookup-evict_flow r key) tt; fair = f }

after_build-Sound :
    (d : Bytes) (r : Reassembler) (key : FragmentKey) (fl : FragmentList) (o : Outcome)
    → Fair d o
    → Sound d key (after_build r key fl o)
after_build-Sound d r key fl panicked f = absurd f
after_build-Sound d r key fl (complete b) f = evicted-Sound d r key (complete b) f
after_build-Sound d r key fl incomplete f = evicted-Sound d r key incomplete f
after_build-Sound d r key fl (failed e) f = evicted-Sound d r key (failed e) f

build-Fair :
    (cfg : ReassemblyConfig) (d : Bytes) (fl : FragmentList)
    → FlowOf d fl
    → is_complete fl ≡ true
    → Fair d (build cfg fl)
build-Fair cfg d fl v done = elim (le_or_lt fl.highest cfg.max_reassemble_size) [
  | inl fits ↦
      let e = FlowOf-build cfg d fl v done (ground (arith, v.final)) in subst (Fair d) (sym e) refl
  | inr big ↦ rw (build_too_large cfg fl big) tt
]
  where
    build_too_large :
        (cfg : ReassemblyConfig) (fl : FragmentList)
        → cfg.max_reassemble_size < fl.highest
        → build cfg fl ≡ failed reassembled_too_large
    build_too_large cfg fl h = unfold build in ground arith

update_flow-Sound :
    (d : Bytes) (r : Reassembler) (key : FragmentKey) (fl : FragmentList) (more : Bool)
    (f : Fragment) (now : ℕ)
    → length d ≤ 65535
    → Genuine d more f
    → FlowOf d fl
    → Sound d key (update_flow r key fl more f now)
unfolding update_flow
update_flow-Sound d r key fl more f now h g v =
    let fl' = add_fragment more f now fl in
    let v' = add_fragment-FlowOf d more f now fl h g v in
    let stored : Sound d key (store_flow r key fl', incomplete) = record {
      flow = rw (lookup-store_flow r key fl') v';
      fair = tt;
    } in
    ground (
      arith,
      evicted-Sound d r key (failed list_too_long) tt,
      evicted-Sound d r key (failed too_many_fragments) tt,
      λ (done : is_complete fl' ≡ true).
          after_build-Sound d r key fl' (build r.config fl') (build-Fair r.config d fl' v' done),
      stored,
    )

receive-Sound :
    (d : Bytes) (r : Reassembler) (key : FragmentKey) (more : Bool) (f : Fragment) (now : ℕ)
    → length d ≤ 65535
    → Genuine d more f
    → FlowAt d (lookup key r.flows)
    → Sound d key (receive r key more f now)
receive-Sound d r key more f now h g v = elim (Option-cases (lookup key r.flows)) [
  | inl e ↦
      rw (receive_new r key more f now e)
        (update_flow-Sound d (created r key) key empty_list more f now h g (empty_list-FlowOf d))
  | inr (fl, e) ↦
      rw (receive_known r key fl more f now e)
        (update_flow-Sound d r key fl more f now h g (subst (FlowAt d) e v))
]

-- Whatever order the fragments of a datagram of at most 65535 bytes come in, repeated and
-- overlapping as they may be, to a reassembler whose flow for them, if any, holds bytes of the
-- datagram only: each packet is answered by the whole datagram, by "not yet", or by an error,
-- never by other bytes, and never by a panic.
pub deliver-Fair :
    (d : Bytes) (r : Reassembler) (key : FragmentKey) (arrivals : List Arrival)
    → length d ≤ 65535
    → FlowAt d (lookup key r.flows)
    → All (λ (a : Arrival). Genuine d a.more a.frag) arrivals
    → All (Fair d) (deliver r key arrivals).1
unfolding deliver
deliver-Fair d r key [] h v g = tt
deliver-Fair d r key (a ∷ as') h v g =
    let s = receive-Sound d r key a.more a.frag a.now h g.0 v in
    (s.fair, deliver-Fair d (receive r key a.more a.frag a.now).0 key as' h s.flow g.1)
