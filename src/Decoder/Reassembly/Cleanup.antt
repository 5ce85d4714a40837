-- ===== src/Decoder/Reassembly/Cleanup.antt =====
-- `cleanup` of internal/core/decoder/reassembly.go, and whole runs of packets and ticks.
use otus.Decoder.Reassembly.Chain.{IsFlow}
use otus.Decoder.RateLimiter.{second}
use otus.Decoder.Fragments.{FragmentKey, FragmentList, fragment_key_eq, fragment_key_beq_iff}
use otus.Decoder.Reassembly.{
  sweep, cleanup, Reassembler, ReassemblyConfig, process, new_reassembler,
}
use otus.Base.{
  ◌≡◌, Bytes, lookup, ℕ, List, Dict, ◌*◌, ◌∷◌, [], none, Distinct, Every, length, arith, ◌≤◌, some,
  refl, if◌then◌else◌, ltb, ◌-◌, ap,
}
use otus.Decoder.Reassembly.Invariant.{Inv, process-Inv, new_reassembler-Inv}

sweep-keys :
    (timeout now : ℕ) (k : FragmentKey) (m : Dict FragmentKey FragmentList)
    → lookup k m ≡ none
    → lookup k (sweep timeout now m) ≡ none
unfolding sweep lookup
sweep-keys timeout now k [] e = refl
sweep-keys timeout now k ((j, fl) ∷ m) e = ground (arith, sweep-keys timeout now k m)

sweep-Distinct :
    (timeout now : ℕ) (m : Dict FragmentKey FragmentList)
    → Distinct m
    → Distinct (sweep timeout now m)
unfolding sweep
sweep-Distinct timeout now [] d = tt
sweep-Distinct timeout now ((k, fl) ∷ m) d =
    ground (arith, sweep-Distinct timeout now m d.1, sweep-keys timeout now k m d.0)

sweep-IsFlow :
    (timeout now : ℕ) (m : Dict FragmentKey FragmentList)
    → Every IsFlow m
    → Every IsFlow (sweep timeout now m)
unfolding sweep
sweep-IsFlow timeout now [] a = tt
sweep-IsFlow timeout now ((k, fl) ∷ m) a = ground (arith, sweep-IsFlow timeout now m a.1)

length-sweep-le :
    (timeout now : ℕ) (m : Dict FragmentKey FragmentList) → length (sweep timeout now m) ≤ length m
unfolding sweep
length-sweep-le timeout now [] = omega arith
length-sweep-le timeout now ((k, fl) ∷ m) = ground (arith, length-sweep-le timeout now m)

pub cleanup-Inv : (r : Reassembler) (now : ℕ) → Inv r → Inv (cleanup r now)
unfolding cleanup
cleanup-Inv r now v =
    let timeout = r.config.timeout * second in
    record {
      keys = sweep-Distinct timeout now r.flows v.keys;
      flows = sweep-IsFlow timeout now r.flows v.flows;
      gauge = omega (arith, v.gauge, length-sweep-le timeout now r.flows);
    }

-- For flows under different keys, the sweep removes exactly those that were last seen longer ago
-- than the timeout, and leaves every other one as it is.
pub sweep-lookup :
    (timeout now : ℕ) (k : FragmentKey) (m : Dict FragmentKey FragmentList)
    → Distinct m
    → lookup k (sweep timeout now m) ≡ elim (lookup k m) [
      | none ↦ none
      | some fl ↦ if ltb timeout (now - fl.last_seen) then none else some fl
    ]
unfolding sweep lookup
sweep-lookup timeout now k [] d = refl
sweep-lookup timeout now k ((j, fl) ∷ m) d = ground (
  arith,
  fragment_key_beq_iff j k,
  sweep-lookup timeout now k m d.1,
  ap (λ i. lookup i m) {x = j} {y = k},
)

-- The packets that arrive and the ticks of the cleanup, in any order.
pub data Event : Type 0 where
  packet : Bytes → ℕ → Event
  tick : ℕ → Event

unfoldable pub handle : Reassembler → Event → Reassembler
handle r (packet bs now) = (process r bs now).0
handle r (tick now) = cleanup r now

unfoldable pub run : Reassembler → List Event → Reassembler
run r [] = r
run r (e ∷ es) = run (handle r e) es

handle-Inv : (r : Reassembler) (e : Event) → Inv r → Inv (handle r e)
unfolding handle
handle-Inv r (packet bs now) v = process-Inv r bs now v
handle-Inv r (tick now) v = cleanup-Inv r now v

run-Inv : (r : Reassembler) (es : List Event) → Inv r → Inv (run r es)
unfolding run
run-Inv r [] v = v
run-Inv r (e ∷ es) v = run-Inv (handle r e) es (handle-Inv r e v)

-- From a new reassembler, after any packets and any ticks of the cleanup in any order: the keys of
-- the flows are distinct, every fragment list is sorted, without overlap and exactly counted by
-- `current`, and the gauge of active flows is the number of flows.
pub run_new-Inv :
    (cfg : ReassemblyConfig) (start : ℕ) (es : List Event)
    → Inv (run (new_reassembler cfg start) es)
run_new-Inv cfg start es = run-Inv _ es (new_reassembler-Inv cfg start)
