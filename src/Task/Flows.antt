-- ===== src/Task/Flows.antt =====
-- internal/task/flow_registry.go: the flow state that the pipelines of a task share. The `sync.Map` is a
-- map, the atomic counter a 64-bit word. A callback of `Range` is a function on the caller's state.
pub mod Refinement
use otus.Base.{
  ℕ, ◌%◌, ◌+◌, Dict, [], Option, insert, delete, Bool, List, Distinct, lookup, ◌∷◌, if◌then◌else◌,
  ◌≡◌, none, ◌=?◌, length, some,
}
use otus.Core.{FlowKey, flow_key_eq}

abbrev pub u64 : ℕ → ℕ
u64 n = n % 18446744073709551616

-- `count.Add(1)` and `count.Add(-1)`
abbrev pub bump : ℕ → ℕ
bump n = u64 (n + 1)

abbrev pub unbump : ℕ → ℕ
unbump n = u64 (n + 18446744073709551615)

pub record FlowRegistry {ℓ} (V : Type ℓ) : Type ℓ where
  pub flows : Dict FlowKey V
  pub count : ℕ

module _ {ℓ} {V : Type ℓ} where
  unfoldable pub new_flow_registry : FlowRegistry V
  new_flow_registry = record { flows = []; count = 0 }

  unfoldable pub get : FlowRegistry V → FlowKey → Option V
  get r key = lookup key r.flows

  unfoldable pub set : FlowRegistry V → FlowKey → V → FlowRegistry V
  set r key value = record {
    flows = insert key value r.flows;
    count = elim (lookup key r.flows) [ none ↦ bump r.count | some _ ↦ r.count ];
  }

  unfoldable pub delete_flow : FlowRegistry V → FlowKey → FlowRegistry V
  delete_flow r key = record {
    flows = delete key r.flows;
    count = elim (lookup key r.flows) [ none ↦ r.count | some _ ↦ unbump r.count ];
  }

  unfoldable pub count_flows : FlowRegistry V → ℕ
  count_flows r = r.count

  -- The callback of `Clear`: the counter goes down whether or not the entry is still there.
  unfoldable pub clear_entry : FlowRegistry V → FlowKey → FlowRegistry V
  clear_entry r key = record { flows = delete key r.flows; count = unbump r.count }

  unfoldable pub clear_entries : Dict FlowKey V → FlowRegistry V → FlowRegistry V
  clear_entries [] r = r
  clear_entries ((k, v) ∷ m) r = clear_entries m (clear_entry r k)

  unfoldable pub clear : FlowRegistry V → FlowRegistry V
  clear r = clear_entries r.flows r

-- The visits of `Range`, until the callback answers `false`.
module _ {ℓ κ} {V : Type ℓ} {S : Type κ} (f : FlowKey → V → S → S × Bool) where
  unfoldable pub visit : Dict FlowKey V → S → S
  visit [] s = s
  visit ((k, v) ∷ m) s =
      let (s', more) = f k v s in let rest = visit m s' in if more then rest else s'

  unfoldable pub range : FlowRegistry V → S → S
  range r s = visit r.flows s

-- The operations that change the registry.
pub data Op {ℓ} (V : Type ℓ) : Type ℓ where
  set_op : FlowKey → V → Op V
  delete_op : FlowKey → Op V
  clear_op : Op V

module _ {ℓ} {V : Type ℓ} where
  unfoldable pub apply : FlowRegistry V → Op V → FlowRegistry V
  apply r (set_op k v) = set r k v
  apply r (delete_op k) = delete_flow r k
  apply r clear_op = clear r

  unfoldable pub apply_all : FlowRegistry V → List (Op V) → FlowRegistry V
  apply_all r [] = r
  apply_all r (op ∷ ops) = apply_all (apply r op) ops

  -- The abstract registry: a function from keys, changed at a point or made empty.
  unfoldable pub spec : (FlowKey → Option V) → Op V → FlowKey → Option V
  spec m (set_op k v) j = if k =? j then some v else m j
  spec m (delete_op k) j = if k =? j then none else m j
  spec m clear_op j = none

  unfoldable pub spec_all : (FlowKey → Option V) → List (Op V) → FlowKey → Option V
  spec_all m [] = m
  spec_all m (op ∷ ops) = spec_all (spec m op) ops

  -- Every key once, and the counter is the number of flows, as a 64-bit word.
  abbrev pub Counted : FlowRegistry V → Type ℓ
  Counted r = Distinct r.flows × (r.count ≡ u64 (length r.flows))
