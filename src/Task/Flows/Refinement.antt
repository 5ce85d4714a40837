-- ===== src/Task/Flows/Refinement.antt =====
-- internal/task/flow_registry.go: the registry as an abstract map, and its counter.
use otus.Base.{
  ℕ, delete, Dict, Option, List, Option-cases, lookup, Distinct, ◌≡◌, ◌≢◌, inl, none, lookup-insert,
  ◌∷◌, [], arith, length, lookup-delete, ◌∙◌, Distinct-insert, Distinct-delete, refl,
  length-insert_new, ap, delete_absent, inr, length-insert_old, length-delete,
}
use otus.Core.{FlowKey, flow_key_eq}
use otus.Task.Flows.{
  FlowRegistry, set, delete_flow, clear_entries, clear, apply, spec, spec_all, apply_all,
  new_flow_registry, clear_entry, Counted, Op, get, count_flows, set_op, u64, delete_op, clear_op,
  unbump,
}

module _ {ℓ} {V : Type ℓ} where
  set-Counted : (r : FlowRegistry V) (k : FlowKey) (v : V) → Counted r → Counted (set r k v)
  unfolding set
  set-Counted r k v c = elim (Option-cases (lookup k r.flows)) [
    | inl new ↦
        ground (arith, Distinct-insert k v r.flows c.0, length-insert_new k v r.flows new, c)
    | inr (w, old) ↦
        ground (arith, Distinct-insert k v r.flows c.0, length-insert_old k v w r.flows old, c)
  ]

  delete-Counted : (r : FlowRegistry V) (k : FlowKey) → Counted r → Counted (delete_flow r k)
  unfolding delete_flow
  delete-Counted r k c = elim (Option-cases (lookup k r.flows)) [
    | inl missing ↦
        ground
          (arith, Distinct-delete k r.flows c.0, ap length (delete_absent k r.flows missing), c)
    | inr (w, there) ↦
        ground (arith, Distinct-delete k r.flows c.0, length-delete k w r.flows c.0 there, c)
  ]

  delete_head :
      (k : FlowKey) (v : V) (m : Dict FlowKey V) → lookup k m ≡ none → delete k ((k, v) ∷ m) ≡ m
  unfolding delete
  delete_head k v m h = ground (arith, flow_key_eq.beq_iff k k, delete_absent k m h)

  clear_entries-all :
      (m : Dict FlowKey V) (n : ℕ)
      → Distinct m
      → n ≡ u64 (length m)
      → clear_entries m (record { flows = m; count = n }) ≡ record { flows = []; count = 0 }
  unfolding clear_entries clear_entry
  clear_entries-all [] n d e = rw e
  clear_entries-all ((k, v) ∷ m) n d e =
      rw (delete_head k v m d.0) (clear_entries-all m (unbump n) d.1 (omega arith))

  clear-new : (r : FlowRegistry V) → Counted r → clear r ≡ new_flow_registry
  unfolding clear new_flow_registry
  clear-new r c = clear_entries-all r.flows r.count c.0 c.1

  apply-Counted : (r : FlowRegistry V) (op : Op V) → Counted r → Counted (apply r op)
  unfolding apply
  apply-Counted r (set_op k v) c = set-Counted r k v c
  apply-Counted r (delete_op k) c = delete-Counted r k c
  apply-Counted r clear_op c = rw (clear-new r c) (unfold new_flow_registry in (tt, refl))

  apply-spec :
      (r : FlowRegistry V) (op : Op V) (j : FlowKey)
      → Counted r
      → get (apply r op) j ≡ spec (get r) op j
  unfolding apply spec get
  apply-spec r (set_op k v) j c = unfold set in lookup-insert k j v r.flows
  apply-spec r (delete_op k) j c = unfold delete_flow in lookup-delete k j r.flows
  apply-spec r clear_op j c = rw (clear-new r c) (unfold new_flow_registry lookup in refl)

  spec-ext :
      (m n : FlowKey → Option V) (op : Op V)
      → ((k : FlowKey) → m k ≡ n k)
      → (k : FlowKey) → spec m op k ≡ spec n op k
  unfolding spec
  spec-ext m n (set_op i v) h k = rw (h k)
  spec-ext m n (delete_op i) h k = rw (h k)
  spec-ext m n clear_op h k = refl

  spec_all-ext :
      (m n : FlowKey → Option V) (ops : List (Op V)) (j : FlowKey)
      → ((k : FlowKey) → m k ≡ n k)
      → spec_all m ops j ≡ spec_all n ops j
  unfolding spec_all
  spec_all-ext m n [] j h = h j
  spec_all-ext m n (op ∷ ops) j h = spec_all-ext (spec m op) (spec n op) ops j (spec-ext m n op h)

  apply_all-spec :
      (r : FlowRegistry V) (ops : List (Op V))
      → Counted r
      → Counted (apply_all r ops)
        × ((j : FlowKey) → get (apply_all r ops) j ≡ spec_all (get r) ops j)
  unfolding apply_all spec_all
  apply_all-spec r [] c = (c, λ j. refl)
  apply_all-spec r (op ∷ ops) c =
      let rest = apply_all-spec (apply r op) ops (apply-Counted r op c) in
      (
        rest.0,
        λ j.
            rest.1 j
            ∙ spec_all-ext (get (apply r op)) (spec (get r) op) ops j (λ k. apply-spec r op k c),
      )

  -- After any operations on a new registry, `Get` reads what the same operations make of the empty
  -- map, every flow is stored once, and `Count` is the number of flows modulo 2^64.
  pub new-refines :
      (ops : List (Op V))
      → ((j : FlowKey) → get (apply_all new_flow_registry ops) j ≡ spec_all (λ _. none) ops j)
        × Counted (apply_all new_flow_registry ops)
  unfolding new_flow_registry get lookup
  new-refines ops =
      let all = apply_all-spec new_flow_registry ops (tt, refl) in
      (λ j. all.1 j ∙ spec_all-ext (get new_flow_registry) (λ _. none) ops j (λ k. refl), all.0)

  -- If, in a registry whose counter is right, another goroutine deletes a flow after the `Range`
  -- of `Clear` has handed it out, the counter is no longer the number of flows.
  pub clear_entry-drifts :
      (r : FlowRegistry V) (k : FlowKey)
      → Counted r
      → count_flows (clear_entry (delete_flow r k) k)
        ≢ u64 (length (clear_entry (delete_flow r k) k).flows)
  unfolding clear_entry count_flows
  clear_entry-drifts r k c e =
      let own = delete-Counted r k c in
      let gone : lookup k (delete_flow r k).flows ≡ none =
        unfold delete_flow in ground (arith, lookup-delete k k r.flows, flow_key_eq.beq_iff k k) in
      ground (arith, own, ap length (delete_absent k (delete_flow r k).flows gone))
