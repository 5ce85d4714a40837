-- ===== src/Examples/Tasks.antt =====
-- internal/task on small tasks.
use otus.Task.Stats.{
  CapStats, collect_all, new_collector, all_received, all_dropped, collect_all-sums, last_tick,
  zero_stats,
}
use otus.Task.Lifecycle.Closing.{closes, send_buffer}
use otus.Task.Flows.Refinement.{clear_entry-drifts, new-refines}
use otus.Task.Lifecycle.Faults.{failed_forever, start-rollback, stop_reaches, IsShutdown}
use otus.Task.Wrapper.Delivery.{to_primary, batch_loop-delivers}
use otus.Task.Wrapper.{
  WrapperConfig, Wrapper, Event, Call, batch_loop, received, Target, ticked, new_reporter_wrapper,
}
use otus.Task.Flows.{
  FlowRegistry, count_flows, get, clear_entry, apply_all, delete_flow, new_flow_registry, set_op,
  u64, delete_op, spec_all, Counted, Op, clear_op,
}
use otus.Core.{FlowKey, zero_addr}
use otus.Task.Lifecycle.Safety.{closes_once}
use otus.Base.{
  ℕ, Bool, ◌<◌, ◌≡◌, List, ◌==◌, true, some, [], ◌∷◌, arith, ◌++◌, ◌≤◌, none, ◌⊎◌, ◌≢◌, not, refl,
  false, length, lookup,
}
use otus.Task.Lifecycle.{
  Task, running, failed, stopped, binding_mode, Steps, step, done, new_task, start, begin_stop,
  reporter_start_failed, start_reporter, begin_stop_step, from_up, stop_reporter, from_down, Action,
}

abbrev two_reporters : Task
two_reporters = new_task binding_mode 2 2 2 2

abbrev first_only : ℕ → Bool
first_only i = i == 0

first_only-before : (j : ℕ) → j < 1 → first_only j ≡ true
first_only-before j h = ground arith

start-rollback_example : start first_only two_reporters ≡ (
  record two_reporters {
    state = failed;
    failure_reason = some (reporter_start_failed 1);
    actions = start_reporter 0 ∷ start_reporter 1 ∷ stop_reporter 0 ∷ [];
  },
  false,
)
unfolding new_task from_up from_down
start-rollback_example =
    start-rollback first_only two_reporters 1 refl first_only-before refl (omega arith)

abbrev running_task : Task
running_task = record two_reporters { state = running; capturing = 1 }

abbrev failed_task : Task
failed_task = record two_reporters { state = failed; capturing = 1 }

failed_forever_example :
    ((begin_stop failed_task).0.state ≡ failed) × ((begin_stop failed_task).0.actions ≡ [])
unfolding new_task
failed_forever_example = failed_forever failed_task (begin_stop failed_task).0 refl refl (
    step failed_task (begin_stop failed_task).0 (begin_stop failed_task).0
      (begin_stop_step failed_task) (done (begin_stop failed_task).0))

stop_reaches_example :
    (u : Task) × Steps running_task u
    × (u.state ≡ stopped)
    × ((calls : List Action) × (u.actions ≡ [] ++ calls) × IsShutdown running_task calls)
unfolding from_up new_task
stop_reaches_example = stop_reaches running_task refl

closes_once_example :
    (closes send_buffer two_reporters.actions ≤ 1)
    × ((closes send_buffer two_reporters.actions ≡ 0)
        ⊎ ((two_reporters.state ≡ stopped) × (two_reporters.capturing ≡ 0)))
closes_once_example =
    closes_once binding_mode 2 2 2 2 two_reporters send_buffer (done two_reporters)

abbrev some_flow : FlowKey
some_flow = record {
  src_ip = zero_addr;
  dst_ip = zero_addr;
  src_port = 1;
  dst_port = 2;
  proto = 17;
}

abbrev some_ops : List (Op ℕ)
some_ops = set_op some_flow 3 ∷ delete_op some_flow ∷ clear_op ∷ []

new-refines_example :
    ((j : FlowKey) → get (apply_all new_flow_registry some_ops) j ≡ spec_all (λ _. none) some_ops j)
    × Counted (apply_all new_flow_registry some_ops)
new-refines_example = new-refines some_ops

abbrev one_flow : FlowRegistry ℕ
one_flow = record { flows = (some_flow, 3) ∷ []; count = 1 }

clear_entry-drifts_example :
    count_flows (clear_entry (delete_flow one_flow some_flow) some_flow)
    ≢ u64 (length (clear_entry (delete_flow one_flow some_flow) some_flow).flows)
unfolding lookup
clear_entry-drifts_example = clear_entry-drifts one_flow some_flow ((refl, tt), refl)

abbrev small_wrapper : WrapperConfig
small_wrapper = record { has_fallback = true; batch_size = some 2; batch_timeout = none }

abbrev some_events : List (Event ℕ)
some_events = received 1 ∷ received 2 ∷ ticked ∷ received 3 ∷ []

-- The primary reporter fails on packet 2.
abbrev fails_on_two : List (Call ℕ) → Target → ℕ → Bool
fails_on_two calls target p = not (p == 2)

batch_loop-delivers_example :
    to_primary (batch_loop fails_on_two none (new_reporter_wrapper small_wrapper) some_events).calls
    ≡ 1 ∷ 2 ∷ 3 ∷ []
batch_loop-delivers_example = batch_loop-delivers fails_on_two none small_wrapper some_events

abbrev full_wrapper : Wrapper ℕ
full_wrapper = record {
  has_fallback = true;
  batch_size = 2;
  batch_timeout = 1;
  batch = 1 ∷ 2 ∷ [];
  calls = [];
}

abbrev some_ticks : List (List CapStats)
some_ticks =
    (record { packets_received = 5; packets_dropped = 0 } ∷ [])
    ∷ (record { packets_received = 9; packets_dropped = 2 } ∷ [])
    ∷ []

collect_all-sums_example :
    ((collect_all (new_collector 1) some_ticks).added_received
      ≡ all_received (last_tick (zero_stats ∷ []) some_ticks))
    × ((collect_all (new_collector 1) some_ticks).added_dropped
        ≡ all_dropped (last_tick (zero_stats ∷ []) some_ticks))
collect_all-sums_example = collect_all-sums 1 some_ticks (
  (omega arith, omega arith, omega arith, omega arith, tt),
  ((omega arith, omega arith, omega arith, omega arith, tt), tt),
)
