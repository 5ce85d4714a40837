-- ===== src/Task/Lifecycle/Faults.antt =====
-- internal/task/task.go: a start that fails, a capturer that fails, and a stop that gets through.
use mathlib.Core.List.{append_assoc}
use mathlib.Core.Path.{subst}
use otus.Base.{
  ℕ, ◌≡◌, Bool, false, true, ◌<◌, arith, ◌+◌, some, ◌∙◌, ◌++◌, refl, suc, ◌∷◌, ap, sym,
  if◌then◌else◌, zero, List, length, [],
}
use otus.Task.Lifecycle.{
  Task, Step, running, failed, stopped, created, stopping, start_step, begin_stop_step,
  finish_stop_step, pause_step, resume_step, capture_step, done, step, start_reporters, start,
  from_up, Steps, begin_stop, start_reporter, reporter_start_failed, pause, close_inputs, resume,
  close_send_buffer, from_down, capture_returns, stop_reporter, cancel_context, stop_reporters,
  finish_stop, started, is_created, stop_capturer, is_running, Action, flush_reporter, DispatchMode,
  close_capture_ch, binding_mode, close_raw_streams, dispatch_mode, other_mode,
}

start_reporters-fail :
    (starts : ℕ → Bool) (i k n : ℕ)
    → ((j : ℕ) → j < i + k → starts j ≡ true)
    → starts (i + k) ≡ false
    → k < n
    → start_reporters starts i n
      ≡ (from_up start_reporter i (suc k) ++ from_down stop_reporter (i + k), some (i + k))
unfolding start_reporters from_up
start_reporters-fail starts i k zero before at_k h = absurd (omega arith)
start_reporters-fail starts i zero (suc n) before at_k h =
    let same : i + 0 ≡ i = omega arith in
    let bad : starts i ≡ false = ap starts (sym same) ∙ at_k in rw (same, bad) refl
start_reporters-fail starts i (suc k) (suc n) before at_k h =
    let same : i + suc k ≡ suc i + k = omega arith in
    let good : starts i ≡ true = before i (omega arith) in
    let rest =
      start_reporters-fail starts (suc i) k n (λ j l. before j (omega arith))
        (ap starts (sym same) ∙ at_k) (omega arith) in
    rw (good, rest, same) refl

-- If reporter `k` of a created task is the first that does not start, `Start` fails: the
-- reporters before it were started in order and are stopped in the reverse order, and nothing
-- else of the task was started.
pub start-rollback :
    (starts : ℕ → Bool) (t : Task) (k : ℕ)
    → t.state ≡ created
    → ((j : ℕ) → j < k → starts j ≡ true)
    → starts k ≡ false
    → k < t.reporters
    → start starts t ≡ (
      record t {
        state = failed;
        failure_reason = some (reporter_start_failed k);
        actions = t.actions ++ (from_up start_reporter 0 (suc k) ++ from_down stop_reporter k);
      },
      false,
    )
unfolding start
start-rollback starts t k new before at_k h =
    let zero_k : 0 + k ≡ k = omega arith in
    let fails =
      subst
        (λ (x : ℕ).
          start_reporters starts 0 t.reporters
          ≡ (from_up start_reporter 0 (suc k) ++ from_down stop_reporter x, some x))
        zero_k
        (start_reporters-fail starts 0 k t.reporters (λ j l. before j (omega (arith, l)))
          (ap starts zero_k ∙ at_k) h) in
    ap (λ (b : Bool). if b then started t (start_reporters starts 0 t.reporters) else (t, false))
      (ap is_created new)
    ∙ ap (started t) fails

-- Nothing that a task in `failed` does on its own or is asked to do changes it.
failed-Step :
    (t u : Task)
    → Step t u
    → t.state ≡ failed
    → t.in_stop ≡ false
    → (u.state ≡ failed) × (u.in_stop ≡ false) × (u.actions ≡ t.actions)
failed-Step t _ (start_step starts _) f i = unfold start in ground arith
failed-Step t _ (begin_stop_step _) f i = unfold begin_stop in ground arith
failed-Step t _ (finish_stop_step _ s n) f i = absurd (cc (s, i))
failed-Step t _ (pause_step _) f i = unfold pause in ground arith
failed-Step t _ (resume_step _) f i = unfold resume in ground arith
failed-Step t _ (capture_step clean _ n) f i = unfold capture_returns in ground arith

-- A task that failed while no `Stop` was under way stays failed, whatever is asked of it: `Stop` refuses,
-- so its reporters are never flushed or stopped, and its channels stay open.
pub failed_forever :
    (t u : Task)
    → t.state ≡ failed
    → t.in_stop ≡ false
    → Steps t u
    → (u.state ≡ failed) × (u.actions ≡ t.actions)
failed_forever t _ f i (done _) = (f, refl)
failed_forever t u f i (step _ v _ first rest) =
    let next = failed-Step t v first f i in
    let later = failed_forever v u next.0 next.1 rest in (later.0, later.1 ∙ next.2)

-- A `Stop` under way, once the capturers return.
drained :
    (n : ℕ) (t : Task)
    → t.in_stop ≡ true
    → t.capturing ≡ n
    → (u : Task) × Steps t u
      × (u.state ≡ stopped)
      × (u.actions
          ≡ t.actions
            ++ (close_inputs t
                ++ (close_send_buffer ∷ cancel_context ∷ stop_reporters 0 t.reporters)))
unfolding capture_returns close_inputs finish_stop
drained zero t i e = (
  finish_stop t,
  step t (finish_stop t) (finish_stop t) (finish_stop_step t i e) (done _),
  refl,
  refl,
)
drained (suc n) t i e =
    let next = capture_returns true t in
    let first = capture_step true t (omega arith) in
    let rest = drained n next i (omega arith) in
    (rest.0, step t next rest.0 first rest.1, rest.2, rest.3)

-- The channels from the source on: the capture channel is there in dispatch mode only.
abbrev pub inputs_closed : DispatchMode → List Action
inputs_closed dispatch_mode = close_capture_ch ∷ close_raw_streams ∷ []
inputs_closed binding_mode = close_raw_streams ∷ []
inputs_closed other_mode = close_raw_streams ∷ []

-- What a shutdown does, in its order, and to every reporter.
pub record IsShutdown (t : Task) (calls : List Action) : Type 0 where
  pub finish : List Action
  pub order :
      calls
      ≡ from_up stop_capturer 0 t.capturers
        ++ (inputs_closed t.mode ++ (close_send_buffer ∷ cancel_context ∷ finish))
  pub reporters_finish :
      (i : ℕ)
      → i < t.reporters
      → (before : List Action) × (after : List Action) × (finish
          ≡ before ++ flush_reporter i ∷ stop_reporter i ∷ after)
  pub finish_length : length finish ≡ t.reporters + t.reporters

stop_reporters-each :
    (i n k : ℕ)
    → k < n
    → (before : List Action) × (after : List Action) × (stop_reporters i n
        ≡ before ++ flush_reporter (i + k) ∷ stop_reporter (i + k) ∷ after)
unfolding stop_reporters
stop_reporters-each i zero k h = absurd (omega arith)
stop_reporters-each i (suc n) zero h = (
  [],
  stop_reporters (suc i) n,
  ap (λ j. flush_reporter j ∷ stop_reporter j ∷ stop_reporters (suc i) n) (omega arith),
)
stop_reporters-each i (suc n) (suc k) h =
    let (before, after, e) = stop_reporters-each (suc i) n k (omega arith) in
    let same : suc i + k ≡ i + suc k = omega arith in
    (
      flush_reporter i ∷ stop_reporter i ∷ before,
      after,
      ap (λ l. flush_reporter i ∷ stop_reporter i ∷ l)
          (e ∙ ap (λ j. before ++ flush_reporter j ∷ stop_reporter j ∷ after) same),
    )

length-stop_reporters : (i n : ℕ) → length (stop_reporters i n) ≡ n + n
unfolding stop_reporters
length-stop_reporters i zero = refl
length-stop_reporters i (suc n) = omega (arith, length-stop_reporters (suc i) n)

close_inputs-mode : (t : Task) (m : DispatchMode) → t.mode ≡ m → close_inputs t ≡ inputs_closed m
unfolding close_inputs
close_inputs-mode t binding_mode e = rw (e) refl
close_inputs-mode t dispatch_mode e = rw (e) refl
close_inputs-mode t other_mode e = rw (e) refl

-- A running task can be stopped: when its capturers return without an error, `Stop` gets through. It
-- stops every capturer, closes the channels from the source to the sender, cancels the context, and
-- then flushes every reporter and stops it right after, and does nothing else.
pub stop_reaches :
    (t : Task)
    → t.state ≡ running
    → (u : Task) × Steps t u
      × (u.state ≡ stopped)
      × ((calls : List Action) × (u.actions ≡ t.actions ++ calls) × IsShutdown t calls)
unfolding begin_stop close_inputs
stop_reaches t run =
    let stops = from_up stop_capturer 0 t.capturers in
    let next = record t { state = stopping; in_stop = true; actions = t.actions ++ stops } in
    let taken : (begin_stop t).0 ≡ next =
      ap (λ (b : Bool). (if◌then◌else◌ {A = Task × Bool} b (next, true) (t, false)).0)
        (ap is_running run) in
    let rest = drained t.capturing next refl refl in
    let first = subst (Step t) taken (begin_stop_step t) in
    let finish = stop_reporters 0 t.reporters in
    let calls = stops ++ (close_inputs t ++ (close_send_buffer ∷ cancel_context ∷ finish)) in
    (
      rest.0,
      step t next rest.0 first rest.1,
      rest.2,
      (
        calls,
        rest.3 ∙ append_assoc t.actions stops _,
        record {
          finish = finish;
          order =
              ap (λ l. stops ++ (l ++ (close_send_buffer ∷ cancel_context ∷ finish)))
                (close_inputs-mode t t.mode refl);
          reporters_finish = λ i h.
              let (before, after, e) = stop_reporters-each 0 t.reporters i h in
              let zero' : 0 + i ≡ i = omega arith in
              (
                before,
                after,
                e ∙ ap (λ j. before ++ flush_reporter j ∷ stop_reporter j ∷ after) zero',
              );
          finish_length = length-stop_reporters 0 t.reporters;
        },
      ),
    )
