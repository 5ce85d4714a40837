-- ===== src/Task/Lifecycle.antt =====
-- internal/task/task.go: the life of a task. A call of a plugin, a goroutine that starts and a channel
-- that closes are entries of `actions`. `Stop` gives up the lock while it waits, so it is two steps, and
-- a capturer may return between them; plugins that log their errors only are not asked for an answer.
pub mod Closing
pub mod Safety
pub mod Faults
use otus.Base.{
  ℕ, Bool, false, List, Option, none, [], ◌∷◌, ◌++◌, true, if◌then◌else◌, ◌≡◌, suc, some, ◌||◌, ◌<◌,
  zero, ◌-◌,
}

pub data TaskState : Type 0 where
  created starting running stopping stopped paused failed : TaskState

-- `Config.Capture.DispatchMode`: the two strings that the code compares with, and any other.
pub data DispatchMode : Type 0 where
  binding_mode dispatch_mode other_mode : DispatchMode

pub data Action : Type 0 where
  start_reporter stop_reporter flush_reporter start_wrapper : ℕ → Action
  go_pipeline go_capturer stop_capturer : ℕ → Action
  go_sender go_dispatcher go_stats : Action
  close_capture_ch close_raw_streams close_send_buffer cancel_context : Action
  pause_capturers pause_reporters pause_pipelines : Action
  resume_capturers resume_reporters resume_pipelines : Action

pub data Failure : Type 0 where
  reporter_start_failed : ℕ → Failure
  capturer_error : Failure

-- The numbers of plugins, the `captureWg` counter, whether `Stop` is under way, and the context.
pub record Task : Type 0 where
  pub mode : DispatchMode
  pub capturers : ℕ
  pub reporters : ℕ
  pub wrappers : ℕ
  pub pipelines : ℕ
  pub state : TaskState
  pub capturing : ℕ
  pub in_stop : Bool
  pub cancelled : Bool
  pub failure_reason : Option Failure
  pub actions : List Action

unfoldable pub new_task : DispatchMode → ℕ → ℕ → ℕ → ℕ → Task
new_task mode capturers reporters wrappers pipelines = record {
  mode = mode;
  capturers = capturers;
  reporters = reporters;
  wrappers = wrappers;
  pipelines = pipelines;
  state = created;
  capturing = 0;
  in_stop = false;
  cancelled = false;
  failure_reason = none;
  actions = [];
}

-- `f i`, `f (i + 1)` and so on, `n` of them; and `f (n - 1)` down to `f 0`.
unfoldable pub from_up : (ℕ → Action) → ℕ → ℕ → List Action
from_up f i zero = []
from_up f i (suc n) = f i ∷ from_up f (suc i) n

unfoldable pub from_down : (ℕ → Action) → ℕ → List Action
from_down f zero = []
from_down f (suc n) = f n ∷ from_down f n

-- Step 1 of `Start`, from reporter `i` on: the calls, and the reporter that failed after its rollback.
unfoldable pub start_reporters : (ℕ → Bool) → ℕ → ℕ → List Action × Option ℕ
start_reporters starts i zero = ([], none)
start_reporters starts i (suc n) =
    let (calls, failure) = start_reporters starts (suc i) n in
    if starts i
    then (start_reporter i ∷ calls, failure)
    else (start_reporter i ∷ from_down stop_reporter i, some i)

unfoldable pub start_capturers : Task → List Action
start_capturers t = elim t.mode [
  | binding_mode ↦ from_up go_capturer 0 t.capturers
  | dispatch_mode ↦ go_capturer 0 ∷ go_dispatcher ∷ []
  | other_mode ↦ go_capturer 0 ∷ go_dispatcher ∷ []
]

unfoldable pub capture_loops : Task → ℕ
capture_loops t = elim t.mode [ binding_mode ↦ t.capturers | dispatch_mode ↦ 1 | other_mode ↦ 1 ]

unfoldable pub start_rest : Task → List Action
start_rest t =
    from_up start_wrapper 0 t.wrappers
    ++ (go_sender ∷ (from_up go_pipeline 0 t.pipelines ++ (start_capturers t ++ go_stats ∷ [])))

abbrev pub started : Task → List Action × Option ℕ → Task × Bool
started t (calls, some i) = (
  record t {
    state = failed;
    failure_reason = some (reporter_start_failed i);
    actions = t.actions ++ calls;
  },
  false,
)
started t (calls, none) = (
  record t {
    state = running;
    capturing = capture_loops t;
    actions = t.actions ++ (calls ++ start_rest t);
  },
  true,
)

abbrev pub is_created : TaskState → Bool
is_created created = true
is_created _ = false

abbrev pub is_running : TaskState → Bool
is_running running = true
is_running _ = false

abbrev pub is_paused : TaskState → Bool
is_paused paused = true
is_paused _ = false

-- `starts i` is whether reporter `i` starts without an error. The operations return the error as `false`.
unfoldable pub start : (ℕ → Bool) → Task → Task × Bool
start starts t =
    if is_created t.state then started t (start_reporters starts 0 t.reporters) else (t, false)

-- `Stop` up to `captureWg.Wait`.
unfoldable pub begin_stop : Task → Task × Bool
begin_stop t =
    if is_running t.state
    then (
      record t {
        state = stopping;
        in_stop = true;
        actions = t.actions ++ from_up stop_capturer 0 t.capturers;
      },
      true,
    )
    else (t, false)

unfoldable pub close_inputs : Task → List Action
close_inputs t = elim t.mode [
  | binding_mode ↦ close_raw_streams ∷ []
  | dispatch_mode ↦ close_capture_ch ∷ close_raw_streams ∷ []
  | other_mode ↦ close_raw_streams ∷ []
]

unfoldable pub stop_reporters : ℕ → ℕ → List Action
stop_reporters i zero = []
stop_reporters i (suc n) = flush_reporter i ∷ stop_reporter i ∷ stop_reporters (suc i) n

-- The rest of `Stop`.
unfoldable pub finish_stop : Task → Task
finish_stop t = record t {
  state = stopped;
  in_stop = false;
  cancelled = true;
  actions =
      t.actions
      ++ (close_inputs t ++ (close_send_buffer ∷ cancel_context ∷ stop_reporters 0 t.reporters));
}

unfoldable pub pause : Task → Task × Bool
pause t =
    if is_running t.state
    then (
      record t {
        state = paused;
        actions = t.actions ++ (pause_capturers ∷ pause_reporters ∷ pause_pipelines ∷ []);
      },
      true,
    )
    else (t, false)

unfoldable pub resume : Task → Task × Bool
resume t =
    if is_paused t.state
    then (
      record t {
        state = running;
        actions = t.actions ++ (resume_pipelines ∷ resume_reporters ∷ resume_capturers ∷ []);
      },
      true,
    )
    else (t, false)

-- `captureLoop`, when `Capture` returns: `clean` is its answer without an error.
unfoldable pub capture_returns : Bool → Task → Task
capture_returns clean t =
    if clean || t.cancelled then record t { capturing = t.capturing - 1 } else record t {
      capturing = t.capturing - 1;
      state = failed;
      failure_reason = some capturer_error;
    }

-- What can happen to a task next.
pub data Step : Task → Task → Type 0 where
  start_step : (starts : ℕ → Bool) (t : Task) → Step t (start starts t).0
  begin_stop_step : (t : Task) → Step t (begin_stop t).0
  finish_stop_step : (t : Task) → t.in_stop ≡ true → t.capturing ≡ 0 → Step t (finish_stop t)
  pause_step : (t : Task) → Step t (pause t).0
  resume_step : (t : Task) → Step t (resume t).0
  capture_step : (clean : Bool) (t : Task) → 0 < t.capturing → Step t (capture_returns clean t)

pub data Steps : Task → Task → Type 0 where
  done : (t : Task) → Steps t t
  step : (t u v : Task) → Step t u → Steps u v → Steps t v
