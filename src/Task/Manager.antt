-- ===== src/Task/Manager.antt =====
-- internal/task/manager.go: `Create` as a whole, `Delete`, `StopAll`, `Restore` and `GCOldTasks`, over
-- the store of store.go. The lock makes each of them one step; `Stop` is taken to its end, with the
-- capture loops returning as the capturers stop.
-- A task that the manager holds.
pub mod Creation
pub mod Runs
pub mod Shutdown
pub mod History
pub mod Phases
pub mod Complete
use otus.Text.{codes}
use otus.Task.Assembly.{
  ReporterPlugin, Resolved, Wiring, Plugins, num_capturers, CreateError, to_ℕ, Call, wirings,
  run_inits, resolve, too_many_tasks, inits, already_exists, task_start_failed, constructs,
  validation_failed, wires, refused, got,
}
use otus.Task.Lifecycle.{
  Task, DispatchMode, TaskState, new_task, begin_stop, start, finish_stop, running, stopped,
  binding_mode, starting, failed, dispatch_mode, done, stopping, created, other_mode,
}
use otus.Task.Store.{TaskStore, PersistedTask, persistence_version}
use otus.Base.{
  Bytes, List, Dict, [], Option, ℕ, if◌then◌else◌, Bool, lookup, ◌∷◌, length, take, none, ◌=?◌,
  false, some, list_eq, nat_eq, true, ◌&&◌, ltb, ◌-◌, get_or, delete, leb, insert, ◌++◌,
}
use otus.Config.{TaskConfig, validate, rejected, accepted}

pub record ManagedTask : Type 0 where
  pub config : TaskConfig
  pub task : Task
  pub wrappers : List Wiring
  pub created_at : ℕ
  pub started_at : Option ℕ
  pub stopped_at : Option ℕ

abbrev pub mode_of : Bytes → DispatchMode
mode_of mode =
    if mode =? codes "binding"
    then binding_mode
    else if mode =? codes "dispatch"
    then dispatch_mode
    else other_mode

abbrev pub reporter_starts : List ReporterPlugin → ℕ → Bool
reporter_starts [] i = false
reporter_starts (rep ∷ reps) i = ReporterPlugin.starts (get_or (rep ∷ reps) i rep) i

unfoldable pub assemble : TaskConfig → Resolved → Task
assemble cfg r =
    new_task (mode_of cfg.capture.dispatch_mode) (num_capturers cfg) (length r.reporters)
      (length r.reporters) (to_ℕ cfg.workers)

-- `Stop` of a task to its end, when every capture loop returns.
abbrev pub stop_task : Task → Task × Bool
stop_task t =
    let (begun, running_before) = begin_stop t in
    if running_before then (finish_stop (record begun { capturing = 0 }), true) else (t, false)

unfoldable pub stop_managed : ℕ → ManagedTask → ManagedTask × Bool
stop_managed now t =
    let (task, halted) = stop_task t.task in
    if halted then (record t { task = task; stopped_at = some now }, true) else (t, false)

unfoldable pub list_tasks : Dict Bytes ManagedTask → List Bytes
list_tasks [] = []
list_tasks ((id, t) ∷ tasks) = id ∷ list_tasks tasks

unfoldable pub stop_each : ℕ → Dict Bytes ManagedTask → Dict Bytes ManagedTask × Bool
stop_each now [] = ([], true)
stop_each now ((id, t) ∷ tasks) =
    let (t', halted) = stop_managed now t in
    let (rest, all_stopped) = stop_each now tasks in ((id, t') ∷ rest, halted && all_stopped)

abbrev pub is_active : TaskState → Bool
is_active running = true
is_active starting = true
is_active stopping = true
is_active _ = false

abbrev pub is_terminal : TaskState → Bool
is_terminal stopped = true
is_terminal failed = true
is_terminal created = true
is_terminal _ = false

unfoldable pub terminal_tasks : Dict Bytes ManagedTask → List PersistedTask → List PersistedTask
terminal_tasks tasks [] = []
terminal_tasks tasks (pt ∷ pts) =
    let rest = terminal_tasks tasks pts in
    elim (lookup pt.config.id tasks) [
      | some t ↦ rest
      | none ↦ if is_terminal pt.state then pt ∷ rest else rest
    ]

-- `sort.Slice` by `CreatedAt`; records of the same time keep their order here.
unfoldable pub insert_by_age : PersistedTask → List PersistedTask → List PersistedTask
insert_by_age pt [] = pt ∷ []
insert_by_age pt (q ∷ qs) =
    let rest = insert_by_age pt qs in
    if ltb q.created_at pt.created_at then q ∷ rest else pt ∷ q ∷ qs

unfoldable pub sort_by_age : List PersistedTask → List PersistedTask
sort_by_age [] = []
sort_by_age (pt ∷ pts) = insert_by_age pt (sort_by_age pts)

-- The records to remove: the oldest, so many that `max_history` are left.
unfoldable pub old_tasks : ℕ → List PersistedTask → List PersistedTask
old_tasks max_history terminal = take (length terminal - max_history) (sort_by_age terminal)

module _ (S : TaskStore) where
  pub record TaskManager : Type 0 where
    pub tasks : Dict Bytes ManagedTask
    pub agent_id : Bytes
    pub store : S.State

  unfoldable pub new_task_manager : Bytes → S.State → TaskManager
  new_task_manager agent store = record { tasks = []; agent_id = agent; store = store }

  abbrev pub persisted : ManagedTask → PersistedTask
  persisted t = record {
    version = persistence_version;
    config = t.config;
    state = t.task.state;
    created_at = t.created_at;
    started_at = t.started_at;
    stopped_at = t.stopped_at;
    failure_reason = t.task.failure_reason;
    restart_count = 0;
  }

  -- An error of the store is logged only.
  unfoldable pub save_task : ManagedTask → S.State → S.State
  save_task t s = (S.save s (persisted t)).0

  module _ (parse_duration : Bytes → Option ℕ) (p : Plugins) where
    abbrev pub managed : TaskConfig → Resolved → ℕ → Task → ManagedTask
    managed cfg r now task = record {
      config = cfg;
      task = task;
      wrappers = wirings parse_duration cfg r;
      created_at = now;
      started_at = some now;
      stopped_at = none;
    }

    -- Phases 6 and 7.
    unfoldable pub start_task :
        TaskConfig → Resolved → ℕ → TaskManager → TaskManager × Option CreateError
    start_task cfg r now m =
        let (task, success) = start (reporter_starts r.reporters) (assemble cfg r) in
        let t = managed cfg r now task in
        if success
        then (record m { tasks = insert cfg.id t m.tasks; store = save_task t m.store }, none)
        else (m, some task_start_failed)

    -- Phases 3 to 7, with the calls of plugins that they make before `Start`.
    unfoldable pub build_task :
        TaskConfig → Resolved → ℕ → TaskManager → TaskManager × Option CreateError × List Call
    build_task cfg r now m =
        let (calls, failure) = run_inits (inits cfg r) in
        elim failure [
          | some e ↦ (m, some e, constructs cfg r ++ calls)
          | none ↦
              let (m', error) = start_task cfg r now m in
              (m', error, constructs cfg r ++ (calls ++ wires cfg r))
        ]

    abbrev pub resolve_task :
        TaskConfig → ℕ → TaskManager → TaskManager × Option CreateError × List Call
    resolve_task cfg now m = elim (resolve p cfg) [
      | refused e ↦ (m, some e, [])
      | got r ↦ build_task cfg r now m
    ]

    abbrev pub validate_task :
        TaskConfig → ℕ → TaskManager → TaskManager × Option CreateError × List Call
    validate_task cfg now m = elim (validate cfg) [
      | rejected e ↦ (m, some (validation_failed e), [])
      | accepted cfg' ↦ resolve_task cfg' now m
    ]

    unfoldable pub create :
        TaskConfig → ℕ → TaskManager → TaskManager × Option CreateError × List Call
    create cfg now m =
        if leb 1 (length m.tasks)
        then (m, some too_many_tasks, [])
        else elim (lookup cfg.id m.tasks) [
          | some t ↦ (m, some already_exists, [])
          | none ↦ validate_task cfg now m
        ]

  -- `false` is the error "not found". That the task does not stop is no error.
  unfoldable pub delete_task : Bytes → ℕ → TaskManager → TaskManager × Bool
  delete_task id now m = elim (lookup id m.tasks) [
    | none ↦ (m, false)
    | some t ↦ (
      record m {
        tasks = delete id m.tasks;
        store = (S.delete (save_task (stop_managed now t).0 m.store) id).0;
      },
      true,
    )
  ]

  unfoldable pub get_task : TaskManager → Bytes → Option ManagedTask
  get_task m id = lookup id m.tasks

  unfoldable pub count_tasks : TaskManager → ℕ
  count_tasks m = length m.tasks

  unfoldable pub save_each : Dict Bytes ManagedTask → S.State → S.State
  save_each [] s = s
  save_each ((id, t) ∷ tasks) s = save_each tasks (save_task t s)

  unfoldable pub stop_all : ℕ → TaskManager → TaskManager × Bool
  stop_all now m =
      let (tasks, all_stopped) = stop_each now m.tasks in
      (record m { tasks = []; store = save_each tasks m.store }, all_stopped)

  module _ (parse_duration : Bytes → Option ℕ) (p : Plugins) where
    abbrev pub restore_task : Bool → PersistedTask → ℕ → TaskManager → TaskManager
    restore_task auto_restart pt now m =
        if is_active pt.state && auto_restart
        then (create parse_duration p pt.config now m).0
        else m

    unfoldable pub restore_each : Bool → List PersistedTask → ℕ → TaskManager → TaskManager
    restore_each auto_restart [] now m = m
    restore_each auto_restart (pt ∷ pts) now m =
        restore_each auto_restart pts now (restore_task auto_restart pt now m)

    unfoldable pub restore : Bool → ℕ → TaskManager → TaskManager
    restore auto_restart now m = elim (S.list m.store) [
      | none ↦ m
      | some pts ↦ restore_each auto_restart pts now m
    ]

  unfoldable pub delete_each : List PersistedTask → S.State → S.State
  delete_each [] s = s
  delete_each (pt ∷ pts) s = delete_each pts (S.delete s pt.config.id).0

  unfoldable pub gc_old_tasks : ℕ → TaskManager → TaskManager
  gc_old_tasks max_history m = elim (S.list m.store) [
    | none ↦ m
    | some pts ↦
        let terminal = terminal_tasks m.tasks pts in
        if leb (length terminal) max_history
        then m
        else record m { store = delete_each (old_tasks max_history terminal) m.store }
  ]
