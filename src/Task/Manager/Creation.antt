-- ===== src/Task/Manager/Creation.antt =====
-- internal/task/manager.go: what `Create` leaves behind, on every branch.
use otus.Config.Defaults.{IsRunnable, validate-IsRunnable}
use otus.Config.{TaskConfig, Validated, validate, rejected, accepted}
use otus.Task.Lifecycle.{Task, start, Action, started, running, is_created, start_reporters}
use otus.Task.Manager.{
  TaskManager, start_task, ManagedTask, save_task, reporter_starts, assemble, build_task,
  resolve_task, validate_task, create, managed,
}
use otus.Task.Assembly.{
  Plugins, CreateError, Call, Resolved, Attempt, run_inits, resolve, inits, refused, got,
  constructs, wires,
}
use otus.Base.{
  Bytes, Option, ℕ, ◌≡◌, ◌⊎◌, List, Bool, ◌≢◌, none, true, insert, some, list_eq, nat_eq, refl, inl,
  inr, arith, Dict, if_intro, leb, option_intro, [], length, false, lookup, ◌∷◌, ◌++◌,
}
use otus.Task.Store.{TaskStore}

module _ (S : TaskStore) (parse_duration : Bytes → Option ℕ) (p : Plugins) where
  -- The answer of a phase that began with the manager `m`.
  abbrev Answer : Type 0
  Answer = TaskManager S × Option CreateError × List Call

  abbrev Unchanged : TaskManager S → Answer → Type 0
  Unchanged m r = (r.0 ≡ m) × (r.1 ≢ none)

  -- The manager with one running task, which is handed to the store.
  abbrev pub Holds : TaskManager S → ManagedTask → Answer → Type 0
  Holds m t r =
      (r.1 ≡ none)
      × (r.0 ≡ record m { tasks = insert t.config.id t m.tasks; store = save_task S t m.store })
      × (t.task.state ≡ running)
      × IsRunnable t.config

  abbrev IsOutcome : TaskManager S → Answer → Type 0
  IsOutcome m r = Unchanged m r ⊎ ((t : ManagedTask) × Holds m t r)

  length-none : (tasks : Dict Bytes ManagedTask) → leb 1 (length tasks) ≡ false → tasks ≡ []
  length-none [] h = refl
  length-none (t ∷ tasks) h = absurd (ground arith)

  started-running :
      (t : Task) (q : List Action × Option ℕ)
      → (started t q).1 ≡ true
      → (started t q).0.state ≡ running
  started-running t (calls, none) h = refl
  started-running t (calls, some i) h = absurd (cc)

  start-running :
      (starts : ℕ → Bool) (t : Task)
      → (start starts t).1 ≡ true
      → (start starts t).0.state ≡ running
  unfolding start
  start-running starts t =
      if_intro (λ (q : Task × Bool). q.1 ≡ true → q.0.state ≡ running) (is_created t.state)
        (λ _. started-running t (start_reporters starts 0 t.reporters)) (λ _ bad. absurd (cc))

  start_task-IsOutcome :
      (cfg : TaskConfig) (r : Resolved) (now : ℕ) (m : TaskManager S) (calls : List Call)
      → IsRunnable cfg
      → IsOutcome m (
        (start_task S parse_duration p cfg r now m).0,
        (start_task S parse_duration p cfg r now m).1,
        calls,
      )
  unfolding start_task
  start_task-IsOutcome cfg r now m calls run =
      let starts = reporter_starts r.reporters in
      let task = assemble cfg r in
      if_intro (λ (q : TaskManager S × Option CreateError). IsOutcome m (q.0, q.1, calls))
        (start starts task).1
        (λ ok. inr (
          managed S parse_duration p cfg r now (start starts task).0,
          (refl, refl, start-running starts task ok, run),
        ))
        (λ _. inl (refl, λ e. cc))

  build_task-IsOutcome :
      (cfg : TaskConfig) (r : Resolved) (now : ℕ) (m : TaskManager S)
      → IsRunnable cfg
      → IsOutcome m (build_task S parse_duration p cfg r now m)
  unfolding build_task
  build_task-IsOutcome cfg r now m run =
      option_intro (IsOutcome m) (run_inits (inits cfg r)).1
        (λ _.
          start_task-IsOutcome cfg r now m
            (constructs cfg r ++ ((run_inits (inits cfg r)).0 ++ wires cfg r)) run)
        (λ e _. inl (refl, λ e. cc))

  resolve_task-IsOutcome :
      (cfg : TaskConfig) (now : ℕ) (m : TaskManager S)
      → IsRunnable cfg
      → IsOutcome m (resolve_task S parse_duration p cfg now m)
  resolve_task-IsOutcome cfg now m run = go (resolve p cfg) refl
    where
      go :
          (a : Attempt Resolved)
          → resolve p cfg ≡ a
          → IsOutcome m (resolve_task S parse_duration p cfg now m)
      go (refused e) h = rw (resolve_task, h) (inl (refl, λ e. cc))
      go (got r) h = rw (resolve_task, h) (build_task-IsOutcome cfg r now m run)

  validate_task-IsOutcome :
      (cfg : TaskConfig) (now : ℕ) (m : TaskManager S)
      → IsOutcome m (validate_task S parse_duration p cfg now m)
  validate_task-IsOutcome cfg now m = go (validate cfg) refl
    where
      go :
          (v : Validated)
          → validate cfg ≡ v
          → IsOutcome m (validate_task S parse_duration p cfg now m)
      go (rejected e) h = rw (validate_task, h) (inl (refl, λ e. cc))
      go (accepted d) h =
          rw (validate_task, h) (resolve_task-IsOutcome d now m (validate-IsRunnable cfg d h).0)

  -- `Create` either returns an error, and then the manager and its store are as before, or it
  -- returns none: then the manager held no task, not even one that has ended, and now it holds one,
  -- under its id, which is running with a configuration that can be run. It was handed to the
  -- store to be saved; when the store fails to, the code only logs it.
  pub create-IsOutcome :
      (cfg : TaskConfig) (now : ℕ) (m : TaskManager S)
      → ((create S parse_duration p cfg now m).0 ≡ m)
          × ((create S parse_duration p cfg now m).1 ≢ none)
        ⊎ ((m.tasks ≡ []) × ((t : ManagedTask) × Holds m t (create S parse_duration p cfg now m)))
  unfolding create
  create-IsOutcome cfg now m =
      let P : Answer → Type 0 =
        λ r. Unchanged m r ⊎ ((m.tasks ≡ []) × ((t : ManagedTask) × Holds m t r)) in
      if_intro P (leb 1 (length m.tasks)) (λ _. inl (refl, λ e. cc))
        λ few.
          option_intro P (lookup cfg.id m.tasks)
            (λ _. elim (validate_task-IsOutcome cfg now m) [
              | inl same ↦ inl same
              | inr held ↦ inr (length-none m.tasks few, held)
            ])
            (λ t _. inl (refl, λ e. cc))
