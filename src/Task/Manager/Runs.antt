-- ===== src/Task/Manager/Runs.antt =====
-- internal/task/manager.go: what holds after any sequence of the operations of a manager, while its
-- task runs.
use mathlib.Core.Path.{subst}
use otus.Task.Manager.Creation.{create-IsOutcome}
use otus.Task.Lifecycle.{Task, Steps}
use otus.Config.Defaults.{IsRunnable}
use otus.Config.{TaskConfig}
use otus.Task.Assembly.{Plugins}
use otus.Task.Manager.{
  ManagedTask, TaskManager, restore_each, delete_task, new_task_manager, stop_all, create, restore,
  gc_old_tasks, restore_task, is_active, terminal_tasks,
}
use otus.Task.Store.{TaskStore, PersistedTask}
use otus.Base.{
  Dict, Bytes, Option, ◌≡◌, ℕ, [], ◌⊎◌, insert, delete, ◌∷◌, Bool, inl, lookup, List, ap, inr, some,
  list_eq, nat_eq, sym, if_intro, ◌∙◌, ◌=?◌, refl, ◌&&◌, none, option_intro, Bool-cases, leb, arith,
  length,
}

-- No task, or one under its own id, with a configuration that can be run.
abbrev pub IsSingle : Dict Bytes ManagedTask → Type 0
IsSingle tasks =
    (tasks ≡ []) ⊎ ((t : ManagedTask) × (tasks ≡ (t.config.id, t) ∷ []) × IsRunnable t.config)

module _ (S : TaskStore) (parse_duration : Bytes → Option ℕ) (p : Plugins) where
  -- The operations, and the steps that the task takes by itself.
  pub data ManagerStep : TaskManager S → TaskManager S → Type 0 where
    create_step :
        (cfg : TaskConfig) (now : ℕ) (m : TaskManager S)
        → ManagerStep m (create S parse_duration p cfg now m).0
    delete_step :
        (id : Bytes) (now : ℕ) (m : TaskManager S) → ManagerStep m (delete_task S id now m).0
    stop_all_step : (now : ℕ) (m : TaskManager S) → ManagerStep m (stop_all S now m).0
    restore_step :
        (auto_restart : Bool) (now : ℕ) (m : TaskManager S)
        → ManagerStep m (restore S parse_duration p auto_restart now m)
    gc_step : (max_history : ℕ) (m : TaskManager S) → ManagerStep m (gc_old_tasks S max_history m)
    task_step :
        (id : Bytes) (t : ManagedTask) (u : Task) (m : TaskManager S)
        → lookup id m.tasks ≡ some t
        → Steps t.task u
        → ManagerStep m (record m { tasks = insert id (record t { task = u }) m.tasks })

  pub data ManagerSteps : TaskManager S → TaskManager S → Type 0 where
    finish : (m : TaskManager S) → ManagerSteps m m
    next : (m n o : TaskManager S) → ManagerStep m n → ManagerSteps n o → ManagerSteps m o

  create-IsSingle :
      (cfg : TaskConfig) (now : ℕ) (m : TaskManager S)
      → IsSingle m.tasks
      → IsSingle (create S parse_duration p cfg now m).0.tasks
  unfolding insert
  create-IsSingle cfg now m h = elim (create-IsOutcome S parse_duration p cfg now m) [
    | inl (same, e) ↦ subst (λ (q : TaskManager S). IsSingle q.tasks) (sym same) h
    | inr (empty, (t, (e, held, run, ok))) ↦
        inr (t, ap TaskManager.tasks held ∙ ap (insert t.config.id t) empty, ok)
  ]

  restore_each-IsSingle :
      (auto_restart : Bool) (pts : List PersistedTask) (now : ℕ) (m : TaskManager S)
      → IsSingle m.tasks
      → IsSingle (restore_each S parse_duration p auto_restart pts now m).tasks
  unfolding restore_each
  restore_each-IsSingle auto_restart [] now m h = h
  restore_each-IsSingle auto_restart (pt ∷ pts) now m h =
      restore_each-IsSingle auto_restart pts now
        (restore_task S parse_duration p auto_restart pt now m)
        (if_intro (λ (q : TaskManager S). IsSingle q.tasks) (is_active pt.state && auto_restart)
          (λ _. create-IsSingle pt.config now m h) (λ _. h))

  delete-IsSingle :
      (id : Bytes) (tasks : Dict Bytes ManagedTask) → IsSingle tasks → IsSingle (delete id tasks)
  unfolding delete
  delete-IsSingle id tasks (inl e) = inl (ap (delete id) e)
  delete-IsSingle id tasks (inr (t, e, run)) =
      subst (λ q. IsSingle (delete id q)) (sym e)
        (if_intro IsSingle (t.config.id =? id) (λ _. inl refl) (λ _. inr (t, refl, run)))

  changed-IsSingle :
      (id : Bytes) (t : ManagedTask) (u : Task) (tasks : Dict Bytes ManagedTask)
      → lookup id tasks ≡ some t
      → IsSingle tasks
      → IsSingle (insert id (record t { task = u }) tasks)
  unfolding insert lookup
  changed-IsSingle id t u tasks found (inl e) =
      let lost : none ≡ some t = subst (λ q. lookup id q ≡ some t) e found in absurd (cc)
  changed-IsSingle id t u tasks found (inr (t', e, run)) =
      let found' : lookup id ((t'.config.id, t') ∷ []) ≡ some t =
        subst (λ q. lookup id q ≡ some t) e found in
      subst (λ q. IsSingle (insert id (record t { task = u }) q)) (sym e)
        (elim (Bool-cases (t'.config.id =? id)) [
          | inr miss ↦ absurd (ground arith)
          | inl hit ↦
              let same : t' ≡ t = ground arith in
              let key : t'.config.id ≡ id = (list_eq.beq_iff t'.config.id id).0 hit in
              inr (
                record t { task = u },
                rw hit (
                    ap (λ k. (k, record t { task = u }) ∷ [])
                      (sym key ∙ ap (λ q. q.config.id) same)),
                subst (λ q. IsRunnable q.config) same run,
              )
        ])

  step-IsSingle : (m n : TaskManager S) → ManagerStep m n → IsSingle m.tasks → IsSingle n.tasks
  unfolding delete_task stop_all restore gc_old_tasks
  step-IsSingle _ _ (create_step cfg now m) h = create-IsSingle cfg now m h
  step-IsSingle _ _ (delete_step id now m) h =
      option_intro (λ (q : TaskManager S × Bool). IsSingle q.0.tasks) (lookup id m.tasks) (λ _. h)
        (λ t _. delete-IsSingle id m.tasks h)
  step-IsSingle _ _ (stop_all_step now m) h = inl refl
  step-IsSingle _ _ (restore_step auto_restart now m) h =
      option_intro (λ (q : TaskManager S). IsSingle q.tasks) (S.list m.store) (λ _. h)
        (λ pts _. restore_each-IsSingle auto_restart pts now m h)
  step-IsSingle _ _ (gc_step max_history m) h =
      option_intro (λ (q : TaskManager S). IsSingle q.tasks) (S.list m.store) (λ _. h)
        (λ pts _.
          if_intro (λ (q : TaskManager S). IsSingle q.tasks)
            (leb (length (terminal_tasks m.tasks pts)) max_history) (λ _. h) (λ _. h))
  step-IsSingle _ _ (task_step id t u m found steps) h = changed-IsSingle id t u m.tasks found h

  steps-IsSingle : (m n : TaskManager S) → ManagerSteps m n → IsSingle m.tasks → IsSingle n.tasks
  steps-IsSingle _ _ (finish m) h = h
  steps-IsSingle _ _ (next m n o s ss) h = steps-IsSingle n o ss (step-IsSingle m n s h)

  -- From a new manager on, whatever operations follow and whatever its task does, a manager never
  -- holds more than one task, a task that has ended or failed included; it is under its own id, and
  -- its configuration can be run.
  pub new-IsSingle :
      (agent : Bytes) (store : S.State) (m : TaskManager S)
      → ManagerSteps (new_task_manager S agent store) m
      → IsSingle m.tasks
  unfolding new_task_manager
  new-IsSingle agent store m steps =
      steps-IsSingle (new_task_manager S agent store) m steps (inl refl)
