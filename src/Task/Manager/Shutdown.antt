-- ===== src/Task/Manager/Shutdown.antt =====
-- internal/task/manager.go: `StopAll` before `Restore`.
use otus.Task.Assembly.{Plugins}
use otus.Task.Lifecycle.{starting, stopping, Task}
use otus.Base.{
  List, ◌=?◌, ◌≢◌, Bytes, ◌≡◌, ℕ, Option, false, some, All, list_eq, nat_eq, lookup, ◌∷◌, [], true,
  Every, none, Dict,
}
use otus.Task.Manager.{ManagedTask, is_active, save_task, stop_each, persisted, save_each}
use otus.Task.Store.{PersistedTask, TaskStore}

abbrev pub Inactive : PersistedTask → Type 0
Inactive q = is_active q.state ≡ false

module _ (S : TaskStore) where
  -- A property of every record that the store lists.
  abbrev pub AllListed : (PersistedTask → Type 0) → S.State → Type 0
  AllListed P s = (pts : List PersistedTask) → S.list s ≡ some pts → All P pts

-- A `Save` that succeeds replaces the record of the same id and leaves the others: what the interface
-- promises.
pub record IsFaithful (S : TaskStore) : Type 1 where
  pub list-save :
      (P Q : PersistedTask → Type 0) (s : S.State) (pt : PersistedTask)
      → (S.save s pt).1 ≡ true
      → AllListed S P s
      → ((q : PersistedTask) → P q → (q.config.id =? pt.config.id) ≡ false → Q q)
      → Q pt
      → AllListed S Q (S.save s pt).0

-- A task that no `Start` or `Stop` is at work on.
abbrev pub IsSettled : ManagedTask → Type 0
IsSettled t = (t.task.state ≢ starting) × (t.task.state ≢ stopping)

module _ (S : TaskStore) where
  -- Every task is saved, one after the other, without an error.
  abbrev pub AllSaved : Dict Bytes ManagedTask → S.State → Type 0
  AllSaved [] s = Unit
  AllSaved ((id, t) ∷ tasks) s =
      ((S.save s (persisted S t)).1 ≡ true) × AllSaved tasks (save_task S t s)

  module _ (parse_duration : Bytes → Option ℕ) (p : Plugins) where
    -- What is to be shown of the tasks that `StopAll` stops and saves.
    abbrev SavesInactive : ℕ → S.State → Dict Bytes ManagedTask → Type 0
    SavesInactive now s tasks =
        Every IsSettled tasks
        → AllSaved (stop_each now tasks).0 s
        → AllListed S (λ q. lookup q.config.id tasks ≡ none → Inactive q) s
        → AllListed S Inactive (save_each S (stop_each now tasks).0 s)
