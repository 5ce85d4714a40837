-- ===== src/Task/Manager/History.antt =====
-- internal/task/manager.go: which records `GCOldTasks` removes.
use otus.Task.Lifecycle.{stopped, failed, created, starting, running, stopping, paused, TaskState}
use otus.Task.Manager.{ManagedTask, is_terminal, TaskManager}
use otus.Base.{
  List, ℕ, Dict, All, ◌∷◌, [], ◌≤◌, length, Bytes, ◌≡◌, true, lookup, min, none, list_eq, nat_eq,
  Bool, if◌then◌else◌, some, ◌+◌, false,
}
use otus.Task.Store.{PersistedTask, TaskStore}

abbrev pub Below : PersistedTask → List PersistedTask → Type 0
Below pt = All (λ q. pt.created_at ≤ q.created_at)

-- Oldest first.
abbrev Ascending : List PersistedTask → Type 0
Ascending [] = Unit
Ascending (pt ∷ pts) = Below pt pts × Ascending pts

-- A record that may go: terminal, and of no task that the manager holds.
abbrev pub IsHistory : Dict Bytes ManagedTask → PersistedTask → Type 0
IsHistory tasks q = (is_terminal q.state ≡ true) × (lookup q.config.id tasks ≡ none)

-- A task in such a state has ended, or was never started.
abbrev pub is_over : TaskState → Bool
is_over stopped = true
is_over failed = true
is_over created = true
is_over starting = false
is_over running = false
is_over stopping = false
is_over paused = false

-- Whether a record may go.
abbrev pub may_go : Dict Bytes ManagedTask → PersistedTask → Bool
may_go tasks q = elim (lookup q.config.id tasks) [ some t ↦ false | none ↦ is_over q.state ]

abbrev pub count_history : Dict Bytes ManagedTask → List PersistedTask → ℕ
count_history tasks [] = 0
count_history tasks (q ∷ qs) =
    let rest = count_history tasks qs in if may_go tasks q then rest + 1 else rest

module _ (S : TaskStore) where
  -- The store without the records of these ids.
  abbrev pub removed : List PersistedTask → S.State → S.State
  removed [] s = s
  removed (q ∷ qs) s = removed qs (S.delete s q.config.id).0

  -- What a collection removes, and what of the history it keeps.
  pub record IsCollected (max_history : ℕ) (pts : List PersistedTask) (m n : TaskManager S)
      : Type 0 where
    pub gone : List PersistedTask
    pub kept : List PersistedTask
    pub gone_history : All (IsHistory m.tasks) gone
    pub kept_history : All (IsHistory m.tasks) kept
    pub oldest : All (λ d. Below d kept) gone
    pub kept_length : length kept ≡ min max_history (count_history m.tasks pts)
    pub gone_length : length gone + length kept ≡ count_history m.tasks pts
    pub result : n ≡ record m { store = removed gone m.store }
