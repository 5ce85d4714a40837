-- ===== src/Task/Store.antt =====
-- internal/task/store.go: persisted tasks, the store that the manager uses, and the stores that there
-- are. A directory is a map from names to contents; `encode` and `decode` stand for encoding/json.
pub mod Files
use otus.Task.Lifecycle.{TaskState, Failure}
use otus.Text.{codes}
use otus.Config.{TaskConfig}
use otus.Base.{
  Bytes, Bool, true, Dict, Option, List, none, ◌++◌, ◌∷◌, [], lookup, take, some, insert, false,
  length, ℕ, if◌then◌else◌, ◌-◌, not, delete, ◌=?◌, list_eq, nat_eq,
}

pub record PersistedTask : Type 0 where
  pub version : Bytes
  pub config : TaskConfig
  pub state : TaskState
  pub created_at : ℕ
  pub started_at : Option ℕ
  pub stopped_at : Option ℕ
  pub failure_reason : Option Failure
  pub restart_count : ℕ

abbrev pub persistence_version : Bytes
persistence_version = codes "v1"

-- Beside its new state `save` and `delete` return whether there was no error; `none` is an error.
pub record TaskStore : Type 1 where
  pub State : Type 0
  pub save : State → PersistedTask → State × Bool
  pub load : State → Bytes → Option PersistedTask
  pub delete : State → Bytes → State × Bool
  pub list : State → Option (List PersistedTask)

abbrev pub noop_store : TaskStore
noop_store = record {
  State = Unit;
  save = λ s pt. (s, true);
  load = λ s id. none;
  delete = λ s id. (s, true);
  list = λ s. some [];
}

-- The answers of the system: which calls succeed, and what a failed write has left in the file.
pub record Disk : Type 0 where
  pub creates : Bool
  pub writes : Bool
  pub closes : Bool
  pub renames : Bool
  pub written : Bytes

abbrev pub Directory : Type 0
Directory = Dict Bytes Bytes

abbrev pub path : Bytes → Bytes
path id = id ++ codes ".json"

-- The pattern of `CreateTemp`, with the text that it puts in place of the star.
abbrev pub temp_path : Bytes → Bytes → Bytes
temp_path random id = b'.' ∷ (id ++ b'.' ∷ (random ++ codes ".tmp"))

abbrev pub set_version : Bytes → Bytes
set_version [] = persistence_version
set_version (c ∷ s) = c ∷ s

module _ (encode : PersistedTask → Option Bytes) (decode : Bytes → Option PersistedTask) where
  -- The directory after each call of the system that changes it, and whether `Save` succeeds.
  unfoldable pub write_temp : Disk → Bytes → Bytes → Bytes → Directory → List Directory × Bool
  write_temp d temp final content dir =
      let made = insert temp [] dir in
      let partial = insert temp d.written dir in
      let full = insert temp content dir in
      if not d.creates
      then ([], false)
      else if not d.writes
      then (made ∷ partial ∷ delete temp partial ∷ [], false)
      else if not d.closes
      then (made ∷ full ∷ delete temp full ∷ [], false)
      else if not d.renames
      then (made ∷ full ∷ delete temp full ∷ [], false)
      else (made ∷ full ∷ insert final content (delete temp full) ∷ [], true)

  unfoldable pub save_file : Disk → Bytes → PersistedTask → Directory → List Directory × Bool
  save_file d random pt dir = elim (encode (record pt { version = set_version pt.version })) [
    | none ↦ ([], false)
    | some content ↦ write_temp d (temp_path random pt.config.id) (path pt.config.id) content dir
  ]

  abbrev pub last_state : List Directory → Directory → Directory
  last_state [] dir = dir
  last_state (d ∷ ds) dir = last_state ds d

  unfoldable pub load_file : Bytes → Directory → Option PersistedTask
  load_file id dir = elim (lookup (path id) dir) [ none ↦ none | some content ↦ decode content ]

  -- `removes` is whether `os.Remove` of a file that is there succeeds.
  unfoldable pub delete_file : Bool → Bytes → Directory → Directory × Bool
  delete_file removes id dir = elim (lookup (path id) dir) [
    | none ↦ (dir, true)
    | some content ↦ if removes then (delete (path id) dir, true) else (dir, false)
  ]

  -- `HasSuffix` and `TrimSuffix` of ".json"; a name that ends so does not end in ".tmp".
  unfoldable pub json_id : Bytes → Option Bytes
  json_id name = let id = take (length name - 5) name in if name =? path id then some id else none

  unfoldable pub list_entries : Directory → Directory → List PersistedTask
  list_entries [] dir = []
  list_entries ((name, content) ∷ entries) dir =
      let rest = list_entries entries dir in
      elim (json_id name) [
        | none ↦ rest
        | some id ↦ elim (load_file id dir) [ none ↦ rest | some pt ↦ pt ∷ rest ]
      ]

  unfoldable pub list_files : Directory → List PersistedTask
  list_files dir = list_entries dir dir
