-- ===== src/Examples/Managers.antt =====
-- internal/task/manager.go and store.go with a store that is a list, and a configuration with one
-- plugin of each kind.
use otus.Task.Store.Files.{IsOldOrNew, save_file-atomic}
use otus.Task.Lifecycle.{stopped}
use otus.Plugins.{get_factory}
use otus.Config.Defaults.{IsRunnable, validate-IsRunnable}
use otus.Text.{codes, pos}
use otus.Task.Manager.Runs.{IsSingle, new-IsSingle, next, create_step, stop_all_step, finish}
use otus.Task.Manager.Creation.{create-IsOutcome, Holds}
use otus.Task.Manager.{TaskManager, create, new_task_manager, stop_all, ManagedTask, build_task}
use otus.Config.{TaskConfig, validate, first_unnamed, set_defaults, accepted}
use otus.Task.Assembly.{
  Plugins, new_capturer, new_reporter, new_parser, init_capturer, init_reporter, init_parser,
  set_flow_registry, resolve, resolve_all, run_inits, inits, times, each, constructs, wires,
  wire_parsers,
}
use otus.Task.Store.{
  TaskStore, PersistedTask, persistence_version, Disk, Directory, save_file, path, last_state,
  write_temp,
}
use otus.Base.{
  Bytes, List, ◌∷◌, Option, ◌≡◌, if◌then◌else◌, none, true, All, ℕ, [], ◌≢◌, ◌=?◌, some, ◌⊎◌,
  list_eq, nat_eq, false, refl, lookup,
}

abbrev pub without : Bytes → List PersistedTask → List PersistedTask
without id [] = []
without id (q ∷ qs) = if q.config.id =? id then without id qs else q ∷ without id qs

abbrev pub find_task : Bytes → List PersistedTask → Option PersistedTask
find_task id [] = none
find_task id (q ∷ qs) = if q.config.id =? id then some q else find_task id qs

abbrev pub list_store : TaskStore
list_store = record {
  State = List PersistedTask;
  save = λ s pt. (pt ∷ without pt.config.id s, true);
  load = λ s id. find_task id s;
  delete = λ s id. (without id s, true);
  list = λ s. some s;
}

abbrev pub plugins : Plugins
plugins = record {
  capturers = (codes "afpacket", record { inits = λ i. true }) ∷ [];
  parsers = (codes "sip", record { flow_aware = true; inits = λ i j. true }) ∷ [];
  processors = [];
  reporters =
      (codes "console", record { name = codes "console"; inits = λ i. true; starts = λ i. true })
      ∷ [];
}

abbrev pub raw_config : TaskConfig
raw_config = record {
  id = codes "t1";
  workers = pos 0;
  capture = record {
    name = codes "afpacket";
    dispatch_mode = [];
    dispatch_strategy = [];
    interface = codes "eth0";
    bpf_filter = [];
    snap_len = pos 0;
    options = [];
  };
  decoder = record { tunnels = []; ip_reassembly = true };
  parsers = record { name = codes "sip"; options = [] } ∷ [];
  processors = [];
  reporters =
      record {
        name = codes "console";
        options = [];
        batch_size = pos 10;
        batch_timeout = [];
        fallback = codes "console";
      }
      ∷ [];
  channel_capacity = record { raw_stream = pos 0; send_buffer = pos 0; capture_ch = pos 0 };
}

validate-IsRunnable_example :
    IsRunnable (set_defaults raw_config)
    × (validate (set_defaults raw_config) ≡ accepted (set_defaults raw_config))
unfolding validate first_unnamed
validate-IsRunnable_example = validate-IsRunnable raw_config (set_defaults raw_config) refl

abbrev pub no_duration : Bytes → Option ℕ
no_duration s = none

abbrev pub empty_manager : TaskManager list_store
empty_manager = new_task_manager list_store (codes "agent") []

abbrev Outcome : Type 0
Outcome =
    ((create list_store no_duration plugins raw_config 1 empty_manager).0 ≡ empty_manager)
      × ((create list_store no_duration plugins raw_config 1 empty_manager).1 ≢ none)
    ⊎ ((TaskManager.tasks empty_manager ≡ [])
        × ((t : ManagedTask) × Holds list_store no_duration plugins empty_manager t
              (create list_store no_duration plugins raw_config 1 empty_manager)))

create-IsOutcome_example : Outcome
create-IsOutcome_example =
    create-IsOutcome list_store no_duration plugins raw_config 1 empty_manager

-- It is created and makes these calls.
create-calls :
    (create list_store no_duration plugins raw_config 1 empty_manager).2
    ≡ new_capturer 0
      ∷ new_reporter 0
      ∷ new_parser 0 0
      ∷ init_capturer 0
      ∷ init_reporter 0
      ∷ init_parser 0 0
      ∷ set_flow_registry 0 0
      ∷ []
unfolding create validate first_unnamed new_task_manager lookup resolve get_factory resolve_all
    build_task run_inits inits times each constructs wires wire_parsers
create-calls = refl

abbrev running_manager : TaskManager list_store
running_manager = (create list_store no_duration plugins raw_config 1 empty_manager).0

new-IsSingle_example : IsSingle (stop_all list_store 2 running_manager).0.tasks
new-IsSingle_example =
    new-IsSingle list_store no_duration plugins (codes "agent") []
      (stop_all list_store 2 running_manager).0
      (next empty_manager running_manager (stop_all list_store 2 running_manager).0
        (create_step raw_config 1 empty_manager)
        (next running_manager (stop_all list_store 2 running_manager).0
          (stop_all list_store 2 running_manager).0 (stop_all_step 2 running_manager)
          (finish (stop_all list_store 2 running_manager).0)))

abbrev stopped_record : Bytes → ℕ → PersistedTask
stopped_record id created_at = record {
  version = persistence_version;
  config = record raw_config { id = id };
  state = stopped;
  created_at = created_at;
  started_at = none;
  stopped_at = none;
  failure_reason = none;
  restart_count = 0;
}

abbrev history : List PersistedTask
history = stopped_record (codes "b") 8 ∷ stopped_record (codes "a") 3 ∷ []

abbrev old_manager : TaskManager list_store
old_manager = record empty_manager { store = history }

abbrev id_text : PersistedTask → Option Bytes
id_text pt = some pt.config.id

abbrev no_record : Bytes → Option PersistedTask
no_record s = none

-- A disk that fails to rename.
abbrev full_disk : Disk
full_disk = record { creates = true; writes = true; closes = true; renames = false; written = [] }

abbrev old_directory : Directory
old_directory = (path (codes "a"), codes "old") ∷ []

save_file-atomic_example :
    All
      (IsOldOrNew (path (codes "a")) (codes "a") old_directory (path (codes "a")))
      (save_file id_text no_record full_disk
        (codes "7")
        (stopped_record (codes "a") 3)
        old_directory).0
    × (lookup (path (codes "a")) (
          last_state id_text no_record
            (save_file id_text no_record full_disk
              (codes "7")
              (stopped_record (codes "a") 3)
              old_directory).0
            old_directory)
        ≡ some (codes "old"))
unfolding save_file lookup write_temp
save_file-atomic_example =
    save_file-atomic id_text no_record full_disk (codes "7") (codes "a")
      (stopped_record (codes "a") 3) old_directory (codes "a") refl
