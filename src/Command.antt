-- ===== src/Command.antt =====
-- internal/command/handler.go: the commands of the control plane. The decoders stand for encoding/json on
-- the parameters; an error message is kept as what it is about. The answer of the reloader is an
-- argument, `none` if there is none.
pub mod Kafka
pub mod Answers
use otus.Config.{TaskConfig}
use otus.Task.Lifecycle.{TaskState}
use otus.Task.Manager.{ManagedTask, TaskManager, create, delete_task, list_tasks, get_task}
use otus.Task.Assembly.{CreateError, Plugins, Call}
use otus.Task.Store.{TaskStore}
use otus.Text.{ℤ, negsuc, pos, codes}
use otus.Base.{
  Bytes, some, ℕ, Dict, List, Option, none, if◌then◌else◌, leb, Bool, ◌∷◌, [], ◌-◌, true, ◌=?◌,
  false, length, list_eq, nat_eq,
}

pub record Command : Type 0 where
  pub method : Bytes
  pub params : Bytes
  pub id : Bytes

pub data Reason : Type 0 where
  unknown_method : Bytes → Reason
  bad_params : Reason
  create_refused : CreateError → Reason
  task_not_found : Bytes → Reason
  no_reloader reload_failed no_shutdown : Reason

pub record ErrorInfo : Type 0 where
  pub code : ℤ
  pub reason : Reason

pub data Answer : Type 0 where
  created_task deleted_task : Bytes → Answer
  task_ids : List Bytes → ℕ → Answer
  task_state : Bytes → TaskState → Answer
  task_states : Dict Bytes TaskState → Answer
  reloaded shutting_down : Answer
  daemon_info : ℤ → List Bytes → ℕ → Answer
  task_stats : Dict Bytes TaskState → Answer

pub record Response : Type 0 where
  pub id : Bytes
  pub result : Option Answer
  pub error : Option ErrorInfo

abbrev pub err_method_not_found : ℤ
err_method_not_found = negsuc 32600

abbrev pub err_invalid_params : ℤ
err_invalid_params = negsuc 32601

abbrev pub err_internal_error : ℤ
err_internal_error = negsuc 32602

abbrev pub fail : Command → ℤ → Reason → Response
fail cmd code reason = record {
  id = cmd.id;
  result = none;
  error = some (record { code = code; reason = reason });
}

abbrev pub succeed : Command → Answer → Response
succeed cmd answer = record { id = cmd.id; result = some answer; error = none }

-- `a - b` on int64, far from its bounds.
abbrev pub difference : ℕ → ℕ → ℤ
difference a b = if leb b a then pos (a - b) else negsuc (b - a - 1)

-- `Status` of the manager, as far as the handler reads it.
unfoldable pub states_of : Dict Bytes ManagedTask → Dict Bytes TaskState
states_of [] = []
states_of ((id, t) ∷ tasks) = (id, t.task.state) ∷ states_of tasks

module _ (S : TaskStore) where
  -- `shut_down` is set when the goroutine of the shutdown callback is started.
  pub record Handler : Type 0 where
    pub manager : TaskManager S
    pub start_time : ℕ
    pub shutdown_set : Bool
    pub shut_down : Bool

  module _ (decode_config : Bytes → Option TaskConfig) (decode_id : Bytes → Option Bytes)
      (parse_duration : Bytes → Option ℕ) (p : Plugins) (reload : Option Bool) where
    abbrev pub created_response :
        Command
        → TaskConfig
        → Handler
        → TaskManager S × Option CreateError × List Call
        → Handler × Response
    created_response cmd cfg h (m, none, calls) =
        (record h { manager = m }, succeed cmd (created_task cfg.id))
    created_response cmd cfg h (m, some e, calls) =
        (record h { manager = m }, fail cmd err_internal_error (create_refused e))

    unfoldable pub handle_task_create : Command → ℕ → Handler → Handler × Response
    handle_task_create cmd now h = elim (decode_config cmd.params) [
      | none ↦ (h, fail cmd err_invalid_params bad_params)
      | some cfg ↦ created_response cmd cfg h (create S parse_duration p cfg now h.manager)
    ]

    abbrev pub deleted_response :
        Command → Bytes → Handler → TaskManager S × Bool → Handler × Response
    deleted_response cmd id h (m, true) = (record h { manager = m }, succeed cmd (deleted_task id))
    deleted_response cmd id h (m, false) =
        (record h { manager = m }, fail cmd err_internal_error (task_not_found id))

    unfoldable pub handle_task_delete : Command → ℕ → Handler → Handler × Response
    handle_task_delete cmd now h = elim (decode_id cmd.params) [
      | none ↦ (h, fail cmd err_invalid_params bad_params)
      | some id ↦ deleted_response cmd id h (delete_task S id now h.manager)
    ]

    unfoldable pub handle_task_list : Command → Handler → Response
    handle_task_list cmd h =
        succeed cmd (task_ids (list_tasks h.manager.tasks) (length (list_tasks h.manager.tasks)))

    abbrev pub one_status : Command → Bytes → Handler → Response
    one_status cmd id h = elim (get_task S h.manager id) [
      | none ↦ fail cmd err_internal_error (task_not_found id)
      | some t ↦ succeed cmd (task_state id t.task.state)
    ]

    abbrev pub status_of : Command → Handler → Option Bytes → Response
    status_of cmd h none = fail cmd err_invalid_params bad_params
    status_of cmd h (some []) = succeed cmd (task_states (states_of h.manager.tasks))
    status_of cmd h (some (c ∷ id)) = one_status cmd (c ∷ id) h

    -- No parameters at all ask for every task.
    abbrev pub status_id : Bytes → Option Bytes
    status_id [] = some []
    status_id (c ∷ params) = decode_id (c ∷ params)

    unfoldable pub handle_task_status : Command → Handler → Response
    handle_task_status cmd h = status_of cmd h (status_id cmd.params)

    unfoldable pub handle_config_reload : Command → Response
    handle_config_reload cmd = elim reload [
      | none ↦ fail cmd err_internal_error no_reloader
      | some success ↦
          if success then succeed cmd reloaded else fail cmd err_internal_error reload_failed
    ]

    unfoldable pub handle_daemon_shutdown : Command → Handler → Handler × Response
    handle_daemon_shutdown cmd h =
        if h.shutdown_set
        then (record h { shut_down = true }, succeed cmd shutting_down)
        else (h, fail cmd err_internal_error no_shutdown)

    unfoldable pub handle_daemon_status : Command → ℕ → Handler → Response
    handle_daemon_status cmd now h = succeed cmd (
        daemon_info (difference now h.start_time) (list_tasks h.manager.tasks)
          (length (list_tasks h.manager.tasks)))

    unfoldable pub handle_daemon_stats : Command → Handler → Response
    handle_daemon_stats cmd h = succeed cmd (task_stats (states_of h.manager.tasks))

    -- `now` in the unit of `start_time`, seconds.
    unfoldable pub handle_command : Command → ℕ → Handler → Handler × Response
    handle_command cmd now h =
        if cmd.method =? codes "task_create"
        then handle_task_create cmd now h
        else if cmd.method =? codes "task_delete"
        then handle_task_delete cmd now h
        else if cmd.method =? codes "task_list"
        then (h, handle_task_list cmd h)
        else if cmd.method =? codes "task_status"
        then (h, handle_task_status cmd h)
        else if cmd.method =? codes "config_reload"
        then (h, handle_config_reload cmd)
        else if cmd.method =? codes "daemon_shutdown"
        then handle_daemon_shutdown cmd h
        else if cmd.method =? codes "daemon_status"
        then (h, handle_daemon_status cmd now h)
        else if cmd.method =? codes "daemon_stats"
        then (h, handle_daemon_stats cmd h)
        else (h, fail cmd err_method_not_found (unknown_method cmd.method))
