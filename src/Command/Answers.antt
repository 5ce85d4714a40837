-- ===== src/Command/Answers.antt =====
-- internal/command/handler.go: the answers of `Handle` and what they leave behind.
use otus.Task.Manager.Creation.{create-IsOutcome}
use otus.Text.{codes, ℤ}
use otus.Config.{TaskConfig}
use otus.Task.Assembly.{Plugins, CreateError, Call}
use otus.Task.Manager.{TaskManager, create, delete_task, get_task}
use otus.Task.Store.{TaskStore}
use otus.Command.{
  Command, Response, Handler, handle_command, created_response, deleted_response,
  handle_task_create, handle_task_delete, status_of, handle_config_reload, handle_task_list,
  handle_task_status, handle_daemon_shutdown, handle_daemon_status, handle_daemon_stats, Answer,
  succeed, Reason, fail,
}
use otus.Base.{
  Bytes, List, ℕ, Option, Bool, ◌∷◌, [], ◌≡◌, some, true, none, refl, false, ◌=?◌, list_eq, nat_eq,
  option_intro, if_intro, ap, ◌≢◌, inr, lookup, ◌⊎◌, inl,
}

module _ (S : TaskStore) (decode_config : Bytes → Option TaskConfig)
    (decode_id : Bytes → Option Bytes) (parse_duration : Bytes → Option ℕ) (p : Plugins)
    (reload : Option Bool) where
  abbrev pub run : Command → ℕ → Handler S → Handler S × Response
  run = handle_command S decode_config decode_id parse_duration p reload

  -- Of a command: an answer under its id, and either a result, or an error and nothing changed.
  abbrev pub IsAnswer : Command → Handler S → Handler S × Response → Type 0
  IsAnswer cmd h answer =
      (answer.1.id ≡ cmd.id)
      × ((answer.1.result ≢ none) × (answer.1.error ≡ none)
          ⊎ (answer.1.result ≡ none) × (answer.1.error ≢ none) × (answer.0 ≡ h))

  succeed-IsAnswer :
      (cmd : Command) (h h' : Handler S) (answer : Answer) → IsAnswer cmd h (h', succeed cmd answer)
  succeed-IsAnswer cmd h h' answer = (refl, inl ((λ e. cc), refl))

  fail-IsAnswer :
      (cmd : Command) (h : Handler S) (code : ℤ) (reason : Reason)
      → IsAnswer cmd h (h, fail cmd code reason)
  fail-IsAnswer cmd h code reason = (refl, inr (refl, (λ e. cc), refl))

  created_response-IsAnswer :
      (cmd : Command) (cfg : TaskConfig) (h : Handler S)
      (r : TaskManager S × Option CreateError × List Call)
      → (r.1 ≢ none → r.0 ≡ h.manager)
      → IsAnswer cmd h
          (created_response S decode_config decode_id parse_duration p reload cmd cfg h r)
  created_response-IsAnswer cmd cfg h (m, none, calls) same = succeed-IsAnswer cmd h _ _
  created_response-IsAnswer cmd cfg h (m, some e, calls) same =
      (refl, inr (refl, (λ e. cc), ap (λ m. record h { manager = m }) (same (λ e. cc))))

  deleted_response-IsAnswer :
      (cmd : Command) (id : Bytes) (h : Handler S) (r : TaskManager S × Bool)
      → (r.1 ≡ false → r.0 ≡ h.manager)
      → IsAnswer cmd h
          (deleted_response S decode_config decode_id parse_duration p reload cmd id h r)
  deleted_response-IsAnswer cmd id h (m, true) same = succeed-IsAnswer cmd h _ _
  deleted_response-IsAnswer cmd id h (m, false) same =
      (refl, inr (refl, (λ e. cc), ap (λ m. record h { manager = m }) (same refl)))

  create-unchanged :
      (cfg : TaskConfig) (now : ℕ) (m : TaskManager S)
      → (create S parse_duration p cfg now m).1 ≢ none
      → (create S parse_duration p cfg now m).0 ≡ m
  create-unchanged cfg now m refused = elim (create-IsOutcome S parse_duration p cfg now m) [
    | inl same ↦ same.0
    | inr held ↦ absurd (refused held.1.1.0)
  ]

  delete_task-unchanged :
      (id : Bytes) (now : ℕ) (m : TaskManager S)
      → (delete_task S id now m).1 ≡ false
      → (delete_task S id now m).0 ≡ m
  unfolding delete_task
  delete_task-unchanged id now m =
      option_intro (λ (r : TaskManager S × Bool). r.1 ≡ false → r.0 ≡ m) (lookup id m.tasks)
        (λ _ e. refl) (λ t _ e. cc)

  handle_task_create-IsAnswer :
      (cmd : Command) (now : ℕ) (h : Handler S)
      → IsAnswer cmd h
          (handle_task_create S decode_config decode_id parse_duration p reload cmd now h)
  unfolding handle_task_create
  handle_task_create-IsAnswer cmd now h =
      option_intro (IsAnswer cmd h) (decode_config cmd.params) (λ _. fail-IsAnswer cmd h _ _)
        (λ cfg _.
          created_response-IsAnswer cmd cfg h (create S parse_duration p cfg now h.manager)
            (create-unchanged cfg now h.manager))

  handle_task_delete-IsAnswer :
      (cmd : Command) (now : ℕ) (h : Handler S)
      → IsAnswer cmd h
          (handle_task_delete S decode_config decode_id parse_duration p reload cmd now h)
  unfolding handle_task_delete
  handle_task_delete-IsAnswer cmd now h =
      option_intro (IsAnswer cmd h) (decode_id cmd.params) (λ _. fail-IsAnswer cmd h _ _)
        (λ id _.
          deleted_response-IsAnswer cmd id h (delete_task S id now h.manager)
            (delete_task-unchanged id now h.manager))

  abbrev Keeps : Command → Handler S → Response → Type 0
  Keeps cmd h r = IsAnswer cmd h (h, r)

  status_of-Keeps :
      (cmd : Command) (h : Handler S) (id : Option Bytes)
      → Keeps cmd h (status_of S decode_config decode_id parse_duration p reload cmd h id)
  status_of-Keeps cmd h none = fail-IsAnswer cmd h _ _
  status_of-Keeps cmd h (some []) = succeed-IsAnswer cmd h h _
  status_of-Keeps cmd h (some (c ∷ id)) =
      option_intro (Keeps cmd h) (get_task S h.manager (c ∷ id)) (λ _. fail-IsAnswer cmd h _ _)
        (λ t _. succeed-IsAnswer cmd h h _)

  handle_config_reload-Keeps :
      (cmd : Command) (h : Handler S)
      → Keeps cmd h (handle_config_reload S decode_config decode_id parse_duration p reload cmd)
  unfolding handle_config_reload
  handle_config_reload-Keeps cmd h =
      option_intro (Keeps cmd h) reload (λ _. fail-IsAnswer cmd h _ _)
        (λ success _.
          if_intro (Keeps cmd h) success (λ _. succeed-IsAnswer cmd h h _)
            (λ _. fail-IsAnswer cmd h _ _))

  -- Whatever its method and its parameters, a command is answered under its own id, with a result and
  -- no error or with an error and no result; and when it is an error then the tasks, their
  -- records and the request to shut down are as before.
  pub handle_command-IsAnswer :
      (cmd : Command) (now : ℕ) (h : Handler S) → IsAnswer cmd h (run cmd now h)
  unfolding handle_command handle_task_list handle_task_status handle_daemon_shutdown
      handle_daemon_status handle_daemon_stats
  handle_command-IsAnswer cmd now h =
      let P : Handler S × Response → Type 0 = IsAnswer cmd h in
      if_intro P (cmd.method =? codes "task_create") (λ _. handle_task_create-IsAnswer cmd now h)
        (λ _.
          if_intro P (cmd.method =? codes "task_delete")
            (λ _. handle_task_delete-IsAnswer cmd now h)
            (λ _.
              if_intro P (cmd.method =? codes "task_list") (λ _. succeed-IsAnswer cmd h h _)
                (λ _.
                  if_intro P (cmd.method =? codes "task_status") (λ _. status_of-Keeps cmd h _)
                    (λ _.
                      if_intro P (cmd.method =? codes "config_reload")
                        (λ _. handle_config_reload-Keeps cmd h)
                        (λ _.
                          if_intro P (cmd.method =? codes "daemon_shutdown")
                            (λ _.
                              if_intro P h.shutdown_set (λ _. succeed-IsAnswer cmd h _ _)
                                (λ _. fail-IsAnswer cmd h _ _))
                            (λ _.
                              if_intro P (cmd.method =? codes "daemon_status")
                                (λ _. succeed-IsAnswer cmd h h _)
                                (λ _.
                                  if_intro P (cmd.method =? codes "daemon_stats")
                                    (λ _. succeed-IsAnswer cmd h h _)
                                    (λ _. fail-IsAnswer cmd h _ _))))))))
