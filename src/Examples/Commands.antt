-- ===== src/Examples/Commands.antt =====
-- internal/command: two messages for two nodes, with the store and the plugins of Managers.
use otus.Config.{TaskConfig}
use otus.Text.{codes, pos}
use otus.Base.{
  Bytes, false, ℕ, none, [], List, Option, ◌∷◌, some, if◌then◌else◌, true, ◌=?◌, list_eq, nat_eq,
}
use otus.Examples.Managers.{list_store, plugins, raw_config, no_duration, empty_manager}
use otus.Command.{Command, Response, Handler, handle_command}
use otus.Command.Answers.{IsAnswer, handle_command-IsAnswer}
use otus.Command.Kafka.{
  KafkaCommand, KafkaCommandConsumer, consume, Fetched, Progress, fetched, fetch_failed,
  context_done, last_offset,
}
use otus.Command.Kafka.Filter.{IsServed, consume-IsServed}

abbrev read_config : Bytes → Option TaskConfig
read_config [] = none
read_config (c ∷ s) = some raw_config

abbrev read_id : Bytes → Option Bytes
read_id s = some s

abbrev idle : Handler list_store
idle = record { manager = empty_manager; start_time = 100; shutdown_set = false; shut_down = false }

abbrev run : Command → ℕ → Handler list_store → Handler list_store × Response
run = handle_command list_store read_config read_id no_duration plugins none

abbrev create_command : Command
create_command = record { method = codes "task_create"; params = codes "{}"; id = codes "r1" }

handle_command-IsAnswer_example :
    IsAnswer list_store read_config read_id no_duration plugins none create_command idle
      (run create_command 105 idle)
handle_command-IsAnswer_example =
    handle_command-IsAnswer list_store read_config read_id no_duration plugins none create_command
      105 idle

abbrev list_for : Bytes → KafkaCommand
list_for target = record {
  version = codes "v1";
  target = target;
  command = codes "task_list";
  timestamp = 104000000000;
  request_id = codes "r2";
  payload = [];
}

-- A message is the name of its target; `?` is unreadable.
abbrev read_message : Bytes → Option KafkaCommand
read_message s = if s =? codes "?" then none else some (list_for s)

abbrev node_a : KafkaCommandConsumer
node_a = record {
  hostname = codes "a";
  ttl = pos 300000000000;
  has_writer = true;
  reader = some last_offset;
}

abbrev idle_log : Progress list_store read_message run
idle_log = record { handler = idle; responses = []; committed = [] }

abbrev events : List (Fetched list_store read_message run × ℕ)
events =
    (fetched (codes "b") true, 105000000000)
    ∷ (fetched (codes "?") false, 105000000000)
    ∷ (fetch_failed, 106000000000)
    ∷ (fetched (codes "a") true, 107000000000)
    ∷ (fetched (codes "a") true, 404000000001)
    ∷ (context_done, 405000000000)
    ∷ (fetched (codes "a") true, 406000000000)
    ∷ []

consume-IsServed_example :
    IsServed list_store read_config read_id no_duration plugins none read_message node_a
      ((list_for (codes "a"), 107000000000) ∷ [])
      (codes "b" ∷ codes "a" ∷ codes "a" ∷ [])
      idle_log
      (consume list_store read_message run node_a events idle_log)
consume-IsServed_example =
    consume-IsServed list_store read_config read_id no_duration plugins none read_message node_a
      events idle_log
