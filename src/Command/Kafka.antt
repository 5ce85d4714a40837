-- ===== src/Command/Kafka.antt =====
-- internal/command/kafka.go: the commands that come through Kafka. The client is a list of what it
-- fetches; `decode` stands for encoding/json. Times count nanoseconds from Go's zero time.
pub mod Filter
use otus.Task.Store.{TaskStore}
use otus.Command.{Command, Response, Answer, Handler, ErrorInfo, difference}
use otus.Text.{ℤ, pos, codes, negsuc}
use otus.Base.{
  Bytes, List, Bool, ℕ, Option, ◌=?◌, not, none, false, some, if◌then◌else◌, ltb, ◌||◌, ◌==◌, true,
  ◌∷◌, [], length, ◌&&◌, ◌++◌, ◌+◌, list_eq, nat_eq, ◌/◌,
}

pub record KafkaCommand : Type 0 where
  pub version : Bytes
  pub target : Bytes
  pub command : Bytes
  pub timestamp : ℕ
  pub request_id : Bytes
  pub payload : Bytes

pub record KafkaResponse : Type 0 where
  pub version : Bytes
  pub source : Bytes
  pub command : Bytes
  pub request_id : Bytes
  pub timestamp : ℕ
  pub result : Option Answer
  pub error : Option ErrorInfo

-- Where a new consumer group starts to read.
pub data StartOffset : Type 0 where
  first_offset last_offset : StartOffset

-- Of the two clients: whether there is a writer, and the start of the reader.
pub record KafkaCommandConsumer : Type 0 where
  pub hostname : Bytes
  pub ttl : ℤ
  pub has_writer : Bool
  pub reader : Option StartOffset

-- Without the settings for SASL and TLS, which the consumer does not read.
pub record CommandKafkaConfig : Type 0 where
  pub brokers : List Bytes
  pub topic : Bytes
  pub response_topic : Bytes
  pub group_id : Bytes
  pub auto_offset_reset : Bytes

pub record CommandChannelConfig : Type 0 where
  pub kafka : CommandKafkaConfig
  pub command_ttl : Bytes

pub data ConsumerError : Type 0 where
  brokers_required topic_required group_id_required : ConsumerError
  invalid_command_ttl : Bytes → ConsumerError

pub data NewConsumer : Type 0 where
  consumer : KafkaCommandConsumer → NewConsumer
  refused_consumer : ConsumerError → NewConsumer

-- 5 minutes in nanoseconds
abbrev pub default_ttl : ℤ
default_ttl = pos 300000000000

abbrev pub start_offset : Bytes → StartOffset
start_offset reset = if reset =? codes "earliest" then first_offset else last_offset

module _ (parse_ttl : Bytes → Option ℤ) where
  abbrev pub ttl_of : Bytes → Option ℤ
  ttl_of [] = some default_ttl
  ttl_of (c ∷ s) = parse_ttl (c ∷ s)

  unfoldable pub new_kafka_command_consumer : CommandChannelConfig → Bytes → NewConsumer
  new_kafka_command_consumer cc hostname =
      if length cc.kafka.brokers == 0
      then refused_consumer brokers_required
      else if cc.kafka.topic =? []
      then refused_consumer topic_required
      else if cc.kafka.group_id =? []
      then refused_consumer group_id_required
      else elim (ttl_of cc.command_ttl) [
        | none ↦ refused_consumer (invalid_command_ttl cc.command_ttl)
        | some ttl ↦ consumer (record {
          hostname = hostname;
          ttl = ttl;
          has_writer = not (cc.kafka.response_topic =? []);
          reader = some (start_offset cc.kafka.auto_offset_reset);
        })
      ]

abbrev pub less_int : ℤ → ℤ → Bool
less_int (pos a) (pos b) = ltb a b
less_int (pos a) (negsuc b) = false
less_int (negsuc a) (pos b) = true
less_int (negsuc a) (negsuc b) = ltb b a

-- For this node or for all.
abbrev pub is_target : KafkaCommandConsumer → KafkaCommand → Bool
is_target c k = (k.target =? codes "*") || (k.target =? []) || (k.target =? c.hostname)

abbrev pub is_stale : KafkaCommandConsumer → ℕ → KafkaCommand → Bool
is_stale c now k = not (k.timestamp == 0) && less_int c.ttl (difference now k.timestamp)

abbrev pub to_command : KafkaCommand → Command
to_command k = record { method = k.command; params = k.payload; id = k.request_id }

unfoldable pub kafka_response : KafkaCommandConsumer → Bytes → ℕ → Response → KafkaResponse
kafka_response c command now r = record {
  version = codes "v1";
  source = c.hostname;
  command = command;
  request_id = r.id;
  timestamp = now;
  result = r.result;
  error = r.error;
}

abbrev pub is_success : Response → Bool
is_success r = elim r.error [ none ↦ true | some e ↦ false ]

module _ (S : TaskStore) (decode : Bytes → Option KafkaCommand)
    (run : Command → ℕ → Handler S → Handler S × Response) where
  -- The response is handed to the writer; whether it is written changes nothing here.
  abbrev pub answer_command :
      KafkaCommandConsumer
      → KafkaCommand
      → ℕ
      → Handler S × Response
      → Handler S × Option KafkaResponse × Bool
  answer_command c k now (h, r) = (
    h,
    (if c.has_writer && not (k.request_id =? [])
        then some (kafka_response c k.command now r)
        else none),
    is_success r,
  )

  abbrev pub dispatch_decoded :
      KafkaCommandConsumer
      → Option KafkaCommand
      → ℕ
      → Handler S
      → Handler S × Option KafkaResponse × Bool
  dispatch_decoded c none now h = (h, none, false)
  dispatch_decoded c (some k) now h =
      if not (is_target c k)
      then (h, none, true)
      else if is_stale c now k
      then (h, none, true)
      else answer_command c k now (run (to_command k) (now / 1000000000) h)

  -- The handler, the response that is written, and whether there was no error.
  unfoldable pub process_message :
      KafkaCommandConsumer → Bytes → ℕ → Handler S → Handler S × Option KafkaResponse × Bool
  process_message c value now h = dispatch_decoded c (decode value) now h

  -- What `FetchMessage` answers at a time: a message, and whether `CommitMessages` will commit it; an
  -- error; or that the context is over.
  pub data Fetched : Type 0 where
    fetched : Bytes → Bool → Fetched
    fetch_failed context_done : Fetched

  -- The state of the handler, the responses, and the messages committed.
  pub record Progress : Type 0 where
    pub handler : Handler S
    pub responses : List KafkaResponse
    pub committed : List Bytes

  abbrev pub add_response : Option KafkaResponse → List KafkaResponse → List KafkaResponse
  add_response none rs = rs
  add_response (some r) rs = rs ++ r ∷ []

  abbrev pub add_progress :
      Bytes → Bool → Handler S × Option KafkaResponse × Bool → Progress → Progress
  add_progress value commits (h, response, success) g = record {
    handler = h;
    responses = add_response response g.responses;
    committed = if commits then g.committed ++ value ∷ [] else g.committed;
  }

  unfoldable pub consume_one : KafkaCommandConsumer → ℕ → Bytes → Bool → Progress → Progress
  consume_one c now value commits g =
      add_progress value commits (process_message c value now g.handler) g

  -- `Start`: it commits every message, also after an error of the command.
  unfoldable pub consume : KafkaCommandConsumer → List (Fetched × ℕ) → Progress → Progress
  consume c [] g = g
  consume c ((fetched value commits, now) ∷ rest) g =
      consume c rest (consume_one c now value commits g)
  consume c ((fetch_failed, now) ∷ rest) g = consume c rest g
  consume c ((context_done, now) ∷ rest) g = g

-- The clients that `Stop` closes, and the consumer without them.
unfoldable pub stop_consumer : KafkaCommandConsumer → KafkaCommandConsumer × ℕ
stop_consumer c = (
  record c { has_writer = false; reader = none },
  (if c.has_writer then 1 else 0) + elim c.reader [ none ↦ 0 | some offset ↦ 1 ],
)
