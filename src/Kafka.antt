-- ===== src/Kafka.antt =====
-- plugins/reporter/kafka/kafka.go. `marshal` is `serializeJSON`, whose text encoding/json makes;
-- the other parameters are the texts of addresses, ports and times, and `writes`, what
-- the client makes of messages after those that it has taken. The counters are exact numbers.
pub mod Settings
pub mod Counting
pub mod Envelope
use otus.Base.{
  Bytes, List, ℕ, Option, Bool, some, ◌∷◌, [], ◌=?◌, Dict, if◌then◌else◌, ◌++◌, ◌+◌, false, true,
  none, ◌||◌, lookup, list_eq, nat_eq, length, not,
}
use otus.Text.{ℤ, pos, codes}
use otus.Core.{Addr}
use otus.Output.{OutputPacket, Labels}

-- A value of the configuration as far as its type is asked for: a float64 is the integer that `int`
-- makes of it, an element of a []any is none unless it is a string.
pub data Value : Type 0 where
  text : Bytes → Value
  number : ℤ → Value
  texts : List Bytes → Value
  values : List (Option Bytes) → Value
  other : Value

pub record KafkaConfig : Type 0 where
  pub brokers : List Bytes
  pub compression : Bytes
  pub max_attempts : ℤ
  pub topic : Bytes
  pub topic_prefix : Bytes
  pub batch_size : ℤ
  pub batch_timeout : ℤ
  pub serialization : Bytes

pub data InitError : Type 0 where
  no_configuration brokers_required topics_exclusive topic_required writer_panics : InitError
  invalid_broker : ℕ → InitError
  invalid_batch_timeout invalid_serialization invalid_compression : Bytes → InitError

pub data Read (A : Type 0) : Type 0 where
  read : A → Read A
  refuse : InitError → Read A

unfoldable pub and_then : {A B : Type 0} → Read A → (A → Read B) → Read B
and_then (read a) f = f a
and_then (refuse e) f = refuse e

abbrev pub text_of : Option Value → Option Bytes
text_of (some (text s)) = some s
text_of _ = none

abbrev pub text_or : Bytes → Option Value → Bytes
text_or d (some (text s)) = s
text_or d _ = d

abbrev pub number_or : ℤ → Option Value → ℤ
number_or d (some (number n)) = n
number_or d _ = d

unfoldable pub read_elements : ℕ → List (Option Bytes) → Read (List Bytes)
read_elements i [] = read []
read_elements i (none ∷ bs) = refuse (invalid_broker i)
read_elements i (some b ∷ bs) = and_then (read_elements (i + 1) bs) (λ rest. read (b ∷ rest))

unfoldable pub read_brokers : Option Value → Read (List Bytes)
read_brokers (some (values bs)) = read_elements 0 bs
read_brokers (some (texts bs)) = read bs
read_brokers _ = refuse brokers_required

-- The topic and the prefix, one of them empty.
unfoldable pub read_topics : Bytes → Bytes → Read (Bytes × Bytes)
read_topics [] [] = refuse topic_required
read_topics (c ∷ topic) [] = read (c ∷ topic, [])
read_topics [] (c ∷ prefix) = read ([], c ∷ prefix)
read_topics (c ∷ topic) (d ∷ prefix) = refuse topics_exclusive

unfoldable pub read_serialization : Option Bytes → Read Bytes
read_serialization none = read (codes "json")
read_serialization (some s) =
    if (s =? codes "json") || (s =? codes "binary")
    then read s
    else refuse (invalid_serialization s)

-- 100 ms in nanoseconds
abbrev pub default_batch_timeout : ℤ
default_batch_timeout = pos 100000000

abbrev pub is_compression : Bytes → Bool
is_compression s =
    (s =? codes "none")
    || (s =? [])
    || (s =? codes "gzip")
    || (s =? codes "snappy")
    || (s =? codes "lz4")

module _ (parse_duration : Bytes → Option ℤ) where
  unfoldable pub read_batch_timeout : Option Bytes → Read ℤ
  read_batch_timeout none = read default_batch_timeout
  read_batch_timeout (some s) = elim (parse_duration s) [
    | none ↦ refuse (invalid_batch_timeout s)
    | some d ↦ read d
  ]

  unfoldable pub read_options : Dict Bytes Value → Read KafkaConfig
  read_options options = and_then (read_brokers (lookup (codes "brokers") options)) (λ brokers.
      and_then
        (read_topics (text_or [] (lookup (codes "topic") options))
          (text_or [] (lookup (codes "topic_prefix") options)))
        (λ topics.
          and_then (read_batch_timeout (text_of (lookup (codes "batch_timeout") options)))
            (λ timeout.
              and_then (read_serialization (text_of (lookup (codes "serialization") options)))
                (λ serialization. read (record {
                  brokers = brokers;
                  compression = text_or (codes "snappy") (lookup (codes "compression") options);
                  max_attempts = number_or (pos 3) (lookup (codes "max_attempts") options);
                  topic = topics.0;
                  topic_prefix = topics.1;
                  batch_size = number_or (pos 100) (lookup (codes "batch_size") options);
                  batch_timeout = timeout;
                  serialization = serialization;
                })))))

-- A message without its time, which is the packet's.
pub record KafkaMessage : Type 0 where
  pub topic : Bytes
  pub key : Bytes
  pub value : Bytes
  pub headers : List (Bytes × Bytes)

-- `written` holds the messages that the writer has taken.
pub record KafkaReporter : Type 0 where
  pub config : KafkaConfig
  pub has_writer : Bool
  pub written : List KafkaMessage
  pub reported_count : ℕ
  pub error_count : ℕ

-- A refused compression leaves the configuration, without a writer. `kafka.NewWriter` panics when
-- its configuration is not valid.
module _ (is_valid : KafkaConfig → Bool) (parse_duration : Bytes → Option ℤ) where
  abbrev pub configure : KafkaReporter → Read KafkaConfig → KafkaReporter × Option InitError
  configure r (refuse e) = (r, some e)
  configure r (read cfg) =
      if not (is_compression cfg.compression)
      then (record r { config = cfg }, some (invalid_compression cfg.compression))
      else if is_valid cfg
      then (record r { config = cfg; has_writer = true }, none)
      else (record r { config = cfg }, some writer_panics)

  unfoldable pub init_kafka :
      Option (Dict Bytes Value) → KafkaReporter → KafkaReporter × Option InitError
  init_kafka none r = (r, some no_configuration)
  init_kafka (some options) r = configure r (read_options parse_duration options)

-- `none` is an unknown serialization.
unfoldable pub serialize_value :
    (OutputPacket → Option Bytes) → KafkaConfig → OutputPacket → Option Bytes
serialize_value marshal cfg p =
    if (cfg.serialization =? codes "json")
      || (cfg.serialization =? [])
      || (cfg.serialization =? codes "binary")
    then marshal p
    else none

abbrev pub protocol_of : Bytes → Bytes
protocol_of [] = codes "raw"
protocol_of (c ∷ type) = c ∷ type

unfoldable pub resolve_topic : KafkaConfig → OutputPacket → Bytes
resolve_topic cfg p =
    if cfg.topic_prefix =? []
    then cfg.topic
    else cfg.topic_prefix ++ codes "-" ++ protocol_of (codes p.payload_type)

-- The labels in the order in which the map is ranged over.
unfoldable pub label_headers : Labels → List (Bytes × Bytes)
label_headers [] = []
label_headers ((k, v) ∷ labels) = (codes "l." ++ codes k, v) ∷ label_headers labels

-- What the client makes of messages: it takes all, or it fails with some of them taken, for each
-- message whether it is.
pub data Writing : Type 0 where
  all_taken : Writing
  some_taken : List Bool → Writing

abbrev pub taken : List Bool → List KafkaMessage → List KafkaMessage
taken [] ms = []
taken (b ∷ bs) [] = []
taken (b ∷ bs) (m ∷ ms) = let rest = taken bs ms in if b then m ∷ rest else rest

pub data Reporting : Type 0 where
  report_done report_error report_panic : Reporting

module _ (addr_text : Addr → Bytes) (port_text milli_text : ℕ → Bytes) where
  unfoldable pub build_headers : OutputPacket → List (Bytes × Bytes)
  build_headers p =
      (codes "task_id", p.task_id)
      ∷ (codes "agent_id", p.agent_id)
      ∷ (codes "payload_type", codes p.payload_type)
      ∷ (codes "src_ip", addr_text p.src_ip)
      ∷ (codes "dst_ip", addr_text p.dst_ip)
      ∷ (codes "src_port", port_text p.src_port)
      ∷ (codes "dst_port", port_text p.dst_port)
      ∷ (codes "timestamp", milli_text p.timestamp)
      ∷ label_headers p.labels

  -- "%s:%d-%s:%d"
  abbrev pub message_key : OutputPacket → Bytes
  message_key p =
      addr_text p.src_ip
      ++ codes ":"
      ++ port_text p.src_port
      ++ codes "-"
      ++ addr_text p.dst_ip
      ++ codes ":"
      ++ port_text p.dst_port

  abbrev pub message_of : KafkaConfig → OutputPacket → Bytes → KafkaMessage
  message_of cfg p value = record {
    topic = resolve_topic cfg p;
    key = message_key p;
    value = value;
    headers = build_headers p;
  }

  module _ (marshal : OutputPacket → Option Bytes)
      (writes : List KafkaMessage → List KafkaMessage → Writing) where
    abbrev pub count_errors : ℕ → KafkaReporter → KafkaReporter
    count_errors n r = record r { error_count = r.error_count + n }

    abbrev pub written_by : List KafkaMessage → KafkaReporter → Writing → KafkaReporter × Reporting
    written_by ms r all_taken = (
      record r { written = r.written ++ ms; reported_count = r.reported_count + length ms },
      report_done,
    )
    written_by ms r (some_taken takes) = (
      count_errors (length ms) (record r { written = r.written ++ taken takes ms }),
      report_error,
    )

    -- `WriteMessages` with the counters that follow; without a writer it panics.
    abbrev pub write_messages : List KafkaMessage → KafkaReporter → KafkaReporter × Reporting
    write_messages ms r =
        if r.has_writer then written_by ms r (writes r.written ms) else (r, report_panic)

    unfoldable pub report_kafka : Option OutputPacket → KafkaReporter → KafkaReporter × Reporting
    report_kafka none r = (r, report_error)
    report_kafka (some p) r = elim (serialize_value marshal r.config p) [
      | none ↦ (count_errors 1 r, report_error)
      | some value ↦ write_messages (message_of r.config p value ∷ []) r
    ]

    -- The messages of a batch, and how many packets could not be serialized.
    unfoldable pub batch_messages : KafkaConfig → List (Option OutputPacket) → List KafkaMessage × ℕ
    batch_messages cfg [] = ([], 0)
    batch_messages cfg (none ∷ ps) = batch_messages cfg ps
    batch_messages cfg (some p ∷ ps) =
        let (ms, skipped) = batch_messages cfg ps in
        elim (serialize_value marshal cfg p) [
          | none ↦ (ms, skipped + 1)
          | some value ↦ (message_of cfg p value ∷ ms, skipped)
        ]

    abbrev pub write_batch : List KafkaMessage × ℕ → KafkaReporter → KafkaReporter × Reporting
    write_batch ([], skipped) r = (count_errors skipped r, report_done)
    write_batch (m ∷ ms, skipped) r = write_messages (m ∷ ms) (count_errors skipped r)

    unfoldable pub report_kafka_batch :
        List (Option OutputPacket) → KafkaReporter → KafkaReporter × Reporting
    report_kafka_batch ps r = write_batch (batch_messages r.config ps) r
