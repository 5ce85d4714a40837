-- ===== src/Examples/Messages.antt =====
-- plugins/reporter/kafka on two packets.
use otus.Core.{Addr, v4}
use otus.Text.{codes, pos, ℤ}
use otus.Output.{OutputPacket}
use otus.Base.{
  [], Bytes, Dict, ℕ, List, Option, ◌∷◌, false, if◌then◌else◌, some, true, Bool, none, ◌=?◌, ltb,
  refl, list_eq, nat_eq, length, lookup, not, ◌==◌, arith,
}
use otus.Kafka.{
  KafkaReporter, KafkaConfig, Value, init_kafka, read_options, values, and_then, KafkaMessage,
  read_brokers, text, read_elements, read_topics, read_batch_timeout, read_serialization, Writing,
  all_taken, some_taken,
}
use otus.Kafka.Settings.{IsReady, init_kafka-IsReady}
use otus.Kafka.Counting.{IsCounted, report_all, report_all-IsCounted, ReportCall, one, many}

abbrev blank : KafkaReporter
blank = record {
  config = record {
    brokers = [];
    compression = [];
    max_attempts = pos 0;
    topic = [];
    topic_prefix = [];
    batch_size = pos 0;
    batch_timeout = pos 0;
    serialization = [];
  };
  has_writer = false;
  written = [];
  reported_count = 0;
  error_count = 0;
}

abbrev no_duration : Bytes → Option ℤ
no_duration s = none

abbrev raw_only : OutputPacket → Option Bytes
raw_only p = if p.raw_payload =? [] then none else some p.raw_payload

abbrev has_brokers : KafkaConfig → Bool
has_brokers cfg = not (length cfg.brokers == 0)

abbrev options : Dict Bytes Value
options =
    (codes "brokers", values (some (codes "k:9092") ∷ []))
    ∷ (codes "topic_prefix", text (codes "otus"))
    ∷ (codes "serialization", text (codes "binary"))
    ∷ []

abbrev ready : KafkaReporter
ready = record blank {
  config = record {
    brokers = codes "k:9092" ∷ [];
    compression = codes "snappy";
    max_attempts = pos 3;
    topic = [];
    topic_prefix = codes "otus";
    batch_size = pos 100;
    batch_timeout = pos 100000000;
    serialization = codes "binary";
  };
  has_writer = true;
}

init_kafka-IsReady_example : IsReady raw_only has_brokers no_duration ready
unfolding init_kafka read_options and_then read_brokers read_elements read_topics read_batch_timeout
    read_serialization lookup
init_kafka-IsReady_example =
    init_kafka-IsReady raw_only has_brokers no_duration (some options) blank refl

abbrev packet : OutputPacket
packet = record {
  task_id = codes "t1";
  agent_id = codes "a";
  pipeline_id = 0;
  timestamp = 1;
  src_ip = v4 (10 ∷ 0 ∷ 0 ∷ 1 ∷ []);
  dst_ip = v4 (10 ∷ 0 ∷ 0 ∷ 2 ∷ []);
  src_port = 5060;
  dst_port = 5061;
  protocol = 17;
  labels = ("sip.method", codes "BYE") ∷ [];
  payload_type = "sip";
  raw_payload = codes "BYE";
}

abbrev empty_packet : OutputPacket
empty_packet = record packet { raw_payload = [] }

abbrev addr_text : Addr → Bytes
addr_text a = codes "ip"

abbrev number_text : ℕ → Bytes
number_text n = codes "n"

abbrev takes_two : List KafkaMessage → List KafkaMessage → Writing
takes_two written ms = if ltb (length written) 1 then all_taken else some_taken (true ∷ [])

abbrev calls : List ReportCall
calls =
    one (some packet)
    ∷ many (some packet ∷ none ∷ some empty_packet ∷ some packet ∷ [])
    ∷ one none
    ∷ one (some packet)
    ∷ []

report_all-IsCounted_example :
    IsCounted 5 (report_all addr_text number_text number_text raw_only takes_two calls ready)
report_all-IsCounted_example =
    report_all-IsCounted addr_text number_text number_text raw_only takes_two calls 0 ready
      (refl, omega arith, refl)
