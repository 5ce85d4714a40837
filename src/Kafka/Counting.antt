-- ===== src/Kafka/Counting.antt =====
-- plugins/reporter/kafka/kafka.go: what `Report` and `ReportBatch` count.
use mathlib.Core.Path.{subst}
use otus.Output.{OutputPacket}
use otus.Core.{Addr}
use otus.Base.{
  Option, List, ℕ, ◌+◌, ◌≡◌, Bytes, some, ◌∷◌, [], length, none, if_intro, option_intro, arith,
  refl, length-append, true, ◌≤◌,
}
use otus.Kafka.{
  KafkaReporter, KafkaMessage, report_kafka, report_kafka_batch, write_messages, batch_messages,
  count_errors, KafkaConfig, write_batch, serialize_value, Writing, written_by, Reporting,
  some_taken, taken, all_taken,
}

-- The packets of a call that are not nil.
abbrev pub count_one : Option OutputPacket → ℕ
count_one none = 0
count_one (some p) = 1

abbrev pub count_packets : List (Option OutputPacket) → ℕ
count_packets [] = 0
count_packets (none ∷ ps) = count_packets ps
count_packets (some p ∷ ps) = count_packets ps + 1

pub data ReportCall : Type 0 where
  one : Option OutputPacket → ReportCall
  many : List (Option OutputPacket) → ReportCall

abbrev pub packets : List ReportCall → ℕ
packets [] = 0
packets (one p ∷ calls) = count_one p + packets calls
packets (many ps ∷ calls) = count_packets ps + packets calls

-- A reporter with a writer, after `n` packets.
abbrev pub IsCounted : ℕ → KafkaReporter → Type 0
IsCounted n r =
    (r.has_writer ≡ true)
    × (r.reported_count ≤ length r.written)
    × (r.reported_count + r.error_count ≡ n)

module _ (addr_text : Addr → Bytes) (port_text milli_text : ℕ → Bytes)
    (marshal : OutputPacket → Option Bytes)
    (writes : List KafkaMessage → List KafkaMessage → Writing) where
  abbrev pub report_all : List ReportCall → KafkaReporter → KafkaReporter
  report_all [] r = r
  report_all (one p ∷ calls) r =
      report_all calls (report_kafka addr_text port_text milli_text marshal writes p r).0
  report_all (many ps ∷ calls) r =
      report_all calls (report_kafka_batch addr_text port_text milli_text marshal writes ps r).0

  count_errors-IsCounted :
      (k n : ℕ) (r : KafkaReporter)
      → IsCounted n r
      → IsCounted (k + n) (count_errors addr_text port_text milli_text marshal writes k r)
  count_errors-IsCounted k n r h = (h.0, h.1, omega arith)

  written_by-IsCounted :
      (ms : List KafkaMessage) (n : ℕ) (r : KafkaReporter) (w : Writing)
      → IsCounted n r
      → IsCounted
          (length ms + n)
          (written_by addr_text port_text milli_text marshal writes ms r w).0
  written_by-IsCounted ms n r all_taken h =
      (h.0, omega (arith, h.1, length-append r.written ms), omega (arith, h.2))
  written_by-IsCounted ms n r (some_taken takes) h =
      (h.0, omega (arith, h.1, length-append r.written (taken takes ms)), omega (arith, h.2))

  write_messages-IsCounted :
      (ms : List KafkaMessage) (n : ℕ) (r : KafkaReporter)
      → IsCounted n r
      → IsCounted
          (length ms + n)
          (write_messages addr_text port_text milli_text marshal writes ms r).0
  write_messages-IsCounted ms n r h =
      if_intro (λ (q : KafkaReporter × Reporting). IsCounted (length ms + n) q.0) r.has_writer
        (λ _. written_by-IsCounted ms n r (writes r.written ms) h)
        (λ lost. absurd (ground (arith, h.0)))

  report_kafka-IsCounted :
      (p : Option OutputPacket) (n : ℕ) (r : KafkaReporter)
      → IsCounted n r
      → IsCounted
          (count_one p + n)
          (report_kafka addr_text port_text milli_text marshal writes p r).0
  unfolding report_kafka
  report_kafka-IsCounted none n r h = (h.0, h.1, omega arith)
  report_kafka-IsCounted (some p) n r h =
      option_intro (λ (q : KafkaReporter × Reporting). IsCounted (1 + n) q.0)
        (serialize_value marshal r.config p) (λ _. count_errors-IsCounted 1 n r h)
        (λ value _. write_messages-IsCounted _ n r h)

  -- The packets of a batch are messages or skipped.
  batch_messages-length :
      (cfg : KafkaConfig) (ps : List (Option OutputPacket))
      → length (batch_messages addr_text port_text milli_text marshal writes cfg ps).0
          + (batch_messages addr_text port_text milli_text marshal writes cfg ps).1
        ≡ count_packets ps
  unfolding batch_messages
  batch_messages-length cfg [] = refl
  batch_messages-length cfg (none ∷ ps) = batch_messages-length cfg ps
  batch_messages-length cfg (some p ∷ ps) =
      let ih = batch_messages-length cfg ps in
      option_intro (λ (q : List KafkaMessage × ℕ). length q.0 + q.1 ≡ count_packets ps + 1)
        (serialize_value marshal cfg p) (λ _. omega arith) (λ value _. omega arith)

  write_batch-IsCounted :
      (b : List KafkaMessage × ℕ) (n : ℕ) (r : KafkaReporter)
      → IsCounted n r
      → IsCounted
          (length b.0 + b.1 + n)
          (write_batch addr_text port_text milli_text marshal writes b r).0
  write_batch-IsCounted ([], skipped) n r h = (h.0, h.1, omega arith)
  write_batch-IsCounted (m ∷ ms, skipped) n r h =
      subst
        (λ i.
          IsCounted i
            (write_batch addr_text port_text milli_text marshal writes (m ∷ ms, skipped) r).0)
        (omega arith)
        (write_messages-IsCounted (m ∷ ms) (skipped + n) _ (count_errors-IsCounted skipped n r h))

  report_kafka_batch-IsCounted :
      (ps : List (Option OutputPacket)) (n : ℕ) (r : KafkaReporter)
      → IsCounted n r
      → IsCounted
          (count_packets ps + n)
          (report_kafka_batch addr_text port_text milli_text marshal writes ps r).0
  unfolding report_kafka_batch
  report_kafka_batch-IsCounted ps n r h =
      subst
        (λ i.
          IsCounted (i + n)
            (report_kafka_batch addr_text port_text milli_text marshal writes ps r).0)
        (batch_messages-length r.config ps)
        (write_batch-IsCounted
          (batch_messages addr_text port_text milli_text marshal writes r.config ps) n r h)

  -- With a writer, whatever is reported one by one or in batches, with whatever errors of the
  -- serialization or of the client, which may take a part of what it is given: each packet
  -- that is not nil is counted once, as reported or as an error, and no more are counted as
  -- reported than the client took messages.
  pub report_all-IsCounted :
      (calls : List ReportCall) (n : ℕ) (r : KafkaReporter)
      → IsCounted n r
      → IsCounted (packets calls + n) (report_all calls r)
  report_all-IsCounted [] n r h = (h.0, h.1, omega arith)
  report_all-IsCounted (one p ∷ calls) n r h =
      subst (λ i. IsCounted i (report_all (one p ∷ calls) r)) (omega arith)
        (report_all-IsCounted calls (count_one p + n) _ (report_kafka-IsCounted p n r h))
  report_all-IsCounted (many ps ∷ calls) n r h =
      subst (λ i. IsCounted i (report_all (many ps ∷ calls) r)) (omega arith)
        (report_all-IsCounted calls (count_packets ps + n) _
          (report_kafka_batch-IsCounted ps n r h))
