-- ===== src/Kafka/Envelope.antt =====
-- plugins/reporter/kafka/kafka.go: the headers, as a consumer reads them.
use otus.Core.{Addr}
use otus.Text.{has_prefix, codes}
use otus.Base.{
  List, Bytes, ◌≡◌, ◌∷◌, [], ℕ, if◌then◌else◌, ap, Option, lookup, drop, refl, list_eq, nat_eq,
  some,
}
use otus.Output.{OutputPacket, Labels}
use otus.Kafka.{build_headers, label_headers}

-- The labels are the headers that start with `l.`.
abbrev pub read_labels : List (Bytes × Bytes) → List (Bytes × Bytes)
read_labels [] = []
read_labels ((k, v) ∷ headers) =
    if has_prefix (codes "l.") k then (drop 2 k, v) ∷ read_labels headers else read_labels headers

abbrev pub label_list : Labels → List (Bytes × Bytes)
label_list [] = []
label_list ((k, v) ∷ labels) = (codes k, v) ∷ label_list labels

label_headers-read : (labels : Labels) → read_labels (label_headers labels) ≡ label_list labels
unfolding label_headers has_prefix
label_headers-read [] = refl
label_headers-read ((k, v) ∷ labels) = ap (◌∷◌ (codes k, v)) (label_headers-read labels)

module _ (addr_text : Addr → Bytes) (port_text milli_text : ℕ → Bytes) where
  abbrev header : Bytes → OutputPacket → Option Bytes
  header k p = lookup k (build_headers addr_text port_text milli_text p)

  -- What the headers of a packet say.
  pub record Carries (p : OutputPacket) : Type 0 where
    pub task_id : header (codes "task_id") p ≡ some p.task_id
    pub agent_id : header (codes "agent_id") p ≡ some p.agent_id
    pub payload_type : header (codes "payload_type") p ≡ some (codes p.payload_type)
    pub src_ip : header (codes "src_ip") p ≡ some (addr_text p.src_ip)
    pub dst_ip : header (codes "dst_ip") p ≡ some (addr_text p.dst_ip)
    pub src_port : header (codes "src_port") p ≡ some (port_text p.src_port)
    pub dst_port : header (codes "dst_port") p ≡ some (port_text p.dst_port)
    pub timestamp : header (codes "timestamp") p ≡ some (milli_text p.timestamp)
    pub labels : read_labels (build_headers addr_text port_text milli_text p) ≡ label_list p.labels

  -- A consumer reads the task, the agent, the payload type, the addresses, the ports and the time of a
  -- packet from its headers by their names, whatever labels the packet has, and reads exactly its
  -- labels from the headers whose names start with `l.`.
  pub build_headers-Carries : (p : OutputPacket) → Carries p
  unfolding build_headers lookup has_prefix
  build_headers-Carries p = record {
    task_id = refl;
    agent_id = refl;
    payload_type = refl;
    src_ip = refl;
    dst_ip = refl;
    src_port = refl;
    dst_port = refl;
    timestamp = refl;
    labels = label_headers-read p.labels;
  }
