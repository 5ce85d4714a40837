-- ===== src/Pipeline.antt =====
-- internal/pipeline/pipeline.go. `S` is the state that the decoder, the parsers and the processors of
-- all pipelines share. The Prometheus metrics and the clock are left out.
pub mod Accounting
pub mod Parsing
use otus.Core.{DecodedPacket, RawPacket}
use otus.Output.{OutputPacket, Labels}
use Prim.Native.String.{String}
use otus.Base.{ℕ, Bytes, List, Bool, Option, some, none, true, ◌∷◌, [], false, if◌then◌else◌}
use otus.Task.Flows.{bump}

pub record Metrics : Type 0 where
  pub received : ℕ
  pub decoded : ℕ
  pub decode_errors : ℕ
  pub parsed : ℕ
  pub parse_errors : ℕ
  pub processed : ℕ
  pub dropped : ℕ

abbrev pub no_metrics : Metrics
no_metrics = record {
  received = 0;
  decoded = 0;
  decode_errors = 0;
  parsed = 0;
  parse_errors = 0;
  processed = 0;
  dropped = 0;
}

-- `Handle` gives the labels, or an error; `Process` changes the packet and says whether to keep it.
pub record Parser {ℓ} (S : Type ℓ) : Type ℓ where
  pub name : String
  pub can_handle : S → DecodedPacket → Bool
  pub handle : S → DecodedPacket → S × Option Labels

abbrev pub Processor {ℓ} : Type ℓ → Type ℓ
Processor S = S → OutputPacket → S × OutputPacket × Bool

pub record Pipeline {ℓ} (S : Type ℓ) : Type ℓ where
  pub id : ℕ
  pub task_id : Bytes
  pub agent_id : Bytes
  pub decode : S → RawPacket → S × Option DecodedPacket
  pub parsers : List (Parser S)
  pub processors : List (Processor S)

-- What happens to a result on the output channel.
pub data Sending : Type 0 where
  sent cancelled full : Sending

abbrev pub prepend {ℓ} : {A : Type ℓ} → Option A → List A → List A
prepend none xs = xs
prepend (some x) xs = x ∷ xs

module _ {ℓ} {S : Type ℓ} where
  -- The loop over the parsers, with its counters: the name and the labels of the first that succeeds.
  unfoldable pub parse :
      List (Parser S) → DecodedPacket → S → Metrics → S × Metrics × Option (String × Labels)
  parse [] d s m = (s, m, none)
  parse (p ∷ ps) d s m =
      let handled = p.handle s d in
      let skipped = parse ps d s m in
      let failed = parse ps d handled.0 (record m { parse_errors = bump m.parse_errors }) in
      if p.can_handle s d
      then elim handled.1 [
        | none ↦ failed
        | some labels ↦ (handled.0, record m { parsed = bump m.parsed }, some (p.name, labels))
      ]
      else skipped

  unfoldable pub build_output : Pipeline S → DecodedPacket → Option (String × Labels) → OutputPacket
  build_output p d match = record {
    task_id = p.task_id;
    agent_id = p.agent_id;
    pipeline_id = p.id;
    timestamp = d.timestamp;
    src_ip = d.ip.src_ip;
    dst_ip = d.ip.dst_ip;
    src_port = d.transport.src_port;
    dst_port = d.transport.dst_port;
    protocol = d.ip.protocol;
    labels = elim match [ none ↦ [] | some (name, labels) ↦ labels ];
    payload_type = elim match [ none ↦ "raw" | some (name, labels) ↦ name ];
    raw_payload = d.payload;
  }

  unfoldable pub run_processors :
      List (Processor S) → OutputPacket → S → Metrics → S × Metrics × Option OutputPacket
  run_processors [] o s m = (s, m, some o)
  run_processors (f ∷ fs) o s m =
      let (s', o', keep) = f s o in
      let m' = record m { processed = bump m.processed } in
      let rest = run_processors fs o' s' m' in
      if keep then rest else (s', record m' { dropped = bump m'.dropped }, none)

  unfoldable pub process_decoded :
      Pipeline S → DecodedPacket → S → Metrics → S × Metrics × Option OutputPacket
  process_decoded p d s m =
      let (s', m', match) = parse p.parsers d s (record m { decoded = bump m.decoded }) in
      run_processors p.processors (build_output p d match) s' m'

  unfoldable pub process_packet :
      Pipeline S → RawPacket → S → Metrics → S × Metrics × Option OutputPacket
  process_packet p raw s m =
      let (s', result) = p.decode s raw in
      elim result [
        | none ↦ (s', record m { decode_errors = bump m.decode_errors }, none)
        | some d ↦ process_decoded p d s' m
      ]

  -- The send to the output channel.
  abbrev pub deliver :
      Sending → S × Metrics × Option OutputPacket → S × Metrics × Option OutputPacket × Bool
  deliver sending (s, m, none) = (s, m, none, true)
  deliver sent (s, m, some o) = (s, m, some o, true)
  deliver cancelled (s, m, some o) = (s, m, none, false)
  deliver full (s, m, some o) = (s, record m { dropped = bump m.dropped }, none, true)

  -- One packet of `Run`: what it sent, and whether the loop goes on.
  unfoldable pub run_packet :
      Pipeline S → RawPacket → Sending → S → Metrics → S × Metrics × Option OutputPacket × Bool
  run_packet p raw sending s m =
      deliver sending (process_packet p raw s (record m { received = bump m.received }))

  -- `Run` until the input is closed or the context is done: the packets that it sent.
  unfoldable pub run :
      Pipeline S → List (RawPacket × Sending) → S → Metrics → S × Metrics × List OutputPacket × Bool
  run p [] s m = (s, m, [], true)
  run p ((raw, sending) ∷ input) s m =
      let (s', m', result, more) = run_packet p raw sending s m in
      let (s'', m'', outputs, finished) = run p input s' m' in
      if more
      then (s'', m'', prepend result outputs, finished)
      else (s', m', prepend result [], false)
