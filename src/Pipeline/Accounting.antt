-- ===== src/Pipeline/Accounting.antt =====
-- internal/pipeline/pipeline.go: every packet that a pipeline received is accounted for.
use otus.Core.{DecodedPacket, RawPacket}
use otus.Output.{OutputPacket}
use otus.Task.Flows.{u64, bump}
use otus.Base.{
  ℕ, Option, ◌≡◌, List, ◌+◌, some, none, ◌∷◌, [], arith, refl, Bool, if◌then◌else◌, ◌∙◌,
  Option-cases, ap, inl, inr, length, Bool-cases,
}
use otus.Pipeline.{
  Metrics, parse, run_processors, Parser, Processor, process_decoded, process_packet, run_packet,
  Pipeline, build_output, Sending, sent, run, cancelled, no_metrics, deliver, prepend, full,
}

-- The counters that a packet ends up in; `n` packets were sent.
abbrev pub Balanced : ℕ → Metrics → Type 0
Balanced n m = u64 m.received ≡ u64 (n + m.decode_errors + m.dropped)

abbrev pub counted : Option OutputPacket → ℕ
counted none = 0
counted (some o) = 1

-- A result that the end of the context kept from being sent.
abbrev pub lost : Bool → ℕ
lost finished = if finished then 0 else 1

length-prepend :
    (o : Option OutputPacket) (os : List OutputPacket)
    → length (prepend o os) ≡ counted o + length os
length-prepend none os = omega arith
length-prepend (some o) os = omega arith

module _ {ℓ} {S : Type ℓ} where
  parse-keeps :
      (ps : List (Parser S)) (d : DecodedPacket) (s : S) (m : Metrics)
      → ((parse ps d s m).1.received ≡ m.received)
        × ((parse ps d s m).1.decode_errors ≡ m.decode_errors)
        × ((parse ps d s m).1.dropped ≡ m.dropped)
        × ((parse ps d s m).1.decoded ≡ m.decoded)
  unfolding parse
  parse-keeps [] d s m = (refl, refl, refl, refl)
  parse-keeps (p ∷ ps) d s m =
      let handled = p.handle s d in
      let skipped = parse-keeps ps d s m in
      let failed = parse-keeps ps d handled.0 (record m { parse_errors = bump m.parse_errors }) in
      ground (arith, skipped, failed)

  -- A packet that the processors do not keep is dropped, once.
  run_processors-drops :
      (fs : List (Processor S)) (o : OutputPacket) (s : S) (m : Metrics)
      → ((run_processors fs o s m).1.received ≡ m.received)
        × ((run_processors fs o s m).1.decode_errors ≡ m.decode_errors)
        × (u64 ((run_processors fs o s m).1.dropped + counted (run_processors fs o s m).2)
            ≡ u64 (m.dropped + 1))
  unfolding run_processors
  run_processors-drops [] o s m = (refl, refl, refl)
  run_processors-drops (f ∷ fs) o s m =
      let r = f s o in
      let rest = run_processors-drops fs r.1 r.0 (record m { processed = bump m.processed }) in
      ground (arith, rest)

  process_decoded-accounts :
      (p : Pipeline S) (d : DecodedPacket) (s : S) (m : Metrics)
      → let r = process_decoded p d s m in
        (r.1.received ≡ m.received)
        × (r.1.decode_errors ≡ m.decode_errors)
        × (u64 (r.1.dropped + counted r.2) ≡ u64 (m.dropped + 1))
  unfolding process_decoded
  process_decoded-accounts p d s m =
      let m1 = record m { decoded = bump m.decoded } in
      let q = parse p.parsers d s m1 in
      let own = parse-keeps p.parsers d s m1 in
      let rest = run_processors-drops p.processors (build_output p d q.2) q.0 q.1 in
      (rest.0 ∙ own.0, rest.1 ∙ own.1, rest.2 ∙ ap (λ (n : ℕ). u64 (n + 1)) own.2)

  process_packet-accounts :
      (p : Pipeline S) (raw : RawPacket) (s : S) (m : Metrics)
      → let r = process_packet p raw s m in
        (r.1.received ≡ m.received)
        × (u64 (r.1.decode_errors + r.1.dropped + counted r.2)
            ≡ u64 (m.decode_errors + m.dropped + 1))
  unfolding process_packet
  process_packet-accounts p raw s m = elim (Option-cases (p.decode s raw).1) [
    | inl bad ↦ rw (bad, process_packet) (refl, omega arith)
    | inr (d, good) ↦
        let own = process_decoded-accounts p d (p.decode s raw).0 m in
        rw (good, process_packet) (own.0, omega (arith, own.1, own.2))
  ]

  deliver-accounts :
      (n : ℕ) (sending : Sending) (r : S × Metrics × Option OutputPacket)
      → u64 r.1.received ≡ u64 (n + r.1.decode_errors + r.1.dropped + counted r.2)
      → let q = deliver sending r in Balanced (n + counted q.2 + lost q.3) q.1
  deliver-accounts n sending (s, m, none) b = omega (arith, b)
  deliver-accounts n sent (s, m, some o) b = omega (arith, b)
  deliver-accounts n cancelled (s, m, some o) b = omega (arith, b)
  deliver-accounts n full (s, m, some o) b = omega (arith, b)

  run_packet-accounts :
      (n : ℕ) (p : Pipeline S) (raw : RawPacket) (sending : Sending) (s : S) (m : Metrics)
      → Balanced n m
      → let r = run_packet p raw sending s m in Balanced (n + counted r.2 + lost r.3) r.1
  unfolding run_packet
  run_packet-accounts n p raw sending s m b =
      let m1 = record m { received = bump m.received } in
      let own = process_packet-accounts p raw s m1 in
      deliver-accounts n sending (process_packet p raw s m1) (omega (arith, own.0, own.1, b))

  run-accounts :
      (n : ℕ) (p : Pipeline S) (input : List (RawPacket × Sending)) (s : S) (m : Metrics)
      → Balanced n m
      → let r = run p input s m in Balanced (n + length r.2 + lost r.3) r.1
  unfolding run
  run-accounts n p [] s m b = omega (arith, b)
  run-accounts n p ((raw, sending) ∷ input) s m b =
      let own = run_packet-accounts n p raw sending s m b in
      let q = run_packet p raw sending s m in
      let rest = run-accounts (n + counted q.2 + lost q.3) p input q.0 q.1 own in
      let outputs = (run p input q.0 q.1).2 in
      elim (Bool-cases q.3) [
        | inl more ↦ rw (more, run) (omega (arith, rest, ap lost more, length-prepend q.2 outputs))
        | inr over ↦ rw (over, run) (omega (arith, own, ap lost over, length-prepend q.2 []))
      ]

  -- After any input, a pipeline that started with its counters at 0 has counted every packet it received:
  -- as sent, as a decoding error or as dropped, each exactly once, but for the one result that the end of
  -- the context keeps from being sent. The counters are 64-bit words.
  pub run-balances :
      (p : Pipeline S) (input : List (RawPacket × Sending)) (s : S)
      → let r = run p input s no_metrics in
        u64 r.1.received ≡ u64 (length r.2 + lost r.3 + r.1.decode_errors + r.1.dropped)
  run-balances p input s = omega (arith, run-accounts 0 p input s no_metrics refl)
