-- ===== src/Task/Wrapper.antt =====
-- internal/task/reporter_wrapper.go. A reporter is what it answers to a call after the calls before, so
-- it may keep any state; `calls` is the history. `true` is the answer without an error. Metrics and logs
-- are left out.
pub mod Delivery
use otus.Base.{
  ℕ, Bool, Option, [], List, some, true, if◌then◌else◌, ◌++◌, ◌∷◌, ◌==◌, ◌&&◌, none, false, not,
  leb, length,
}

-- A configured size or timeout of 0 or less, and a fallback that is `nil`.
pub record WrapperConfig : Type 0 where
  pub has_fallback : Bool
  pub batch_size : Option ℕ
  pub batch_timeout : Option ℕ

pub data Target : Type 0 where
  primary fallback : Target

pub data Call {ℓ} (P : Type ℓ) : Type ℓ where
  report_call : Target → P → Bool → Call P
  batch_call : List P → Bool → Call P

pub record Wrapper {ℓ} (P : Type ℓ) : Type ℓ where
  pub has_fallback : Bool
  pub batch_size : ℕ
  pub batch_timeout : ℕ
  pub batch : List P
  pub calls : List (Call P)

abbrev pub positive_or : Option ℕ → ℕ → ℕ
positive_or none d = d
positive_or (some n) d = if n == 0 then d else n

unfoldable pub new_reporter_wrapper {ℓ} : {P : Type ℓ} → WrapperConfig → Wrapper P
new_reporter_wrapper cfg = record {
  has_fallback = cfg.has_fallback;
  batch_size = positive_or cfg.batch_size 100;
  batch_timeout = positive_or cfg.batch_timeout 50000000;
  batch = [];
  calls = [];
}

-- What the loop selects: a packet of the channel, or a tick.
pub data Event {ℓ} (P : Type ℓ) : Type ℓ where
  received : P → Event P
  ticked : Event P

abbrev pub no_packets {ℓ} : {P : Type ℓ} → List P → Bool
no_packets [] = true
no_packets (p ∷ ps) = false

module _ {ℓ} {P : Type ℓ} (report : List (Call P) → Target → P → Bool)
    (report_batch : Option (List (Call P) → List P → Bool)) where
  -- `Report` on each packet, and whether all of them went well.
  unfoldable pub report_each : Target → List P → List (Call P) → List (Call P) × Bool
  report_each target [] calls = (calls, true)
  report_each target (pkt ∷ pkts) calls =
      let answer = report calls target pkt in
      let (calls', rest) = report_each target pkts (calls ++ report_call target pkt answer ∷ []) in
      (calls', answer && rest)

  unfoldable pub send_batch : List P → List (Call P) → List (Call P) × Bool
  unfolding report_each
  send_batch batch calls = elim report_batch [
    | some br ↦ (calls ++ batch_call batch (br calls batch) ∷ [], br calls batch)
    | none ↦ report_each primary batch calls
  ]

  -- The calls of a flush that has packets.
  unfoldable pub flushed : Wrapper P → Wrapper P
  flushed w =
      let (calls, sent) = send_batch w.batch w.calls in
      record w {
        batch = [];
        calls =
            if not sent && w.has_fallback then (report_each fallback w.batch calls).0 else calls;
      }

  unfoldable pub flush : Wrapper P → Wrapper P
  flush w = if no_packets w.batch then w else flushed w

  unfoldable pub batch_step : Wrapper P → Event P → Wrapper P
  batch_step w ticked = flush w
  batch_step w (received pkt) =
      let w' = record w { batch = w.batch ++ pkt ∷ [] } in
      if leb w.batch_size (length w'.batch) then flush w' else w'

  -- The loop until the channel is closed, and the last flush.
  unfoldable pub batch_loop : Wrapper P → List (Event P) → Wrapper P
  batch_loop w [] = flush w
  batch_loop w (ev ∷ evs) = batch_loop (batch_step w ev) evs
