-- ===== src/Task/Stats.antt =====
-- internal/task/task.go: `statsCollectorLoop`, and the interval of its ticker. `added` is what the two
-- Prometheus counters have been given; a counter of a capturer is a 64-bit word.
use otus.Base.{
  ℕ, List, replicate, if◌then◌else◌, ◌≤◌, ◌≡◌, ltb, ◌+◌, ◌∷◌, [], ◌==◌, ◌<◌, suc, arith, ◌-◌, refl,
  zero, ◌∙◌, ap,
}
use otus.Task.Flows.{u64}

pub record CapStats : Type 0 where
  pub packets_received : ℕ
  pub packets_dropped : ℕ

pub record Collector : Type 0 where
  pub last_stats : List CapStats
  pub added_received : ℕ
  pub added_dropped : ℕ

abbrev pub zero_stats : CapStats
zero_stats = record { packets_received = 0; packets_dropped = 0 }

unfoldable pub new_collector : ℕ → Collector
new_collector capturers = record {
  last_stats = replicate capturers zero_stats;
  added_received = 0;
  added_dropped = 0;
}

-- The difference as the source subtracts it, or the value itself after a reset.
unfoldable pub delta : ℕ → ℕ → ℕ
delta current last =
    if ltb current last then current else u64 (current + 18446744073709551616 - last)

-- The capturers in order, with what each has counted: the two sums of the differences.
unfoldable pub deltas : List CapStats → List CapStats → ℕ × ℕ
deltas (c ∷ cs) (l ∷ ls) =
    let (received, dropped) = deltas cs ls in
    (
      delta c.packets_received l.packets_received + received,
      delta c.packets_dropped l.packets_dropped + dropped,
    )
deltas [] ls = (0, 0)
deltas (c ∷ cs) [] = (0, 0)

unfoldable pub collect : Collector → List CapStats → Collector
collect s stats =
    let (received, dropped) = deltas stats s.last_stats in
    record {
      last_stats = stats;
      added_received = s.added_received + received;
      added_dropped = s.added_dropped + dropped;
    }

unfoldable pub collect_all : Collector → List (List CapStats) → Collector
collect_all s [] = s
collect_all s (stats ∷ ticks) = collect_all (collect s stats) ticks

-- The interval in nanoseconds: 5 seconds unless one is set, and only a positive one is set.
unfoldable pub metrics_interval : ℕ → ℕ
metrics_interval stored = if stored == 0 then 5000000000 else stored

unfoldable pub update_metrics_interval : ℕ → ℕ → ℕ
update_metrics_interval stored d = if ltb 0 d then d else stored

-- The sums of the counters, and counters that only grow and are 64-bit words.
abbrev pub all_received : List CapStats → ℕ
all_received [] = 0
all_received (c ∷ cs) = c.packets_received + all_received cs

abbrev pub all_dropped : List CapStats → ℕ
all_dropped [] = 0
all_dropped (c ∷ cs) = c.packets_dropped + all_dropped cs

abbrev pub Grows : List CapStats → List CapStats → Type 0
Grows [] [] = Unit
Grows (l ∷ ls) (c ∷ cs) =
    (l.packets_received ≤ c.packets_received)
    × (c.packets_received < 18446744073709551616)
    × (l.packets_dropped ≤ c.packets_dropped)
    × (c.packets_dropped < 18446744073709551616)
    × Grows ls cs
Grows _ _ = ⊥

abbrev pub GrowAll : List CapStats → List (List CapStats) → Type 0
GrowAll last [] = Unit
GrowAll last (stats ∷ ticks) = Grows last stats × GrowAll stats ticks

delta-grows :
    (current last : ℕ)
    → last ≤ current
    → current < 18446744073709551616
    → delta current last + last ≡ current
unfolding delta
delta-grows current last le lt = ground arith

deltas-grow :
    (last stats : List CapStats)
    → Grows last stats
    → ((deltas stats last).0 + all_received last ≡ all_received stats)
      × ((deltas stats last).1 + all_dropped last ≡ all_dropped stats)
unfolding deltas
deltas-grow [] [] g = (refl, refl)
deltas-grow [] (c ∷ cs) g = absurd g
deltas-grow (l ∷ ls) [] g = absurd g
deltas-grow (l ∷ ls) (c ∷ cs) (g0, g1, g2, g3, rest) =
    let own = deltas-grow ls cs rest in
    let r = delta-grows c.packets_received l.packets_received g0 g1 in
    let d = delta-grows c.packets_dropped l.packets_dropped g2 g3 in
    (omega (arith, own.0, r), omega (arith, own.1, d))

-- The counters and what they have been given.
abbrev Exact : Collector → Type 0
Exact s =
    (s.added_received ≡ all_received s.last_stats) × (s.added_dropped ≡ all_dropped s.last_stats)

collect_all-Exact :
    (ticks : List (List CapStats)) (s : Collector)
    → Exact s
    → GrowAll s.last_stats ticks
    → Exact (collect_all s ticks)
unfolding collect_all
collect_all-Exact [] s e g = e
collect_all-Exact (stats ∷ ticks) s e g =
    let own = deltas-grow s.last_stats stats g.0 in
    let next : Exact (collect s stats) =
      unfold collect in (omega (arith, own.0, e.0), omega (arith, own.1, e.1)) in
    collect_all-Exact ticks (collect s stats) next (unfold collect in g.1)

zero_stats-sums :
    (n : ℕ)
    → (all_received (replicate n zero_stats) ≡ 0) × (all_dropped (replicate n zero_stats) ≡ 0)
zero_stats-sums zero = (refl, refl)
zero_stats-sums (suc n) =
    let rest = zero_stats-sums n in (omega (arith, rest.0), omega (arith, rest.1))

abbrev pub last_tick : List CapStats → List (List CapStats) → List CapStats
last_tick stats [] = stats
last_tick stats (tick ∷ ticks) = last_tick tick ticks

collect_all-last :
    (ticks : List (List CapStats)) (s : Collector)
    → (collect_all s ticks).last_stats ≡ last_tick s.last_stats ticks
unfolding collect_all collect
collect_all-last [] s = refl
collect_all-last (stats ∷ ticks) s = collect_all-last ticks (collect s stats)

-- While no capturer resets its counters, the Prometheus counters have been given exactly the sums of
-- what the capturers counted at the last tick: no difference is lost or taken twice.
pub collect_all-sums :
    (capturers : ℕ) (ticks : List (List CapStats))
    → GrowAll (replicate capturers zero_stats) ticks
    → ((collect_all (new_collector capturers) ticks).added_received
        ≡ all_received (last_tick (replicate capturers zero_stats) ticks))
      × ((collect_all (new_collector capturers) ticks).added_dropped
          ≡ all_dropped (last_tick (replicate capturers zero_stats) ticks))
unfolding new_collector
collect_all-sums capturers ticks g =
    let zeros = zero_stats-sums capturers in
    let start = new_collector capturers in
    let last = collect_all-last ticks start in
    let exact = collect_all-Exact ticks start (omega (arith, zeros.0), omega (arith, zeros.1)) g in
    (exact.0 ∙ ap all_received last, exact.1 ∙ ap all_dropped last)
