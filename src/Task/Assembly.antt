-- ===== src/Task/Assembly.antt =====
-- internal/task/manager.go: what `Create` does in its phases 2 to 6. A factory is what the plugin that
-- it makes answers; the calls of plugins are recorded in order. `parse_duration` is
-- `time.ParseDuration`.
use otus.Text.{ℤ, pos, negsuc, codes}
use otus.Config.{ConfigError, TaskConfig, PluginConfig, ReporterConfig}
use otus.Plugins.{Registry, get_factory}
use otus.Base.{
  ℕ, Bool, Bytes, List, Dict, ◌∷◌, [], map, if◌then◌else◌, ◌++◌, Option, none, ◌=?◌, suc, some,
  zero, insert, lookup, list_eq, nat_eq,
}

pub record CapturerPlugin : Type 0 where
  pub inits : ℕ → Bool

-- A pipeline and an index in the configuration name an instance.
pub record ParserPlugin : Type 0 where
  pub flow_aware : Bool
  pub inits : ℕ → ℕ → Bool

pub record ProcessorPlugin : Type 0 where
  pub inits : ℕ → ℕ → Bool

pub record ReporterPlugin : Type 0 where
  pub name : Bytes
  pub inits : ℕ → Bool
  pub starts : ℕ → Bool

pub record Plugins : Type 0 where
  pub capturers : Registry CapturerPlugin
  pub parsers : Registry ParserPlugin
  pub processors : Registry ProcessorPlugin
  pub reporters : Registry ReporterPlugin

pub data CreateError : Type 0 where
  too_many_tasks already_exists : CreateError
  validation_failed : ConfigError → CreateError
  no_capturer no_parser no_processor no_reporter : Bytes → CreateError
  capturer_init_failed reporter_init_failed : ℕ → CreateError
  parser_init_failed processor_init_failed : ℕ → ℕ → CreateError
  task_start_failed : CreateError

pub data Call : Type 0 where
  new_capturer new_reporter : ℕ → Call
  new_parser new_processor : ℕ → ℕ → Call
  init_capturer init_reporter : ℕ → Call
  init_parser init_processor : ℕ → ℕ → Call
  set_flow_registry : ℕ → ℕ → Call

-- Phase 2: the factories, or the first name that has none.
pub record Resolved : Type 0 where
  pub capturer : CapturerPlugin
  pub parsers : List ParserPlugin
  pub processors : List ProcessorPlugin
  pub reporters : List ReporterPlugin

pub data Attempt {ℓ} (A : Type ℓ) : Type ℓ where
  got : A → Attempt A
  refused : CreateError → Attempt A

infixl 5 ◌>>=◌
abbrev pub ◌>>=◌ {ℓ κ} : {A : Type ℓ} {B : Type κ} → Attempt A → (A → Attempt B) → Attempt B
got a >>= f = f a
refused e >>= f = refused e

abbrev pub found {ℓ} : {T : Type ℓ} → (Bytes → CreateError) → Registry T → Bytes → Attempt T
found missing r name = elim (get_factory r name) [ none ↦ refused (missing name) | some t ↦ got t ]

unfoldable pub resolve_all {ℓ} :
    {T : Type ℓ} → (Bytes → CreateError) → Registry T → List Bytes → Attempt (List T)
resolve_all missing r [] = got []
resolve_all missing r (name ∷ names) = do
  t ← found missing r name
  ts ← resolve_all missing r names
  got (t ∷ ts)

unfoldable pub resolve : Plugins → TaskConfig → Attempt Resolved
resolve p cfg = do
  capturer ← found no_capturer p.capturers cfg.capture.name
  parsers ← resolve_all no_parser p.parsers (map PluginConfig.name cfg.parsers)
  processors ← resolve_all no_processor p.processors (map PluginConfig.name cfg.processors)
  reporters ← resolve_all no_reporter p.reporters (map ReporterConfig.name cfg.reporters)
  got (record {
    capturer = capturer;
    parsers = parsers;
    processors = processors;
    reporters = reporters;
  })

abbrev pub to_ℕ : ℤ → ℕ
to_ℕ (pos n) = n
to_ℕ (negsuc n) = 0

abbrev pub num_capturers : TaskConfig → ℕ
num_capturers cfg = if cfg.capture.dispatch_mode =? codes "binding" then to_ℕ cfg.workers else 1

-- One entry for every index from `i` on.
unfoldable pub each {ℓ κ} : {A : Type ℓ} {B : Type κ} → (ℕ → A → B) → ℕ → List A → List B
each f i [] = []
each f i (x ∷ xs) = f i x ∷ each f (suc i) xs

unfoldable pub times {ℓ} : {B : Type ℓ} → (ℕ → List B) → ℕ → ℕ → List B
times f i zero = []
times f i (suc n) = f i ++ times f (suc i) n

-- Phase 3.
unfoldable pub constructs : TaskConfig → Resolved → List Call
constructs cfg r =
    times (λ i. new_capturer i ∷ []) 0 (num_capturers cfg)
    ++ (each (λ i rep. new_reporter i) 0 r.reporters
        ++ times
            (λ i.
              each (λ j p. new_parser i j) 0 r.parsers
              ++ each (λ j p. new_processor i j) 0 r.processors)
            0 (to_ℕ cfg.workers))

-- A call of `Init`, its answer, and the error that it makes.
pub record Init : Type 0 where
  pub call : Call
  pub succeeds : Bool
  pub error : CreateError

abbrev pub pipeline_inits : Resolved → ℕ → List Init
pipeline_inits r i =
    each
      (λ j p. record {
        call = init_parser i j;
        succeeds = ParserPlugin.inits p i j;
        error = parser_init_failed i j;
      })
      0 r.parsers
    ++ each
        (λ j p. record {
          call = init_processor i j;
          succeeds = ProcessorPlugin.inits p i j;
          error = processor_init_failed i j;
        })
        0 r.processors

-- Phase 4.
unfoldable pub inits : TaskConfig → Resolved → List Init
inits cfg r =
    times
      (λ i.
        record {
          call = init_capturer i;
          succeeds = CapturerPlugin.inits r.capturer i;
          error = capturer_init_failed i;
        }
        ∷ [])
      0 (num_capturers cfg)
    ++ (each
          (λ i rep. record {
            call = init_reporter i;
            succeeds = ReporterPlugin.inits rep i;
            error = reporter_init_failed i;
          })
          0 r.reporters
        ++ times (pipeline_inits r) 0 (to_ℕ cfg.workers))

-- The calls up to the first that fails, and its error.
unfoldable pub run_inits : List Init → List Call × Option CreateError
run_inits [] = ([], none)
run_inits (i ∷ is) =
    let rest = run_inits is in
    if i.succeeds then (i.call ∷ rest.0, rest.1) else (i.call ∷ [], some i.error)

abbrev pub wire : ℕ → ℕ → ParserPlugin → List Call
wire i j p = if p.flow_aware then set_flow_registry i j ∷ [] else []

unfoldable pub wire_parsers : ℕ → ℕ → List ParserPlugin → List Call
wire_parsers i j [] = []
wire_parsers i j (p ∷ ps) = wire i j p ++ wire_parsers i (suc j) ps

-- Phase 5.
unfoldable pub wires : TaskConfig → Resolved → List Call
wires cfg r = times (λ i. wire_parsers i 0 r.parsers) 0 (to_ℕ cfg.workers)

-- What `Create` sets in the configuration of a wrapper.
pub record Wiring : Type 0 where
  pub primary : ℕ
  pub fallback : Option ℕ
  pub batch_size : ℤ
  pub batch_timeout : ℕ

-- `reporterByName`: a later reporter of the same name takes the place of an earlier one.
unfoldable pub by_name : ℕ → List ReporterPlugin → Dict Bytes ℕ → Dict Bytes ℕ
by_name i [] names = names
by_name i (rep ∷ reps) names = by_name (suc i) reps (insert rep.name i names)

abbrev pub fallback_of : Dict Bytes ℕ → Bytes → Option ℕ
fallback_of names [] = none
fallback_of names (c ∷ s) = lookup (c ∷ s) names

module _ (parse_duration : Bytes → Option ℕ) where
  abbrev pub timeout_of : Bytes → ℕ
  timeout_of [] = 0
  timeout_of (c ∷ s) = elim (parse_duration (c ∷ s)) [ none ↦ 0 | some d ↦ d ]

  -- Phase 6, for one reporter.
  unfoldable pub wiring : Dict Bytes ℕ → ℕ → ReporterConfig → Wiring
  wiring names i cfg = record {
    primary = i;
    fallback = fallback_of names cfg.fallback;
    batch_size = cfg.batch_size;
    batch_timeout = timeout_of cfg.batch_timeout;
  }

  unfoldable pub wirings : TaskConfig → Resolved → List Wiring
  wirings cfg r = each (wiring (by_name 0 r.reporters [])) 0 cfg.reporters
