-- ===== src/Task/Manager/Phases.antt =====
-- internal/task/manager.go: the order in which `Create` calls the plugins.
use mathlib.Core.List.{append-nil}
use otus.Task.Manager.{TaskManager, build_task, create, resolve_task, validate_task}
use otus.Config.{TaskConfig, Validated, validate, rejected, accepted}
use otus.Task.Store.{TaskStore}
use otus.Task.Assembly.{
  times, each, constructs, inits, run_inits, wire_parsers, wires, Call, Init, ParserPlugin,
  CreateError, new_capturer, Resolved, Plugins, new_reporter, num_capturers, wire, to_ℕ, new_parser,
  Attempt, new_processor, resolve, init_capturer, init_reporter, refused, init_parser,
  init_processor, got, set_flow_registry,
}
use otus.Base.{
  ℕ, List, Option, All, Bytes, ◌≡◌, ◌++◌, suc, ◌∷◌, [], zero, if_intro, refl, option_intro, leb,
  length, lookup, list_eq, nat_eq, ap, sym,
}

abbrev pub phase : Call → ℕ
phase (new_capturer i) = 3
phase (new_reporter i) = 3
phase (new_parser i j) = 3
phase (new_processor i j) = 3
phase (init_capturer i) = 4
phase (init_reporter i) = 4
phase (init_parser i j) = 4
phase (init_processor i j) = 4
phase (set_flow_registry i j) = 5

abbrev pub InPhase : ℕ → List Call → Type 0
InPhase n = All (λ c. phase c ≡ n)

module _ {ℓ κ} {B : Type ℓ} (P : B → Type κ) where
  All-append : (xs ys : List B) → All P xs → All P ys → All P (xs ++ ys)
  All-append [] ys h k = k
  All-append (x ∷ xs) ys h k = (h.0, All-append xs ys h.1 k)

  times-All : (f : ℕ → List B) (i n : ℕ) → ((j : ℕ) → All P (f j)) → All P (times f i n)
  unfolding times
  times-All f i zero h = tt
  times-All f i (suc n) h = All-append (f i) (times f (suc i) n) (h i) (times-All f (suc i) n h)

  each-All {ι} :
      {A : Type ι} (f : ℕ → A → B) (i : ℕ) (xs : List A)
      → ((j : ℕ) (x : A) → P (f j x))
      → All P (each f i xs)
  unfolding each
  each-All f i [] h = tt
  each-All f i (x ∷ xs) h = (h i x, each-All f (suc i) xs h)

constructs-InPhase : (cfg : TaskConfig) (r : Resolved) → InPhase 3 (constructs cfg r)
unfolding constructs
constructs-InPhase cfg r =
    let P : Call → Type 0 = λ c. phase c ≡ 3 in
    All-append P _ _ (times-All P _ 0 (num_capturers cfg) (λ i. (refl, tt))) (
      All-append P _ _ (each-All P _ 0 r.reporters (λ i rep. refl)) (
        times-All P _ 0 (to_ℕ cfg.workers) (λ i.
          All-append P _ _ (each-All P _ 0 r.parsers (λ j q. refl))
            (each-All P _ 0 r.processors (λ j q. refl)))))

inits-InPhase : (cfg : TaskConfig) (r : Resolved) → All (λ i. phase (Init.call i) ≡ 4) (inits cfg r)
unfolding inits
inits-InPhase cfg r =
    let P : Init → Type 0 = λ i. phase i.call ≡ 4 in
    All-append P _ _ (times-All P _ 0 (num_capturers cfg) (λ i. (refl, tt))) (
      All-append P _ _ (each-All P _ 0 r.reporters (λ i rep. refl)) (
        times-All P _ 0 (to_ℕ cfg.workers) (λ i.
          All-append P _ _ (each-All P _ 0 r.parsers (λ j q. refl))
            (each-All P _ 0 r.processors (λ j q. refl)))))

run_inits-InPhase :
    (is : List Init) → All (λ i. phase (Init.call i) ≡ 4) is → InPhase 4 (run_inits is).0
unfolding run_inits
run_inits-InPhase [] h = tt
run_inits-InPhase (i ∷ is) h =
    if_intro (λ (q : List Call × Option CreateError). InPhase 4 q.0) i.succeeds
      (λ _. (h.0, run_inits-InPhase is h.1)) (λ _. (h.0, tt))

wire_parsers-InPhase : (i j : ℕ) (ps : List ParserPlugin) → InPhase 5 (wire_parsers i j ps)
unfolding wire_parsers
wire_parsers-InPhase i j [] = tt
wire_parsers-InPhase i j (p ∷ ps) =
    All-append (λ c. phase c ≡ 5) (wire i j p) (wire_parsers i (suc j) ps)
      (if_intro (InPhase 5) p.flow_aware (λ _. (refl, tt)) (λ _. tt))
      (wire_parsers-InPhase i (suc j) ps)

wires-InPhase : (cfg : TaskConfig) (r : Resolved) → InPhase 5 (wires cfg r)
unfolding wires
wires-InPhase cfg r =
    times-All (λ c. phase c ≡ 5) (λ i. wire_parsers i 0 r.parsers) 0 (to_ℕ cfg.workers)
      (λ i. wire_parsers-InPhase i 0 r.parsers)

-- The calls are constructions, then initialisations, then wirings.
abbrev pub IsPhased : List Call → Type 0
IsPhased calls =
    (made : List Call) × (initialised : List Call) × (wired : List Call) × (calls
      ≡ made ++ (initialised ++ wired))
    × InPhase 3 made
    × InPhase 4 initialised
    × InPhase 5 wired

module _ (S : TaskStore) (parse_duration : Bytes → Option ℕ) (p : Plugins) where
  abbrev CallsPhased : TaskManager S × Option CreateError × List Call → Type 0
  CallsPhased r = IsPhased r.2

  nothing-Phased : IsPhased []
  nothing-Phased = ([], [], [], refl, tt, tt, tt)

  build_task-Phased :
      (cfg : TaskConfig) (r : Resolved) (now : ℕ) (m : TaskManager S)
      → CallsPhased (build_task S parse_duration p cfg r now m)
  unfolding build_task
  build_task-Phased cfg r now m =
      let run = run_inits (inits cfg r) in
      let initialised = run_inits-InPhase (inits cfg r) (inits-InPhase cfg r) in
      option_intro CallsPhased run.1
        (λ _. (
          constructs cfg r,
          run.0,
          wires cfg r,
          refl,
          constructs-InPhase cfg r,
          initialised,
          wires-InPhase cfg r,
        ))
        (λ e _. (
          constructs cfg r,
          run.0,
          [],
          ap (λ q. constructs cfg r ++ q) (sym (append-nil run.0)),
          constructs-InPhase cfg r,
          initialised,
          tt,
        ))

  -- `Create` constructs all plugins before it initialises any, and initialises all before it gives
  -- any the flow registry, on every branch.
  pub create-Phased :
      (cfg : TaskConfig) (now : ℕ) (m : TaskManager S)
      → IsPhased (create S parse_duration p cfg now m).2
  unfolding create
  create-Phased cfg now m =
      if_intro CallsPhased (leb 1 (length m.tasks)) (λ _. nothing-Phased)
        λ few.
          option_intro CallsPhased (lookup cfg.id m.tasks) (λ _. validated (validate cfg) refl)
            (λ t _. nothing-Phased)
    where
      resolved :
          (d : TaskConfig) (a : Attempt Resolved)
          → resolve p d ≡ a
          → CallsPhased (resolve_task S parse_duration p d now m)
      resolved d (refused e) h = rw (resolve_task, h) nothing-Phased
      resolved d (got r) h = rw (resolve_task, h) (build_task-Phased d r now m)

      validated :
          (v : Validated)
          → validate cfg ≡ v
          → CallsPhased (validate_task S parse_duration p cfg now m)
      validated (rejected e) h = rw (validate_task, h) nothing-Phased
      validated (accepted d) h = rw (validate_task, h) (resolved d (resolve p d) refl)
