-- ===== src/Task/Manager/Complete.antt =====
-- internal/task/manager.go: a `Create` that succeeds has made and initialised every plugin.
use otus.Base.{List, ℕ, ◌≡◌, ◌∷◌, [], ◌<◌, none, ◌⊎◌, length, Option, Bytes, list_eq, nat_eq}
use otus.Config.{TaskConfig, validate, accepted}
use otus.Task.Store.{TaskStore}
use otus.Task.Manager.{TaskManager}
use otus.Task.Manager.Phases.{IsPhased}
use otus.Task.Assembly.{
  Call, Init, Resolved, Plugins, CreateError, resolve, num_capturers, new_capturer, to_ℕ,
  init_capturer, new_reporter, new_parser, new_processor, init_reporter, init_parser,
  init_processor, got,
}

module _ {A : Type 0} (P : A → Type 0) where
  unfoldable pub Any : List A → Type 0
  Any [] = ⊥
  Any (x ∷ xs) = P x ⊎ Any xs

-- One call stands before another.
abbrev pub Precedes : Call → Call → List Call → Type 0
Precedes a b [] = ⊥
Precedes a b (c ∷ cs) = (c ≡ a) × Any (λ d. d ≡ b) cs ⊎ Precedes a b cs

-- Every plugin of the configuration is made, and initialised later: a capturer for every pipeline in
-- binding mode and one else, the reporters, and for every pipeline the parsers and processors.
pub record IsComplete (d : TaskConfig) (r : Resolved) (calls : List Call) : Type 0 where
  pub capturers : (i : ℕ) → i < num_capturers d → Precedes (new_capturer i) (init_capturer i) calls
  pub reporters :
      (i : ℕ) → i < length r.reporters → Precedes (new_reporter i) (init_reporter i) calls
  pub parsers :
      (i j : ℕ)
      → i < to_ℕ d.workers
      → j < length r.parsers
      → Precedes (new_parser i j) (init_parser i j) calls
  pub processors :
      (i j : ℕ)
      → i < to_ℕ d.workers
      → j < length r.processors
      → Precedes (new_processor i j) (init_processor i j) calls
  pub phased : IsPhased calls

abbrev Calls : Call → Init → Type 0
Calls c i = Init.call i ≡ c

module _ (S : TaskStore) (parse_duration : Bytes → Option ℕ) (p : Plugins) where
  abbrev Answer : Type 0
  Answer = TaskManager S × Option CreateError × List Call

  -- What an answer without an error has made, of a configuration and plugins with this property.
  abbrev HasMade : (TaskConfig → Resolved → Type 0) → List Call → Type 0
  HasMade W calls = (d : TaskConfig) × (r : Resolved) × W d r × IsComplete d r calls

  abbrev IfMade : (TaskConfig → Resolved → Type 0) → Answer → Type 0
  IfMade W q = IsPhased q.2 → q.1 ≡ none → HasMade W q.2

  -- The accepted configuration and its plugins.
  abbrev IsFrom : TaskConfig → TaskConfig → Resolved → Type 0
  IsFrom cfg d r = (validate cfg ≡ accepted d) × (resolve p d ≡ got r)
