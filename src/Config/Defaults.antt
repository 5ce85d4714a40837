-- ===== src/Config/Defaults.antt =====
-- internal/config/task.go: what a configuration is that `Validate` accepts.
use mathlib.Core.Path.{subst}
use otus.Base.{
  ◌=?◌, ℕ, Bytes, ◌≡◌, [], List, false, none, All, suc, ◌∷◌, true, Bool-cases, list_eq, nat_eq,
  length, inl, refl, ◌==◌, arith, zero, inr, Bool, if◌then◌else◌, ◌∙◌, ap, not,
}
use otus.Text.{ℤ, pos, negsuc}
use otus.Config.{
  TaskConfig, first_unnamed, validate, set_defaults, is_positive, accepted, default_number, is_mode,
  PluginConfig, ReporterConfig, default_mode, validate_names, validate_reporters, rejected,
  id_required, capture_name_required, capture_interface_required, bad_dispatch_mode,
}

-- What a task can be made of.
pub record IsRunnable (tc : TaskConfig) : Type 0 where
  pub has_id : (tc.id =? []) ≡ false
  pub has_capture : (tc.capture.name =? []) ≡ false
  pub has_interface : (tc.capture.interface =? []) ≡ false
  pub known_mode : is_mode tc.capture.dispatch_mode ≡ true
  pub some_workers : is_positive tc.workers ≡ true
  pub some_snap_len : is_positive tc.capture.snap_len ≡ true
  pub some_reporter : (length tc.reporters == 0) ≡ false
  pub named_parsers : All (λ p. (PluginConfig.name p =? []) ≡ false) tc.parsers
  pub named_processors : All (λ p. (PluginConfig.name p =? []) ≡ false) tc.processors
  pub named_reporters : All (λ r. (ReporterConfig.name r =? []) ≡ false) tc.reporters

default_number-positive : (n : ℤ) (d : ℕ) → is_positive (default_number n (suc d)) ≡ true
default_number-positive (pos zero) d = refl
default_number-positive (pos (suc n)) d = refl
default_number-positive (negsuc n) d = refl

first_unnamed-All {ℓ} :
    {A : Type ℓ} (name : A → Bytes) (i : ℕ) (xs : List A)
    → first_unnamed name i xs ≡ none
    → All (λ x. (name x =? []) ≡ false) xs
unfolding first_unnamed
first_unnamed-All name i [] e = tt
first_unnamed-All name i (x ∷ xs) e = elim (Bool-cases (name x =? [])) [
  | inl hit ↦ absurd (ground arith)
  | inr miss ↦ (miss, first_unnamed-All name (suc i) xs (ground arith))
]

first_unnamed-none {ℓ} :
    {A : Type ℓ} (name : A → Bytes) (i : ℕ) (xs : List A)
    → All (λ x. (name x =? []) ≡ false) xs
    → first_unnamed name i xs ≡ none
unfolding first_unnamed
first_unnamed-none name i [] h = refl
first_unnamed-none name i (x ∷ xs) h = rw (h.0) (first_unnamed-none name (suc i) xs h.1)

default_number-same : (n : ℤ) (d : ℕ) → is_positive n ≡ true → default_number n d ≡ n
default_number-same n d h = rw (default_number, h) refl

default_mode-same : (m : Bytes) → is_mode m ≡ true → default_mode m ≡ m
default_mode-same [] h = absurd (cc)
default_mode-same (c ∷ m) h = refl

default_mode-known : (m : Bytes) → is_mode m ≡ true → is_mode (default_mode m) ≡ true
default_mode-known [] h = absurd (cc)
default_mode-known (c ∷ m) h = h

set_defaults-runnable : (tc : TaskConfig) → IsRunnable tc → set_defaults tc ≡ tc
set_defaults-runnable tc h =
    rw
      (
        set_defaults,
        default_number-same tc.workers 1 h.some_workers,
        default_mode-same tc.capture.dispatch_mode h.known_mode,
        default_number-same tc.capture.snap_len 65535 h.some_snap_len,
      )
      refl

-- What the steps of an accepted configuration have found.
record Passed (tc d : TaskConfig) : Type 0 where
  has_id : (tc.id =? []) ≡ false
  has_capture : (tc.capture.name =? []) ≡ false
  has_interface : (tc.capture.interface =? []) ≡ false
  known_mode : is_mode (default_mode tc.capture.dispatch_mode) ≡ true
  rest : validate_reporters tc.reporters (set_defaults tc) ≡ accepted d

validate-Passed : (tc d : TaskConfig) → validate tc ≡ accepted d → Passed tc d
unfolding validate
validate-Passed tc d =
    go (tc.id =? []) (tc.capture.name =? []) (tc.capture.interface =? [])
      (is_mode (default_mode tc.capture.dispatch_mode)) refl refl refl refl
  where
    go :
        (a b c m : Bool)
        → (tc.id =? []) ≡ a
        → (tc.capture.name =? []) ≡ b
        → (tc.capture.interface =? []) ≡ c
        → is_mode (default_mode tc.capture.dispatch_mode) ≡ m
        → (if a
            then rejected id_required
            else if b
            then rejected capture_name_required
            else if c
            then rejected capture_interface_required
            else if not m
            then rejected (bad_dispatch_mode (default_mode tc.capture.dispatch_mode))
            else validate_reporters tc.reporters (set_defaults tc))
          ≡ accepted d
        → Passed tc d
    go true b c m ea eb ec em e = absurd (cc)
    go false true c m ea eb ec em e = absurd (cc)
    go false false true m ea eb ec em e = absurd (cc)
    go false false false false ea eb ec em e = absurd (cc)
    go false false false true ea eb ec em e = record {
      has_id = ea;
      has_capture = eb;
      has_interface = ec;
      known_mode = em;
      rest = e;
    }

validate_names-named :
    (tc d : TaskConfig)
    → validate_names tc ≡ accepted d
    → (tc ≡ d)
      × (first_unnamed PluginConfig.name 0 tc.parsers ≡ none)
      × (first_unnamed PluginConfig.name 0 tc.processors ≡ none)
      × (first_unnamed ReporterConfig.name 0 tc.reporters ≡ none)
validate_names-named tc d e = ground arith

validate_reporters-named :
    (rs : List ReporterConfig) (tc d : TaskConfig)
    → validate_reporters rs tc ≡ accepted d
    → ((length rs == 0) ≡ false) × (validate_names tc ≡ accepted d)
validate_reporters-named [] tc d e = absurd (cc)
validate_reporters-named (r ∷ rs) tc d e = (ground arith, e)

validate_reporters-same :
    (rs : List ReporterConfig) (tc : TaskConfig)
    → (length rs == 0) ≡ false
    → validate_reporters rs tc ≡ validate_names tc
validate_reporters-same [] tc e = absurd (ground arith)
validate_reporters-same (r ∷ rs) tc e = refl

defaults-IsRunnable : (tc d : TaskConfig) → Passed tc d → IsRunnable (set_defaults tc)
defaults-IsRunnable tc d p =
    let (some_reporter, names) = validate_reporters-named tc.reporters (set_defaults tc) d p.rest in
    let (same, parsers, processors, reporters) = validate_names-named (set_defaults tc) d names in
    record {
      has_id = p.has_id;
      has_capture = p.has_capture;
      has_interface = p.has_interface;
      known_mode = p.known_mode;
      some_workers = default_number-positive tc.workers 0;
      some_snap_len = default_number-positive tc.capture.snap_len 65534;
      some_reporter = some_reporter;
      named_parsers = first_unnamed-All PluginConfig.name 0 tc.parsers parsers;
      named_processors = first_unnamed-All PluginConfig.name 0 tc.processors processors;
      named_reporters = first_unnamed-All ReporterConfig.name 0 tc.reporters reporters;
    }

IsRunnable-accepted : (tc : TaskConfig) → IsRunnable tc → validate tc ≡ accepted tc
unfolding validate
IsRunnable-accepted tc h =
    rw
      (
        h.has_id,
        h.has_capture,
        h.has_interface,
        default_mode-known tc.capture.dispatch_mode h.known_mode,
      )
      (validate_reporters-same tc.reporters (set_defaults tc) h.some_reporter
        ∙ ap validate_names (set_defaults-runnable tc h)
        ∙ names)
  where
    names : validate_names tc ≡ accepted tc
    names =
        rw
          (
            validate_names,
            first_unnamed-none PluginConfig.name 0 tc.parsers h.named_parsers,
            first_unnamed-none PluginConfig.name 0 tc.processors h.named_processors,
            first_unnamed-none ReporterConfig.name 0 tc.reporters h.named_reporters,
          )
          refl

-- What `Validate` accepts can be run: it has an id, a capture plugin with an interface, one of the
-- two dispatch modes, at least one worker, a positive snap length, at least one reporter, and a
-- name for every plugin. What it gives back is accepted again and unchanged.
pub validate-IsRunnable :
    (tc d : TaskConfig) → validate tc ≡ accepted d → IsRunnable d × (validate d ≡ accepted d)
validate-IsRunnable tc d e =
    let p = validate-Passed tc d e in
    let (some_reporter, names) = validate_reporters-named tc.reporters (set_defaults tc) d p.rest in
    let same = (validate_names-named (set_defaults tc) d names).0 in
    let run = subst IsRunnable same (defaults-IsRunnable tc d p) in (run, IsRunnable-accepted d run)
