-- ===== src/Config.antt =====
-- internal/config/task.go: the configuration of a task, its check and its defaults. A number that the
-- file may give any sign to is an integer; a JSON value that no code here looks at is its text.
pub mod Defaults
use Prim.Native.String.{String}
use otus.Text.{ℤ, codes, pos, negsuc}
use otus.Base.{
  Bytes, Dict, List, ◌∷◌, [], some, if◌then◌else◌, Bool, ℕ, insert, ◌=?◌, string_eq, ◌||◌, Option,
  not, false, list_eq, nat_eq, none, suc, true, zero,
}

pub data Value : Type 0 where
  text : Bytes → Value
  float : ℤ → Value
  other_json : Bytes → Value

abbrev pub PluginOptions : Type 0
PluginOptions = Dict String Value

pub record CaptureConfig : Type 0 where
  pub name : Bytes
  pub dispatch_mode : Bytes
  pub dispatch_strategy : Bytes
  pub interface : Bytes
  pub bpf_filter : Bytes
  pub snap_len : ℤ
  pub options : PluginOptions

pub record DecoderConfig : Type 0 where
  pub tunnels : List Bytes
  pub ip_reassembly : Bool

pub record PluginConfig : Type 0 where
  pub name : Bytes
  pub options : PluginOptions

pub record ReporterConfig : Type 0 where
  pub name : Bytes
  pub options : PluginOptions
  pub batch_size : ℤ
  pub batch_timeout : Bytes
  pub fallback : Bytes

pub record ChannelCapacityConfig : Type 0 where
  pub raw_stream : ℤ
  pub send_buffer : ℤ
  pub capture_ch : ℤ

pub record TaskConfig : Type 0 where
  pub id : Bytes
  pub workers : ℤ
  pub capture : CaptureConfig
  pub decoder : DecoderConfig
  pub parsers : List PluginConfig
  pub processors : List PluginConfig
  pub reporters : List ReporterConfig
  pub channel_capacity : ChannelCapacityConfig

pub data ConfigError : Type 0 where
  id_required capture_name_required capture_interface_required : ConfigError
  bad_dispatch_mode : Bytes → ConfigError
  reporter_required : ConfigError
  parser_name_required processor_name_required reporter_name_required : ℕ → ConfigError

pub data Validated : Type 0 where
  accepted : TaskConfig → Validated
  rejected : ConfigError → Validated

-- `n < 1` and `n <= 0` of an integer.
abbrev pub is_positive : ℤ → Bool
is_positive (pos zero) = false
is_positive (pos (suc n)) = true
is_positive (negsuc n) = false

abbrev pub put_text : String → Bytes → PluginOptions → PluginOptions
put_text key [] options = options
put_text key (c ∷ s) options = insert key (text (c ∷ s)) options

abbrev pub put_number : String → ℤ → PluginOptions → PluginOptions
put_number key n options = if is_positive n then insert key (float n) options else options

-- The options first, so that the promoted fields override them.
unfoldable pub merge_options : PluginOptions → PluginOptions → PluginOptions
merge_options [] merged = merged
merge_options ((k, v) ∷ options) merged = merge_options options (insert k v merged)

unfoldable pub to_plugin_config : CaptureConfig → PluginOptions
to_plugin_config c = put_number "snap_len" c.snap_len (
    put_text "bpf_filter" c.bpf_filter
      (put_text "interface" c.interface (merge_options c.options [])))

abbrev pub default_mode : Bytes → Bytes
default_mode [] = codes "binding"
default_mode (c ∷ s) = c ∷ s

abbrev pub is_mode : Bytes → Bool
is_mode mode = (mode =? codes "binding") || (mode =? codes "dispatch")

abbrev pub default_number : ℤ → ℕ → ℤ
default_number n d = if is_positive n then n else pos d

abbrev pub set_defaults : TaskConfig → TaskConfig
set_defaults tc = record tc {
  workers = default_number tc.workers 1;
  capture = record tc.capture {
    dispatch_mode = default_mode tc.capture.dispatch_mode;
    snap_len = default_number tc.capture.snap_len 65535;
  };
}

-- The index of the first that has no name.
unfoldable pub first_unnamed {ℓ} : {A : Type ℓ} → (A → Bytes) → ℕ → List A → Option ℕ
first_unnamed name i [] = none
first_unnamed name i (x ∷ xs) =
    let rest = first_unnamed name (suc i) xs in if name x =? [] then some i else rest

abbrev pub validate_names : TaskConfig → Validated
validate_names tc = elim (first_unnamed PluginConfig.name 0 tc.parsers) [
  | some i ↦ rejected (parser_name_required i)
  | none ↦ elim (first_unnamed PluginConfig.name 0 tc.processors) [
    | some i ↦ rejected (processor_name_required i)
    | none ↦ elim (first_unnamed ReporterConfig.name 0 tc.reporters) [
      | some i ↦ rejected (reporter_name_required i)
      | none ↦ accepted tc
    ]
  ]
]

abbrev pub validate_reporters : List ReporterConfig → TaskConfig → Validated
validate_reporters [] tc = rejected reporter_required
validate_reporters (r ∷ rs) tc = validate_names tc

-- The configuration with its defaults, or the first error.
unfoldable pub validate : TaskConfig → Validated
validate tc =
    if tc.id =? []
    then rejected id_required
    else if tc.capture.name =? []
    then rejected capture_name_required
    else if tc.capture.interface =? []
    then rejected capture_interface_required
    else if not (is_mode (default_mode tc.capture.dispatch_mode))
    then rejected (bad_dispatch_mode (default_mode tc.capture.dispatch_mode))
    else validate_reporters tc.reporters (set_defaults tc)
