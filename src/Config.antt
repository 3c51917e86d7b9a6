-- ===== src/Config.antt =====
-- src/config.rs: the settings of the program, from the command line to checked values.
pub mod Endpoint
pub mod Checked
use qubic_random_client.Base.{
  ℕ, Bool, true, false, ◌&&◌, ◌||◌, not, List, [], ◌∷◌, Option, none, some, ltb, ◌==◌,
  if◌then◌else◌, all, length, Text, codes, is_empty, between, trim, parse_unsigned, u32_max,
  u64_max, decimal, as_bytes,
}
use qubic_random_client.Base.Result.{Result, ok, err, ◌>>=◌, ◌>>◌, guard, ok_or, map_err}
use qubic_random_client.Config.Endpoint.{BackendKind, default_endpoint, normalize_endpoint}

pub data ConfigError : Type 0 where
  invalid_integer : ConfigError
  not_positive : ConfigError
  invalid_seed : ConfigError
  lock_failed : ConfigError
  invalid_collateral : ConfigError
  seed_not_read : ConfigError
  empty_seed : ConfigError

-- `parse_positive_u64` and `parse_positive_u32`, which differ in the type's greatest value.
unfoldable pub parse_positive : ℕ → Text → Result ConfigError ℕ
parse_positive limit text = do
  value ← ok_or invalid_integer (parse_unsigned limit text)
  guard (ltb 0 value) not_positive
  ok value

unfoldable pub parse_positive_u64 : Text → Result ConfigError ℕ
unfolding parse_positive
parse_positive_u64 text = parse_positive u64_max text

unfoldable pub parse_positive_u32 : Text → Result ConfigError ℕ
unfolding parse_positive
parse_positive_u32 text = parse_positive u32_max text

abbrev pub is_ascii_lowercase : ℕ → Bool
is_ascii_lowercase c = between b'a' b'z' c

-- `Seed`: the bytes that `LockedSeed` holds in locked memory.
pub record Seed : Type 0 where
  pub bytes : List ℕ

-- `LockedSeed::new`, given whether the system locks the memory.
unfoldable pub lock_seed : Bool → List ℕ → Result ConfigError Seed
lock_seed locked seed = if locked then ok (record { bytes = seed }) else err lock_failed

-- `Seed::new`, on the bytes of the text.
unfoldable pub new_seed : Bool → List ℕ → Result ConfigError Seed
unfolding lock_seed
new_seed locked seed =
    if not (length seed == 55) || not (all is_ascii_lowercase seed)
    then err invalid_seed
    else lock_seed locked seed

-- `validate_collateral`.
unfoldable pub validate_collateral : ℕ → Result ConfigError (Unit {0})
validate_collateral amount =
    if amount == 1
      || amount == 10
      || amount == 100
      || amount == 1_000
      || amount == 10_000
      || amount == 100_000
      || amount == 1_000_000
      || amount == 10_000_000
      || amount == 100_000_000
      || amount == 1_000_000_000
    then ok tt
    else err invalid_collateral

-- `read_seed_from_stdin`, given the line or the password that was read, if any.
unfoldable pub read_seed_from_stdin : Option Text → Result ConfigError Text
read_seed_from_stdin line = do
  input ← ok_or seed_not_read line
  guard (not (is_empty (trim input))) empty_seed
  ok (trim input)

-- `Cli`: the arguments, where those with a parser of their own are still texts.
pub record Cli : Type 0 where
  pub seed : Option Text
  pub backend : BackendKind
  pub endpoint : Option Text
  pub collateral : ℕ
  pub empty_tick_check_interval_ms : Option Text
  pub reveal_check_delay_ticks : Option Text
  pub epoch_stop_lead_time_secs : ℕ
  pub epoch_resume_delay_ticks : ℕ

pub record AppConfig : Type 0 where
  pub seed : Seed
  pub backend : BackendKind
  pub endpoint : Text
  pub collateral : ℕ
  pub empty_tick_check_interval_ms : ℕ
  pub reveal_check_delay_ticks : ℕ
  pub epoch_stop_lead_time_secs : ℕ
  pub epoch_resume_delay_ticks : ℕ

-- What the program is given besides its arguments.
pub record Surroundings : Type 0 where
  -- The line or the password that is read from the standard input, if that succeeds.
  pub line : Option Text
  -- Whether the system locks the memory of the seed.
  pub locked : Bool
  -- `scapi::bob::DEFAULT_BOB_RPC_ENDPOINT`.
  pub bob_endpoint : Text

abbrev pub default_empty_tick_check_interval_ms : ℕ
default_empty_tick_check_interval_ms = 600

abbrev pub default_reveal_check_delay_ticks : ℕ
default_reveal_check_delay_ticks = 10

-- A default is printed and read by the same parser.
abbrev pub argument : (Text → Result ConfigError ℕ) → ℕ → Option Text → Result ConfigError ℕ
argument parse default none = parse (decimal default)
argument parse default (some text) = parse text

abbrev pub seed_text : Surroundings → Option Text → Result ConfigError Text
seed_text around none = read_seed_from_stdin around.line
seed_text around (some text) = ok text

abbrev pub unwrap_or {ℓ} : {A : Type ℓ} → A → Option A → A
unwrap_or default none = default
unwrap_or default (some a) = a

-- The fields, once the arguments are parsed and checked.
unfoldable pub app_config : Surroundings → Cli → ℕ → ℕ → Seed → AppConfig
app_config around cli interval delay seed = record {
  seed = seed;
  backend = cli.backend;
  endpoint =
      normalize_endpoint cli.backend
        (unwrap_or (default_endpoint around.bob_endpoint cli.backend) cli.endpoint);
  collateral = cli.collateral;
  empty_tick_check_interval_ms = interval;
  reveal_check_delay_ticks = delay;
  epoch_stop_lead_time_secs = cli.epoch_stop_lead_time_secs;
  epoch_resume_delay_ticks = cli.epoch_resume_delay_ticks;
}

-- `AppConfig::from_cli`, the parsers of the arguments included.
unfoldable pub from_cli : Surroundings → Cli → Result ConfigError AppConfig
unfolding parse_positive_u64 parse_positive_u32 new_seed validate_collateral read_seed_from_stdin
    app_config
from_cli around cli = do
  interval ←
      argument parse_positive_u64 default_empty_tick_check_interval_ms
        cli.empty_tick_check_interval_ms
  delay ← argument parse_positive_u32 default_reveal_check_delay_ticks cli.reveal_check_delay_ticks
  text ← seed_text around cli.seed
  seed ← new_seed around.locked (as_bytes text)
  validate_collateral cli.collateral
  ok (app_config around cli interval delay seed)
