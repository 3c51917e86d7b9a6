-- ===== src/Console.antt =====
-- src/console.rs: the status that every log line shows, and the text of a line.
use qubic_random_client.Base.{
  ℕ, not, ◌||◌, List, [], ◌∷◌, ◌++◌, Option, none, some, ◌==◌, if◌then◌else◌, take, retain, Text,
  codes, is_empty, is_control, eq_ignore_ascii_case, decimal, saturating_add64,
}

pub record SendCounts : Type 0 where
  pub succeeded : ℕ
  pub failed : ℕ
  pub empty : ℕ

pub record Status : Type 0 where
  pub backend : Text
  pub epoch : Option ℕ
  pub tick : Option ℕ
  pub send_stats : Option SendCounts

abbrev pub no_status : Status
no_status = record { backend = []; epoch = none; tick = none; send_stats = none }

-- `STATUS`: nothing until it is set, and then set for good.
abbrev pub Console : Type 0
Console = Option Status

-- `init`.
unfoldable pub init : Console → Console
init none = some no_status
init (some status) = some status

-- `display_backend`.
unfoldable pub display_backend : Text → Text
display_backend value =
    if eq_ignore_ascii_case value (codes "rpc")
    then codes "RPC"
    else if eq_ignore_ascii_case value (codes "bob")
    then codes "Bob"
    else if eq_ignore_ascii_case value (codes "grpc")
    then codes "gRPC"
    else value

-- `set_backend`.
unfoldable pub set_backend : Text → Console → Console
unfolding display_backend
set_backend value none = none
set_backend value (some status) = some (record status { backend = display_backend value })

-- `set_tick_value`.
unfoldable pub set_tick_value : ℕ → ℕ → Console → Console
set_tick_value epoch tick none = none
set_tick_value epoch tick (some status) =
    some (record status { epoch = some epoch; tick = some tick })

-- `set_send_stats`.
unfoldable pub set_send_stats : SendCounts → Console → Console
set_send_stats counts none = none
set_send_stats counts (some status) = some (record status { send_stats = some counts })

-- `shorten_id`.
unfoldable pub shorten_id : Text → Text
unfolding is_control
shorten_id value = take 6 (retain (λ c. not (is_control c)) value)

abbrev pub coloured : Text → Text → Text
coloured colour level = colour ++ (level ++ (27 ∷ codes "[0m"))

-- `colorize_level`.
unfoldable pub colorize_level : Text → Text
unfolding eq_ignore_ascii_case
colorize_level level =
    if eq_ignore_ascii_case level (codes "INFO")
    then coloured (27 ∷ codes "[32m") level
    else if eq_ignore_ascii_case level (codes "WARN")
        || eq_ignore_ascii_case level (codes "WARNING")
    then coloured (27 ∷ codes "[33m") level
    else if eq_ignore_ascii_case level (codes "ERROR")
    then coloured (27 ∷ codes "[31m") level
    else level

-- A 64-bit float's share of a total in percent, printed with one decimal.
abbrev pub Percent : Type 0
Percent = ℕ → ℕ → Text

-- `format_send_stats`.
unfoldable pub format_send_stats : Percent → SendCounts → Text
unfolding decimal
format_send_stats percent s =
    let total = saturating_add64 (saturating_add64 s.succeeded s.failed) s.empty in
    if total == 0
    then codes "0 ok (0.0%), 0 failed (0.0%), 0 empty (0.0%)"
    else decimal s.succeeded
      ++ (codes " ok ("
          ++ (percent s.succeeded total
              ++ (codes "%), "
                  ++ (decimal s.failed
                      ++ (codes " failed ("
                          ++ (percent s.failed total
                              ++ (codes "%), "
                                  ++ (decimal s.empty
                                      ++ (codes " empty ("
                                          ++ (percent s.empty total ++ codes "%)"))))))))))

-- The separator stands between the parts.
unfoldable pub join : Text → List Text → Text
join separator [] = []
join separator (part ∷ []) = part
join separator (part ∷ more ∷ parts) = part ++ (separator ++ join separator (more ∷ parts))

abbrev pub tick_part : Option ℕ → Option ℕ → List Text
tick_part (some epoch) (some tick) =
    (codes "Epoch " ++ (decimal epoch ++ (codes ", tick " ++ decimal tick))) ∷ []
tick_part _ _ = []

abbrev pub sends_part : Percent → Option SendCounts → List Text
sends_part percent none = []
sends_part percent (some s) = (codes "Sends: " ++ format_send_stats percent s) ∷ []

abbrev pub context_of : Percent → Status → List Text
context_of percent status =
    (if is_empty status.backend then [] else status.backend ∷ [])
    ++ (tick_part status.epoch status.tick ++ sends_part percent status.send_stats)

-- `format_log_line`.
unfoldable pub format_log_line : Percent → Text → Status → Text → Text
unfolding colorize_level format_send_stats join decimal
format_log_line percent level status message =
    let context = context_of percent status in
    codes "["
    ++ (colorize_level level
        ++ (codes "] "
            ++ (message
                ++ (if is_empty context then [] else codes " | " ++ join (codes " | ") context))))

-- `log_with_level`: the line that is printed.
unfoldable pub log_line : Percent → Console → Text → Text → Text
unfolding format_log_line
log_line percent none level message = format_log_line percent level no_status message
log_line percent (some status) level message = format_log_line percent level status message
