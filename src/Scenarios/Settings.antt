-- ===== src/Scenarios/Settings.antt =====
-- Configurations and endpoints, by example.
use qubic_random_client.Base.{
  ◌≡◌, refl, true, ◌∷◌, ◌++◌, [], none, some, codes, replicate, decimal, trim, strip_suffix,
  contains_text, parse_unsigned, as_bytes,
}
use qubic_random_client.Base.Result.{ok, err}
use qubic_random_client.Config.{
  invalid_collateral, parse_positive, validate_collateral, Cli, AppConfig, Surroundings, from_cli,
}
use qubic_random_client.Config.Checked.{IsChecked, from_cli-IsChecked}
use qubic_random_client.Config.Endpoint.{
  rpc, bob, default_endpoint, endpoint_parts, append_endpoint_path, normalize_endpoint,
}
use qubic_random_client.Config.Endpoint.Normal.{IsNormal, normalize_endpoint-IsNormal}
use qubic_random_client.Console.{shorten_id, format_log_line, display_backend}

public_root :
    normalize_endpoint rpc (codes " https://rpc.qubic.org/live/v1/ ")
    ≡ codes "https://rpc.qubic.org"
unfolding normalize_endpoint trim strip_suffix contains_text
public_root = refl

keeps_query :
    normalize_endpoint bob (codes "node:40420/qubic?key=1") ≡ codes "http://node:40420?key=1"
unfolding normalize_endpoint trim strip_suffix contains_text
keeps_query = refl

joins_once :
    append_endpoint_path (codes "https://rpc.qubic.org/?k=1") (codes "/live/v1")
    ≡ codes "https://rpc.qubic.org/live/v1?k=1"
unfolding append_endpoint_path
joins_once = refl

abbrev around : Surroundings
around = record {
  line = some (replicate 55 b'a' ++ (b'\n' ∷ []));
  locked = true;
  bob_endpoint = codes "http://localhost:40420";
}

abbrev arguments : Cli
arguments = record {
  seed = none;
  backend = rpc;
  endpoint = none;
  collateral = 10_000;
  empty_tick_check_interval_ms = none;
  reveal_check_delay_ticks = some (codes "12");
  epoch_stop_lead_time_secs = 600;
  epoch_resume_delay_ticks = 50;
}

abbrev configuration : AppConfig
configuration = record {
  seed = record { bytes = replicate 55 b'a' };
  backend = rpc;
  endpoint = codes "https://rpc.qubic.org";
  collateral = 10_000;
  empty_tick_check_interval_ms = 600;
  reveal_check_delay_ticks = 12;
  epoch_stop_lead_time_secs = 600;
  epoch_resume_delay_ticks = 50;
}

configured : from_cli around arguments ≡ ok configuration
unfolding from_cli normalize_endpoint trim strip_suffix contains_text default_endpoint
    parse_unsigned decimal as_bytes parse_positive
configured = refl

from_cli-IsChecked_example : IsChecked configuration
from_cli-IsChecked_example = from_cli-IsChecked around arguments configured

rejects_eleven : validate_collateral 11 ≡ err invalid_collateral
unfolding validate_collateral
rejects_eleven = refl

normalize_endpoint-IsNormal_example :
    IsNormal (endpoint_parts (normalize_endpoint bob (codes "node:40420/qubic?key=1"))).0
    × ((endpoint_parts (normalize_endpoint bob (codes "node:40420/qubic?key=1"))).1
        ≡ (endpoint_parts (trim (codes "node:40420/qubic?key=1"))).1)
normalize_endpoint-IsNormal_example =
    normalize_endpoint-IsNormal bob (codes "node:40420/qubic?key=1")

short_id : shorten_id (7 ∷ codes "abcdefgh") ≡ codes "abcdef"
unfolding shorten_id
short_id = refl

log_line_shown :
    format_log_line
      (λ part total. codes "50.0")
      (codes "INFO")
      (record {
        backend = display_backend (codes "GRPC");
        epoch = some 150;
        tick = some 20;
        send_stats = none;
      })
      (codes "hi")
    ≡ 91 ∷ 27 ∷ (codes "[32mINFO" ++ (27 ∷ codes "[0m] hi | gRPC | Epoch 150, tick 20"))
unfolding format_log_line display_backend
log_line_shown = refl
