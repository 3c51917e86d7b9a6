-- ===== src/Config/Checked.antt =====
-- What holds of a configuration that the program starts with.
use qubic_random_client.Base.{
  ℕ, ◌^◌, ◌≤◌, ◌≡◌, ◌↔◌, refl, sym, Bool, true, ◌||◌, List, [], ◌∷◌, Option, none, some, ltb, ◌==◌,
  ==_iff, all, All, length, arith, Text, decimal, parse_unsigned, parse_unsigned-le,
  parse_unsigned-decimal, u32_max, u64_max, Bool-cases, inl, inr, as_bytes, passes_under,
  passes_under→true,
}
use mathlib.Core.Path.{subst}
use qubic_random_client.Base.Result.{ok, ok_or, >>=-ok, guard-ok, ok_or-ok, is_ok, is_ok-ok}
use qubic_random_client.Engine.Phase.{collateral_tier}
use qubic_random_client.Config.{
  parse_positive, parse_positive_u64, parse_positive_u32, is_ascii_lowercase, Seed, new_seed,
  lock_seed, validate_collateral, Cli, AppConfig, Surroundings, argument, seed_text, from_cli,
  app_config, unwrap_or,
}
use qubic_random_client.Config.Endpoint.{endpoint_parts, default_endpoint}
use qubic_random_client.Config.Endpoint.Normal.{IsNormal, normalize_endpoint-IsNormal}

parse_positive-positive :
    (limit : ℕ) (text : Text) (n : ℕ) → parse_positive limit text ≡ ok n → (1 ≤ n) × (n ≤ limit)
unfolding parse_positive
parse_positive-positive limit text n e =
    let (v, ev, e') = >>=-ok (ok_or _ (parse_unsigned limit text)) _ e in
    let (pos, same) = guard-ok (ltb 0 v) _ _ e' in
    let eq : v ≡ n = cc in
    let top = parse_unsigned-le limit text (ok_or-ok _ _ ev) in (ground arith, rw (← eq) top)

-- A parsed argument is a positive number of its type, and every such number is accepted as printed.
pub parse_positive_iff :
    (limit n : ℕ) → (parse_positive limit (decimal n) ≡ ok n) ↔ ((1 ≤ n) × (n ≤ limit))
unfolding parse_positive
parse_positive_iff limit n = (
  λ e. parse_positive-positive limit (decimal n) n e,
  λ (pos, top). rw (parse_unsigned-decimal limit n top) (ground arith),
)

abbrev pub PowerOfTen : ℕ → ℕ → Type 0
PowerOfTen amount k = (k ≤ 9) × (amount ≡ 10 ^ k) × (collateral_tier amount ≡ k)

all-All : (p : ℕ → Bool) (s : List ℕ) → all p s ≡ true → All (λ c. p c ≡ true) s
all-All p [] h = tt
all-All p (c ∷ s) h = ground (arith, all-All p s)

-- One of the amounts in the list, or one of the others.
power_case :
    (amount a k : ℕ) {others : Bool}
    → PowerOfTen a k
    → ((others ≡ true) → (j : ℕ) × PowerOfTen amount j)
    → ((amount == a) || others) ≡ true
    → (j : ℕ) × PowerOfTen amount j
power_case amount a k power other h = elim (Bool-cases (amount == a)) [
  | inl same ↦ let e = (==_iff amount a).0 same in (k, rw e power)
  | inr differs ↦ other (rw differs at h)
]

validate_collateral-PowerOfTen :
    (amount : ℕ) → validate_collateral amount ≡ ok tt → (k : ℕ) × PowerOfTen amount k
unfolding validate_collateral collateral_tier
validate_collateral-PowerOfTen amount h =
    power_case amount 1 0 (omega arith)
      (power_case amount 10 1 (omega arith) (
        power_case amount 100 2 (omega arith) (
          power_case amount 1_000 3 (omega arith) (
            power_case amount 10_000 4 (omega arith) (
              power_case amount 100_000 5 (omega arith) (
                power_case amount 1_000_000 6 (omega arith) (
                  power_case amount 10_000_000 7 (omega arith) (
                    power_case amount 100_000_000 8 (omega arith) (λ h.
                      let e = (==_iff amount 1_000_000_000).0 h in (9, rw e (omega arith)))))))))))
      (ground arith)

powers_accepted : passes_under (λ k. is_ok (validate_collateral (10 ^ k))) 10 ≡ true
unfolding validate_collateral passes_under
powers_accepted = refl

PowerOfTen-validate_collateral :
    (amount k : ℕ) → k ≤ 9 → amount ≡ 10 ^ k → validate_collateral amount ≡ ok tt
PowerOfTen-validate_collateral amount k h e = rw e (
    is_ok-ok (validate_collateral (10 ^ k)) (
      passes_under→true (λ k. is_ok (validate_collateral (10 ^ k))) 10 k (omega arith)
        powers_accepted))

-- A collateral is accepted exactly when it is a power of ten up to the ninth, and then its tier is
-- the exponent.
validate_collateral_iff :
    (amount : ℕ) → (validate_collateral amount ≡ ok tt) ↔ ((k : ℕ) × PowerOfTen amount k)
validate_collateral_iff amount = (
  validate_collateral-PowerOfTen amount,
  λ (k, (h, e, tier)). PowerOfTen-validate_collateral amount k h e,
)

-- What the rest of the program may rely on.
pub record IsChecked (c : AppConfig) : Type 0 where
  pub seed_length : length c.seed.bytes ≡ 55
  pub seed_letters : All (λ b. is_ascii_lowercase b ≡ true) c.seed.bytes
  pub collateral_power : (k : ℕ) × PowerOfTen c.collateral k
  pub interval_pos :
      (1 ≤ c.empty_tick_check_interval_ms) × (c.empty_tick_check_interval_ms ≤ u64_max)
  pub delay_pos : (1 ≤ c.reveal_check_delay_ticks) × (c.reveal_check_delay_ticks ≤ u32_max)
  pub endpoint_normal : IsNormal (endpoint_parts c.endpoint).0

new_seed-letters :
    (locked : Bool) (seed : List ℕ) {s : Seed}
    → new_seed locked seed ≡ ok s
    → (length s.bytes ≡ 55) × All (λ b. is_ascii_lowercase b ≡ true) s.bytes
unfolding new_seed lock_seed
new_seed-letters locked seed {s} h =
    let len : length seed ≡ 55 = ground arith in
    let letters : all is_ascii_lowercase seed ≡ true = ground arith in
    let same : s.bytes ≡ seed = ground arith in
    rw same (len, all-All is_ascii_lowercase seed letters)

argument-positive :
    (limit default : ℕ) (given : Option Text) (n : ℕ)
    → argument (parse_positive limit) default given ≡ ok n
    → (1 ≤ n) × (n ≤ limit)
argument-positive limit default none n e = parse_positive-positive limit _ n e
argument-positive limit default (some text) n e = parse_positive-positive limit text n e

-- Whatever the arguments and the input are, a configuration that the program starts with has a
-- seed of 55 lowercase letters, a power of ten up to the ninth as its collateral, positive
-- intervals in their types' ranges and an endpoint whose part before the query has a scheme and
-- no slash at its end, but for those of an empty `http://`.
pub from_cli-IsChecked :
    (around : Surroundings) (cli : Cli) {c : AppConfig} → from_cli around cli ≡ ok c → IsChecked c
unfolding from_cli app_config parse_positive_u64 parse_positive_u32
from_cli-IsChecked around cli {c} h =
    let (interval, ei, h1) =
      >>=-ok (argument parse_positive_u64 600 cli.empty_tick_check_interval_ms) _ h in
    let (delay, ed, h2) =
      >>=-ok (argument parse_positive_u32 10 cli.reveal_check_delay_ticks) _ h1 in
    let (text, et, h3) = >>=-ok (seed_text around cli.seed) _ h2 in
    let (seed, es, h4) = >>=-ok (new_seed around.locked (as_bytes text)) _ h3 in
    let (u, ec, h5) = >>=-ok (validate_collateral cli.collateral) _ h4 in
    let (len, letters) = new_seed-letters around.locked (as_bytes text) es in
    let (normal, query) =
      normalize_endpoint-IsNormal cli.backend
        (unwrap_or (default_endpoint around.bob_endpoint cli.backend) cli.endpoint) in
    let same : c ≡ app_config around cli interval delay seed = cc in
    let accepted : validate_collateral cli.collateral ≡ ok tt = cc in
    subst IsChecked (sym same) (record {
      seed_length = len;
      seed_letters = letters;
      collateral_power = validate_collateral-PowerOfTen cli.collateral accepted;
      interval_pos = argument-positive u64_max 600 cli.empty_tick_check_interval_ms interval ei;
      delay_pos = argument-positive u32_max 10 cli.reveal_check_delay_ticks delay ed;
      endpoint_normal = normal;
    })
