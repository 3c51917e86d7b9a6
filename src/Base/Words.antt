-- ===== src/Base/Words.antt =====
-- Unsigned machine integers as bounded native numbers, with Rust's checked and saturating operations.
use Prim.Native.Nat.{ℕ, ◌+◌, ◌-◌, min}
use mathlib.Core.Option.{Option, none, some}
use qubic_random_client.Base.Tests.{leb, if◌then◌else◌}

abbrev pub u32_max : ℕ
u32_max = 4_294_967_295

abbrev pub u64_max : ℕ
u64_max = 18_446_744_073_709_551_615

-- `u32::checked_add`.
abbrev pub checked_add : ℕ → ℕ → Option ℕ
checked_add a b = if leb (a + b) u32_max then some (a + b) else none

-- `u32::checked_sub`.
abbrev pub checked_sub : ℕ → ℕ → Option ℕ
checked_sub a b = if leb b a then some (a - b) else none

-- `u32::saturating_add`. `saturating_sub` is the native `-`, which stops at 0.
abbrev pub saturating_add : ℕ → ℕ → ℕ
saturating_add a b = min (a + b) u32_max

-- `u64::saturating_add`.
abbrev pub saturating_add64 : ℕ → ℕ → ℕ
saturating_add64 a b = min (a + b) u64_max
