-- ===== src/Base/Word.antt =====
-- 64-bit machine words as native numbers: the checked, saturating and wrapping operations of Rust's
-- `u64`, and of `usize` on the 64-bit target.
use Prim.Native.Nat.{ℕ, ◌+◌, ◌-◌, ◌*◌, ◌%◌, ◌^◌, ◌≤◌, ◌<◌}
use mathlib.Core.Path.{◌≡◌}
use mathlib.Core.Option.{Option, none, some}
use native.Mathlib.Omega.{arith}
use rustfirmware.Base.Tests.{ltb, if◌then◌else◌}

abbrev pub u64_mod : ℕ
u64_mod = 2 ^ 64

-- `a.checked_add(b)`, `a.checked_sub(b)` and `a.checked_mul(b)`.
abbrev pub checked_add : ℕ → ℕ → Option ℕ
checked_add a b = if ltb (a + b) u64_mod then some (a + b) else none

abbrev pub checked_sub : ℕ → ℕ → Option ℕ
checked_sub a b = if ltb a b then none else some (a - b)

abbrev pub checked_mul : ℕ → ℕ → Option ℕ
checked_mul a b = if ltb (a * b) u64_mod then some (a * b) else none

-- `a.saturating_add(b)`, `a.saturating_sub(b)` and `a.saturating_mul(b)`.
abbrev pub saturating_add : ℕ → ℕ → ℕ
saturating_add a b = if ltb (a + b) u64_mod then a + b else u64_mod - 1

abbrev pub saturating_sub : ℕ → ℕ → ℕ
saturating_sub a b = a - b

abbrev pub saturating_mul : ℕ → ℕ → ℕ
saturating_mul a b = if ltb (a * b) u64_mod then a * b else u64_mod - 1

-- `a - b` in a release build, where it wraps.
abbrev pub wrapping_sub : ℕ → ℕ → ℕ
wrapping_sub a b = (a + u64_mod - b) % u64_mod

-- `!a`.
abbrev pub not_u64 : ℕ → ℕ
not_u64 a = u64_mod - 1 - a

pub wrapping_sub-eq-sub : (a b : ℕ) → a < u64_mod → b ≤ a → wrapping_sub a b ≡ a - b
wrapping_sub-eq-sub a b h k = omega arith
