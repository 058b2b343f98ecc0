-- ===== src/Base/Word.antt =====
-- The arithmetic of `u8` and `u32`: wrapping as in a release build, and the saturating methods.
use Prim.Native.Nat.{ℕ, ◌+◌, ◌-◌, ◌*◌, ◌%◌, ◌≤◌, min}
use native.Mathlib.Omega.{arith}

abbrev pub u8_mod : ℕ
u8_mod = 256

abbrev pub u8_max : ℕ
u8_max = 255

abbrev pub u32_mod : ℕ
u32_mod = 4294967296

abbrev pub u32_max : ℕ
u32_max = 4294967295

-- `a + b` and `a - b` on `u8`.
abbrev pub add_u8 : ℕ → ℕ → ℕ
add_u8 a b = (a + b) % 256

abbrev pub sub_u8 : ℕ → ℕ → ℕ
sub_u8 a b = (a + 256 - b) % 256

-- `a + b` and `a - b` on `u32`.
abbrev pub add_u32 : ℕ → ℕ → ℕ
add_u32 a b = (a + b) % 4294967296

abbrev pub sub_u32 : ℕ → ℕ → ℕ
sub_u32 a b = (a + 4294967296 - b) % 4294967296

-- `u8::saturating_add`, `u32::saturating_add`, `u32::saturating_mul`; `saturating_sub` is `-` on ℕ.
abbrev pub sat_add_u8 : ℕ → ℕ → ℕ
sat_add_u8 a b = min (a + b) 255

abbrev pub sat_add : ℕ → ℕ → ℕ
sat_add a b = min (a + b) 4294967295

abbrev pub sat_mul : ℕ → ℕ → ℕ
sat_mul a b = min (a * b) 4294967295

-- `u32::abs_diff`
abbrev pub abs_diff : ℕ → ℕ → ℕ
abs_diff a b = (a - b) + (b - a)

-- `u32::try_from(n).unwrap_or(u32::MAX)` of a `usize`.
abbrev pub to_u32 : ℕ → ℕ
to_u32 n = min n 4294967295

-- `n as u32`
abbrev pub as_u32 : ℕ → ℕ
as_u32 n = n % 4294967296

pub sat_add_bounds : (a b : ℕ) → sat_add a b ≤ u32_max
sat_add_bounds a b = omega arith
