-- ===== src/Prelude/Int/Rounding.antt =====
-- Division: the floor with its remainder, and rounding half up against the exact quotient.
use payzeno_ledger.Prelude.Int.{
  ℤ, pos, negsuc, pos_part, neg_part, neg_ℕ, half_up, round_half_up, floor_div, floor_mod, ◌≤ℤ◌,
}
use Prim.Native.Nat.{ℕ, zero, suc, ◌+◌, ◌*◌, ◌≤◌, ◌<◌}
use mathlib.Core.Path.{◌≡◌}
use mathlib.Core.Logic.{◌⊎◌}
use native.Mathlib.Nat.{div-add-mod, mod-lt, div-lt_iff_lt-mul, le-div_iff_mul-le}
use native.Mathlib.Omega.{arith}

pub half_up_bounds :
    (n d : ℕ) → 0 < d → (2 * d * half_up n d ≤ 2 * n + d) × (2 * n < 2 * d * half_up n d + d)
half_up_bounds n d h =
    omega (arith, div-add-mod (2 * n + d) (2 * d), mod-lt (2 * n + d) {m = 2 * d} (omega arith))

-- The rounded value is within d / 2 of the exact one, in units of 1 / d.
abbrev pub IsNearest : ℤ → ℕ → ℤ → Type 0
IsNearest a d r =
    (2 * d * pos_part r + 2 * neg_part a ≤ 2 * pos_part a + 2 * d * neg_part r + d)
    × (2 * pos_part a + 2 * d * neg_part r ≤ 2 * d * pos_part r + 2 * neg_part a + d)

pub neg_ℕ_parts : (n : ℕ) → (pos_part (neg_ℕ n) ≡ 0) × (neg_part (neg_ℕ n) ≡ n)
neg_ℕ_parts zero = omega arith
neg_ℕ_parts (suc n) = omega arith

pub round_half_up-IsNearest : (a : ℤ) (d : ℕ) → 0 < d → IsNearest a d (round_half_up a d)
unfolding round_half_up
round_half_up-IsNearest (pos n) d h = omega (arith, half_up_bounds n d h)
round_half_up-IsNearest (negsuc n) d h =
    rw ((neg_ℕ_parts (half_up (suc n) d)).0, (neg_ℕ_parts (half_up (suc n) d)).1)
      (omega (arith, half_up_bounds (suc n) d h))

-- A quotient of at most k rounds to at most k.
pub half_up-le : (n d k : ℕ) → 0 < d → n ≤ k * d → half_up n d ≤ k
half_up-le n d k h le =
    let below =
      (div-lt_iff_lt-mul {k = 2 * d} {x = 2 * n + d} {y = suc k} (omega arith)).1 (omega arith) in
    omega (arith, below)

pub half_up_mono : (n m d : ℕ) → 0 < d → n ≤ m → half_up n d ≤ half_up m d
half_up_mono n m d h le =
    (le-div_iff_mul-le {k = 2 * d} (omega arith)).1 (omega (arith, half_up_bounds n d h))

-- `divmod(a, d)`
pub floor_lem :
    (a : ℤ) (n : ℕ)
    → (pos_part a + suc n * neg_part (floor_div a (suc n))
        ≡ neg_part a + suc n * pos_part (floor_div a (suc n)) + floor_mod a (suc n))
      × (floor_mod a (suc n) < suc n)
floor_lem (pos a) n = omega (arith, div-add-mod a (suc n), mod-lt a {m = suc n} (omega arith))
floor_lem (negsuc a) n = omega (arith, div-add-mod a (suc n), mod-lt a {m = suc n} (omega arith))

-- r is a / d rounded to the nearest integer, a half away from zero.
pub record IsHalfUp (a : ℤ) (d : ℕ) (r : ℤ) : Type 0 where
  pub low : 2 * d * (pos_part r + neg_part r) ≤ 2 * (pos_part a + neg_part a) + d
  pub high : 2 * (pos_part a + neg_part a) < 2 * d * (pos_part r + neg_part r) + d
  pub not_below : (neg_part r ≡ 0) ⊎ (pos_part a ≡ 0)
  pub not_above : (pos_part r ≡ 0) ⊎ (neg_part a ≡ 0)

neg_ℕ-IsHalfUp :
    (n d q : ℕ)
    → 0 < d
    → (2 * d * q ≤ 2 * suc n + d) × (2 * suc n < 2 * d * q + d)
    → IsHalfUp (negsuc n) d (neg_ℕ q)
neg_ℕ-IsHalfUp n d zero p h = omega arith
neg_ℕ-IsHalfUp n d (suc q) p h = omega arith

pub round_half_up-IsHalfUp : (a : ℤ) (d : ℕ) → 0 < d → IsHalfUp a d (round_half_up a d)
unfolding round_half_up
round_half_up-IsHalfUp (pos n) d h = omega (arith, half_up_bounds n d h)
round_half_up-IsHalfUp (negsuc n) d h = neg_ℕ-IsHalfUp n d _ h (half_up_bounds (suc n) d h)

-- A number that is not negative and at most k wholes rounds to at most k.
pub round_half_up-le :
    (a : ℤ) (d : ℕ) (k : ℤ)
    → 0 < d
    → pos 0 ≤ℤ a
    → pos_part a ≤ pos_part k * d
    → round_half_up a d ≤ℤ pos (pos_part k)
unfolding round_half_up
round_half_up-le (pos n) d k h p le = omega (arith, half_up-le n d (pos_part k) h le)
round_half_up-le (negsuc n) d k h p le = absurd (omega arith)

pub round_half_up_nonneg : (a : ℤ) (d : ℕ) → pos 0 ≤ℤ a → pos 0 ≤ℤ round_half_up a d
unfolding round_half_up
round_half_up_nonneg (pos n) d h = omega arith
round_half_up_nonneg (negsuc n) d h = absurd (omega arith)
