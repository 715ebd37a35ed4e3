-- ===== src/Experience/Curve.antt =====
-- `getExpForLevel` of engine/src/player.h: the points of a level, as far as 64 bits go.
use otx_teste.Common.{ℕ, zero, suc, ◌+◌, ◌-◌, ◌*◌, ◌^◌, ◌≤◌, ◌<◌, ◌≡◌, arith, dec_lt}
use native.Mathlib.Nat.{add-zero, add-suc}
use otx_teste.Experience.{get_exp_for_level}

-- The levels from 2 on at which no product leaves 64 bits.
abbrev pub max_level : ℕ
max_level = 600000

cube_bound : (n : ℕ) → n ≤ 600001 → n * n * n ≤ 600001 * 600001 * 600001
cube_bound n h = grind arith

square_bound : (n : ℕ) → n ≤ 600001 → n * n ≤ 600001 * 600001
square_bound n h = grind arith

-- The points of level n + 1, level by level.
unfoldable pub curve : ℕ → ℕ
curve zero = 0
curve (suc n) = curve n + (50 * (n * n) + 100 - 50 * n)

square_least : (n : ℕ) → n ≤ n * n
square_least zero = omega arith
square_least (suc n) = omega arith

curve_lem : (n : ℕ) → curve n * 3 + 150 * (n * n) ≡ 50 * (n * n * n) + 400 * n
unfolding curve
curve_lem zero = omega arith
curve_lem (suc n) = omega (arith, curve_lem n, square_least n)

-- No product of `getExpForLevel` leaves 64 bits up to level 600002.
pub get_exp_for_level-curve : (n : ℕ) → n ≤ 600001 → get_exp_for_level (suc n) ≡ curve n
unfolding get_exp_for_level
get_exp_for_level-curve n h =
    let before : suc n - 1 ≡ n = omega arith in
    rw before (omega (arith, curve_lem n, cube_bound n h, square_bound n h))

-- Each level takes at least 100 points more than the one before.
pub curve_step : (n : ℕ) → curve n + 100 ≤ curve (suc n)
unfolding curve
curve_step n = omega (arith, square_least n)

pub curve_least : (n : ℕ) → n ≤ curve n
unfolding curve
curve_least zero = omega arith
curve_least (suc n) = omega (arith, curve_least n, square_least n)

pub curve_mono : (n d : ℕ) → curve n ≤ curve (n + d)
curve_mono n zero = rw add-zero (omega arith)
curve_mono n (suc d) = rw (add-suc n d) (omega (arith, curve_mono n d, curve_step (n + d)))

-- A level that more points than those of level 600001 would be needed for is not reached.
pub curve_bounded : (n e : ℕ) → curve n ≤ e → e < curve max_level → n < max_level
curve_bounded n e h low = elim (dec_lt n max_level) [
  | yes less ↦ less
  | no other ↦
      let whole : max_level + (n - max_level) ≡ n = omega (arith, other) in
      absurd (omega (arith, rw whole at (curve_mono max_level (n - max_level)), h, low))
]

pub curve_small : curve max_level < 2 ^ 62
curve_small = omega (arith, curve_lem max_level)

pub curve_large : 2 ^ 60 < curve max_level
curve_large = omega (arith, curve_lem max_level)
