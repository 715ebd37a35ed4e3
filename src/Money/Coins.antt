-- ===== src/Money/Coins.antt =====
-- `addMoney` of engine/src/game.cpp gives the amount, in stacks that fit.
use otx_teste.Common.{
  ℕ, zero, suc, ◌+◌, ◌-◌, ◌*◌, ◌/◌, ◌%◌, ◌^◌, ◌≤◌, ◌<◌, ◌≡◌, List, [], ◌∷◌, ◌++◌, arith, ltb,
  if◌then◌else◌,
}
use otx_teste.Money.{
  Stack, coin_worth, crystal_stacks, stack_of, add_money, item_gold_coin, item_platinum_coin,
}

-- What stacks are worth together.
unfoldable pub stacks_worth : List Stack → ℕ
stacks_worth [] = 0
stacks_worth (s ∷ ss) = s.count * coin_worth s.id + stacks_worth ss

-- Each stack holds something, and no more than 100 pieces.
abbrev pub Fit : List Stack → Type 0
Fit [] = Unit {0}
Fit (s ∷ ss) = (1 ≤ s.count × s.count ≤ 100) × Fit ss

stacks_worth-append :
    (xs ys : List Stack) → stacks_worth (xs ++ ys) ≡ stacks_worth xs + stacks_worth ys
unfolding stacks_worth
stacks_worth-append [] ys = omega arith
stacks_worth-append (x ∷ xs) ys = omega (arith, stacks_worth-append xs ys)

append-Fit : (xs ys : List Stack) → Fit xs → Fit ys → Fit (xs ++ ys)
append-Fit [] ys f g = g
append-Fit (x ∷ xs) ys f g = (f.0, append-Fit xs ys f.1 g)

crystal_stacks_worth :
    (fuel coins : ℕ) → coins ≤ fuel → stacks_worth (crystal_stacks fuel coins) ≡ coins * 10000
unfolding stacks_worth crystal_stacks
crystal_stacks_worth zero coins h = omega arith
crystal_stacks_worth (suc fuel) zero h = omega arith
crystal_stacks_worth (suc fuel) (suc c) h =
    ground (arith, crystal_stacks_worth fuel (suc c - (if ltb 100 (suc c) then 100 else suc c)))

crystal_stacks-Fit : (fuel coins : ℕ) → Fit (crystal_stacks fuel coins)
unfolding crystal_stacks
crystal_stacks-Fit zero coins = tt
crystal_stacks-Fit (suc fuel) zero = tt
crystal_stacks-Fit (suc fuel) (suc c) =
    (ground arith, crystal_stacks-Fit fuel (suc c - (if ltb 100 (suc c) then 100 else suc c)))

stack_of_worth : (id n : ℕ) → n ≤ 100 → stacks_worth (stack_of id n) ≡ n * coin_worth id
unfolding stacks_worth stack_of
stack_of_worth id zero h = omega arith
stack_of_worth id (suc n) h =
    let whole : suc n % 2 ^ 16 ≡ suc n = omega (arith, h) in rw whole (omega arith)

stack_of-Fit : (id n : ℕ) → n ≤ 100 → Fit (stack_of id n)
unfolding stack_of
stack_of-Fit id zero h = tt
stack_of-Fit id (suc n) h = ((omega arith, omega arith), tt)

abbrev three_stacks : ℕ → ℕ → ℕ → List Stack
three_stacks c p g =
    crystal_stacks c c ++ (stack_of item_platinum_coin p ++ stack_of item_gold_coin g)

three_stacks_worth :
    (c p g money : ℕ)
    → c * 10000 + p * 100 + g ≡ money
    → p ≤ 100
    → g ≤ 100
    → (stacks_worth (three_stacks c p g) ≡ money) × Fit (three_stacks c p g)
three_stacks_worth c p g money total hp hg =
    let last = stack_of item_platinum_coin p ++ stack_of item_gold_coin g in
    let sum = stacks_worth-append (stack_of item_platinum_coin p) (stack_of item_gold_coin g) in
    let all = stacks_worth-append (crystal_stacks c c) last in
    (
      omega (
        arith,
        all,
        sum,
        total,
        crystal_stacks_worth c c (omega arith),
        stack_of_worth item_platinum_coin p hp,
        stack_of_worth item_gold_coin g hg,
      ),
      append-Fit (crystal_stacks c c) last (crystal_stacks-Fit c c) (
          append-Fit (stack_of item_platinum_coin p) (stack_of item_gold_coin g)
            (stack_of-Fit item_platinum_coin p hp) (stack_of-Fit item_gold_coin g hg)),
    )

-- The coins of an amount below 4294970000, the least that makes 32 bits of a product wrap, are
-- worth the amount, and each stack holds from 1 to 100 of them.
pub add_money_worth :
    (money : ℕ)
    → money < 4294970000
    → (stacks_worth (add_money money) ≡ money) × Fit (add_money money)
unfolding add_money
add_money_worth money h =
    let c = money / 10000 % 2 ^ 32 in
    let c_is : c ≡ money / 10000 = omega (arith, h) in
    let left = (money + 2 ^ 64 - c * 10000 % 2 ^ 32) % 2 ^ 64 in
    let left_is : left ≡ money % 10000 = omega (arith, c_is) in
    let p = left / 100 % 2 ^ 16 in
    let p_is : p ≡ money % 10000 / 100 = omega (arith, left_is) in
    let g = (left + 2 ^ 64 - p * 100) % 2 ^ 64 in
    let g_is : g ≡ money % 100 = omega (arith, left_is, p_is) in
    three_stacks_worth c p g money (omega (arith, c_is, p_is, g_is)) (omega (arith, p_is))
      (omega (arith, g_is))
