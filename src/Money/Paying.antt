-- ===== src/Money/Paying.antt =====
-- `removeMoney` of engine/src/game.cpp takes the amount.
use native.Mathlib.Nat.{mul-div_cancel_left, mul_comm}
use otx_teste.Common.{
  ℕ, zero, suc, ◌+◌, ◌-◌, ◌*◌, ◌/◌, ◌%◌, ◌^◌, ◌≤◌, ◌<◌, ◌≡◌, refl, ap, Bool, Option, List, [], ◌∷◌,
  arith, ltb, leb, ◌==◌, ◌&&◌, true, false, if_either, if◌then◌else◌, ltb→lt, lt→ltb,
}
use otx_teste.Money.{
  item_gold_coin, item_platinum_coin, item_crystal_coin, Item, Held, Payment, Removal, coin_worth,
  get_worth, ceil_div, break_stack, pay, charge, settle, remove_money, gather_money, untouched,
}
use otx_teste.Money.Coins.{stacks_worth, add_money_worth}
use otx_teste.Money.Gathering.{items_worth, things_worth, gather_money_lem}

-- What is taken is the amount and the change.
abbrev pub Exact : ℕ → Payment → Type 0
Exact money p = items_worth p.removed ≡ money + stacks_worth p.added

-- A count is a `uint8_t`.
abbrev pub Counts : List Item → Type 0
Counts [] = Unit {0}
Counts (i ∷ items) = (i.count < 256) × Counts items

data CoinWorth : ℕ → Type 0 where
  none_ : CoinWorth 0
  gold : CoinWorth 1
  platinum : CoinWorth 100
  crystal : CoinWorth 10000

coin_worth-CoinWorth : (id : ℕ) → CoinWorth (coin_worth id)
coin_worth-CoinWorth id =
    if_either CoinWorth (id == item_gold_coin) (λ e. gold)
      (λ e.
        if_either CoinWorth (id == item_platinum_coin) (λ e. platinum)
          (λ e. if_either CoinWorth (id == item_crystal_coin) (λ e. crystal) (λ e. none_)))

-- As many pieces as cover the amount, and what they are worth beyond it.
covers :
    (w count money : ℕ)
    → CoinWorth w
    → money < count * w
    → (money ≤ w * ceil_div money w)
      × (w * ceil_div money w - money < 10000)
      × (ceil_div money w ≤ count)
covers _ count money none_ h = absurd (omega arith)
covers _ count money gold h = (omega arith, omega arith, omega arith)
covers _ count money platinum h = (omega arith, omega arith, omega arith)
covers _ count money crystal h = (omega arith, omega arith, omega arith)

one_piece : (i : Item) → 0 < i.count → get_worth i / i.count ≡ coin_worth i.id
one_piece i h = mul-div_cancel_left (coin_worth i.id) h

counted : (w money count : ℕ) → money < count * w → 0 < count
counted w money zero h = absurd (omega arith)
counted w money (suc n) h = omega arith

break_stack-Exact : (i : Item) (money : ℕ) → money < get_worth i → Exact money (break_stack i money)
unfolding break_stack items_worth
break_stack-Exact i money less =
    let w = coin_worth i.id in
    let some_count : 0 < i.count = counted w money i.count less in
    let (enough, over, within) = covers w i.count money (coin_worth-CoinWorth i.id) less in
    let (change, fit) = add_money_worth (w * ceil_div money w - money) (omega (arith, over)) in
    rw (one_piece i some_count) (omega (arith, change, enough, mul_comm w (ceil_div money w)))

-- What is taken is exact, and what remains in `money` is not nothing, nor more than the amount.
record Pays (money : ℕ) (p : Payment) : Type 0 where
  exact : Exact money p
  remains : 1 ≤ p.money
  within : p.money ≤ money

pay-Pays :
    (items : List Item) (money : ℕ)
    → 0 < money
    → money ≤ items_worth items
    → Pays money (pay items money)
unfolding pay items_worth
pay-Pays [] money pos h = absurd (omega arith)
pay-Pays (i ∷ items) money pos h =
    let w = get_worth i in
    if_either (Pays money) (ltb w money)
      (λ less.
        let later = pay-Pays items (money - w) (ground (arith, less)) (ground (arith, less)) in
        record {
          exact = ground (arith, less, later.exact);
          remains = later.remains;
          within = omega (arith, later.within);
        })
      (λ e.
        if_either (Pays money) (ltb money w)
          (λ more. record {
            exact = break_stack-Exact i money (ltb→lt money w more);
            remains = unfold break_stack in omega arith;
            within = unfold break_stack in omega arith;
          })
          (λ f. record {
            exact = unfold stacks_worth in ground (arith, e, f);
            remains = omega arith;
            within = omega arith;
          }))

pay_missing :
    (items : List Item) (money : ℕ)
    → items_worth items < money
    → pay items money ≡ record { removed = items; added = []; money = money - items_worth items }
unfolding pay items_worth
pay_missing [] money h = ap (λ m. record { removed = []; added = []; money = m }) (omega arith)
pay_missing (i ∷ items) money h =
    let left = money - get_worth i - items_worth items in
    rw
      (
        lt→ltb (get_worth i) money (omega arith),
        pay_missing items (money - get_worth i) (omega arith),
      )
      (ap (λ m. record { removed = i ∷ items; added = []; money = m }) (omega arith))

-- What is worth more than before, in the cylinder, in the change and in the bank, and the answer.
record Balances (due : Bool) (money balance : ℕ) (r : Removal) : Type 0 where
  answered : r.answer ≡ due
  kept :
      items_worth r.removed + balance
      ≡ (if due then money else 0) + (stacks_worth r.added + r.balance)

untouched-Balances :
    (due : Bool) (money balance : ℕ)
    → (due ≡ true → money ≡ 0)
    → Balances due money balance (untouched due balance)
unfolding items_worth stacks_worth
untouched-Balances true money balance h = record { answered = refl; kept = omega (arith, h refl) }
untouched-Balances false money balance h = record { answered = refl; kept = omega arith }

module _ (items : List Item) (money balance : ℕ) where
  settle_missing :
      items_worth items < money
      → money ≤ items_worth items + balance
      → Balances true money balance (settle true balance (pay items money))
  unfolding settle charge stacks_worth
  settle_missing short enough =
      rw (pay_missing items money short) (record { answered = refl; kept = ground arith })

  settle_covered :
      0 < money
      → money ≤ items_worth items
      → Balances true money balance (settle false balance (pay items money))
  unfolding settle charge
  settle_covered pos enough =
      let p = pay-Pays items money pos enough in
      record { answered = refl; kept = omega (arith, p.exact) }

  settle_either :
      (uses_balance : Bool)
      → (uses_balance && leb money (items_worth items)) ≡ false
      → 0 < money
      → money ≤ items_worth items + (if uses_balance then balance else 0)
      → Balances true money balance (settle uses_balance balance (pay items money))
  settle_either true apart pos enough = settle_missing (ground (arith, apart)) enough
  settle_either false apart pos enough = settle_covered pos (omega arith)

usable_bounded : (b : Bool) (balance : ℕ) → (if b then balance else 0) ≤ balance
usable_bounded true balance = omega arith
usable_bounded false balance = omega arith

due_when :
    (due d : Bool) (money balance : ℕ) (r : Removal)
    → due ≡ d
    → Balances d money balance r
    → Balances due money balance r
due_when due d money balance r e b = rw e b

-- The three branches of `removeMoney`, for the items and the count that were gathered.
branches-Balances :
    (items : List Item) (count money : ℕ) (uses_balance : Bool) (balance : ℕ)
    → count ≡ items_worth items % 2 ^ 64
    → items_worth items + balance < 2 ^ 64
    → (uses_balance && leb money (items_worth items)) ≡ false
    → let usable = if uses_balance then balance else 0 in
      Balances (leb money (items_worth items + usable)) money balance (
        if money == 0
        then untouched true balance
        else if ltb ((count + usable) % 2 ^ 64) money
        then untouched false balance
        else settle uses_balance balance (pay items money))
branches-Balances items count money uses_balance balance counts bound apart =
    let usable = if uses_balance then balance else 0 in
    let total = items_worth items + usable in
    let exact : (count + usable) % 2 ^ 64 ≡ total =
      omega (arith, counts, bound, usable_bounded uses_balance balance) in
    let due = leb money total in
    if_either (Balances due money balance) (money == 0)
      (λ e.
        due_when due true money balance _ (ground (arith, e))
          (untouched-Balances true money balance (λ t. ground (arith, e))))
      (λ e.
        if_either (Balances due money balance) (ltb ((count + usable) % 2 ^ 64) money)
          (λ f.
            due_when due false money balance _ (ground (arith, exact, f))
              (untouched-Balances false money balance (λ t. ground (arith, t))))
          (λ f. due_when due true money balance _ (ground (arith, exact, f)) (
            settle_either items money balance uses_balance apart (ground (arith, e))
              (ground (arith, exact, f)))))

-- While what is at hand and the balance together stay below 2 ^ 64, and unless the bank may be used
-- and the money at hand suffices, `removeMoney` succeeds exactly when
-- what is at hand, with the balance if it may be used, comes to the amount; what it takes from the
-- cylinder and from the bank is then the amount and the change, and otherwise it takes nothing.
pub remove_money-Balances :
    (things : List (Option Held)) (money : ℕ) (uses_balance : Bool) (balance : ℕ)
    → things_worth things + balance < 2 ^ 64
    → (uses_balance && leb money (things_worth things)) ≡ false
    → let due = leb money (things_worth things + (if uses_balance then balance else 0)) in
      let r = remove_money things money uses_balance balance in
      (r.answer ≡ due)
      × (items_worth r.removed + balance
          ≡ (if due then money else 0) + (stacks_worth r.added + r.balance))
unfolding remove_money
remove_money-Balances things money uses_balance balance bound apart =
    let (found, order, count) = gather_money_lem things in
    let g = gather_money things in
    let b = rw found at (
      branches-Balances g.money_map g.money_count money uses_balance balance (rw found count)
        (rw found bound) (rw found apart)) in
    (b.answered, b.kept)

-- A player who may use the bank, whose coins suffice for an amount that is not zero and whose balance
-- comes to it as well, with coins and balance together below 2 ^ 64, pays twice: what is taken from the cylinder is the amount and the change, and the balance drops besides.
pub remove_money-twice :
    (things : List (Option Held)) (money balance : ℕ)
    → things_worth things + balance < 2 ^ 64
    → 0 < money
    → money ≤ things_worth things
    → money ≤ balance
    → let r = remove_money things money true balance in
      (items_worth r.removed ≡ money + stacks_worth r.added) × (r.balance < balance)
unfolding remove_money
remove_money-twice things money balance bound pos enough rich =
    let (found, order, count) = gather_money_lem things in
    let g = gather_money things in
    let p = pay-Pays g.money_map money pos (rw found enough) in
    let nonzero : (money == 0) ≡ false = ground arith in
    let covered : ltb ((g.money_count + balance) % 2 ^ 64) money ≡ false = ground (arith, count) in
    rw (nonzero, covered) (p.exact, unfold settle charge in ground (arith, p.remains, p.within))
