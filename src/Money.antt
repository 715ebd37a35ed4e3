-- ===== src/Money.antt =====
-- `Game::addMoney` and `Game::removeMoney` of engine/src/game.cpp with `Item::getWorth` of
-- engine/src/item.cpp. What they do to the world is a list of calls: the items that they hand to
-- `internalRemoveItem`, each with the count that is taken off, and the coins they create for
-- `internalAddItem`.
pub mod Coins
pub mod Gathering
pub mod Paying
use otx_teste.Common.{
  ℕ, zero, suc, ◌+◌, ◌-◌, ◌*◌, ◌/◌, ◌%◌, ◌^◌, Bool, true, false, not, ◌&&◌, List, [], ◌∷◌, ◌++◌,
  Option, none, some, ltb, leb, ◌==◌, if◌then◌else◌,
}

abbrev pub item_gold_coin : ℕ
item_gold_coin = 2148

abbrev pub item_platinum_coin : ℕ
item_platinum_coin = 2152

abbrev pub item_crystal_coin : ℕ
item_crystal_coin = 2160

-- An item: which object it is, its kind and its count.
pub record Item : Type 0 where
  pub thing : ℕ
  pub id : ℕ
  pub count : ℕ

-- Coins made by `Item::CreateItem`.
pub record Stack : Type 0 where
  pub id : ℕ
  pub count : ℕ

-- What one piece of a kind is worth.
abbrev pub coin_worth : ℕ → ℕ
coin_worth id =
    if id == item_gold_coin
    then 1
    else if id == item_platinum_coin
    then 100
    else if id == item_crystal_coin
    then 10000
    else 0

-- `getWorth`.
abbrev pub get_worth : Item → ℕ
get_worth i = i.count * coin_worth i.id

-- The `while` over crystal coins, at most 100 at a time; the first number is fuel.
unfoldable pub crystal_stacks : ℕ → ℕ → List Stack
crystal_stacks zero coins = []
crystal_stacks (suc fuel) zero = []
crystal_stacks (suc fuel) (suc c) =
    let count = if ltb 100 (suc c) then 100 else suc c in
    record { id = item_crystal_coin; count = count } ∷ crystal_stacks fuel (suc c - count)

-- One stack, unless there is nothing to put in it; `CreateItem` takes the count as a `uint16_t`.
unfoldable pub stack_of : ℕ → ℕ → List Stack
stack_of id zero = []
stack_of id (suc n) = record { id = id; count = suc n % 2 ^ 16 } ∷ []

-- `addMoney`: `crystalCoins` is a `uint32_t`, and so is its product with 10000; `platinumCoins` is
-- a `uint16_t`, its product with 100 an `int`.
unfoldable pub add_money : ℕ → List Stack
unfolding crystal_stacks stack_of
add_money money =
    let crystal_coins = money / 10000 % 2 ^ 32 in
    let money' = (money + 2 ^ 64 - crystal_coins * 10000 % 2 ^ 32) % 2 ^ 64 in
    let platinum_coins = money' / 100 % 2 ^ 16 in
    let money'' = (money' + 2 ^ 64 - platinum_coins * 100) % 2 ^ 64 in
    crystal_stacks crystal_coins crystal_coins
    ++ (stack_of item_platinum_coin platinum_coins ++ stack_of item_gold_coin money'')

-- What lies in a cylinder: an item, or a container with what is in it.
mutual
  pub data Held : Type 0 where
    loose : Item → Held
    bag : Helds → Held

  pub data Helds : Type 0 where
    nothing : Helds
    also : Held → Helds → Helds

-- `containers` from `i` on, `moneyMap` and `moneyCount`.
pub record Gathered : Type 0 where
  pub containers : List Helds
  pub money_map : List Item
  pub money_count : ℕ

-- `moneyMap.emplace`: behind the entries with the same key.
unfoldable pub emplace : Item → List Item → List Item
emplace i [] = i ∷ []
emplace i (j ∷ js) =
    let rest = emplace i js in if ltb (get_worth i) (get_worth j) then i ∷ j ∷ js else j ∷ rest

unfoldable pub gather_loose : Item → Gathered → Gathered
unfolding emplace
gather_loose i g = if get_worth i == 0 then g else record g {
  money_map = emplace i g.money_map;
  money_count = (g.money_count + get_worth i) % 2 ^ 64;
}

unfoldable pub gather : Held → Gathered → Gathered
unfolding gather_loose
gather (loose i) g = gather_loose i g
gather (bag inside) g = record g { containers = g.containers ++ (inside ∷ []) }

-- The `for` over a container's items.
unfoldable pub gather_all : Helds → Gathered → Gathered
unfolding gather
gather_all nothing g = g
gather_all (also h hs) g = gather_all hs (gather h g)

-- The `for` over the cylinder's things, a missing one or one that is no item being `none`.
unfoldable pub gather_things : List (Option Held) → Gathered → Gathered
unfolding gather
gather_things [] g = g
gather_things (none ∷ things) g = gather_things things g
gather_things (some h ∷ things) g = gather_things things (gather h g)

unfoldable pub next_container : Gathered → List Helds → Gathered
unfolding gather_all
next_container g [] = g
next_container g (inside ∷ others) = gather_all inside (record g { containers = others })

-- The `while` over the containers; the first number is fuel, one for each container.
unfoldable pub gather_containers : ℕ → Gathered → Gathered
unfolding next_container
gather_containers zero g = g
gather_containers (suc fuel) g = gather_containers fuel (next_container g g.containers)

-- How many containers there are at any depth.
unfoldable mutual
  pub bags : Held → ℕ
  bags (loose i) = 0
  bags (bag inside) = suc (all_bags inside)

  pub all_bags : Helds → ℕ
  all_bags nothing = 0
  all_bags (also h hs) = bags h + all_bags hs

unfoldable pub things_bags : List (Option Held) → ℕ
unfolding bags
things_bags [] = 0
things_bags (none ∷ things) = things_bags things
things_bags (some h ∷ things) = bags h + things_bags things

-- Both loops.
unfoldable pub gather_money : List (Option Held) → Gathered
unfolding gather_things gather_containers things_bags
gather_money things =
    gather_containers (things_bags things)
      (gather_things things (record { containers = []; money_map = []; money_count = 0 }))

-- What is taken, the change, and what `money` is at the end of the loop.
pub record Payment : Type 0 where
  pub removed : List Item
  pub added : List Stack
  pub money : ℕ

-- `ceil(money / worth)`, exact in a `double` for numbers below 2 ^ 32 and these worths.
abbrev pub ceil_div : ℕ → ℕ → ℕ
ceil_div money worth = (money + worth - 1) / worth

-- The branch that breaks a stack.
unfoldable pub break_stack : Item → ℕ → Payment
unfolding add_money
break_stack i money =
    let worth = get_worth i / i.count in
    let remove_count = ceil_div money worth in
    record {
      removed = record i { count = remove_count } ∷ [];
      added = add_money (worth * remove_count - money);
      money = money;
    }

-- The `for` over `moneyMap`.
unfoldable pub pay : List Item → ℕ → Payment
unfolding break_stack
pay [] money = record { removed = []; added = []; money = money }
pay (i ∷ items) money =
    let later = pay items (money - get_worth i) in
    if ltb (get_worth i) money
    then record later { removed = i ∷ later.removed }
    else if ltb money (get_worth i)
    then break_stack i money
    else record { removed = i ∷ []; added = []; money = money }

-- The answer of `removeMoney`, its calls, and the bank balance.
pub record Removal : Type 0 where
  pub answer : Bool
  pub removed : List Item
  pub added : List Stack
  pub balance : ℕ

-- `useBalance && player && player->getBankBalance() >= money`, at the end.
unfoldable pub charge : Bool → ℕ → ℕ → ℕ
charge use_balance balance money =
    if use_balance && leb money balance then balance - money else balance

unfoldable pub settle : Bool → ℕ → Payment → Removal
unfolding charge
settle use_balance balance p = record {
  answer = true;
  removed = p.removed;
  added = p.added;
  balance = charge use_balance balance p.money;
}

abbrev pub untouched : Bool → ℕ → Removal
untouched answer balance = record { answer = answer; removed = []; added = []; balance = balance }

-- `removeMoney` from a cylinder that is not null; `uses_balance`: `useBalance`, and the cylinder is a
-- player, whose balance in the bank is the last argument.
unfoldable pub remove_money : List (Option Held) → ℕ → Bool → ℕ → Removal
unfolding gather_money pay settle
remove_money things money uses_balance balance =
    let g = gather_money things in
    let usable = if uses_balance then balance else 0 in
    let done = settle uses_balance balance (pay g.money_map money) in
    if money == 0
    then untouched true balance
    else if ltb ((g.money_count + usable) % 2 ^ 64) money
    then untouched false balance
    else done
