-- ===== src/Tests/Coins.antt =====
-- Runs of the payments' models.
use otx_teste.Common.{
  ℕ, ◌+◌, ◌<◌, ◌%◌, ◌^◌, ◌≡◌, refl, true, false, Option, none, some, List, [], ◌∷◌, leb,
  if◌then◌else◌, arith,
}
use otx_teste.Money.{
  Item, Held, loose, bag, nothing, also, add_money, crystal_stacks, stack_of, gather, gather_loose,
  gather_all, gather_things, gather_containers, next_container, emplace, bags, all_bags,
  things_bags, gather_money, break_stack, pay, charge, settle, remove_money,
}
use otx_teste.Money.Coins.{stacks_worth}
use otx_teste.Money.Gathering.{
  items_worth, things_worth, held_worth, all_worth, IsAscending, gather_money_lem,
}
use otx_teste.Money.Paying.{remove_money-Balances, remove_money-twice}

abbrev coins : ℕ → ℕ → ℕ → Item
coins thing id count = record { thing = thing; id = id; count = count }

-- Two platinum coins, a bag with 50 gold coins and a bag in it with a crystal coin, and an empty slot.
abbrev purse : List (Option Held)
purse =
    some (loose (coins 1 2152 2))
    ∷ none
    ∷ some (
        bag (
          also (bag (also (loose (coins 2 2160 1)) nothing))
            (also (loose (coins 3 2148 50)) nothing)))
    ∷ []

add_money_test :
    add_money 1020345
    ≡ record { id = 2160; count = 100 }
      ∷ record { id = 2160; count = 2 }
      ∷ record { id = 2152; count = 3 }
      ∷ record { id = 2148; count = 45 }
      ∷ []
unfolding add_money crystal_stacks stack_of
add_money_test = refl

-- 120 gold: the 50 gold coins, and one platinum coin of which 30 come back.
remove_money_test : remove_money purse 120 false 7 ≡ record {
  answer = true;
  removed = coins 3 2148 50 ∷ coins 1 2152 1 ∷ [];
  added = record { id = 2148; count = 30 } ∷ [];
  balance = 7;
}
unfolding remove_money gather_money gather_things gather_containers next_container gather_all gather
    gather_loose emplace things_bags bags all_bags pay break_stack settle charge add_money
    crystal_stacks stack_of
remove_money_test = refl

-- The same with a balance of 500: the 70 that the platinum coin has paid are charged once more.
remove_money_balance_test : (remove_money purse 120 true 500).balance ≡ 430
unfolding remove_money gather_money gather_things gather_containers next_container gather_all gather
    gather_loose emplace things_bags bags all_bags pay break_stack settle charge add_money
    crystal_stacks stack_of
remove_money_balance_test = refl

purse_worth : things_worth purse ≡ 10250
unfolding things_worth held_worth all_worth
purse_worth = refl

gather_money_lem_example :
    (items_worth (gather_money purse).money_map ≡ things_worth purse)
    × IsAscending (gather_money purse).money_map
    × ((gather_money purse).money_count ≡ things_worth purse % 2 ^ 64)
gather_money_lem_example = gather_money_lem purse

remove_money-Balances_example :
    let due = leb 20000 (things_worth purse + 15000) in
    let r = remove_money purse 20000 true 15000 in
    (r.answer ≡ due)
    × (items_worth r.removed + 15000
        ≡ (if due then 20000 else 0) + (stacks_worth r.added + r.balance))
remove_money-Balances_example =
    remove_money-Balances purse 20000 true 15000 (omega (arith, purse_worth))
      (ground (arith, purse_worth))

remove_money-twice_example :
    let r = remove_money purse 120 true 500 in
    (items_worth r.removed ≡ 120 + stacks_worth r.added) × (r.balance < 500)
remove_money-twice_example =
    remove_money-twice purse 120 500 (omega (arith, purse_worth)) (omega arith)
      (omega (arith, purse_worth)) (omega arith)
