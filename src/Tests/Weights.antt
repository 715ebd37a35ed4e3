-- ===== src/Tests/Weights.antt =====
-- Runs of what changes the weight of containers.
use otx_teste.Common.{ℕ, ◌≡◌, refl, true, false, [], ◌∷◌}
use otx_teste.Container.Weights.{
  Held, Helds, loose, bag, nothing, also, get_weight, take_out, remove_thing, inside, change_at,
}
use otx_teste.Container.Weights.Kept.{IsWeighed, AreWeighed, weights}
use otx_teste.Container.Weights.Calls.{remove, call, change_at-IsWeighed}

abbrev gold : ℕ → ℕ → Held
gold thing count =
    loose (record { thing = thing; base_weight = 10; stackable = true; count = count })

-- A sword behind a bag with 50 coins.
abbrev inner : Helds
inner = also (gold 3 50) nothing

abbrev things : Helds
things =
    also (bag 2 800 500 inner) (
      also (loose (record { thing = 4; base_weight = 3500; stackable = false; count = 1 })) nothing)

-- 20 of the coins in the bag are taken.
remove_thing_test : change_at (0 ∷ []) (remove_thing 3 20) 4800 things ≡ (
  record {
    total_weight = 4600;
    items = also (bag 2 800 300 (also (gold 3 30) nothing)) (
        also
          (loose (record { thing = 4; base_weight = 3500; stackable = false; count = 1 }))
          nothing);
  },
  4294967096,
)
unfolding change_at inside remove_thing take_out get_weight
remove_thing_test = refl

backpack-IsWeighed : IsWeighed (bag 1 1800 4800 things)
unfolding IsWeighed AreWeighed weights get_weight
backpack-IsWeighed = (refl, ((refl, (tt, tt)), (tt, tt)))

change_at-IsWeighed_example :
    let x = (change_at (0 ∷ []) (call (remove 3 20)) 4800 things).0 in
    IsWeighed (bag 1 1800 x.total_weight x.items)
change_at-IsWeighed_example =
    change_at-IsWeighed (remove 3 20) (0 ∷ []) 1 1800 4800 things tt backpack-IsWeighed
