-- ===== src/Money/Gathering.antt =====
-- The money that `removeMoney` of engine/src/game.cpp finds in a cylinder.
use otx_teste.Common.{
  ℕ, zero, suc, ◌+◌, ◌-◌, ◌%◌, ◌^◌, ◌≤◌, ◌≡◌, refl, ap, Option, none, some, List, [], ◌∷◌, ◌++◌,
  arith, ltb, ◌==◌, true, false, Bool-cases, inl, inr,
}
use otx_teste.Money.{
  Item, Held, Helds, loose, bag, nothing, also, Gathered, get_worth, emplace, gather_loose, gather,
  gather_all, gather_things, next_container, gather_containers, bags, all_bags, things_bags,
  gather_money,
}

-- What everything in a cylinder is worth, at any depth.
unfoldable mutual
  pub held_worth : Held → ℕ
  held_worth (loose i) = get_worth i
  held_worth (bag inside) = all_worth inside

  pub all_worth : Helds → ℕ
  all_worth nothing = 0
  all_worth (also h hs) = held_worth h + all_worth hs

unfoldable pub things_worth : List (Option Held) → ℕ
unfolding held_worth
things_worth [] = 0
things_worth (none ∷ things) = things_worth things
things_worth (some h ∷ things) = held_worth h + things_worth things

unfoldable pub items_worth : List Item → ℕ
items_worth [] = 0
items_worth (i ∷ items) = get_worth i + items_worth items

-- The items are worth something, and no item is worth more than those behind it.
unfoldable pub AtLeast : ℕ → List Item → Type 0
AtLeast w [] = Unit {0}
AtLeast w (i ∷ items) = (w ≤ get_worth i) × AtLeast w items

unfoldable pub IsAscending : List Item → Type 0
unfolding AtLeast
IsAscending [] = Unit {0}
IsAscending (i ∷ items) = (1 ≤ get_worth i × AtLeast (get_worth i) items) × IsAscending items

items_worth-emplace :
    (i : Item) (js : List Item) → items_worth (emplace i js) ≡ get_worth i + items_worth js
unfolding items_worth emplace
items_worth-emplace i [] = omega arith
items_worth-emplace i (j ∷ js) = ground (arith, items_worth-emplace i js)

lower-AtLeast : (v w : ℕ) (items : List Item) → v ≤ w → AtLeast w items → AtLeast v items
unfolding AtLeast
lower-AtLeast v w [] h a = tt
lower-AtLeast v w (i ∷ items) h a = (omega (arith, a.0), lower-AtLeast v w items h a.1)

emplace-AtLeast :
    (w : ℕ) (i : Item) (js : List Item) → w ≤ get_worth i → AtLeast w js → AtLeast w (emplace i js)
unfolding AtLeast emplace
emplace-AtLeast w i [] h a = (h, tt)
emplace-AtLeast w i (j ∷ js) h a = elim (Bool-cases (ltb (get_worth i) (get_worth j))) [
  | inl e ↦ rw e (h, (a.0, a.1))
  | inr e ↦ rw e (a.0, emplace-AtLeast w i js h a.1)
]

ltb_le : (i j : Item) → ltb (get_worth i) (get_worth j) ≡ true → get_worth i ≤ get_worth j
ltb_le i j e = ground (arith, e)

not_ltb_le : (i j : Item) → ltb (get_worth i) (get_worth j) ≡ false → get_worth j ≤ get_worth i
not_ltb_le i j e = ground (arith, e)

emplace-IsAscending :
    (i : Item) (js : List Item) → 1 ≤ get_worth i → IsAscending js → IsAscending (emplace i js)
unfolding IsAscending emplace AtLeast
emplace-IsAscending i [] h a = ((h, tt), tt)
emplace-IsAscending i (j ∷ js) h a = elim (Bool-cases (ltb (get_worth i) (get_worth j))) [
  | inl e ↦ rw e ((h, (ltb_le i j e, lower-AtLeast _ _ js (ltb_le i j e) a.0.1)), a)
  | inr e ↦
      rw e
        ((a.0.0, emplace-AtLeast _ i js (not_ltb_le i j e) a.0.1), emplace-IsAscending i js h a.1)
]

abbrev queue_worth : List Helds → ℕ
queue_worth [] = 0
queue_worth (hs ∷ others) = all_worth hs + queue_worth others

abbrev queue_bags : List Helds → ℕ
queue_bags [] = 0
queue_bags (hs ∷ others) = suc (all_bags hs) + queue_bags others

-- What has been found and what is still in the containers to be looked through.
abbrev total : Gathered → ℕ
total g = items_worth g.money_map + queue_worth g.containers

record IsSound (g : Gathered) : Type 0 where
  counted : g.money_count ≡ items_worth g.money_map % 2 ^ 64
  ascending : IsAscending g.money_map

queue-append :
    (xs : List Helds) (hs : Helds)
    → (queue_worth (xs ++ (hs ∷ [])) ≡ queue_worth xs + all_worth hs)
      × (queue_bags (xs ++ (hs ∷ [])) ≡ queue_bags xs + suc (all_bags hs))
queue-append [] hs = (omega arith, omega arith)
queue-append (x ∷ xs) hs = let (w, b) = queue-append xs hs in (omega (arith, w), omega (arith, b))

-- Looking at one thing adds its worth and its containers, and keeps the map sound.
record Adds (worth bags : ℕ) (g g' : Gathered) : Type 0 where
  more : total g' ≡ total g + worth
  queued : queue_bags g'.containers ≡ queue_bags g.containers + bags
  sound : IsSound g → IsSound g'

gather_loose-Adds : (i : Item) (g : Gathered) → Adds (get_worth i) 0 g (gather_loose i g)
unfolding gather_loose
gather_loose-Adds i g = elim (Bool-cases (get_worth i == 0)) [
  | inl e ↦ rw e (record { more = ground (arith, e); queued = omega arith; sound = λ s. s })
  | inr e ↦ rw e (record {
    more = omega (arith, items_worth-emplace i g.money_map);
    queued = omega arith;
    sound = λ s. record {
      counted = omega (arith, s.counted, items_worth-emplace i g.money_map);
      ascending = emplace-IsAscending i g.money_map (ground (arith, e)) s.ascending;
    };
  })
]

gather-Adds : (h : Held) (g : Gathered) → Adds (held_worth h) (bags h) g (gather h g)
unfolding gather held_worth bags
gather-Adds (loose i) g = gather_loose-Adds i g
gather-Adds (bag inside) g =
    let (w, b) = queue-append g.containers inside in
    record {
      more = omega (arith, w);
      queued = omega (arith, b);
      sound = λ s. record { counted = s.counted; ascending = s.ascending };
    }

module _ {v w b c : ℕ} {f g h : Gathered} where
  Adds-trans : Adds v b f g → Adds w c g h → Adds (v + w) (b + c) f h
  Adds-trans x y = record {
    more = omega (arith, x.more, y.more);
    queued = omega (arith, x.queued, y.queued);
    sound = λ s. y.sound (x.sound s);
  }

nothing_added : (g : Gathered) → Adds 0 0 g g
nothing_added g = record { more = omega arith; queued = omega arith; sound = λ s. s }

gather_all-Adds :
    (hs : Helds) (g : Gathered) → Adds (all_worth hs) (all_bags hs) g (gather_all hs g)
unfolding gather_all all_worth all_bags
gather_all-Adds nothing g = nothing_added g
gather_all-Adds (also h hs) g = Adds-trans (gather-Adds h g) (gather_all-Adds hs (gather h g))

gather_things-Adds :
    (things : List (Option Held)) (g : Gathered)
    → Adds (things_worth things) (things_bags things) g (gather_things things g)
unfolding gather_things things_worth things_bags
gather_things-Adds [] g = nothing_added g
gather_things-Adds (none ∷ things) g = gather_things-Adds things g
gather_things-Adds (some h ∷ things) g =
    Adds-trans (gather-Adds h g) (gather_things-Adds things (gather h g))

-- A turn of the `while` takes one container off the queue.
record Turns (g g' : Gathered) : Type 0 where
  same : total g' ≡ total g
  fewer : queue_bags g'.containers ≡ queue_bags g.containers - 1
  sound : IsSound g → IsSound g'

next_container-Turns :
    (g : Gathered) (cs : List Helds) → g.containers ≡ cs → Turns g (next_container g cs)
unfolding next_container
next_container-Turns g [] e = record { same = refl; fewer = rw e (omega arith); sound = λ s. s }
next_container-Turns g (hs ∷ others) e =
    let popped : Gathered = record g { containers = others } in
    let step = gather_all-Adds hs popped in
    let worth : queue_worth g.containers ≡ all_worth hs + queue_worth others = ap queue_worth e in
    let count : queue_bags g.containers ≡ suc (all_bags hs) + queue_bags others = ap queue_bags e in
    record {
      same = omega (arith, step.more, worth);
      fewer = omega (arith, step.queued, count);
      sound = λ s. step.sound (record { counted = s.counted; ascending = s.ascending });
    }

-- All that was pending is found, and nothing else.
record Finishes (g g' : Gathered) : Type 0 where
  found : items_worth g'.money_map ≡ total g
  sound : IsSound g → IsSound g'

no_bags : (cs : List Helds) → queue_bags cs ≤ 0 → queue_worth cs ≡ 0
no_bags [] h = refl
no_bags (hs ∷ others) h = absurd (omega arith)

-- With as much fuel as there are containers at any depth, each is looked through.
gather_containers-Finishes :
    (fuel : ℕ) (g : Gathered)
    → queue_bags g.containers ≤ fuel
    → Finishes g (gather_containers fuel g)
unfolding gather_containers
gather_containers-Finishes zero g h = record {
  found = omega (arith, no_bags g.containers h);
  sound = λ s. s;
}
gather_containers-Finishes (suc fuel) g h =
    let step = next_container-Turns g g.containers refl in
    let rest =
      gather_containers-Finishes fuel (next_container g g.containers) (omega (arith, step.fewer)) in
    record { found = omega (arith, rest.found, step.same); sound = λ s. rest.sound (step.sound s) }

-- The map that `removeMoney` gathers holds what everything in the cylinder is worth, at any depth
-- of containers, in ascending order of the worth of its items, each of them worth something; and
-- the count is that worth modulo 2 ^ 64.
pub gather_money_lem :
    (things : List (Option Held))
    → (items_worth (gather_money things).money_map ≡ things_worth things)
      × IsAscending (gather_money things).money_map
      × ((gather_money things).money_count ≡ things_worth things % 2 ^ 64)
unfolding gather_money
gather_money_lem things =
    let start : Gathered = record { containers = []; money_map = []; money_count = 0 } in
    let first = gather_things-Adds things start in
    let g = gather_things things start in
    let rest = gather_containers-Finishes (things_bags things) g (omega (arith, first.queued)) in
    let at_first : IsSound start = record {
      counted = unfold items_worth in omega arith;
      ascending = unfold IsAscending in tt;
    } in
    let sound = rest.sound (first.sound at_first) in
    let all : items_worth (gather_containers (things_bags things) g).money_map
        ≡ things_worth things =
      unfold items_worth in omega (arith, rest.found, first.more) in
    (all, sound.ascending, omega (arith, sound.counted, all))
