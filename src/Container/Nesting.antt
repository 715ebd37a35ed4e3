-- ===== src/Container/Nesting.antt =====
-- No container ends up in itself: `Container::queryAdd` of engine/src/container.cpp.
use otx_teste.Common.{
  ℕ, ◌≡◌, refl, true, false, not, ◌&&◌, List, [], ◌∷◌, some, ◌==◌, leb, arith, Bool-cases, inl, inr,
}
use otx_teste.Common.Sets.{mem}
use otx_teste.ReturnValue.{or_else, or_else-noerror, noerror}
use otx_teste.Container.{
  Limits, Flags, Item, Container, Cylinder, walk_limited, walk_unlimited, nesting_stops,
  limits_stop, ask_top, query_add_item, query_add,
}

abbrev pub things : List Cylinder → List ℕ
things [] = []
things (c ∷ cs) = c.thing ∷ things cs

walk_limited-apart :
    (t : ℕ) (cs : List Cylinder) → walk_limited t cs ≡ noerror → mem t (things cs) ≡ false
unfolding walk_limited mem
walk_limited-apart t [] h = refl
walk_limited-apart t (c ∷ cs) h = ground (arith, walk_limited-apart t cs)

walk_unlimited-apart :
    (t : ℕ) (cs : List Cylinder) → walk_unlimited t cs ≡ noerror → mem t (things cs) ≡ false
unfolding walk_unlimited mem
walk_unlimited-apart t [] h = refl
walk_unlimited-apart t (c ∷ cs) h = ground (arith, walk_unlimited-apart t cs)

nesting_stops-apart :
    (f : Flags) (i : Item) (c : Container)
    → nesting_stops f i c ≡ noerror
    → (mem i.thing (things c.parents) ≡ false)
      × (not f.nolimit && (f.whereever && leb c.capacity c.size && not c.has_pagination) ≡ false)
unfolding nesting_stops
nesting_stops-apart f i c h = elim (Bool-cases f.nolimit) [
  | inl free ↦ (walk_unlimited-apart i.thing c.parents (simp free at h), ground arith)
  | inr bound ↦
      let (w, room) = or_else-noerror (walk_limited i.thing c.parents) _ (simp bound at h) in
      (walk_limited-apart i.thing c.parents w, ground arith)
]

-- An item that `queryAdd` lets into a container, without FLAG_CHILDISOWNER, can be picked up, is
-- neither the container nor one of the cylinders around it, so that no container comes to lie in
-- itself; and without FLAG_NOLIMIT, at no particular place, a container without pages has room.
pub query_add-apart :
    (l : Limits) (f : Flags) (i : Item) (c : Container)
    → f.childisowner ≡ false
    → query_add l f (some i) c ≡ noerror
    → ((i.is_pickupable ≡ true) × (mem i.thing (c.this ∷ things c.parents) ≡ false))
      × (not f.nolimit && (f.whereever && leb c.capacity c.size && not c.has_pagination) ≡ false)
unfolding query_add query_add_item mem
query_add-apart l f i c own h =
    elim (Bool-cases (c.unlocked && i.is_pickupable && not (i.thing == c.this))) [
      | inr shut ↦ absurd (ground arith)
      | inl fit ↦
          let k : or_else (nesting_stops f i c)
                (or_else (limits_stop l i c.top_container) (ask_top i c))
              ≡ noerror =
            ground arith in
          let n = nesting_stops-apart f i c (or_else-noerror (nesting_stops f i c) _ k).0 in
          (ground (arith, n.0), n.1)
    ]
