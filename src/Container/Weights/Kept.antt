-- ===== src/Container/Weights/Kept.antt =====
-- engine/src/container.cpp: each container knows the weight of what is in it.
use otx_teste.Common.{ℕ, zero, suc, ◌+◌, ◌%◌, ◌^◌, ◌<◌, ◌≡◌, not, ◌&&◌, leb, ◌==◌, if_either, arith}
use otx_teste.Container.Weights.{
  Held, Helds, loose, bag, nothing, also, get_weight, object, Change, unchanged, behind, add_thing,
  add_item_back, replace_thing, take_out, remove_thing,
}

-- What the things in a list weigh together.
unfoldable pub weights : Helds → ℕ
unfolding get_weight
weights nothing = 0
weights (also h hs) = get_weight h + weights hs

-- The count of each container, at any depth, is what is in it, in 32 bits.
unfoldable mutual
  pub IsWeighed : Held → Type 0
  IsWeighed (loose i) = Unit {0}
  IsWeighed (bag thing own total items) = (total ≡ weights items % 2 ^ 32) × AreWeighed items

  pub AreWeighed : Helds → Type 0
  AreWeighed nothing = Unit {0}
  AreWeighed (also h hs) = IsWeighed h × AreWeighed hs

-- A call that keeps the containers in a list weighed, and whose difference is that of the list.
pub record Keeps (items : Helds) (c : Change) : Type 0 where
  pub weighed : AreWeighed c.items
  pub differs : weights c.items % 2 ^ 32 ≡ (weights items + c.diff) % 2 ^ 32

weight_bounded : (h : Held) → get_weight h < 2 ^ 32
unfolding get_weight
weight_bounded (loose i) = omega arith
weight_bounded (bag thing own total items) = omega arith

pub unchanged-Keeps : (items : Helds) → AreWeighed items → Keeps items (unchanged items)
unchanged-Keeps items a = record { weighed = a; differs = omega arith }

pub behind-Keeps :
    (h : Held) (items : Helds) (c : Change)
    → IsWeighed h
    → Keeps items c
    → Keeps (also h items) (behind h c)
unfolding weights AreWeighed
behind-Keeps h items c w k = record { weighed = (w, k.weighed); differs = omega (arith, k.differs) }

pub add_thing-Keeps :
    (capacity index : ℕ) (h : Held) (items : Helds)
    → IsWeighed h
    → AreWeighed items
    → Keeps items (add_thing capacity index h items)
unfolding add_thing
add_thing-Keeps capacity index h items w a =
    if_either (Keeps items) (leb capacity index) {x = unchanged items}
      (λ e. unchanged-Keeps items a)
      (λ e. record {
        weighed = unfold AreWeighed in (w, a);
        differs = unfold weights in omega arith;
      })

pub add_item_back-Keeps :
    (h : Held) (items : Helds)
    → IsWeighed h
    → AreWeighed items
    → Keeps items (add_item_back h items)
unfolding add_item_back AreWeighed
add_item_back-Keeps h nothing w a = record {
  weighed = (w, tt);
  differs = unfold weights in omega arith;
}
add_item_back-Keeps h (also k ks) w a =
    behind-Keeps k ks (add_item_back h ks) a.0 (add_item_back-Keeps h ks w a.1)

pub replace_thing-Keeps :
    (k : ℕ) (h : Held) (items : Helds)
    → IsWeighed h
    → AreWeighed items
    → Keeps items (replace_thing k h items)
unfolding replace_thing AreWeighed
replace_thing-Keeps k h nothing w a = unchanged-Keeps nothing a
replace_thing-Keeps zero h (also old others) w a = record {
  weighed = (w, a.1);
  differs = unfold weights in omega (arith, weight_bounded old);
}
replace_thing-Keeps (suc k) h (also first others) w a =
    behind-Keeps first others (replace_thing k h others) a.0 (replace_thing-Keeps k h others w a.1)

take_out-Keeps :
    (count : ℕ) (h : Held) (others : Helds)
    → AreWeighed others
    → Keeps (also h others) (take_out count h others)
unfolding take_out
take_out-Keeps count (loose i) others a =
    if_either (Keeps (also (loose i) others)) (i.stackable && not (count == i.count))
      (λ e. record {
        weighed = unfold IsWeighed AreWeighed in (tt, a);
        differs = unfold weights in omega (arith, weight_bounded (loose i));
      })
      (λ e. record {
        weighed = a;
        differs = unfold weights in omega (arith, weight_bounded (loose i));
      })
take_out-Keeps count (bag thing own total items) others a = record {
  weighed = a;
  differs = unfold weights in omega (arith, weight_bounded (bag thing own total items));
}

pub remove_thing-Keeps :
    (thing count : ℕ) (items : Helds)
    → AreWeighed items
    → Keeps items (remove_thing thing count items)
unfolding remove_thing AreWeighed
remove_thing-Keeps thing count nothing a = unchanged-Keeps nothing a
remove_thing-Keeps thing count (also h hs) a =
    if_either (Keeps (also h hs)) (object h == thing) {x = take_out count h hs}
      {y = behind h (remove_thing thing count hs)} (λ e. take_out-Keeps count h hs a.1)
      (λ e.
        behind-Keeps h hs (remove_thing thing count hs) a.0 (remove_thing-Keeps thing count hs a.1))
