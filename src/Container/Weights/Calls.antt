-- ===== src/Container/Weights/Calls.antt =====
-- engine/src/container.cpp: calls on a container that lies in others.
use otx_teste.Common.{ℕ, zero, suc, ◌+◌, ◌%◌, ◌^◌, ◌≡◌, refl, List, [], ◌∷◌, arith}
use otx_teste.Container.Weights.{
  Held, Helds, loose, bag, nothing, also, get_weight, Change, add_thing, add_item_back,
  replace_thing, remove_thing, Inside, inside, change_at, update_item_weight,
}
use otx_teste.Container.Weights.Kept.{
  weights, IsWeighed, AreWeighed, Keeps, unchanged-Keeps, behind-Keeps, add_thing-Keeps,
  add_item_back-Keeps, replace_thing-Keeps, remove_thing-Keeps,
}

-- What `updateItemWeight` makes of a container.
record Updates (total : ℕ) (items : Helds) (r : Inside × ℕ) : Type 0 where
  weighed : AreWeighed r.0.items
  counted : r.0.total_weight ≡ weights r.0.items % 2 ^ 32
  moved : r.0.total_weight ≡ (total + r.1) % 2 ^ 32

update_item_weight-Updates :
    (total : ℕ) (items : Helds) (c : Change)
    → total ≡ weights items % 2 ^ 32
    → Keeps items c
    → Updates total items (update_item_weight total c)
update_item_weight-Updates total items c e k = record {
  weighed = k.weighed;
  counted = omega (arith, e, k.differs);
  moved = refl;
}

abbrev UpdatesAll : (ℕ → Helds → Inside × ℕ) → Type 0
UpdatesAll f =
    (total : ℕ) (items : Helds)
    → total ≡ weights items % 2 ^ 32
    → AreWeighed items
    → Updates total items (f total items)

inside-Keeps :
    (k : ℕ) (f : ℕ → Helds → Inside × ℕ) (items : Helds)
    → UpdatesAll f
    → AreWeighed items
    → Keeps items (inside k f items)
unfolding inside AreWeighed IsWeighed
inside-Keeps k f nothing all a = unchanged-Keeps nothing a
inside-Keeps (suc k) f (also h hs) all a =
    behind-Keeps h hs (inside k f hs) a.0 (inside-Keeps k f hs all a.1)
inside-Keeps zero f (also (loose i) hs) all a = unchanged-Keeps (also (loose i) hs) a
inside-Keeps zero f (also (bag thing own total items) hs) all a =
    let u = all total items a.0.0 a.0.1 in
    record {
      weighed = ((u.counted, u.weighed), a.1);
      differs = unfold weights get_weight in omega (arith, u.moved);
    }

change_at-Updates :
    (way : List ℕ) (f : Helds → Change)
    → ((items : Helds) → AreWeighed items → Keeps items (f items))
    → UpdatesAll (change_at way f)
unfolding change_at
change_at-Updates [] f keeps total items e a =
    update_item_weight-Updates total items (f items) e (keeps items a)
change_at-Updates (k ∷ way) f keeps total items e a =
    update_item_weight-Updates total items (inside k (change_at way f) items) e
      (inside-Keeps k (change_at way f) items (change_at-Updates way f keeps) a)

-- The calls that change what is in a container, with their arguments.
pub data Call : Type 0 where
  add : ℕ → ℕ → Held → Call
  add_back : Held → Call
  replace : ℕ → Held → Call
  remove : ℕ → ℕ → Call

abbrev pub call : Call → Helds → Change
call (add capacity index h) items = add_thing capacity index h items
call (add_back h) items = add_item_back h items
call (replace k h) items = replace_thing k h items
call (remove thing count) items = remove_thing thing count items

-- What a call brings in is weighed itself.
abbrev pub BringsWeighed : Call → Type 0
BringsWeighed (add capacity index h) = IsWeighed h
BringsWeighed (add_back h) = IsWeighed h
BringsWeighed (replace k h) = IsWeighed h
BringsWeighed (remove thing count) = Unit {0}

call-Keeps :
    (c : Call) (items : Helds) → BringsWeighed c → AreWeighed items → Keeps items (call c items)
call-Keeps (add capacity index h) items w a = add_thing-Keeps capacity index h items w a
call-Keeps (add_back h) items w a = add_item_back-Keeps h items w a
call-Keeps (replace k h) items w a = replace_thing-Keeps k h items w a
call-Keeps (remove thing count) items w a = remove_thing-Keeps thing count items a

-- A container in which each container's count is the weight of what is in it, modulo 2 ^ 32, stays
-- one after `addThing`, `addItemBack`, `replaceThing` or `removeThing` on any container in it, at
-- any depth, where what is brought in is of this kind too.
pub change_at-IsWeighed :
    (c : Call) (way : List ℕ) (thing own total : ℕ) (items : Helds)
    → BringsWeighed c
    → IsWeighed (bag thing own total items)
    → let x = (change_at way (call c) total items).0 in
      IsWeighed (bag thing own x.total_weight x.items)
unfolding IsWeighed
change_at-IsWeighed c way thing own total items w a =
    let u = change_at-Updates way (call c) (λ hs b. call-Keeps c hs w b) total items a.0 a.1 in
    (u.counted, u.weighed)
