-- ===== src/Ban/Throttle.antt =====
-- What `Ban::acceptConnection` of engine/src/ban.cpp keeps of each address, and whom it refuses.
use mathlib.Core.Path.{subst}
use mathlib.Core.Option.{some-injective}
use otx_teste.Common.{
  ℕ, ◌+◌, ◌^◌, ◌<◌, ◌≤◌, ◌≡◌, ◌≢◌, refl, sym, ap, ◌∙◌, Bool, true, false, length, ◌*◌, List, [],
  ◌∷◌, ℕ_discrete, Option, none, some, arith,
}
use otx_teste.Ban.{ConnectBlock, attempt, find, store, accept_found, accept_connection}

-- A block as `attempt` leaves it: not yet at its sixth attempt.
pub record IsBlock (b : ConnectBlock) : Type 0 where
  pub few : b.count ≤ 5

-- Every entry of the map is such a block.
pub record AreBlocks (m : List (ℕ × ConnectBlock)) : Type 0 where
  pub block : (ip : ℕ) (b : ConnectBlock) → find ip m ≡ some b → IsBlock b

find-store_same :
    (ip : ℕ) (b : ConnectBlock) (m : List (ℕ × ConnectBlock)) → find ip (store ip b m) ≡ some b
unfolding find store
find-store_same ip b [] = ground arith
find-store_same ip b ((k, c) ∷ m) = ground (arith, find-store_same ip b m)

find-store_other :
    (ip g : ℕ) (b : ConnectBlock) (m : List (ℕ × ConnectBlock))
    → g ≢ ip
    → find g (store ip b m) ≡ find g m
unfolding find store
find-store_other ip g b [] ne = ground arith
find-store_other ip g b ((k, c) ∷ m) ne = ground (arith, find-store_other ip g b m ne)

attempt-IsBlock : (now : ℕ) (b : ConnectBlock) → IsBlock b → IsBlock (attempt now b).0
unfolding attempt
attempt-IsBlock now b h = record { few = ground (arith, h.few) }

store-AreBlocks :
    (ip : ℕ) (b : ConnectBlock) (m : List (ℕ × ConnectBlock))
    → IsBlock b
    → AreBlocks m
    → AreBlocks (store ip b m)
store-AreBlocks ip b m hb h = record {
  block = λ g c found. elim (ℕ_discrete g ip) [
    | yes same ↦
        let e = sym (find-store_same ip b m) ∙ ap (λ k. find k (store ip b m)) (sym same) ∙ found in
        subst IsBlock (some-injective _ _ e) hb
    | no ne ↦ h.block g c (sym (find-store_other ip g b m ne) ∙ found)
  ];
}

-- After an attempt from an address every entry of the map has counted at most five attempts, if
-- that was so before.
pub accept_connection-AreBlocks :
    (now ip : ℕ) (m : List (ℕ × ConnectBlock))
    → AreBlocks m
    → AreBlocks (accept_connection now ip m).0
unfolding accept_connection accept_found
accept_connection-AreBlocks now ip m h = go (find ip m) refl
  where
    go : (o : Option ConnectBlock) → find ip m ≡ o → AreBlocks (accept_found now ip m o).0
    go none new = store-AreBlocks ip _ m (record { few = omega arith }) h
    go (some b) old = store-AreBlocks ip _ m (attempt-IsBlock now b (h.block ip b old)) h

-- An attempt from one address leaves what is known of any other as it is.
pub accept_connection-other :
    (now ip g : ℕ) (m : List (ℕ × ConnectBlock))
    → g ≢ ip
    → find g (accept_connection now ip m).0 ≡ find g m
unfolding accept_connection accept_found
accept_connection-other now ip g m ne = go (find ip m)
  where
    go : (o : Option ConnectBlock) → find g (accept_found now ip m o).0 ≡ find g m
    go none = find-store_other ip g _ m ne
    go (some b) = find-store_other ip g _ m ne

-- The answers to attempts from one address, at the times of a list.
abbrev pub answers : ℕ → List ℕ → List (ℕ × ConnectBlock) → List Bool
answers ip [] m = []
answers ip (t ∷ ts) m = let a = accept_connection t ip m in a.1 ∷ answers ip ts a.0

-- Every answer of a list is the given one.
abbrev pub AreAll : Bool → List Bool → Type 0
AreAll b [] = Unit {0}
AreAll b (a ∷ rest) = (a ≡ b) × AreAll b rest

-- Times more than five seconds apart, the first of them so long after a time.
abbrev pub AreSpaced : ℕ → List ℕ → Type 0
AreSpaced last [] = Unit {0}
AreSpaced last (t ∷ ts) = (last + 5000 < t) × (t < 2 ^ 63) × AreSpaced t ts

-- Times that are all before a time.
abbrev pub AreBefore : ℕ → List ℕ → Type 0
AreBefore end [] = Unit {0}
AreBefore end (t ∷ ts) = (t < end) × AreBefore end ts

-- The next answers, when the address is known.
accept_connection-known :
    (now ip : ℕ) (m : List (ℕ × ConnectBlock)) (b : ConnectBlock)
    → find ip m ≡ some b
    → accept_connection now ip m ≡ (store ip (attempt now b).0 m, (attempt now b).1)
unfolding accept_connection accept_found
accept_connection-known now ip m b h = ap (accept_found now ip m) h

attempt_quiet :
    (now : ℕ) (b : ConnectBlock)
    → now < 2 ^ 63
    → b.last_attempt + 5000 < now
    → b.block_time ≤ b.last_attempt + 5000
    → (((attempt now b).1 ≡ true) × ((attempt now b).0.last_attempt ≡ now))
      × ((attempt now b).0.block_time ≡ b.block_time)
unfolding attempt
attempt_quiet now b fits late free = ground arith

known_spaced :
    (ip : ℕ) (m : List (ℕ × ConnectBlock)) (b : ConnectBlock) (ts : List ℕ)
    → find ip m ≡ some b
    → b.block_time ≤ b.last_attempt + 5000
    → AreSpaced b.last_attempt ts
    → AreAll true (answers ip ts m)
known_spaced ip m b [] h free s = tt
known_spaced ip m b (t ∷ ts) h free s =
    let q = attempt_quiet t b s.1 s.0 free in
    rw (accept_connection-known t ip m b h) (
      q.0.0,
      known_spaced ip (store ip (attempt t b).0 m) (attempt t b).0 ts
          (find-store_same ip (attempt t b).0 m) (omega (arith, q))
          (subst (λ l. AreSpaced l ts) (sym q.0.1) s.2),
    )

-- An address that the map does not know, and that connects at intervals of more than five seconds, is
-- let in every time, at times below `2 ^ 63`.
pub answers-spaced :
    (ip t : ℕ) (m : List (ℕ × ConnectBlock)) (ts : List ℕ)
    → find ip m ≡ none
    → t < 2 ^ 63
    → AreSpaced t ts
    → AreAll true (answers ip (t ∷ ts) m)
unfolding accept_connection accept_found
answers-spaced ip t m ts new fits s =
    let b : ConnectBlock = record { last_attempt = t; block_time = 0; count = 1 } in
    rw new (refl, known_spaced ip (store ip b m) b ts (find-store_same ip b m) (omega arith) s)

attempt_blocked :
    (now : ℕ) (b : ConnectBlock)
    → now < b.block_time
    → b.block_time + 250 < 2 ^ 64
    → ((attempt now b).1 ≡ false) × ((attempt now b).0.block_time ≡ b.block_time + 250)
unfolding attempt
attempt_blocked now b h fits = ground arith

-- Times each of which lies before an end that every time before it has put off by 250.
abbrev pub AreInBlock : ℕ → List ℕ → Type 0
AreInBlock end [] = Unit {0}
AreInBlock end (t ∷ ts) = (t < end) × AreInBlock (end + 250) ts

before_in_block : (a b : ℕ) (ts : List ℕ) → a ≤ b → AreBefore a ts → AreInBlock b ts
before_in_block a b [] h s = tt
before_in_block a b (t ∷ ts) h s =
    (omega (arith, s.0), before_in_block a (b + 250) ts (omega (arith, h)) s.1)

-- The map after attempts from one address, at the times of a list.
abbrev pub after : ℕ → List ℕ → List (ℕ × ConnectBlock) → List (ℕ × ConnectBlock)
after ip [] m = m
after ip (t ∷ ts) m = after ip ts (accept_connection t ip m).0

-- Every attempt from a blocked address that comes before the block ends is refused and puts the end
-- off by a quarter of a second, while that fits in 64 bits: attempts are refused as long as each
-- comes before the end that those before it have put off, and afterwards the block ends 250
-- milliseconds later for each of them.
pub answers-blocked :
    (ip : ℕ) (m : List (ℕ × ConnectBlock)) (b : ConnectBlock) (ts : List ℕ)
    → find ip m ≡ some b
    → AreInBlock b.block_time ts
    → b.block_time + 250 * length ts < 2 ^ 64
    → AreAll false (answers ip ts m)
      × ((c : ConnectBlock) × (find ip (after ip ts m) ≡ some c)
          × (c.block_time ≡ b.block_time + 250 * length ts))
answers-blocked ip m b [] h s fits = (tt, (b, h, omega arith))
answers-blocked ip m b (t ∷ ts) h s fits =
    let q = attempt_blocked t b s.0 (omega arith) in
    let next = (attempt t b).0 in
    let (rest, (c, known, end)) =
      answers-blocked ip (store ip next m) next ts (find-store_same ip next m)
        (subst (λ e. AreInBlock e ts) (sym q.1) s.1) (omega (arith, q.1)) in
    rw (accept_connection-known t ip m b h) ((q.0, rest), (c, known, omega (arith, end, q.1)))

attempt_sixth :
    (now : ℕ) (b : ConnectBlock)
    → b.count ≡ 5
    → b.block_time ≤ now
    → b.last_attempt ≤ now
    → now ≤ b.last_attempt + 500
    → now + 3000 < 2 ^ 64
    → ((attempt now b).1 ≡ false) × ((attempt now b).0.block_time ≡ now + 3000)
unfolding attempt
attempt_sixth now b five free order soon fits = ground arith

-- A sixth attempt from one address within half a second of the fifth is refused, and so is
-- everything that comes from there in the three seconds after it, while the times fit in 64 bits.
pub answers-sixth :
    (ip now : ℕ) (m : List (ℕ × ConnectBlock)) (b : ConnectBlock) (ts : List ℕ)
    → find ip m ≡ some b
    → b.count ≡ 5
    → b.block_time ≤ now
    → b.last_attempt ≤ now
    → now ≤ b.last_attempt + 500
    → AreBefore (now + 3000) ts
    → now + 3000 + 250 * length ts < 2 ^ 64
    → AreAll false (answers ip (now ∷ ts) m)
answers-sixth ip now m b ts h five free order soon s fits =
    let q = attempt_sixth now b five free order soon (omega arith) in
    rw (accept_connection-known now ip m b h) (
      q.0,
      (answers-blocked ip (store ip (attempt now b).0 m) (attempt now b).0 ts
          (find-store_same ip (attempt now b).0 m)
          (before_in_block (now + 3000) (attempt now b).0.block_time ts (omega (arith, q.1)) s)
          (omega (arith, q.1))).0,
    )
