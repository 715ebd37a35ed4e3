-- ===== src/Ban.antt =====
-- `Ban::acceptConnection` of engine/src/ban.cpp: how often an address may connect. Times are
-- `uint64_t` milliseconds; the map of addresses is an association list.
pub mod Throttle
use otx_teste.Common.{
  ℕ, suc, ◌+◌, ◌-◌, ◌%◌, ◌^◌, Bool, true, false, ◌||◌, List, [], ◌∷◌, Option, none, some, ltb, leb,
  ◌==◌, if◌then◌else◌,
}

-- `ConnectBlock`.
pub record ConnectBlock : Type 0 where
  pub last_attempt : ℕ
  pub block_time : ℕ
  pub count : ℕ

-- `timeDiff <= k`: the difference of two `uint64_t`, read as an `int64_t`.
abbrev pub diff_le : ℕ → ℕ → ℕ → Bool
diff_le now last k = let diff = (now + 2 ^ 64 - last) % 2 ^ 64 in leb diff k || leb (2 ^ 63) diff

-- The body of `acceptConnection` for an address that has a block.
unfoldable pub attempt : ℕ → ConnectBlock → ConnectBlock × Bool
attempt current_time b =
    if ltb current_time b.block_time
    then (record b { block_time = (b.block_time + 250) % 2 ^ 64 }, false)
    else let seen = record b { last_attempt = current_time } in
      if diff_le current_time b.last_attempt 5000
      then (let n = (b.count + 1) % 2 ^ 32 in
          if ltb 5 n
          then (if diff_le current_time b.last_attempt 500
              then (record seen { count = 0; block_time = (current_time + 3000) % 2 ^ 64 }, false)
              else (record seen { count = 0 }, true))
          else (record seen { count = n }, true))
      else (record seen { count = 1 }, true)

-- `ipConnectMap.find` and the entry written back.
unfoldable pub find : ℕ → List (ℕ × ConnectBlock) → Option ConnectBlock
find ip [] = none
find ip ((k, b) ∷ rest) = if k == ip then some b else find ip rest

unfoldable pub store : ℕ → ConnectBlock → List (ℕ × ConnectBlock) → List (ℕ × ConnectBlock)
store ip b [] = (ip, b) ∷ []
store ip b ((k, c) ∷ rest) = if k == ip then (ip, b) ∷ rest else (k, c) ∷ store ip b rest

-- `acceptConnection` after the address is looked up.
unfoldable pub accept_found :
    ℕ → ℕ → List (ℕ × ConnectBlock) → Option ConnectBlock → List (ℕ × ConnectBlock) × Bool
unfolding store attempt
accept_found now ip m none =
    (store ip (record { last_attempt = now; block_time = 0; count = 1 }) m, true)
accept_found now ip m (some b) = (store ip (attempt now b).0 m, (attempt now b).1)

-- `acceptConnection`.
unfoldable pub accept_connection : ℕ → ℕ → List (ℕ × ConnectBlock) → List (ℕ × ConnectBlock) × Bool
unfolding find accept_found
accept_connection now ip m = accept_found now ip m (find ip m)
