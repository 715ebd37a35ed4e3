-- ===== src/Experience.antt =====
-- `addExperience`, `removeExperience`, `getPercentLevel` and `getExpForLevel` of
-- engine/src/player.cpp and player.h. What an event script makes of the points is a parameter.
-- Signed numbers of 32 bits are kept as their bits. Left out: the messages, the health and the
-- mana that a new level fills up, and the speed that it gives.
pub mod Curve
pub mod Levels
pub mod Exchange
use otx_teste.Common.{
  ℕ, zero, suc, ◌+◌, ◌-◌, ◌*◌, ◌/◌, ◌%◌, ◌^◌, Bool, true, false, ◌&&◌, ◌||◌, ltb, leb, ◌==◌,
  if◌then◌else◌,
}

-- The fields of a player that the functions change.
pub record Player : Type 0 where
  pub level : ℕ
  pub experience : ℕ
  pub level_percent : ℕ
  pub health_max : ℕ
  pub mana_max : ℕ
  pub capacity : ℕ

-- What a vocation gives for a level.
pub record Vocation : Type 0 where
  pub hp_gain : ℕ
  pub mana_gain : ℕ
  pub cap_gain : ℕ

-- `getExpForLevel` of a level of at least 1, in 64 bits.
unfoldable pub get_exp_for_level : ℕ → ℕ
get_exp_for_level level =
    let lv = level - 1 in
    (50 * lv * lv * lv % 2 ^ 64 + 2 ^ 64 - 150 * lv * lv % 2 ^ 64 + 400 * lv) % 2 ^ 64 / 3

-- `getPercentLevel`; the result is a `uint8_t`.
unfoldable pub get_percent_level : ℕ → ℕ → ℕ
get_percent_level count next_level_count =
    let result = count * 100 % 2 ^ 64 / next_level_count % 2 ^ 8 in
    if next_level_count == 0 then 0 else if ltb 100 result then 0 else result

-- A level more.
unfoldable pub level_up : Vocation → Player → Player
level_up v p = record p {
  level = (p.level + 1) % 2 ^ 32;
  health_max = (p.health_max + v.hp_gain) % 2 ^ 32;
  mana_max = (p.mana_max + v.mana_gain) % 2 ^ 32;
  capacity = (p.capacity + v.cap_gain) % 2 ^ 32;
}

-- `max(0, a - b)` of signed numbers of 32 bits.
abbrev pub less : ℕ → ℕ → ℕ
less a b = let d = (a + 2 ^ 32 - b) % 2 ^ 32 in if ltb d (2 ^ 31) then d else 0

-- A level less.
unfoldable pub level_down : Vocation → Player → Player
level_down v p = record p {
  level = p.level - 1;
  health_max = less p.health_max v.hp_gain;
  mana_max = less p.mana_max v.mana_gain;
  capacity = less p.capacity v.cap_gain;
}

-- A player, `currLevelExp` and `nextLevelExp`.
pub record Span : Type 0 where
  pub player : Player
  pub curr_level_exp : ℕ
  pub next_level_exp : ℕ

-- The loop of `addExperience`; the first number is fuel.
unfoldable pub grow : ℕ → Vocation → Span → Span
unfolding level_up get_exp_for_level
grow zero v s = s
grow (suc fuel) v s = elim (leb s.next_level_exp s.player.experience) [
  | false ↦ s
  | true ↦
      let p = level_up v s.player in
      let next = get_exp_for_level (p.level + 1) in
      let s' : Span = record {
        player = p;
        curr_level_exp = s.next_level_exp;
        next_level_exp = next;
      } in
      elim (leb next s.next_level_exp) [ true ↦ s' | false ↦ grow fuel v s' ]
]

-- The percentage at the end of both functions.
unfoldable pub with_percent : Span → Player
unfolding get_percent_level
with_percent s = record (s.player) {
  level_percent =
      if ltb s.curr_level_exp s.next_level_exp
      then get_percent_level ((s.player.experience + 2 ^ 64 - s.curr_level_exp) % 2 ^ 64)
          (s.next_level_exp - s.curr_level_exp)
      else 0;
}

-- The part of `addExperience` behind the script, for the points that it leaves.
unfoldable pub gain : Vocation → ℕ → Player → Player
unfolding grow with_percent get_exp_for_level
gain v exp p =
    let p' : Player = record p { experience = (p.experience + exp) % 2 ^ 64 } in
    if exp == 0
    then p
    else with_percent (
        grow (p'.experience + 1) v (record {
          player = p';
          curr_level_exp = get_exp_for_level p.level;
          next_level_exp = get_exp_for_level (p.level + 1);
        }))

-- `addExperience`; `on_gain_experience` is what the script leaves of the points.
unfoldable pub add_experience : Vocation → (ℕ → ℕ) → ℕ → Player → Player
unfolding gain get_exp_for_level
add_experience v on_gain_experience exp p =
    if leb (get_exp_for_level (p.level + 1)) (get_exp_for_level p.level)
    then record p { level_percent = 0 }
    else gain v (on_gain_experience exp) p

-- The loop of `removeExperience`.
unfoldable pub shrink : ℕ → Vocation → Player → Player
unfolding level_down get_exp_for_level
shrink zero v p = p
shrink (suc fuel) v p =
    let lower = shrink fuel v (level_down v p) in
    if ltb 1 p.level && ltb p.experience (get_exp_for_level p.level) then lower else p

-- `max<int64_t>(0, experience - exp)`.
abbrev pub reduced : ℕ → ℕ → ℕ
reduced experience exp =
    let d = (experience + 2 ^ 64 - exp) % 2 ^ 64 in if ltb d (2 ^ 63) then d else 0

-- The part of `removeExperience` behind the script.
unfoldable pub lose : Vocation → ℕ → Player → Player
unfolding shrink with_percent get_exp_for_level
lose v exp p =
    let q = shrink p.level v (record p { experience = reduced p.experience exp }) in
    if exp == 0
    then p
    else with_percent (record {
      player = q;
      curr_level_exp = get_exp_for_level q.level;
      next_level_exp = get_exp_for_level (q.level + 1);
    })

-- `removeExperience`.
unfoldable pub remove_experience : Vocation → (ℕ → ℕ) → ℕ → Player → Player
unfolding lose
remove_experience v on_lose_experience exp p =
    if (p.experience == 0) || (exp == 0) then p else lose v (on_lose_experience exp) p
