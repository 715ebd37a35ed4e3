-- ===== src/Position.antt =====
-- engine/src/position.h, and the steps of engine/src/tools.cpp over positions.
-- A `uint16_t` or `uint8_t` coordinate is a number; what the source stores wraps at 2 ^ 16 or 2 ^ 8.
pub mod Order
pub mod Steps
use otx_teste.Common.{
  ℕ, ◌+◌, ◌-◌, ◌%◌, ◌^◌, ◌≤◌, ◌<◌, Bool, true, false, not, ◌&&◌, ◌||◌, leb, ltb, ◌==◌,
  if◌then◌else◌,
}
use otx_teste.Common.Int.{ℤ, pos, negsuc, sub_ℕ, abs, ltb_ℤ}

pub data Direction : Type 0 where
  north east south west southwest southeast northwest northeast direction_none : Direction

pub record Position : Type 0 where
  pub x : ℕ
  pub y : ℕ
  pub z : ℕ

-- The coordinates fit the widths that the source gives them.
pub record Fits (p : Position) : Type 0 where
  pub x_fits : p.x < 2 ^ 16
  pub y_fits : p.y < 2 ^ 16
  pub z_fits : p.z < 2 ^ 8

pub get_offset_x : Position → Position → ℤ
get_offset_x p1 p2 = sub_ℕ p1.x p2.x

pub get_offset_y : Position → Position → ℤ
get_offset_y p1 p2 = sub_ℕ p1.y p2.y

pub get_offset_z : Position → Position → ℤ
get_offset_z p1 p2 = sub_ℕ p1.z p2.z

pub get_distance_x : Position → Position → ℕ
unfolding get_offset_x
get_distance_x p1 p2 = abs (get_offset_x p1 p2)

pub get_distance_y : Position → Position → ℕ
unfolding get_offset_y
get_distance_y p1 p2 = abs (get_offset_y p1 p2)

pub get_distance_z : Position → Position → ℕ
unfolding get_offset_z
get_distance_z p1 p2 = abs (get_offset_z p1 p2)

-- `areInRange<deltax, deltay, deltaz>`.
unfoldable pub are_in_range : ℕ → ℕ → ℕ → Position → Position → Bool
unfolding get_distance_x get_distance_y get_distance_z
are_in_range deltax deltay deltaz p1 p2 =
    leb (get_distance_x p1 p2) deltax
    && leb (get_distance_y p1 p2) deltay
    && leb (get_distance_z p1 p2) deltaz

-- `operator<`: z first, then y, then x.
unfoldable pub lt : Position → Position → Bool
lt a b =
    if ltb a.z b.z
    then true
    else if ltb b.z a.z
    then false
    else if ltb a.y b.y
    then true
    else if ltb b.y a.y
    then false
    else if ltb a.x b.x
    then true
    else if ltb b.x a.x
    then false
    else false

-- `operator>`.
unfoldable pub gt : Position → Position → Bool
unfolding lt
gt a b = not (lt a b)

-- `operator==`.
unfoldable pub eq : Position → Position → Bool
eq a b = (b.x == a.x) && (b.y == a.y) && (b.z == a.z)

-- `operator+`.
unfoldable pub add : Position → Position → Position
add p d = record { x = (p.x + d.x) % 2 ^ 16; y = (p.y + d.y) % 2 ^ 16; z = (p.z + d.z) % 2 ^ 8 }

-- `operator-`.
unfoldable pub sub : Position → Position → Position
sub p d = record {
  x = (p.x + 2 ^ 16 - d.x) % 2 ^ 16;
  y = (p.y + 2 ^ 16 - d.y) % 2 ^ 16;
  z = (p.z + 2 ^ 8 - d.z) % 2 ^ 8;
}

-- A coordinate's `++` and `--`.
pub inc16 : ℕ → ℕ
inc16 n = (n + 1) % 2 ^ 16

pub dec16 : ℕ → ℕ
dec16 n = (n + 2 ^ 16 - 1) % 2 ^ 16

-- `getNextPosition`.
unfoldable pub get_next_position : Direction → Position → Position
unfolding inc16 dec16
get_next_position north p = record p { y = dec16 p.y }
get_next_position south p = record p { y = inc16 p.y }
get_next_position west p = record p { x = dec16 p.x }
get_next_position east p = record p { x = inc16 p.x }
get_next_position southwest p = record p { x = dec16 p.x; y = inc16 p.y }
get_next_position northwest p = record p { x = dec16 p.x; y = dec16 p.y }
get_next_position northeast p = record p { x = inc16 p.x; y = dec16 p.y }
get_next_position southeast p = record p { x = inc16 p.x; y = inc16 p.y }
get_next_position direction_none p = p

-- The last `if` of `getDirectionTo`, on the sign of the y offset and the two distances.
pub choose_direction : Bool → Bool → ℕ → ℕ → Direction
choose_direction east_side y_negative dx dy =
    let dir = if east_side then east else west in
    if y_negative
    then (if ltb dx dy
        then south
        else if dy == dx
        then (if east_side then southeast else southwest)
        else dir)
    else (if ltb dx dy
        then north
        else if dy == dx
        then (if east_side then northeast else northwest)
        else dir)

-- `getDirectionTo`.
unfoldable pub get_direction_to : Position → Position → Direction
unfolding choose_direction get_offset_x get_offset_y
get_direction_to from to =
    let x_offset = get_offset_x from to in
    let y_offset = get_offset_y from to in
    choose_direction (ltb_ℤ x_offset (pos 0)) (ltb_ℤ y_offset (pos 0)) (abs x_offset) (abs y_offset)
