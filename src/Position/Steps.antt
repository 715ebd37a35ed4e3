-- ===== src/Position/Steps.antt =====
-- `getNextPosition` and `getDirectionTo` of engine/src/tools.cpp.
use otx_teste.Common.{◌≡◌, ◌≢◌, ◌<◌, ◌+◌, ◌^◌, arith}
use otx_teste.Position.{
  Position, Fits, Direction, north, east, south, west, southwest, southeast, northwest, northeast,
  direction_none, get_next_position, get_direction_to,
}

pub opposite : Direction → Direction
opposite north = south
opposite south = north
opposite east = west
opposite west = east
opposite southwest = northeast
opposite northeast = southwest
opposite southeast = northwest
opposite northwest = southeast
opposite direction_none = direction_none

-- A step and the step in the opposite direction lead back, at the edges of the map too.
pub get_next_position-opposite :
    (d : Direction) (p : Position)
    → Fits p
    → get_next_position (opposite d) (get_next_position d p) ≡ p
unfolding get_next_position opposite
get_next_position-opposite d p f = ground arith

-- No coordinate is at the edge of its range.
pub record IsInner (p : Position) : Type 0 where
  pub x_low : 0 < p.x
  pub x_high : p.x + 1 < 2 ^ 16
  pub y_low : 0 < p.y
  pub y_high : p.y + 1 < 2 ^ 16

-- Away from the edges, the direction from a position to its neighbour in direction `d` is `d`,
-- for each of the eight directions.
pub get_direction_to-get_next_position :
    (d : Direction) (p : Position)
    → IsInner p
    → d ≢ direction_none
    → get_direction_to p (get_next_position d p) ≡ d
unfolding get_next_position get_direction_to
get_direction_to-get_next_position d p i h = ground arith
