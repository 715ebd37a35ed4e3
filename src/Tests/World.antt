-- ===== src/Tests/World.antt =====
-- Runs of the positions.
use otx_teste.Common.{◌≡◌, arith}
use otx_teste.Position.{Position, Fits, southeast, get_next_position, get_direction_to}
use otx_teste.Position.Steps.{get_direction_to-get_next_position}

abbrev temple : Position
temple = record { x = 1000; y = 1000; z = 7 }

abbrev corner : Position
corner = record { x = 0; y = 0; z = 7 }

corner-Fits : Fits corner
corner-Fits = record { x_fits = omega arith; y_fits = omega arith; z_fits = omega arith }

temple-Fits : Fits temple
temple-Fits = record { x_fits = omega arith; y_fits = omega arith; z_fits = omega arith }

get_direction_to-get_next_position_example :
    get_direction_to temple (get_next_position southeast temple) ≡ southeast
get_direction_to-get_next_position_example =
    get_direction_to-get_next_position southeast temple
      (record {
        x_low = omega arith;
        x_high = omega arith;
        y_low = omega arith;
        y_high = omega arith;
      })
      (λ e. cc)
