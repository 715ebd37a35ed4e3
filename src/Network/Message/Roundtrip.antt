-- ===== src/Network/Message/Roundtrip.antt =====
-- What the writers of engine/src/networkmessage.h put into a message, its readers get back.
use mathlib.Core.List.{append-nil, append_assoc}
use otx_teste.Common.{
  ℕ, ◌+◌, ◌^◌, ◌≤◌, ◌<◌, ◌≡◌, refl, ◌∙◌, List, [], ◌++◌, arith, length, length-append,
}
use otx_teste.Position.{Position, Fits}
use otx_teste.Network.Message.{
  Message, put, add, get, add_string, add_position, get_string, get_position, can_add, le_bytes,
  max_body_length,
}
use otx_teste.Network.Message.Buffer.{length-le_bytes, le_value-le_bytes}
use otx_teste.Network.Message.Written.{
  IsSound, Written, HasRoom, Written-nil, put-Written, rewind, get-Written, get_chars-Written,
}

add_room :
    (n v : ℕ) (m : Message) → n + m.position < max_body_length → add n v m ≡ put (le_bytes n v) m
unfolding add can_add
add_room n v m room = ground arith

room_for : (n v : ℕ) (m : Message) → n + m.position < max_body_length → HasRoom (le_bytes n v) m
room_for n v m room = omega (arith, length-le_bytes n v)

-- A message that was at `p` holds one number more.
add-Written :
    (p n v : ℕ) (xs : List ℕ) (m : Message)
    → Written p xs m
    → n + m.position < max_body_length
    → Written p (xs ++ le_bytes n v) (add n v m)
add-Written p n v xs m w room =
    rw (add_room n v m room) (put-Written p xs (le_bytes n v) m w (room_for n v m room))

-- A number read between what was written before it and after it.
get_number :
    (p q n v : ℕ) (xs zs : List ℕ) (m : Message)
    → Written p (xs ++ (le_bytes n v ++ zs)) m
    → q ≡ p + length xs
    → v < 256 ^ n
    → get n (rewind q m) ≡ (v, rewind (q + n) m)
get_number p q n v xs zs m w at fits =
    let next : p + length (xs ++ le_bytes n v) ≡ q + n =
      omega (arith, length-append xs (le_bytes n v), length-le_bytes n v) in
    rw (length-le_bytes n v, le_value-le_bytes n v fits, ← at, next) at
      (get-Written p xs (le_bytes n v) zs m w)

-- At the end of what is written, the reader has the writer's position.
at_end : (p q : ℕ) (bs : List ℕ) (m : Message) → Written p bs m → q ≡ p + length bs → rewind q m ≡ m
at_end p q bs m w e = rw (e, w.span)

-- A number of `n` bytes that `add` writes into a message with room for it is what `get` reads
-- there, and the reader ends where the writer does.
pub get-add :
    (n v : ℕ) (m : Message)
    → IsSound m
    → n + m.position < max_body_length
    → v < 256 ^ n
    → get n (rewind m.position (add n v m)) ≡ (v, add n v m)
get-add n v m s room fits =
    let w = add-Written m.position n v [] m (Written-nil m s) room in
    get_number m.position m.position n v [] [] (add n v m) (rw append-nil w) (omega arith) fits
    ∙ (rw (at_end m.position (m.position + n) _ (add n v m) w (omega (arith, length-le_bytes n v))))

string_room :
    (value : List ℕ) (m : Message)
    → length value + 2 + m.position < max_body_length
    → length value ≤ 8192
    → add_string value m ≡ put value (add 2 (length value) m)
unfolding add_string can_add
string_room value m room short = ground arith

-- A text of at most 8192 characters that `addString` writes into a message with room for it and
-- its length is what `getString` reads there, and the reader ends where the writer does.
pub get_string-add_string :
    (value : List ℕ) (m : Message)
    → IsSound m
    → length value + 2 + m.position < max_body_length
    → length value ≤ 8192
    → get_string 0 (rewind m.position (add_string value m)) ≡ (value, add_string value m)
unfolding get_string
get_string-add_string value m s room short =
    let n = length value in
    let w = add-Written m.position 2 n [] m (Written-nil m s) (omega arith) in
    let space : HasRoom value (add 2 n m) = omega (arith, w.span, length-le_bytes 2 n) in
    let written = put-Written m.position (le_bytes 2 n) value (add 2 n m) w space in
    let done : add_string value m ≡ put value (add 2 n m) = string_room value m room short in
    let count =
      get_number m.position m.position 2 n [] value (put value (add 2 n m)) written (omega arith)
        (omega arith) in
    let chars =
      get_chars-Written m.position (le_bytes 2 n) value [] (put value (add 2 n m))
        (rw append-nil written) in
    rw (done, count)
      ((rw (length-le_bytes 2 n) at chars)
        ∙ (rw (at_end m.position _ (le_bytes 2 n ++ value) (put value (add 2 n m)) written refl)))

-- A position that fits its widths and that `addPosition` writes into a message with room for its
-- five bytes is what `getPosition` reads there, and the reader ends where the writer does.
pub get_position-add_position :
    (p : Position) (m : Message)
    → Fits p
    → IsSound m
    → 5 + m.position < max_body_length
    → get_position (rewind m.position (add_position p m)) ≡ (p, add_position p m)
unfolding get_position add_position
get_position-add_position p m f s room =
    let q = m.position in
    let m1 = add 2 p.x m in
    let m2 = add 2 p.y m1 in
    let m3 = add 1 p.z m2 in
    let x = le_bytes 2 p.x in
    let y = le_bytes 2 p.y in
    let z = le_bytes 1 p.z in
    let w1 = add-Written q 2 p.x [] m (Written-nil m s) (omega arith) in
    let n1 : q + 2 ≡ m1.position = omega (arith, w1.span, length-le_bytes 2 p.x) in
    let w2 = add-Written q 2 p.y x m1 w1 (omega arith) in
    let n2 : q + 2 + 2 ≡ m2.position =
      omega (arith, w2.span, length-append x y, length-le_bytes 2 p.x, length-le_bytes 2 p.y) in
    let w3 = add-Written q 1 p.z (x ++ y) m2 w2 (omega arith) in
    let x_read =
      get_number q q 2 p.x [] (y ++ z) m3 (rw append_assoc at w3) (omega arith) (omega arith) in
    let y_read =
      get_number q (q + 2) 2 p.y x z m3 (rw append_assoc at w3)
        (omega (arith, length-le_bytes 2 p.x)) (omega arith) in
    let z_read =
      get_number q (q + 2 + 2) 1 p.z (x ++ y) [] m3 (rw append-nil w3)
        (omega (arith, length-append x y, length-le_bytes 2 p.x, length-le_bytes 2 p.y))
        (omega arith) in
    rw (x_read, y_read, z_read)
      (rw (
        at_end q (q + 2 + 2 + 1) _ m3 w3 (
          omega (
            arith,
            length-append (x ++ y) z,
            length-append x y,
            length-le_bytes 2 p.x,
            length-le_bytes 2 p.y,
            length-le_bytes 1 p.z,
          ))))
