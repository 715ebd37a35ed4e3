-- ===== src/Network/Message.antt =====
-- engine/src/networkmessage.h and networkmessage.cpp: a message's buffer, its position and length.
-- The buffer is a list of bytes of the source's fixed size, and the two counters are `uint16_t`.
pub mod Buffer
pub mod Written
pub mod Roundtrip
use otx_teste.Common.{
  ℕ, zero, suc, ◌+◌, ◌-◌, ◌*◌, ◌/◌, ◌%◌, ◌^◌, Bool, true, false, ◌||◌, ◌&&◌, not, List, [], ◌∷◌,
  ◌++◌, ltb, leb, ◌==◌, if◌then◌else◌, length, take, drop, replicate,
}
use otx_teste.Position.{Position}

abbrev pub networkmessage_maxsize : ℕ
networkmessage_maxsize = 65500

abbrev pub initial_buffer_position : ℕ
initial_buffer_position = 8

-- MAXSIZE - HEADER_LENGTH - CHECKSUM_LENGTH - XTEA_MULTIPLE.
abbrev pub max_body_length : ℕ
max_body_length = networkmessage_maxsize - 2 - 4 - 8

pub record Message : Type 0 where
  pub length_ : ℕ
  pub position : ℕ
  pub overrun : Bool
  pub buffer : List ℕ

-- `memcpy` of bytes to `buffer + at`, for bytes that fit.
unfoldable pub overwrite : ℕ → List ℕ → List ℕ → List ℕ
overwrite at bs buffer = take at buffer ++ (bs ++ drop (at + length bs) buffer)

-- The bytes of a value of `n` bytes, and their value.
unfoldable pub le_bytes : ℕ → ℕ → List ℕ
le_bytes zero v = []
le_bytes (suc n) v = v % 256 ∷ le_bytes n (v / 256)

unfoldable pub le_value : List ℕ → ℕ
le_value [] = 0
le_value (b ∷ bs) = b + 256 * le_value bs

-- `reset`.
unfoldable pub reset : Message → Message
reset m = record m { length_ = 0; position = initial_buffer_position; overrun = false }

unfoldable pub can_add : ℕ → Message → Bool
can_add size m = ltb (size + m.position) max_body_length

-- `canRead` answers, and records an overrun.
unfoldable pub can_read : ℕ → Message → Bool
can_read size m =
    not (ltb (m.length_ + 8) (m.position + size) || leb (networkmessage_maxsize - m.position) size)

abbrev pub overran : Message → Message
overran m = record m { overrun = true }

-- `info.position += n; info.length += n` after a write.
abbrev pub advance : ℕ → Message → Message
advance n m = record m { position = (m.position + n) % 2 ^ 16; length_ = (m.length_ + n) % 2 ^ 16 }

-- The write of bytes at the position.
unfoldable pub put : List ℕ → Message → Message
put bs m = advance (length bs) (record m { buffer = overwrite m.position bs m.buffer })

-- `add<T>` of a type of `n` bytes, and `addByte`, which is the same at 1.
unfoldable pub add : ℕ → ℕ → Message → Message
unfolding can_add
add n value m = if can_add n m then put (le_bytes n value) m else m

-- `get<T>` of a type of `n` bytes, and `getByte`.
unfoldable pub get : ℕ → Message → ℕ × Message
unfolding can_read
get n m =
    if can_read n m
    then (
      le_value (take n (drop m.position m.buffer)),
      record m { position = (m.position + n) % 2 ^ 16 },
    )
    else (0, overran m)

-- `getPreviousByte`.
unfoldable pub get_previous_byte : Message → ℕ × Message
get_previous_byte m =
    let at = (m.position + 2 ^ 16 - 1) % 2 ^ 16 in
    (le_value (take 1 (drop at m.buffer)), record m { position = at })

-- `addBytes`.
unfoldable pub add_bytes : List ℕ → Message → Message
unfolding can_add
add_bytes bs m = if not (can_add (length bs) m) || ltb 8192 (length bs) then m else put bs m

-- `addPaddingBytes`: the position stays.
unfoldable pub add_padding_bytes : ℕ → Message → Message
unfolding can_add
add_padding_bytes n m =
    if can_add n m
    then record m {
      buffer = overwrite m.position (replicate n 0x33) m.buffer;
      length_ = (m.length_ + n) % 2 ^ 16;
    }
    else m

-- `addString`.
unfoldable pub add_string : List ℕ → Message → Message
unfolding can_add
add_string value m =
    if not (can_add (length value + 2) m) || ltb 8192 (length value)
    then m
    else put value (add 2 (length value) m)

-- The part of `getString` that knows the length.
unfoldable pub get_chars : ℕ → Message → List ℕ × Message
unfolding can_read
get_chars string_len m =
    if can_read string_len m
    then (
      take string_len (drop m.position m.buffer),
      record m { position = (m.position + string_len) % 2 ^ 16 },
    )
    else ([], overran m)

-- `getString`.
unfoldable pub get_string : ℕ → Message → List ℕ × Message
get_string zero m = let (string_len, m') = get 2 m in get_chars string_len m'
get_string (suc n) m = get_chars (suc n) m

-- `addPosition` and `getPosition`.
unfoldable pub add_position : Position → Message → Message
add_position p m = add 1 p.z (add 2 p.y (add 2 p.x m))

unfoldable pub get_position : Message → Position × Message
get_position m =
    let (x, m1) = get 2 m in
    let (y, m2) = get 2 m1 in let (z, m3) = get 1 m2 in (record { x = x; y = y; z = z }, m3)

-- `skipBytes` of a count from 0 to 2 ^ 15 - 1.
unfoldable pub skip_bytes : ℕ → Message → Message
skip_bytes count m = record m { position = (m.position + count) % 2 ^ 16 }

-- `getLengthHeader`.
unfoldable pub get_length_header : Message → ℕ
get_length_header m = le_value (take 2 m.buffer)

-- `getBodyBuffer`.
unfoldable pub get_body_buffer : Message → Message
get_body_buffer m = record m { position = 2 }
