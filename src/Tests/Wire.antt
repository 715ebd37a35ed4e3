-- ===== src/Tests/Wire.antt =====
-- Runs of the messages and of the cipher.
use otx_teste.Common.{ℕ, ◌≡◌, refl, arith, List, [], ◌∷◌, false, replicate, length-replicate}
use otx_teste.Position.{Position, Fits}
use otx_teste.Network.Xtea.{Key, encrypt_blocks, decrypt_blocks}
use otx_teste.Network.Xtea.Blocks.{decrypt_blocks-encrypt_blocks}
use otx_teste.Network.Message.{Message, networkmessage_maxsize, add_string, get_string}
use otx_teste.Network.Message.Written.{IsSound, rewind}
use otx_teste.Network.Message.Roundtrip.{get_string-add_string}

abbrev key : Key
key = record { key0 = 0x00112233; key1 = 0x44556677; key2 = 0x8899AABB; key3 = 0xCCDDEEFF }

abbrev login : List ℕ
login = 6 ∷ 0 ∷ 20 ∷ 5 ∷ 0 ∷ 104 ∷ 101 ∷ 51 ∷ []

decrypt_blocks-encrypt_blocks_example : decrypt_blocks key (encrypt_blocks key login) ≡ login
decrypt_blocks-encrypt_blocks_example = decrypt_blocks-encrypt_blocks key login (
  omega arith,
  (
    omega arith,
    (omega arith, (omega arith, (omega arith, (omega arith, (omega arith, (omega arith, tt)))))),
  ),
)

-- A new message.
fresh : Message
fresh = record {
  length_ = 0;
  position = 8;
  overrun = false;
  buffer = replicate networkmessage_maxsize 0;
}

fresh-IsSound : IsSound fresh
unfolding fresh
fresh-IsSound = record {
  sized = length-replicate {A = ℕ} networkmessage_maxsize 0;
  at_end = refl;
  short = omega arith;
}

get_string-add_string_example :
    get_string 0 (rewind fresh.position (add_string (104 ∷ 105 ∷ []) fresh))
    ≡ (104 ∷ 105 ∷ [], add_string (104 ∷ 105 ∷ []) fresh)
unfolding fresh
get_string-add_string_example =
    get_string-add_string (104 ∷ 105 ∷ []) fresh fresh-IsSound (omega arith) (omega arith)

-- A place on the map.
abbrev depot : Position
depot = record { x = 32369; y = 32241; z = 7 }

depot-Fits : Fits depot
depot-Fits = record { x_fits = omega arith; y_fits = omega arith; z_fits = omega arith }
