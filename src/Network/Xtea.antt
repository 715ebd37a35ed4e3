-- ===== src/Network/Xtea.antt =====
-- The cipher of engine/src/protocol.cpp: the loops of `XTEA_encrypt` and `XTEA_decrypt` over the
-- 8-byte blocks of a buffer. A `uint32_t` is a number below 2 ^ 32.
pub mod Inverse
pub mod Blocks
use otx_teste.Common.{
  ℕ, zero, suc, ◌+◌, ◌-◌, ◌*◌, ◌/◌, ◌%◌, ◌^◌, ◌==◌, if◌then◌else◌, bit_xor, List, [], ◌∷◌, ◌++◌,
}
use otx_teste.Network.Bytes.{bytes32, word32}

-- `uint32_t` `a + b` and `a - b`.
unfoldable pub add32 : ℕ → ℕ → ℕ
add32 a b = (a + b) % 2 ^ 32

unfoldable pub sub32 : ℕ → ℕ → ℕ
sub32 a b = (a + (2 ^ 32 - b % 2 ^ 32)) % 2 ^ 32

abbrev pub delta : ℕ
delta = 0x61C88647

pub record Key : Type 0 where
  pub key0 : ℕ
  pub key1 : ℕ
  pub key2 : ℕ
  pub key3 : ℕ

-- `k[i & 3]`.
unfoldable pub key_at : Key → ℕ → ℕ
key_at k i =
    if i % 4 == 0
    then k.key0
    else if i % 4 == 1
    then k.key1
    else if i % 4 == 2
    then k.key2
    else k.key3

-- `((v << 4 ^ v >> 5) + v) ^ (sum + k)`.
unfoldable pub mix : ℕ → ℕ → ℕ → ℕ
mix v sum k = bit_xor (add32 (bit_xor (v * 16 % 2 ^ 32) (v / 32)) v) (add32 sum k)

-- The variables of the inner loops.
pub record Block : Type 0 where
  pub v0 : ℕ
  pub v1 : ℕ
  pub sum : ℕ

-- One round of the inner loop of `XTEA_encrypt`.
unfoldable pub encrypt_round : Key → Block → Block
encrypt_round k b =
    let w0 = add32 b.v0 (mix b.v1 b.sum (key_at k b.sum)) in
    let sum' = sub32 b.sum delta in
    let w1 = add32 b.v1 (mix w0 sum' (key_at k (sum' / 2048))) in
    record { v0 = w0; v1 = w1; sum = sum' }

-- One round of the inner loop of `XTEA_decrypt`.
unfoldable pub decrypt_round : Key → Block → Block
decrypt_round k b =
    let w1 = sub32 b.v1 (mix b.v0 b.sum (key_at k (b.sum / 2048))) in
    let sum' = add32 b.sum delta in
    let w0 = sub32 b.v0 (mix w1 sum' (key_at k sum')) in record { v0 = w0; v1 = w1; sum = sum' }

-- `for (int32_t i = 32; --i >= 0;)` runs its body as often as it counts.
unfoldable pub repeat {ℓ} : {S : Type ℓ} → ℕ → (S → S) → S → S
repeat zero f s = s
repeat (suc n) f s = repeat n f (f s)

abbrev pub store_block : Block → List ℕ
store_block b = bytes32 b.v0 ++ bytes32 b.v1

-- The loop of `XTEA_encrypt` over the blocks of a buffer. Its callers pad to a multiple of 8 bytes;
-- what the loop would do with fewer than 8 bytes at the end, beyond the buffer, is not modelled: the
-- last clause only ends the recursion there.
unfoldable pub encrypt_blocks : Key → List ℕ → List ℕ
encrypt_blocks k (a ∷ b ∷ c ∷ d ∷ e ∷ f ∷ g ∷ h ∷ rest) =
    store_block
      (repeat 32 (encrypt_round k) (record { v0 = word32 a b c d; v1 = word32 e f g h; sum = 0 }))
    ++ encrypt_blocks k rest
encrypt_blocks k short = short

-- The loop of `XTEA_decrypt`.
unfoldable pub decrypt_blocks : Key → List ℕ → List ℕ
decrypt_blocks k (a ∷ b ∷ c ∷ d ∷ e ∷ f ∷ g ∷ h ∷ rest) =
    store_block (
      repeat 32 (decrypt_round k)
        (record { v0 = word32 a b c d; v1 = word32 e f g h; sum = 0xC6EF3720 }))
    ++ decrypt_blocks k rest
decrypt_blocks k short = short
