-- ===== src/Network/Xtea/Inverse.antt =====
-- Decryption undoes encryption.
use otx_teste.Common.{ℕ, zero, suc, ◌^◌, ◌<◌, ◌≡◌, refl, ap, ◌∙◌, arith}
use otx_teste.Network.Xtea.{Key, Block, add32, sub32, delta, encrypt_round, decrypt_round, repeat}

sub32-add32 : (a b : ℕ) → a < 2 ^ 32 → sub32 (add32 a b) b ≡ a
unfolding add32 sub32
sub32-add32 a b h = omega arith

add32-sub32 : (a b : ℕ) → a < 2 ^ 32 → add32 (sub32 a b) b ≡ a
unfolding add32 sub32
add32-sub32 a b h = omega arith

add32-lt : (a b : ℕ) → add32 a b < 2 ^ 32
unfolding add32
add32-lt a b = omega arith

sub32-lt : (a b : ℕ) → sub32 a b < 2 ^ 32
unfolding sub32
sub32-lt a b = omega arith

pub record AreWords (b : Block) : Type 0 where
  pub v0_fits : b.v0 < 2 ^ 32
  pub v1_fits : b.v1 < 2 ^ 32
  pub sum_fits : b.sum < 2 ^ 32

pub encrypt_round-AreWords : (k : Key) (b : Block) → AreWords (encrypt_round k b)
unfolding encrypt_round
encrypt_round-AreWords k b = omega (arith, add32-lt, sub32-lt)

pub decrypt_round-encrypt_round :
    (k : Key) (b : Block) → AreWords b → decrypt_round k (encrypt_round k b) ≡ b
unfolding encrypt_round decrypt_round
decrypt_round-encrypt_round k b w =
    rw (
      sub32-add32 b.v1 _ w.v1_fits,
      add32-sub32 b.sum delta w.sum_fits,
      sub32-add32 b.v0 _ w.v0_fits,
    )

-- A function and one that undoes it under an invariant, each repeated.
module _ {S : Type 0} (P : S → Type 0) (f g : S → S) where
  repeat_out : (n : ℕ) (s : S) → repeat n g (g s) ≡ g (repeat n g s)
  unfolding repeat
  repeat_out zero s = refl
  repeat_out (suc n) s = repeat_out n (g s)

  pub repeat-repeat :
      ((s : S) → P s → P (f s))
      → ((s : S) → P s → g (f s) ≡ s)
      → (n : ℕ) (s : S) → P s
      → repeat n g (repeat n f s) ≡ s
  unfolding repeat
  repeat-repeat keep undo zero s p = refl
  repeat-repeat keep undo (suc n) s p =
      repeat_out n (repeat n f (f s)) ∙ ap g (repeat-repeat keep undo n (f s) (keep s p)) ∙ undo s p

  pub repeat_inv : ((s : S) → P s → P (f s)) → (n : ℕ) (s : S) → P s → P (repeat n f s)
  unfolding repeat
  repeat_inv keep zero s p = p
  repeat_inv keep (suc n) s p = repeat_inv keep n (f s) (keep s p)

-- The rounds take `sum` through values that do not depend on the block.
pub sum-repeat :
    (n : ℕ) (k : Key) (b : Block)
    → (repeat n (encrypt_round k) b).sum ≡ repeat n (λ s. sub32 s delta) b.sum
unfolding repeat encrypt_round
sum-repeat zero k b = refl
sum-repeat (suc n) k b = sum-repeat n k (encrypt_round k b)

-- The constant from which `XTEA_decrypt` starts is the sum where `XTEA_encrypt` ends.
pub final_sum : repeat 32 (λ s. sub32 s delta) 0 ≡ 0xC6EF3720
unfolding repeat sub32
final_sum = refl
