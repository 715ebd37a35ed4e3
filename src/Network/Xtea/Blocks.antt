-- ===== src/Network/Xtea/Blocks.antt =====
-- Decryption undoes encryption on whole buffers.
use otx_teste.Common.{ℕ, ◌/◌, ◌%◌, ◌^◌, ◌<◌, ◌≡◌, refl, ap, ◌∙◌, List, [], ◌∷◌, ◌++◌, arith, length}
use otx_teste.Network.Bytes.{AreBytes, bytes32, word32}
use otx_teste.Network.Xtea.{
  Key, Block, encrypt_round, decrypt_round, repeat, encrypt_blocks, decrypt_blocks,
}
use otx_teste.Network.Xtea.Inverse.{
  AreWords, repeat-repeat, repeat_inv, encrypt_round-AreWords, decrypt_round-encrypt_round,
  sum-repeat, final_sum,
}

abbrev load_word : ℕ → ℕ
load_word w = word32 (w % 256) (w / 256 % 256) (w / 65536 % 256) (w / 16777216 % 256)

load_word_lem : (w : ℕ) → w < 2 ^ 32 → load_word w ≡ w
load_word_lem w h = omega arith

bytes32-word32 :
    (a b c d : ℕ)
    → a < 256
    → b < 256
    → c < 256
    → d < 256
    → bytes32 (word32 a b c d) ≡ a ∷ b ∷ c ∷ d ∷ []
bytes32-word32 a b c d ha hb hc hd = ground arith

word32-lt : (a b c d : ℕ) → a < 256 → b < 256 → c < 256 → d < 256 → word32 a b c d < 2 ^ 32
word32-lt a b c d ha hb hc hd = omega arith

-- What `XTEA_decrypt` loads of a block that `XTEA_encrypt` stored.
reload :
    (e : Block)
    → AreWords e
    → e.sum ≡ 0xC6EF3720
    → ◌≡◌ {A = Block} (record { v0 = load_word e.v0; v1 = load_word e.v1; sum = 0xC6EF3720 }) e
reload e w h = rw (load_word_lem e.v0 w.v0_fits, load_word_lem e.v1 w.v1_fits, ← h)

decrypted_block :
    (k : Key) (b : Block)
    → AreWords b
    → b.sum ≡ 0
    → let e = repeat 32 (encrypt_round k) b in
      repeat 32
        (decrypt_round k)
        (record { v0 = load_word e.v0; v1 = load_word e.v1; sum = 0xC6EF3720 })
      ≡ b
decrypted_block k b w z =
    ap (repeat 32 (decrypt_round k)) (
      reload (repeat 32 (encrypt_round k) b)
        (repeat_inv AreWords (encrypt_round k) (decrypt_round k) (λ s _. encrypt_round-AreWords k s)
          32 b w)
        (sum-repeat 32 k b ∙ (rw z final_sum)))
    ∙ repeat-repeat AreWords (encrypt_round k) (decrypt_round k) (λ s _. encrypt_round-AreWords k s)
        (decrypt_round-encrypt_round k) 32 b w

module _ (k : Key) where
  -- `XTEA_decrypt`'s loop gives back every buffer of bytes that `XTEA_encrypt`'s loop has
  -- encrypted under the same key.
  pub decrypt_blocks-encrypt_blocks :
      (bs : List ℕ) → AreBytes bs → decrypt_blocks k (encrypt_blocks k bs) ≡ bs
  unfolding encrypt_blocks decrypt_blocks
  decrypt_blocks-encrypt_blocks (a ∷ b ∷ c ∷ d ∷ e ∷ f ∷ g ∷ h ∷ rest)
        (pa, (pb, (pc, (pd, (pe, (pf, (pg, (ph, ps)))))))) =
      let block : Block = record { v0 = word32 a b c d; v1 = word32 e f g h; sum = 0 } in
      let words : AreWords block = record {
        v0_fits = word32-lt a b c d pa pb pc pd;
        v1_fits = word32-lt e f g h pe pf pg ph;
        sum_fits = omega arith;
      } in
      rw (decrypted_block k block words refl, decrypt_blocks-encrypt_blocks rest ps)
        (ap (λ p. p ++ (bytes32 (word32 e f g h) ++ rest)) (bytes32-word32 a b c d pa pb pc pd)
          ∙ ap (λ q. a ∷ b ∷ c ∷ d ∷ (q ++ rest)) (bytes32-word32 e f g h pe pf pg ph))
  decrypt_blocks-encrypt_blocks short p = refl

  pub length-encrypt_blocks : (bs : List ℕ) → length (encrypt_blocks k bs) ≡ length bs
  unfolding encrypt_blocks
  length-encrypt_blocks (a ∷ b ∷ c ∷ d ∷ e ∷ f ∷ g ∷ h ∷ rest) =
      omega (arith, length-encrypt_blocks rest)
  length-encrypt_blocks short = refl
