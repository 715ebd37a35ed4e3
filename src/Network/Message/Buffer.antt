-- ===== src/Network/Message/Buffer.antt =====
-- The buffer after a write: what was written reads back, and the size stays.
use native.Mathlib.Nat.{pow-suc}
use otx_teste.Common.{
  ℕ, zero, suc, ◌+◌, ◌/◌, ◌^◌, ◌≤◌, ◌<◌, ◌≡◌, refl, ap, sym, ◌∙◌, List, ◌++◌, arith, length, take,
  drop, take-append, drop-append, length-append, length-take, length-drop,
}
use otx_teste.Network.Message.{overwrite, le_bytes, le_value}

module _ (at : ℕ) (bs buffer : List ℕ) (fits : at + length bs ≤ length buffer) where
  pub length-overwrite : length (overwrite at bs buffer) ≡ length buffer
  unfolding overwrite
  length-overwrite = omega (
    arith,
    length-append (take at buffer) (bs ++ drop (at + length bs) buffer),
    length-append bs (drop (at + length bs) buffer),
    length-take at buffer,
    length-drop (at + length bs) buffer,
  )

  pub drop-overwrite : drop at (overwrite at bs buffer) ≡ bs ++ drop (at + length bs) buffer
  unfolding overwrite
  drop-overwrite =
      let n : length (take at buffer) ≡ at = omega (arith, length-take at buffer) in
      ap (λ k. drop k (overwrite at bs buffer)) (sym n) ∙ drop-append (take at buffer) _

  pub take-drop-overwrite : take (length bs) (drop at (overwrite at bs buffer)) ≡ bs
  take-drop-overwrite = rw drop-overwrite (take-append bs _)

pub length-le_bytes : (n v : ℕ) → length (le_bytes n v) ≡ n
unfolding le_bytes
length-le_bytes zero v = refl
length-le_bytes (suc n) v = omega (arith, length-le_bytes n (v / 256))

pub le_value-le_bytes : (n v : ℕ) → v < 256 ^ n → le_value (le_bytes n v) ≡ v
unfolding le_bytes le_value
le_value-le_bytes zero v h = omega arith
le_value-le_bytes (suc n) v h =
    omega (arith, pow-suc 256 n, le_value-le_bytes n (v / 256) (omega (arith, pow-suc 256 n)))
