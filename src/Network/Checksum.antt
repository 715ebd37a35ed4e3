-- ===== src/Network/Checksum.antt =====
-- `adlerChecksum` of engine/src/tools.cpp: the sums are `uint32_t` and are reduced once every 5552
-- bytes.
pub mod Equivalence
use otx_teste.Common.{
  ℕ, zero, suc, ◌+◌, ◌*◌, ◌%◌, ◌^◌, List, [], ◌∷◌, ltb, if◌then◌else◌, length, take, drop, bit_or,
}

abbrev pub adler : ℕ
adler = 65521

-- The inner loop, over `tmp` bytes: `a` and `b` after it.
unfoldable pub add_chunk : ℕ → ℕ → List ℕ → ℕ × ℕ
add_chunk a b [] = (a, b)
add_chunk a b (d ∷ ds) = let a' = (a + d) % 2 ^ 32 in add_chunk a' ((b + a') % 2 ^ 32) ds

-- The outer loop, on fuel: it takes 5552 bytes, or all that are left.
unfoldable pub add_chunks : ℕ → ℕ → ℕ → List ℕ → ℕ × ℕ
unfolding add_chunk
add_chunks fuel a b [] = (a, b)
add_chunks zero a b (d ∷ ds) = (a, b)
add_chunks (suc fuel) a b (d ∷ ds) =
    let sums = add_chunk a b (take 5552 (d ∷ ds)) in
    add_chunks fuel (sums.0 % adler) (sums.1 % adler) (drop 5552 (d ∷ ds))

-- `(b << 16) | a`.
abbrev pub pack : ℕ × ℕ → ℕ
pack (a, b) = bit_or (b * 65536 % 2 ^ 32) a

-- `adlerChecksum`. Each turn of the outer loop takes a byte at least.
unfoldable pub adler_checksum : List ℕ → ℕ
unfolding add_chunks
adler_checksum bytes =
    if ltb 65500 (length bytes) then 0 else pack (add_chunks (length bytes) 1 0 bytes)
