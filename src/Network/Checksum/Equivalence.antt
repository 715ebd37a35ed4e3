-- ===== src/Network/Checksum/Equivalence.antt =====
-- `adlerChecksum` of engine/src/tools.cpp against the definition of the checksum, which reduces
-- after every byte.
use otx_teste.Common.{
  ℕ, zero, suc, ◌+◌, ◌*◌, ◌%◌, ◌^◌, ◌≤◌, ◌<◌, ◌≡◌, refl, sym, ap, ◌∙◌, List, [], ◌∷◌, ◌++◌, length,
  take, drop, arith, false, take-append-drop, length-drop, length-take, ltb,
}
use otx_teste.Network.Bytes.{AreBytes, AreBytes-take, AreBytes-drop}
use otx_teste.Network.Checksum.{adler, add_chunk, add_chunks, pack, adler_checksum}

-- Adler-32: both sums modulo 65521 after each byte.
unfoldable pub adler32 : ℕ → ℕ → List ℕ → ℕ × ℕ
adler32 a b [] = (a, b)
adler32 a b (d ∷ ds) = let a' = (a + d) % adler in adler32 a' ((b + a') % adler) ds

-- The sums without any reduction.
sums : ℕ → ℕ → List ℕ → ℕ × ℕ
sums a b [] = (a, b)
sums a b (d ∷ ds) = sums (a + d) (b + (a + d)) ds

-- The largest second sum that so many bytes can lead to.
unfoldable reach : ℕ → ℕ → ℕ → ℕ
reach zero a b = b
reach (suc k) a b = reach k (a + 255) (b + (a + 255))

reach-le : (k a b c d : ℕ) → a ≤ c → b ≤ d → reach k a b ≤ reach k c d
unfolding reach
reach-le zero a b c d h k = k
reach-le (suc n) a b c d h k =
    reach-le n (a + 255) (b + (a + 255)) (c + 255) (d + (c + 255)) (omega arith) (omega arith)

le-reach : (k a b : ℕ) → b ≤ reach k a b
unfolding reach
le-reach zero a b = omega arith
le-reach (suc k) a b = omega (arith, le-reach k (a + 255) (b + (a + 255)))

reach-more : (k n a b : ℕ) → k ≤ n → reach k a b ≤ reach n a b
unfolding reach
reach-more zero n a b h = le-reach n a b
reach-more (suc k) zero a b h = absurd (omega arith)
reach-more (suc k) (suc n) a b h = reach-more k n (a + 255) (b + (a + 255)) (omega arith)

reach_full : reach 5552 65520 65520 < 2 ^ 32
unfolding reach
reach_full = omega arith

-- As long as the largest sums fit, nothing wraps in a chunk.
add_chunk-sums :
    (a b : ℕ) (ds : List ℕ)
    → AreBytes ds
    → a ≤ b + a
    → reach (length ds) a b < 2 ^ 32
    → a + 255 * length ds < 2 ^ 32
    → add_chunk a b ds ≡ sums a b ds
unfolding add_chunk sums reach
add_chunk-sums a b [] p o h k = refl
add_chunk-sums a b (d ∷ ds) p o h k =
    let step : reach (length ds) (a + d) (b + (a + d))
        ≤ reach (length ds) (a + 255) (b + (a + 255)) =
      reach-le (length ds) (a + d) (b + (a + d)) (a + 255) (b + (a + 255)) (omega (arith, p.0))
        (omega (arith, p.0)) in
    let wide : (a + d) % 2 ^ 32 ≡ a + d = omega (arith, p.0) in
    let wide2 : (b + (a + d)) % 2 ^ 32 ≡ b + (a + d) =
      omega (arith, step, le-reach (length ds) (a + d) (b + (a + d))) in
    rw (wide, wide2)
      (add_chunk-sums (a + d) (b + (a + d)) ds p.1 (omega arith) (omega (arith, step))
        (omega (arith, p.0)))

-- Reducing once at the end or after every byte gives the same remainders.
adler32-sums :
    (a b : ℕ) (ds : List ℕ)
    → adler32 (a % adler) (b % adler) ds ≡ ((sums a b ds).0 % adler, (sums a b ds).1 % adler)
unfolding adler32 sums
adler32-sums a b [] = refl
adler32-sums a b (d ∷ ds) =
    let first : (a % 65521 + d) % 65521 ≡ (a + d) % 65521 = omega arith in
    let second : (b % 65521 + (a + d) % 65521) % 65521 ≡ (b + (a + d)) % 65521 = omega arith in
    rw (first, second) (adler32-sums (a + d) (b + (a + d)) ds)

adler32-append :
    (a b : ℕ) (xs ys : List ℕ)
    → adler32 a b (xs ++ ys) ≡ adler32 (adler32 a b xs).0 (adler32 a b xs).1 ys
unfolding adler32
adler32-append a b [] ys = refl
adler32-append a b (d ∷ ds) ys =
    adler32-append ((a + d) % adler) ((b + (a + d) % adler) % adler) ds ys

-- A chunk of at most 5552 bytes, from sums that are reduced.
chunk_lem :
    (a b : ℕ) (ds : List ℕ)
    → AreBytes ds
    → length ds ≤ 5552
    → a < 65521
    → b < 65521
    → ((add_chunk a b ds).0 % adler, (add_chunk a b ds).1 % adler) ≡ adler32 a b ds
chunk_lem a b ds p short ha hb =
    let bound = reach-le (length ds) a b 65520 65520 (omega arith) (omega arith) in
    let most = reach-more (length ds) 5552 65520 65520 short in
    let exact =
      add_chunk-sums a b ds p (omega arith) (omega (arith, bound, most, reach_full))
        (omega arith) in
    let small_a : a % 65521 ≡ a = omega arith in
    let small_b : b % 65521 ≡ b = omega arith in
    rw exact (sym (rw (small_a, small_b) at (adler32-sums a b ds)))

adler32-small :
    (a b : ℕ) (ds : List ℕ)
    → a < 65521
    → b < 65521
    → ((adler32 a b ds).0 < 65521) × ((adler32 a b ds).1 < 65521)
unfolding adler32
adler32-small a b [] ha hb = (ha, hb)
adler32-small a b (d ∷ ds) ha hb =
    adler32-small ((a + d) % adler) ((b + (a + d) % adler) % adler) ds (omega arith) (omega arith)

add_chunks-adler32 :
    (fuel a b : ℕ) (ds : List ℕ)
    → length ds ≤ fuel
    → AreBytes ds
    → a < 65521
    → b < 65521
    → add_chunks fuel a b ds ≡ adler32 a b ds
unfolding add_chunks adler32
add_chunks-adler32 fuel a b [] h p ha hb = refl
add_chunks-adler32 zero a b (d ∷ ds) h p ha hb = absurd (omega arith)
add_chunks-adler32 (suc fuel) a b (d ∷ ds) h p ha hb =
    let all = d ∷ ds in
    let now = take 5552 all in
    let later = drop 5552 all in
    let chunk =
      chunk_lem a b now (AreBytes-take 5552 all p) (omega (arith, length-take 5552 all)) ha hb in
    let small = adler32-small a b now ha hb in
    let fewer : length later ≤ fuel = omega (arith, length-drop 5552 all) in
    ap (λ (q : ℕ × ℕ). add_chunks fuel q.0 q.1 later) chunk
    ∙ (add_chunks-adler32 fuel (adler32 a b now).0 (adler32 a b now).1 later fewer
        (AreBytes-drop 5552 all p) small.0 small.1)
    ∙ sym (adler32-append a b now later)
    ∙ ap (adler32 a b) (take-append-drop 5552 all)

-- The checksum of a message of at most 65500 bytes is Adler-32, as defined by a reduction after
-- every byte: the sums that the code reduces once every 5552 bytes never exceed their 32 bits.
pub adler_checksum-adler32 :
    (ds : List ℕ) → AreBytes ds → length ds ≤ 65500 → adler_checksum ds ≡ pack (adler32 1 0 ds)
unfolding adler_checksum
adler_checksum-adler32 ds p short =
    let fits : ltb 65500 (length ds) ≡ false = ground arith in
    simp fits
      (ap pack (add_chunks-adler32 (length ds) 1 0 ds (omega arith) p (omega arith) (omega arith)))
