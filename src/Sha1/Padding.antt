-- ===== src/Sha1/Padding.antt =====
-- `transformToSHA1` of engine/src/tools.cpp against the standard's definition of the digest: the
-- message is padded as a whole, and its blocks are processed one after the other.
use otx_teste.Common.{
  ℕ, zero, suc, ◌+◌, ◌-◌, ◌*◌, ◌/◌, ◌%◌, ◌^◌, ◌≤◌, ◌≡◌, refl, sym, ap, ◌∙◌, ◌==◌, ltb, true, false,
  List, [], ◌∷◌, ◌++◌, length, take, drop, replicate, length-append, length-replicate, take-append,
  drop-append, arith, dec_lt, ℕ_discrete,
}
use Prim.Native.Nat.add
use mathlib.Core.List.{append_assoc, append-nil}
use otx_teste.Sha1.{
  Words, Sha, initial, process_block, absorb, absorb_all, pad_to, big_endian, finish, sha1,
}

-- The end of the padded message, whose length in bytes is `len`: the bit 1, zeros up to 8 bytes
-- before the end of a block, and the length in bits, in 64 bits.
unfoldable pub ending : ℕ → List ℕ
ending len =
    0x80
    ∷ (replicate ((119 - len % 64) % 64) 0
        ++ (big_endian (8 * len / 2 ^ 32) ++ big_endian (8 * len)))

-- The blocks of a padded message.
unfoldable pub digest : ℕ → List ℕ → Words → Words
digest zero bytes h = h
digest (suc n) bytes h = digest n (drop 64 bytes) (process_block (take 64 bytes) h)

-- The digest of a message by the standard.
unfoldable pub standard : List ℕ → Words
standard input = digest ((length input + 72) / 64) (input ++ ending (length input)) initial

digest_block :
    (n : ℕ) (bytes block rest : List ℕ) (h : Words)
    → bytes ≡ block ++ rest
    → length block ≡ 64
    → digest (suc n) bytes h ≡ digest n rest (process_block block h)
unfolding digest
digest_block n bytes block rest h split full =
    rw (split, ← full) (rw (take-append block rest, drop-append block rest) refl)

digest_last :
    (bytes block : List ℕ) (h : Words)
    → bytes ≡ block
    → length block ≡ 64
    → digest 1 bytes h ≡ process_block block h
unfolding digest
digest_last bytes block h same full =
    digest_block 0 bytes block [] h (same ∙ sym (append-nil block)) full

digest_two :
    (bytes block last : List ℕ) (h : Words)
    → bytes ≡ block ++ last
    → length block ≡ 64
    → length last ≡ 64
    → digest 2 bytes h ≡ process_block last (process_block block h)
digest_two bytes block last h split full full' =
    digest_block 1 bytes block last h split full
    ∙ digest_last last last (process_block block h) refl full'

big_endian_wrap : (x : ℕ) → big_endian (x % 2 ^ 32) ≡ big_endian x
unfolding big_endian
big_endian_wrap x =
    let p : x % 2 ^ 32 / 2 ^ 24 % 256 ≡ x / 2 ^ 24 % 256 = omega arith in
    let q : x % 2 ^ 32 / 2 ^ 16 % 256 ≡ x / 2 ^ 16 % 256 = omega arith in
    let r : x % 2 ^ 32 / 2 ^ 8 % 256 ≡ x / 2 ^ 8 % 256 = omega arith in
    let t : x % 2 ^ 32 % 256 ≡ x % 256 = omega arith in rw (p, q, r, t)

length-big_endian : (v w : ℕ) → length (big_endian v ++ big_endian w) ≡ 8
unfolding big_endian
length-big_endian v w = refl

replicate_add : (m n : ℕ) (x : ℕ) → replicate (m + n) x ≡ replicate m x ++ replicate n x
replicate_add zero n x = rw add.zero
replicate_add (suc m) n x = rw add.suc (ap (λ (l : List ℕ). x ∷ l) (replicate_add m n x))

-- The end of the message, when the bit 1 and the length still fit into its last block.
finish_early :
    (block : List ℕ) (h : Words) (len : ℕ)
    → length block ≡ len % 64
    → length block ≤ 55
    → digest ((length block + 72) / 64) (block ++ ending len) h
      ≡ process_block
          (pad_to 56 (block ++ (0x80 ∷ []))
            ++ (big_endian (8 * len / 2 ^ 32) ++ big_endian (8 * len)))
          h
unfolding pad_to ending
finish_early block h len whole short =
    let n : (length block + 72) / 64 ≡ 1 = omega arith in
    let zeros : (119 - len % 64) % 64 ≡ 55 - length block = omega arith in
    let zeros' : 56 - (length block + 1) ≡ 55 - length block = omega arith in
    let size = length-append block (0x80 ∷ []) in
    let tail : List ℕ = big_endian (8 * len / 2 ^ 32) ++ big_endian (8 * len) in
    let pad : List ℕ = replicate (55 - length block) 0 in
    rw (n, zeros, size, zeros')
      (digest_last (block ++ (0x80 ∷ (pad ++ tail))) ((block ++ (0x80 ∷ []) ++ pad) ++ tail) h
        (simp append_assoc)
        (omega (
          arith,
          length-append (block ++ (0x80 ∷ []) ++ pad) tail,
          length-append (block ++ (0x80 ∷ [])) pad,
          size,
          length-replicate {A = ℕ} (55 - length block) 0,
          length-big_endian (8 * len / 2 ^ 32) (8 * len),
        )))

-- The same when they do not fit: zeros fill the block, and the length ends another.
finish_late :
    (block : List ℕ) (h : Words) (len : ℕ)
    → length block ≡ len % 64
    → 56 ≤ length block
    → length block ≤ 63
    → digest ((length block + 72) / 64) (block ++ ending len) h
      ≡ process_block
          (pad_to 56 [] ++ (big_endian (8 * len / 2 ^ 32) ++ big_endian (8 * len)))
          (process_block (pad_to 64 (block ++ (0x80 ∷ []))) h)
unfolding pad_to ending
finish_late block h len whole long short =
    let n : (length block + 72) / 64 ≡ 2 = omega arith in
    let zeros : (119 - len % 64) % 64 ≡ (63 - length block) + 56 = omega arith in
    let zeros' : 64 - (length block + 1) ≡ 63 - length block = omega arith in
    let size = length-append block (0x80 ∷ []) in
    let tail : List ℕ = big_endian (8 * len / 2 ^ 32) ++ big_endian (8 * len) in
    let pad : List ℕ = replicate (63 - length block) 0 in
    rw (n, zeros, size, zeros', replicate_add (63 - length block) 56 0)
      (digest_two (block ++ (0x80 ∷ ((pad ++ replicate 56 0) ++ tail)))
        (block ++ (0x80 ∷ []) ++ pad) (replicate 56 0 ++ tail) h (simp append_assoc)
        (omega (
          arith,
          length-append (block ++ (0x80 ∷ [])) pad,
          size,
          length-replicate {A = ℕ} (63 - length block) 0,
        ))
        (omega (arith, length-big_endian (8 * len / 2 ^ 32) (8 * len))))

-- The counters of `length_low` and `length_high` after `len` bytes, and the bytes of the block.
record Counts (s : Sha) (len : ℕ) : Type 0 where
  whole : length s.block ≡ len % 64
  low : s.length_low ≡ 8 * len % 2 ^ 32
  high : s.length_high ≡ 8 * len / 2 ^ 32 % 2 ^ 32

finish-digest :
    (s : Sha) (len : ℕ)
    → Counts s len
    → finish s ≡ digest ((length s.block + 72) / 64) (s.block ++ ending len) s.h
unfolding finish
finish-digest s len c =
    let size = length-append s.block (0x80 ∷ []) in
    let low : big_endian s.length_low ≡ big_endian (8 * len) =
      ap big_endian c.low ∙ big_endian_wrap (8 * len) in
    let high : big_endian s.length_high ≡ big_endian (8 * len / 2 ^ 32) =
      ap big_endian c.high ∙ big_endian_wrap (8 * len / 2 ^ 32) in
    rw (low, high)
      (elim (dec_lt 55 (length s.block)) [
        | yes long ↦
            let late : ltb 56 (length (s.block ++ (0x80 ∷ []))) ≡ true = ground (arith, size) in
            simp late (sym (finish_late s.block s.h len c.whole long (omega (arith, c.whole))))
        | no early ↦
            let late : ltb 56 (length (s.block ++ (0x80 ∷ []))) ≡ false = ground (arith, size) in
            simp late (sym (finish_early s.block s.h len c.whole (omega arith)))
      ])

absorb-Counts : (s : Sha) (len ch : ℕ) → Counts s len → Counts (absorb s ch) (len + 1)
unfolding absorb
absorb-Counts s len ch c = record {
  whole = ground (arith, c.whole, length-append s.block (ch ∷ []));
  low = ground (arith, c.low);
  high = ground (arith, c.low, c.high);
}

-- A byte more: the block that it fills, if it does, is the first of the rest.
absorb-digest :
    (s : Sha) (ch : ℕ) (input rest : List ℕ)
    → digest
        ((length ((absorb s ch).block ++ input) + 72) / 64)
        ((absorb s ch).block ++ rest)
        (absorb s ch).h
      ≡ digest ((length (s.block ++ (ch ∷ input)) + 72) / 64) (s.block ++ (ch ∷ rest)) s.h
unfolding absorb
absorb-digest s ch input rest =
    let more : s.block ++ (ch ∷ rest) ≡ s.block ++ (ch ∷ []) ++ rest = simp append_assoc in
    let sizes : length (s.block ++ (ch ∷ input)) ≡ length (s.block ++ (ch ∷ [])) + length input =
      omega (arith, length-append s.block (ch ∷ input), length-append s.block (ch ∷ [])) in
    elim (ℕ_discrete (length (s.block ++ (ch ∷ []))) 64) [
      | yes full ↦
          let is_full : (length (s.block ++ (ch ∷ [])) == 64) ≡ true = ground arith in
          let n : (64 + length input + 72) / 64 ≡ suc ((length input + 72) / 64) = omega arith in
          rw (sizes, is_full, full, n)
            (sym (
              digest_block ((length input + 72) / 64) (s.block ++ (ch ∷ rest))
                (s.block ++ (ch ∷ [])) rest s.h more full))
      | no short ↦
          let is_short : (length (s.block ++ (ch ∷ [])) == 64) ≡ false = ground arith in
          rw (is_short, more, sizes, length-append (s.block ++ (ch ∷ [])) input) refl
    ]

absorb_all-digest :
    (s : Sha) (len : ℕ) (input : List ℕ)
    → Counts s len
    → finish (absorb_all s input)
      ≡ digest
          ((length (s.block ++ input) + 72) / 64)
          (s.block ++ (input ++ ending (len + length input)))
          s.h
unfolding absorb_all
absorb_all-digest s len [] c =
    let none_left : len + 0 ≡ len = omega arith in
    rw (none_left, append-nil s.block) (finish-digest s len c)
absorb_all-digest s len (ch ∷ input) c =
    let total : len + 1 + length input ≡ len + suc (length input) = omega arith in
    absorb_all-digest (absorb s ch) (len + 1) input (absorb-Counts s len ch c)
    ∙ absorb-digest s ch input (input ++ ending (len + 1 + length input))
    ∙ rw total refl

-- For every text: the digest that the code computes byte by byte is the standard's, of the whole
-- text with the bit 1, zeros and its length in bits (modulo 2 ^ 64) behind it, block by block.
pub sha1-standard : (input : List ℕ) → sha1 input ≡ standard input
unfolding sha1 standard
sha1-standard input =
    let zero_len : 0 + length input ≡ length input = omega arith in
    absorb_all-digest (record { h = initial; block = []; length_low = 0; length_high = 0 }) 0 input
      (record { whole = omega arith; low = omega arith; high = omega arith })
    ∙ rw zero_len refl
