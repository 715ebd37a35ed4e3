-- ===== src/Sha1.antt =====
-- The digest of engine/src/tools.cpp: `circularShift`, `processSHA1MessageBlock` and
-- `transformToSHA1`. A `uint32_t` is a number below 2 ^ 32, a text a list of bytes.
pub mod Padding
use otx_teste.Common.{
  ℕ, zero, suc, ◌+◌, ◌-◌, ◌*◌, ◌/◌, ◌%◌, ◌^◌, ◌==◌, ltb, if◌then◌else◌, bit_and, bit_or, bit_xor,
  List, [], ◌∷◌, ◌++◌, length, take, drop, replicate,
}
use mathlib.Core.List.{reverse}

-- `circularShift`.
unfoldable pub circular_shift : ℕ → ℕ → ℕ
circular_shift bits value = bit_or (value * 2 ^ bits % 2 ^ 32) (value / 2 ^ (32 - bits))

-- `~value`.
unfoldable pub complement : ℕ → ℕ
complement value = 2 ^ 32 - 1 - value

-- The variables `A` to `E`, and the array `H` as well.
pub record Words : Type 0 where
  pub a : ℕ
  pub b : ℕ
  pub c : ℕ
  pub d : ℕ
  pub e : ℕ

-- The words of a block, in their order: the first 16 of `W`.
unfoldable pub block_words : List ℕ → List ℕ
block_words (w ∷ x ∷ y ∷ z ∷ rest) =
    bit_or (bit_or (bit_or (w * 2 ^ 24 % 2 ^ 32) (x * 2 ^ 16)) (y * 2 ^ 8)) z ∷ block_words rest
block_words short = []

-- `W[i - 1 - n]`, with the words before `W[i]` in `before`, the last one first.
unfoldable pub word_before : ℕ → List ℕ → ℕ
word_before n [] = 0
word_before zero (v ∷ vs) = v
word_before (suc n) (v ∷ vs) = word_before n vs

-- The next `n` words of `W`, from those before.
unfoldable pub next_words : ℕ → List ℕ → List ℕ
next_words zero before = []
next_words (suc n) before =
    let w = circular_shift 1 (
      bit_xor
        (bit_xor (bit_xor (word_before 2 before) (word_before 7 before)) (word_before 13 before))
        (word_before 15 before)) in
    w ∷ next_words n (w ∷ before)

-- The terms of `tmp` that differ between the four loops.
unfoldable pub choose : Words → ℕ
choose v = bit_or (bit_and v.b v.c) (bit_and (complement v.b) v.d)

unfoldable pub parity : Words → ℕ
parity v = bit_xor (bit_xor v.b v.c) v.d

unfoldable pub majority : Words → ℕ
majority v = bit_or (bit_or (bit_and v.b v.c) (bit_and v.b v.d)) (bit_and v.c v.d)

-- One of the four loops, over its words of `W`.
unfoldable pub rounds : (Words → ℕ) → ℕ → List ℕ → Words → Words
rounds term constant [] v = v
rounds term constant (w ∷ ws) v = rounds term constant ws (record {
  a = (circular_shift 5 v.a + term v + v.e + w + constant) % 2 ^ 32;
  b = v.a;
  c = circular_shift 30 v.b;
  d = v.c;
  e = v.d;
})

unfoldable pub add_words : Words → Words → Words
add_words h v = record {
  a = (h.a + v.a) % 2 ^ 32;
  b = (h.b + v.b) % 2 ^ 32;
  c = (h.c + v.c) % 2 ^ 32;
  d = (h.d + v.d) % 2 ^ 32;
  e = (h.e + v.e) % 2 ^ 32;
}

-- `processSHA1MessageBlock`.
unfoldable pub process_block : List ℕ → Words → Words
process_block bytes h =
    let first = block_words bytes in
    let ws = first ++ next_words 64 (reverse first) in
    let v20 = rounds choose 0x5A827999 (take 20 ws) h in
    let v40 = rounds parity 0x6ED9EBA1 (take 20 (drop 20 ws)) v20 in
    let v60 = rounds majority 0x8F1BBCDC (take 20 (drop 40 ws)) v40 in
    let v80 = rounds parity 0xCA62C1D6 (drop 60 ws) v60 in add_words h v80

abbrev pub initial : Words
initial = record { a = 0x67452301; b = 0xEFCDAB89; c = 0x98BADCFE; d = 0x10325476; e = 0xC3D2E1F0 }

-- The variables of `transformToSHA1`. `messageBlock` is given by its first `index` bytes: each is
-- written before the block is processed.
pub record Sha : Type 0 where
  pub h : Words
  pub block : List ℕ
  pub length_low : ℕ
  pub length_high : ℕ

-- The loop's body for a byte.
unfoldable pub absorb : Sha → ℕ → Sha
absorb s ch =
    let block = s.block ++ (ch ∷ []) in
    let low = (s.length_low + 8) % 2 ^ 32 in
    let high = if low == 0 then (s.length_high + 1) % 2 ^ 32 else s.length_high in
    let full = length block == 64 in
    record {
      h = if full then process_block block s.h else s.h;
      block = if full then [] else block;
      length_low = low;
      length_high = high;
    }

unfoldable pub absorb_all : Sha → List ℕ → Sha
absorb_all s [] = s
absorb_all s (ch ∷ input) = absorb_all (absorb s ch) input

-- `while (index < n) messageBlock[index++] = 0`.
unfoldable pub pad_to : ℕ → List ℕ → List ℕ
pad_to n block = block ++ replicate (n - length block) 0

-- The four bytes of a word, the highest first.
unfoldable pub big_endian : ℕ → List ℕ
big_endian w = w / 2 ^ 24 % 256 ∷ w / 2 ^ 16 % 256 ∷ w / 2 ^ 8 % 256 ∷ w % 256 ∷ []

-- What follows the loop over the input: `H` at the end.
unfoldable pub finish : Sha → Words
finish s =
    let block = s.block ++ (0x80 ∷ []) in
    let late = ltb 56 (length block) in
    let h = if late then process_block (pad_to 64 block) s.h else s.h in
    let rest = if late then [] else block in
    process_block (pad_to 56 rest ++ (big_endian s.length_high ++ big_endian s.length_low)) h

unfoldable pub sha1 : List ℕ → Words
sha1 input =
    finish (absorb_all (record { h = initial; block = []; length_low = 0; length_high = 0 }) input)

-- The byte `hashByte` of `H`, for each from 0 to 19.
unfoldable pub digest_bytes : Words → List ℕ
digest_bytes h =
    big_endian h.a ++ (big_endian h.b ++ (big_endian h.c ++ (big_endian h.d ++ big_endian h.e)))

unfoldable pub hex_digit : ℕ → ℕ
hex_digit n = if ltb n 10 then n + b'0' else n + (b'a' - 10)

-- `hexstring`.
unfoldable pub hex_string : List ℕ → List ℕ
hex_string [] = []
hex_string (b ∷ bs) = hex_digit (b / 16) ∷ hex_digit (b % 16) ∷ hex_string bs

unfoldable pub transform_to_sha1 : List ℕ → List ℕ
transform_to_sha1 input = hex_string (digest_bytes (sha1 input))
