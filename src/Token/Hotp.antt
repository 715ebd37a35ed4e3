-- ===== src/Token/Hotp.antt =====
-- `generateToken` of engine/src/tools.cpp against the standards of HMAC and of passwords based on
-- a counter.
use otx_teste.Common.{
  ℕ, zero, suc, ◌+◌, ◌-◌, ◌*◌, ◌/◌, ◌%◌, ◌^◌, ◌≤◌, ◌<◌, ◌≡◌, refl, sym, ap, ◌∙◌, ltb, if◌then◌else◌,
  true, false, List, [], ◌∷◌, ◌++◌, map, length, take, drop, replicate, bit_xor, length-append,
  arith, dec_lt, take-nil, drop-nil, drop-append_le, drop-append,
}
use Prim.Native.Nat.{min}
use native.Mathlib.Nat.{pow-suc}
use mathlib.Core.List.{append_assoc, append-nil}
use otx_teste.Network.Bytes.{AreBytes, AreBytes-take, AreBytes-drop}
use otx_teste.Sha1.{Words, big_endian, digest_bytes, hex_digit, hex_string, transform_to_sha1}
use otx_teste.Sha1.Padding.{standard, sha1-standard}
use otx_teste.Token.{
  put_ticks, xor_key, hex_value, from_hex, bytes_from_hex, to_string, last_digits, token_hash,
  truncated, generate_token,
}

-- The digest by the standard, as bytes.
unfoldable pub hash : List ℕ → List ℕ
hash text = digest_bytes (standard text)

-- HMAC with a key of at most 64 bytes.
unfoldable pub hmac : List ℕ → List ℕ → List ℕ
hmac key text =
    let key0 = key ++ replicate (64 - length key) 0 in
    hash (map (bit_xor 0x5C) key0 ++ hash (map (bit_xor 0x36) key0 ++ text))

-- The number whose bytes are given, the highest first.
unfoldable pub number : ℕ → List ℕ → ℕ
number high [] = high
number high (b ∷ bs) = number (256 * high + b) bs

-- Exactly so many decimal digits, the lowest ones.
unfoldable pub decimal : ℕ → ℕ → List ℕ
decimal zero n = []
decimal (suc digits) n = decimal digits (n / 10) ++ ((n % 10 + b'0') ∷ [])

-- The password of 6 digits from a digest: four of its bytes, from the place that the low half of
-- its last byte gives, without their top bit, modulo 10 ^ 6.
unfoldable pub password : List ℕ → List ℕ
password digest =
    let offset = number 0 (drop 19 digest) % 16 in
    decimal 6 (number 0 (take 4 (drop offset digest)) % 2 ^ 31 % 10 ^ 6)

-- The password for a counter of 64 bits.
unfoldable pub hotp : List ℕ → ℕ → List ℕ
hotp key counter = password (hmac key (big_endian (counter / 2 ^ 32) ++ big_endian counter))

hex_value-hex_digit : (n : ℕ) → n < 16 → hex_value (hex_digit n) ≡ n
unfolding hex_value hex_digit
hex_value-hex_digit n h = ground arith

-- Two digits stand for their byte.
two_digits :
    (v b : ℕ)
    → b < 256
    → 16 * (16 * v + hex_value (hex_digit (b / 16))) + hex_value (hex_digit (b % 16)) ≡ 256 * v + b
two_digits v b h =
    omega (
      arith,
      hex_value-hex_digit (b / 16) (omega arith),
      hex_value-hex_digit (b % 16) (omega arith),
    )

from_hex-hex_string : (v : ℕ) (bs : List ℕ) → AreBytes bs → from_hex v (hex_string bs) ≡ number v bs
unfolding from_hex hex_string number
from_hex-hex_string v [] p = refl
from_hex-hex_string v (b ∷ bs) p =
    ap (λ (w : ℕ). from_hex w (hex_string bs)) (two_digits v b p.0)
    ∙ from_hex-hex_string (256 * v + b) bs p.1

bytes_from_hex-hex_string : (bs : List ℕ) → AreBytes bs → bytes_from_hex (hex_string bs) ≡ bs
unfolding bytes_from_hex hex_string from_hex
bytes_from_hex-hex_string [] p = refl
bytes_from_hex-hex_string (b ∷ bs) p =
    let rest = bytes_from_hex-hex_string bs p.1 in
    let first : 256 * 0 + b ≡ b = omega arith in rw (two_digits 0 b p.0, first, rest) refl

take-hex_string : (n : ℕ) (bs : List ℕ) → take (2 * n) (hex_string bs) ≡ hex_string (take n bs)
unfolding hex_string
take-hex_string zero bs = refl
take-hex_string (suc n) [] = take-nil (2 * suc n)
take-hex_string (suc n) (b ∷ bs) =
    let two : 2 * suc n ≡ suc (suc (2 * n)) = omega arith in rw (two, take-hex_string n bs)

drop-hex_string : (n : ℕ) (bs : List ℕ) → drop (2 * n) (hex_string bs) ≡ hex_string (drop n bs)
unfolding hex_string
drop-hex_string zero bs = refl
drop-hex_string (suc n) [] = drop-nil (2 * suc n)
drop-hex_string (suc n) (b ∷ bs) =
    let two : 2 * suc n ≡ suc (suc (2 * n)) = omega arith in rw two (drop-hex_string n bs)

AreBytes-digest_bytes : (h : Words) → AreBytes (digest_bytes h)
unfolding digest_bytes big_endian
AreBytes-digest_bytes h = omega arith

AreBytes-hash : (text : List ℕ) → AreBytes (hash text)
unfolding hash
AreBytes-hash text = AreBytes-digest_bytes (standard text)

transform_to_sha1-hash : (text : List ℕ) → transform_to_sha1 text ≡ hex_string (hash text)
unfolding transform_to_sha1 hash
transform_to_sha1-hash text = rw (sha1-standard text) refl

-- The bytes of the counter, written from the end.
put_ticks-big_endian :
    (ticks : ℕ)
    → ticks < 2 ^ 32
    → 0 ∷ put_ticks 7 ticks [] ≡ big_endian (ticks / 2 ^ 32) ++ big_endian ticks
unfolding put_ticks big_endian
put_ticks-big_endian ticks h = ground arith

map-replicate : (m p : ℕ) → map (bit_xor p) (replicate m 0) ≡ replicate m (bit_xor p 0)
map-replicate zero p = refl
map-replicate (suc m) p = ap (λ (l : List ℕ). bit_xor p 0 ∷ l) (map-replicate m p)

xor_key-map :
    (n m p : ℕ) (key : List ℕ)
    → length key + m ≡ n
    → bit_xor p 0 ≡ p
    → xor_key (replicate n p) key ≡ map (bit_xor p) (key ++ replicate m 0)
unfolding xor_key
xor_key-map n m p [] h z =
    let same : m ≡ n = omega arith in rw (← same) (sym (map-replicate m p ∙ ap (replicate m) z))
xor_key-map zero m p (k ∷ key) h z = absurd (omega arith)
xor_key-map (suc n) m p (k ∷ key) h z =
    ap (λ (l : List ℕ). bit_xor p k ∷ l) (xor_key-map n m p key (omega arith) z)

replicate-snoc : (n x : ℕ) → replicate (suc n) x ≡ replicate n x ++ (x ∷ [])
replicate-snoc zero x = refl
replicate-snoc (suc n) x = ap (λ (l : List ℕ). x ∷ l) (replicate-snoc n x)

last_digits-snoc :
    (n : ℕ) (text : List ℕ) (d : ℕ)
    → last_digits (suc n) (text ++ (d ∷ [])) ≡ last_digits n text ++ (d ∷ [])
unfolding last_digits
last_digits-snoc n text d =
    let size = length-append text (d ∷ []) in
    elim (dec_lt n (length text)) [
      | yes long ↦
          let more : length text - n ≤ length text = omega arith in
          let cut = drop-append_le (length text - n) text (d ∷ []) more in
          let now : min (length text) n ≡ n = omega arith in
          let now' : min (length text + 1) (suc n) ≡ suc n = omega arith in
          let left : length text + 1 - suc n ≡ length text - n = omega arith in
          let z : suc n - suc n ≡ 0 = omega arith in
          let z' : n - n ≡ 0 = omega arith in rw (size, now, now', left, cut, z, z') refl
      | no short ↦
          let now : min (length text) n ≡ length text = omega arith in
          let now' : min (length text + 1) (suc n) ≡ length text + 1 = omega arith in
          let pad : suc n - (length text + 1) ≡ n - length text = omega arith in
          let z : length text + 1 - (length text + 1) ≡ 0 = omega arith in
          let z' : length text - length text ≡ 0 = omega arith in
          rw (size, now, now', pad, z, z')
            (sym (append_assoc (replicate (n - length text) b'0') text (d ∷ [])))
    ]

last_digits_none : (text : List ℕ) → last_digits 0 text ≡ []
unfolding last_digits
last_digits_none text =
    let all : length text - min (length text) 0 ≡ length text = omega arith in
    let pad : 0 - min (length text) 0 ≡ 0 = omega arith in
    rw (pad, all) (ap (drop (length text)) (sym (append-nil text)) ∙ drop-append text [])

last_digits_nil : (n : ℕ) → last_digits n [] ≡ replicate n b'0'
unfolding last_digits
last_digits_nil n =
    let none_left : 0 - min 0 n ≡ 0 = omega arith in
    let pad : n - min 0 n ≡ n = omega arith in rw (none_left, pad) (append-nil (replicate n b'0'))

decimal_zero : (n : ℕ) → decimal n 0 ≡ replicate n b'0'
unfolding decimal
decimal_zero zero = refl
decimal_zero (suc n) = rw (decimal_zero n) (sym (replicate-snoc n b'0'))

shorter : (fuel n : ℕ) → n < 10 ^ suc fuel → n / 10 < 10 ^ fuel
shorter fuel n h =
    let more : 10 ^ suc fuel ≡ 10 * 10 ^ fuel = pow-suc 10 fuel ∙ omega arith in omega (arith, more)

last_digits-decimal :
    (digits fuel n : ℕ) → n < 10 ^ fuel → last_digits digits (to_string fuel n) ≡ decimal digits n
unfolding to_string decimal
last_digits-decimal zero fuel n h = last_digits_none (to_string fuel n)
last_digits-decimal (suc digits) zero n h =
    let none_left : n ≡ 0 = omega arith in
    rw none_left (last_digits_nil (suc digits) ∙ sym (decimal_zero (suc digits)))
last_digits-decimal (suc digits) (suc fuel) n h =
    let d = n % 10 + b'0' in
    let ih : last_digits digits (if ltb n 10 then [] else to_string fuel (n / 10))
        ≡ decimal digits (n / 10) =
      elim (dec_lt n 10) [
        | yes low ↦
            let t : ltb n 10 ≡ true = ground arith in
            let none_left : n / 10 ≡ 0 = omega arith in
            rw (t, none_left) (last_digits_nil digits ∙ sym (decimal_zero digits))
        | no high ↦
            let t : ltb n 10 ≡ false = ground arith in
            rw t (last_digits-decimal digits fuel (n / 10) (shorter fuel n h))
      ] in
    last_digits-snoc digits (if ltb n 10 then [] else to_string fuel (n / 10)) d
    ∙ ap (λ (l : List ℕ). l ++ (d ∷ [])) ih

-- The last 6 digits are those modulo 10 ^ 6.
decimal-mod : (n : ℕ) → decimal 6 (n % 10 ^ 6) ≡ decimal 6 n
unfolding decimal
decimal-mod n = ground arith

last_digit :
    (h : Words)
    → from_hex 0 (take 1 (drop 39 (hex_string (digest_bytes h)))) % 16
      ≡ number 0 (drop 19 (digest_bytes h)) % 16
unfolding digest_bytes hex_string big_endian from_hex number
last_digit h = omega (arith, hex_value-hex_digit (h.e % 256 % 16) (omega arith))

truncated-password :
    (h : Words) → truncated (hex_string (digest_bytes h)) ≡ password (digest_bytes h)
unfolding truncated password
truncated-password h =
    let bs = digest_bytes h in
    let p = AreBytes-digest_bytes h in
    let offset = number 0 (drop 19 bs) % 16 in
    let value = number 0 (take 4 (drop offset bs)) % 2 ^ 31 in
    rw
      (
        last_digit h,
        drop-hex_string offset bs,
        take-hex_string 4 (drop offset bs),
        from_hex-hex_string 0 (take 4 (drop offset bs))
            (AreBytes-take 4 (drop offset bs) (AreBytes-drop offset bs p)),
      )
      (last_digits-decimal 6 10 value (omega arith) ∙ sym (decimal-mod value))

token_hash-hmac :
    (key text : List ℕ) → length key ≤ 64 → token_hash key text ≡ hex_string (hmac key text)
unfolding token_hash hmac
token_hash-hmac key text short =
    let inner = xor_key-map 64 (64 - length key) 0x36 key (omega arith) refl in
    let outer = xor_key-map 64 (64 - length key) 0x5C key (omega arith) refl in
    let key0 = key ++ replicate (64 - length key) 0 in
    let first : List ℕ = map (bit_xor 0x36) key0 ++ text in
    rw (inner, outer, transform_to_sha1-hash first)
      (rw (bytes_from_hex-hex_string (hash first) (AreBytes-hash first))
        (transform_to_sha1-hash (map (bit_xor 0x5C) key0 ++ hash first)))

truncated-hmac :
    (key text : List ℕ) → truncated (hex_string (hmac key text)) ≡ password (hmac key text)
unfolding hmac hash
truncated-hmac key text =
    let key0 = key ++ replicate (64 - length key) 0 in
    truncated-password
      (standard (map (bit_xor 0x5C) key0 ++ hash (map (bit_xor 0x36) key0 ++ text)))

-- For a key of at most 64 bytes and `ticks` of 32 bits: the token is the 6-digit password that the
-- standard gives for the counter `ticks`.
pub generate_token-hotp :
    (key : List ℕ) (ticks : ℕ)
    → length key ≤ 64
    → ticks < 2 ^ 32
    → generate_token key ticks ≡ hotp key ticks
unfolding generate_token hotp
generate_token-hotp key ticks short small =
    rw
      (
        put_ticks-big_endian ticks small,
        token_hash-hmac key (big_endian (ticks / 2 ^ 32) ++ big_endian ticks) short,
      )
      (truncated-hmac key (big_endian (ticks / 2 ^ 32) ++ big_endian ticks))
