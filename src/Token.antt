-- ===== src/Token.antt =====
-- `generateToken` of engine/src/tools.cpp: the one-time password that a second factor asks for. A
-- text is a list of bytes.
pub mod Hotp
use otx_teste.Common.{
  ℕ, zero, suc, ◌+◌, ◌-◌, ◌*◌, ◌/◌, ◌%◌, ◌^◌, ltb, if◌then◌else◌, bit_xor, List, [], ◌∷◌, ◌++◌,
  length, take, drop, replicate,
}
use Prim.Native.Nat.{min}
use otx_teste.Sha1.{transform_to_sha1}

abbrev pub authenticator_digits : ℕ
authenticator_digits = 6

-- The loop that fills `message` from its end, which writes `n` bytes.
unfoldable pub put_ticks : ℕ → ℕ → List ℕ → List ℕ
put_ticks zero ticks written = written
put_ticks (suc n) ticks written = put_ticks n (ticks / 256) (ticks % 256 ∷ written)

-- `pad[i] ^= key[i]`, for a key that is not longer than the pad.
unfoldable pub xor_key : List ℕ → List ℕ → List ℕ
xor_key pad [] = pad
xor_key [] (k ∷ key) = []
xor_key (p ∷ pad) (k ∷ key) = bit_xor p k ∷ xor_key pad key

unfoldable pub hex_value : ℕ → ℕ
hex_value c = if ltb c b'a' then c - b'0' else c - (b'a' - 10)

-- `strtoul` of hexadecimal digits.
unfoldable pub from_hex : ℕ → List ℕ → ℕ
from_hex value [] = value
from_hex value (c ∷ cs) = from_hex (16 * value + hex_value c) cs

-- The loop that turns each two digits into a byte.
unfoldable pub bytes_from_hex : List ℕ → List ℕ
unfolding from_hex
bytes_from_hex (c ∷ d ∷ rest) = from_hex 0 (c ∷ d ∷ []) ∷ bytes_from_hex rest
bytes_from_hex short = []

-- `std::to_string` of a number of at most so many digits.
unfoldable pub to_string : ℕ → ℕ → List ℕ
to_string zero n = []
to_string (suc digits) n =
    let before = to_string digits (n / 10) in
    (if ltb n 10 then [] else before) ++ ((n % 10 + b'0') ∷ [])

-- The last `digits` characters, behind as many zeros as are missing.
unfoldable pub last_digits : ℕ → List ℕ → List ℕ
last_digits digits message =
    let hash_len = length message in
    replicate (digits - min hash_len digits) b'0' ++ drop (hash_len - min hash_len digits) message

-- The two passes over the message; the result in hexadecimal digits.
unfoldable pub token_hash : List ℕ → List ℕ → List ℕ
token_hash key message =
    let i_key_pad = xor_key (replicate 64 0x36) key in
    let o_key_pad = xor_key (replicate 64 0x5C) key in
    let first = transform_to_sha1 (i_key_pad ++ message) in
    transform_to_sha1 (o_key_pad ++ bytes_from_hex first)

-- From `offset` to the end of `generateToken`.
unfoldable pub truncated : List ℕ → List ℕ
truncated message =
    let offset = from_hex 0 (take 1 (drop 39 message)) % 16 in
    let trunc_hash = from_hex 0 (take 8 (drop (2 * offset) message)) % 2 ^ 31 in
    last_digits authenticator_digits (to_string 10 trunc_hash)

unfoldable pub generate_token : List ℕ → ℕ → List ℕ
generate_token key ticks = truncated (token_hash key (0 ∷ put_ticks 7 ticks []))
