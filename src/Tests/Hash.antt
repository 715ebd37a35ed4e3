-- ===== src/Tests/Hash.antt =====
-- Tests of `transformToSHA1` and `generateToken` of engine/src/tools.cpp by the standards' vectors,
-- and the theorems at concrete inputs.
use otx_teste.Common.{ℕ, ◌≡◌, refl, List, [], ◌∷◌, replicate, arith}
use otx_teste.Sha1.{
  transform_to_sha1, sha1, absorb_all, absorb, finish, pad_to, process_block, block_words,
  next_words, word_before, circular_shift, rounds, choose, parity, majority, complement, add_words,
  digest_bytes, big_endian, hex_string, hex_digit,
}
use otx_teste.Token.{
  generate_token, truncated, token_hash, put_ticks, xor_key, from_hex, hex_value, bytes_from_hex,
  to_string, last_digits,
}
use otx_teste.Sha1.Padding.{standard, sha1-standard}
use otx_teste.Token.Hotp.{hotp, generate_token-hotp}

transform_to_sha1_test :
    transform_to_sha1 (b'a' ∷ b'b' ∷ b'c' ∷ [])
    ≡ b'a' ∷ b'9' ∷ b'9' ∷ b'9' ∷ b'3' ∷ b'e' ∷ b'3' ∷ b'6' ∷ b'4' ∷ b'7' ∷ b'0' ∷ b'6' ∷ b'8'
      ∷ b'1' ∷ b'6' ∷ b'a' ∷ b'b' ∷ b'a' ∷ b'3' ∷ b'e' ∷ b'2' ∷ b'5' ∷ b'7' ∷ b'1' ∷ b'7' ∷ b'8'
      ∷ b'5' ∷ b'0' ∷ b'c' ∷ b'2' ∷ b'6' ∷ b'c' ∷ b'9' ∷ b'c' ∷ b'd' ∷ b'0' ∷ b'd' ∷ b'8' ∷ b'9'
      ∷ b'd' ∷ []
unfolding transform_to_sha1 sha1 absorb_all absorb finish pad_to process_block block_words
    next_words word_before circular_shift rounds choose parity majority complement add_words
    digest_bytes big_endian hex_string hex_digit
transform_to_sha1_test = refl

abbrev secret : List ℕ
secret =
    b'1' ∷ b'2' ∷ b'3' ∷ b'4' ∷ b'5' ∷ b'6' ∷ b'7' ∷ b'8' ∷ b'9' ∷ b'0' ∷ b'1' ∷ b'2' ∷ b'3' ∷ b'4'
    ∷ b'5' ∷ b'6' ∷ b'7' ∷ b'8' ∷ b'9' ∷ b'0' ∷ []

generate_token_test : generate_token secret 1 ≡ b'2' ∷ b'8' ∷ b'7' ∷ b'0' ∷ b'8' ∷ b'2' ∷ []
unfolding transform_to_sha1 sha1 absorb_all absorb finish pad_to process_block block_words
    next_words word_before circular_shift rounds choose parity majority complement add_words
    digest_bytes big_endian hex_string hex_digit generate_token truncated token_hash put_ticks
    xor_key from_hex hex_value bytes_from_hex to_string last_digits
generate_token_test = refl

sha1-standard_example : sha1 (replicate 60 b'a') ≡ standard (replicate 60 b'a')
sha1-standard_example = sha1-standard (replicate 60 b'a')

generate_token-hotp_example : generate_token secret 59155 ≡ hotp secret 59155
generate_token-hotp_example = generate_token-hotp secret 59155 (omega arith) (omega arith)
