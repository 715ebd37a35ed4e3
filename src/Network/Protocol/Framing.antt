-- ===== src/Network/Protocol/Framing.antt =====
-- The lengths that engine/src/protocol.cpp gives to a message that it seals.
use otx_teste.Common.{ℕ, ◌+◌, ◌-◌, ◌%◌, ◌^◌, ◌<◌, ◌≤◌, ◌≡◌, ◌≢◌, refl, true, false, arith}
use otx_teste.Network.Message.{max_body_length, can_add, add_padding_bytes}
use otx_teste.Network.Xtea.{Key}
use otx_teste.Network.Checksum.{adler_checksum}
use otx_teste.Network.Protocol.{
  output_bytes, OutputMessage, Protocol, ChecksumMethod, none_, adler32, sequence, add_header,
  write_message_length, add_crypto_header, pad, xtea_encrypt, add_checksum, on_send_message,
}

length-pad :
    (o : OutputMessage)
    → 8 + o.message.position < max_body_length
    → o.message.length_ + 8 < 2 ^ 16
    → ((pad o).message.length_ % 8 ≡ 0) × ((pad o).message.length_ ≤ o.message.length_ + 7)
unfolding pad add_padding_bytes can_add
length-pad o room fits = ground arith

xtea_encrypt-framed :
    (k : Key) (o : OutputMessage)
    → (xtea_encrypt k (write_message_length o)).message.length_
      ≡ (pad (write_message_length o)).message.length_
unfolding xtea_encrypt
xtea_encrypt-framed k o = refl

pad-start : (o : OutputMessage) → (pad o).output_buffer_start ≡ o.output_buffer_start
unfolding pad
pad-start o = ground arith

add_crypto_header-framed :
    (checksum : ℕ) (o : OutputMessage)
    → o.message.length_ + 6 < 2 ^ 16
    → ((add_crypto_header true checksum o).message.length_ ≡ o.message.length_ + 6)
      × ((add_crypto_header true checksum o).output_buffer_start ≡ o.output_buffer_start - 6)
unfolding add_crypto_header write_message_length add_header
add_crypto_header-framed checksum o fits = (omega arith, omega arith)

-- A message that is padded and encrypted, its headers written in front.
sealed :
    (k : Key) (o : OutputMessage) (checksum : ℕ)
    → o.output_buffer_start ≡ 8
    → 8 + o.message.position < max_body_length
    → o.message.length_ + 16 < 2 ^ 16
    → ((add_crypto_header true checksum (xtea_encrypt k (write_message_length o))).message.length_
            + 2)
          % 8
        ≡ 0
      × ((add_crypto_header true checksum
            (xtea_encrypt k (write_message_length o))).output_buffer_start
          ≡ 0)
unfolding xtea_encrypt write_message_length add_header
sealed k o checksum fresh room fits =
    let headed = write_message_length o in
    let padded = length-pad headed room (omega arith) in
    let whole = add_crypto_header-framed checksum (xtea_encrypt k headed) (omega (arith, padded)) in
    (omega (arith, whole, padded), omega (arith, whole, pad-start headed))

-- A message that an encrypting protocol with checksums sends from a fresh buffer, with room for
-- padding and headers, has its headers at the very start of the buffer, and a length that
-- `XTEA_decrypt` accepts: 6 more than a multiple of 8.
pub on_send_message-framed :
    (p : Protocol) (o : OutputMessage)
    → p.raw_messages ≡ false
    → p.encryption_enabled ≡ true
    → p.checksum_method ≢ none_
    → o.output_buffer_start ≡ 8
    → 8 + o.message.position < max_body_length
    → o.message.length_ + 16 < 2 ^ 16
    → (((on_send_message p o).1.message.length_ + 2) % 8 ≡ 0)
      × ((on_send_message p o).1.output_buffer_start ≡ 0)
unfolding on_send_message add_checksum
on_send_message-framed p o cooked crypt method fresh room fits =
    simp (cooked, crypt) (go p.checksum_method method)
  where
    go :
        (c : ChecksumMethod)
        → c ≢ none_
        → (((add_checksum c p (xtea_encrypt p.key (write_message_length o))).1.message.length_ + 2)
              % 8
            ≡ 0)
          × ((add_checksum c p (xtea_encrypt p.key (write_message_length o))).1.output_buffer_start
              ≡ 0)
    go none_ ne = absurd (ne refl)
    go adler32 ne =
        sealed p.key o (adler_checksum (output_bytes (xtea_encrypt p.key (write_message_length o))))
          fresh room fits
    go sequence ne = sealed p.key o p.sequence_number fresh room fits
