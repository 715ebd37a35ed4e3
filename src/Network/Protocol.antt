-- ===== src/Network/Protocol.antt =====
-- engine/src/outputmessage.h and protocol.cpp: the headers in front of a message that goes out, and
-- the guards on one that comes in.
pub mod Framing
pub mod Packing
pub mod Sealed
use otx_teste.Common.{
  ℕ, zero, suc, ◌+◌, ◌-◌, ◌%◌, ◌^◌, Bool, true, false, not, List, length, take, drop, ltb, ◌==◌,
  if◌then◌else◌,
}
use otx_teste.Network.Message.{Message, add_padding_bytes, get, overwrite, le_bytes, put}
use otx_teste.Network.Xtea.{Key, encrypt_blocks, decrypt_blocks}
use otx_teste.Network.Checksum.{adler_checksum}

-- `OutputMessage`.
pub record OutputMessage : Type 0 where
  pub message : Message
  pub output_buffer_start : ℕ

-- `add_header` of a type of `n` bytes. The assertion holds for the headers that are written.
unfoldable pub add_header : ℕ → ℕ → OutputMessage → OutputMessage
add_header n v o =
    let start = o.output_buffer_start - n in
    record {
      output_buffer_start = start;
      message = record o.message {
        buffer = overwrite start (le_bytes n v) o.message.buffer;
        length_ = (o.message.length_ + n) % 2 ^ 16;
      };
    }

-- `writeMessageLength`.
unfoldable pub write_message_length : OutputMessage → OutputMessage
unfolding add_header
write_message_length o = add_header 2 o.message.length_ o

-- `addCryptoHeader`.
unfoldable pub add_crypto_header : Bool → ℕ → OutputMessage → OutputMessage
unfolding add_header write_message_length
add_crypto_header true checksum o = write_message_length (add_header 4 checksum o)
add_crypto_header false checksum o = write_message_length o

-- `append`, for a message that fits.
unfoldable pub append : Message → OutputMessage → OutputMessage
unfolding put
append m o = record o { message = put (take m.length_ (drop 8 m.buffer)) o.message }

-- The bytes of the message, from the start of the buffer that goes out.
abbrev pub output_bytes : OutputMessage → List ℕ
output_bytes o = take o.message.length_ (drop o.output_buffer_start o.message.buffer)

-- The padding of `XTEA_encrypt`.
unfoldable pub pad : OutputMessage → OutputMessage
unfolding add_padding_bytes
pad o =
    let padding_bytes = o.message.length_ % 8 in
    if padding_bytes == 0
    then o
    else record o { message = add_padding_bytes (8 - padding_bytes) o.message }

-- `XTEA_encrypt`.
unfoldable pub xtea_encrypt : Key → OutputMessage → OutputMessage
unfolding pad encrypt_blocks overwrite
xtea_encrypt k o =
    let p = pad o in
    record p {
      message = record p.message {
        buffer =
            overwrite p.output_buffer_start (encrypt_blocks k (output_bytes p)) p.message.buffer;
      };
    }

-- `checksumMethods_t`.
pub data ChecksumMethod : Type 0 where
  none_ adler32 sequence : ChecksumMethod

-- What `Protocol` keeps.
pub record Protocol : Type 0 where
  pub key : Key
  pub raw_messages : Bool
  pub encryption_enabled : Bool
  pub checksum_method : ChecksumMethod
  pub sequence_number : ℕ

-- The headers of an encrypted message, by the method.
unfoldable pub add_checksum : ChecksumMethod → Protocol → OutputMessage → Protocol × OutputMessage
unfolding add_crypto_header
add_checksum none_ p o = (p, add_crypto_header false 0 o)
add_checksum adler32 p o = (p, add_crypto_header true (adler_checksum (output_bytes o)) o)
add_checksum sequence p o = (
  record p { sequence_number = (p.sequence_number + 1) % 2 ^ 32 % 2 ^ 31 },
  add_crypto_header true p.sequence_number o,
)

-- `onSendMessage`.
unfoldable pub on_send_message : Protocol → OutputMessage → Protocol × OutputMessage
unfolding write_message_length xtea_encrypt add_checksum
on_send_message p o =
    if not p.raw_messages
    then (let headed = write_message_length o in
        if p.encryption_enabled
        then add_checksum p.checksum_method p (xtea_encrypt p.key headed)
        else (p, headed))
    else (p, o)

-- `XTEA_decrypt` after the blocks are decrypted.
unfoldable pub open_message : Message → Message × Bool
unfolding get
open_message m =
    let (inner_length, m') = get 2 m in
    if ltb m'.length_ (inner_length + 8)
    then (m', false)
    else (record m' { length_ = inner_length }, true)

-- `XTEA_decrypt`. The `int` `getLength() - 6`, its last three bits taken, is 0 when `getLength() + 2`
-- is a multiple of 8, below 6 too.
unfoldable pub xtea_decrypt : Key → Message → Message × Bool
unfolding open_message
xtea_decrypt k m =
    if not ((m.length_ + 2) % 8 == 0)
    then (m, false)
    else open_message (record m {
      buffer =
          overwrite m.position (decrypt_blocks k (take (m.length_ - 6) (drop m.position m.buffer)))
            m.buffer;
    })
