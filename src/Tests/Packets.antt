-- ===== src/Tests/Packets.antt =====
-- Runs of the checksum and of the guards on messages.
use otx_teste.Common.{ℕ, ◌+◌, ◌≡◌, refl, arith, true, false, List, [], ◌∷◌, ◌++◌, replicate}
use otx_teste.Network.Message.{Message, le_value, overwrite}
use otx_teste.Network.Xtea.{
  Key, encrypt_blocks, decrypt_blocks, repeat, decrypt_round, sub32, encrypt_round, add32, mix,
  key_at,
}
use otx_teste.Network.Checksum.{pack, adler_checksum}
use otx_teste.Network.Checksum.Equivalence.{adler32, adler_checksum-adler32}
use otx_teste.Network.Protocol.{OutputMessage, Protocol, sequence, on_send_message, xtea_decrypt}
use otx_teste.Network.Bytes.{AreBytes}
use otx_teste.Network.Message.{put, networkmessage_maxsize, max_body_length}
use otx_teste.Network.Message.Written.{IsSound, put-IsSound}
use otx_teste.Network.Protocol.{output_bytes}
use otx_teste.Network.Protocol.Packing.{overwrite-AreBytes, replicate-AreBytes}
use otx_teste.Network.Protocol.Sealed.{Opens, received, xtea_decrypt-on_send_message}
use otx_teste.Common.{length-replicate, ◌<◌}

abbrev hello : List ℕ
hello = 104 ∷ 101 ∷ 108 ∷ 108 ∷ 111 ∷ []

hello_checksum : adler_checksum hello ≡ 0x062C0215
unfolding adler_checksum
hello_checksum = refl

adler_checksum-adler32_example : adler_checksum hello ≡ pack (adler32 1 0 hello)
adler_checksum-adler32_example =
    adler_checksum-adler32 hello
      (omega arith, (omega arith, (omega arith, (omega arith, (omega arith, tt))))) (omega arith)

abbrev key : Key
key = record { key0 = 1; key1 = 2; key2 = 3; key3 = 4 }

-- A message of three bytes that comes in, after its header and checksum.
abbrev incoming : Message
incoming = record {
  length_ = 14;
  position = 6;
  overrun = false;
  buffer = replicate 6 0 ++ encrypt_blocks key (3 ∷ 0 ∷ 20 ∷ 5 ∷ 7 ∷ 51 ∷ 51 ∷ 51 ∷ []);
}

accepted : (xtea_decrypt key incoming).1 ≡ true
unfolding xtea_decrypt encrypt_blocks le_value overwrite decrypt_blocks repeat decrypt_round sub32
    encrypt_round add32 mix key_at
accepted = refl

abbrev protocol : Protocol
protocol = record {
  key = key;
  raw_messages = false;
  encryption_enabled = true;
  checksum_method = sequence;
  sequence_number = 7;
}

-- A new message, and one that holds a text.
blank : Message
blank = record {
  length_ = 0;
  position = 8;
  overrun = false;
  buffer = replicate networkmessage_maxsize 0;
}

blank-IsSound : IsSound blank
unfolding blank
blank-IsSound = record {
  sized = length-replicate {A = ℕ} networkmessage_maxsize 0;
  at_end = refl;
  short = omega arith;
}

outgoing : OutputMessage
outgoing = record { output_buffer_start = 8; message = put hello blank }

outgoing-IsSound : IsSound outgoing.message
unfolding outgoing
outgoing-IsSound = put-IsSound hello blank blank-IsSound (unfold blank in omega arith)

outgoing-AreBytes : AreBytes outgoing.message.buffer
unfolding outgoing put blank
outgoing-AreBytes =
    overwrite-AreBytes 8 hello (replicate networkmessage_maxsize 0)
      (omega arith, (omega arith, (omega arith, (omega arith, (omega arith, tt)))))
      (replicate-AreBytes networkmessage_maxsize 0 (omega arith))

outgoing_start : outgoing.output_buffer_start ≡ 8
unfolding outgoing
outgoing_start = refl

outgoing_room : 8 + outgoing.message.position < max_body_length
unfolding outgoing put blank
outgoing_room = omega arith

xtea_decrypt-on_send_message_example :
    ((on_send_message protocol outgoing).1.output_buffer_start ≡ 0)
    × Opens outgoing.message.length_
        (output_bytes outgoing)
        (xtea_decrypt protocol.key (received (on_send_message protocol outgoing).1))
xtea_decrypt-on_send_message_example =
    xtea_decrypt-on_send_message protocol outgoing refl refl (λ e. cc) outgoing_start
      outgoing-IsSound outgoing_room outgoing-AreBytes
