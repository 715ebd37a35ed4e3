-- ===== src/Network/Protocol/Sealed.antt =====
-- What `onSendMessage` of engine/src/protocol.cpp sends, as `XTEA_decrypt` reads it.
use mathlib.Core.List.{append_assoc}
use otx_teste.Common.{
  ℕ, ◌||◌, Bool, ◌+◌, ◌-◌, ◌%◌, ◌^◌, ◌<◌, ◌≤◌, ◌≡◌, ◌≢◌, refl, sym, ap, ◌∙◌, true, false, ◌==◌, ltb,
  leb, arith, List, ◌++◌, length, take, drop, length-append, length-take, length-drop, take-append,
  drop-drop,
}
use otx_teste.Network.Bytes.{AreBytes, AreBytes-take, AreBytes-drop}
use otx_teste.Network.Message.{
  Message, max_body_length, networkmessage_maxsize, can_read, get, overwrite, le_bytes, le_value,
}
use otx_teste.Network.Message.Buffer.{
  length-overwrite, drop-overwrite, length-le_bytes, le_value-le_bytes,
}
use otx_teste.Network.Message.Written.{IsSound}
use otx_teste.Network.Xtea.{Key, encrypt_blocks, decrypt_blocks}
use otx_teste.Network.Xtea.Blocks.{decrypt_blocks-encrypt_blocks, length-encrypt_blocks}
use otx_teste.Network.Checksum.{adler_checksum}
use otx_teste.Network.Protocol.{
  output_bytes, OutputMessage, Protocol, ChecksumMethod, none_, adler32, sequence, add_header,
  write_message_length, add_crypto_header, pad, xtea_encrypt, add_checksum, on_send_message,
  open_message, xtea_decrypt,
}
use otx_teste.Network.Protocol.Packing.{
  take_add, drop-overwrite_after, Packed, content, length-content, write_message_length-Packed,
  pad-Packed,
}
use otx_teste.Network.Protocol.Framing.{on_send_message-framed}

-- A write that ends before leaves what is behind.
drop-overwrite_before :
    (at n : ℕ) (bs buffer : List ℕ)
    → at + length bs ≤ n
    → at + length bs ≤ length buffer
    → drop n (overwrite at bs buffer) ≡ drop n buffer
drop-overwrite_before at n bs buffer before fits =
    let split : at + length bs + (n - (at + length bs)) ≡ n = omega arith in
    rw (← split) (drop-overwrite_after at (n - (at + length bs)) bs buffer fits)

-- What `XTEA_decrypt` finds in a buffer that was decrypted: `l`, and the `l` bytes that follow.
pub record Opens (l : ℕ) (text : List ℕ) (opened : Message × Bool) : Type 0 where
  pub accepted : opened.1 ≡ true
  pub shortened : opened.0.length_ ≡ l
  pub same : take l (drop opened.0.position opened.0.buffer) ≡ text

get-length :
    (n l : ℕ) (r : Bool) (b rest : List ℕ)
    → l < 2 ^ 16
    → drop 6 b ≡ le_bytes 2 l ++ rest
    → get 2 (record { length_ = n; position = 6; overrun = r; buffer = b })
      ≡ (l, record { length_ = n; position = 8; overrun = r; buffer = b })
unfolding get can_read
get-length n l r b rest small holds =
    let readable : (ltb (n + 8) 8 || leb 65494 2) ≡ false = ground arith in
    let two : take 2 (drop 6 b) ≡ le_bytes 2 l = rw holds (unfold le_bytes in refl) in
    let value : le_value (take 2 (drop 6 b)) ≡ l =
      ap le_value two ∙ le_value-le_bytes 2 l (omega arith) in
    rw readable (rw value refl)

open_message-Opens :
    (n l : ℕ) (r : Bool) (b text rest : List ℕ)
    → l + 8 ≤ n
    → n ≤ networkmessage_maxsize
    → length text ≡ l
    → drop 6 b ≡ le_bytes 2 l ++ (text ++ rest)
    → Opens l text (open_message (record { length_ = n; position = 6; overrun = r; buffer = b }))
unfolding open_message
open_message-Opens n l r b text rest long fits size holds =
    let after : drop 8 b ≡ text ++ rest =
      sym (drop-drop 6 2 b) ∙ ap (drop 2) holds ∙ (unfold le_bytes in refl) in
    let whole : ltb n (l + 8) ≡ false = ground arith in
    rw (get-length n l r b (text ++ rest) (omega arith) holds, whole)
      (record {
        accepted = refl;
        shortened = refl;
        same = rw (after, ← size) (take-append text rest);
      })

xtea_decrypt-Opens :
    (k : Key) (n l : ℕ) (r : Bool) (b clear text more rest : List ℕ)
    → n % 8 ≡ 0
    → l + 2 ≤ n
    → n + 6 ≤ networkmessage_maxsize
    → length b ≡ networkmessage_maxsize
    → length text ≡ l
    → AreBytes clear
    → length clear ≡ n
    → clear ≡ le_bytes 2 l ++ (text ++ more)
    → drop 6 b ≡ encrypt_blocks k clear ++ rest
    → Opens l text
        (xtea_decrypt k (record { length_ = n + 6; position = 6; overrun = r; buffer = b }))
unfolding xtea_decrypt
xtea_decrypt-Opens k n l r b clear text more rest even long fits sized size bytes whole split
      holds =
    let accepted : ((n + 6 + 2) % 8 == 0) ≡ true = ground arith in
    let count : n + 6 - 6 ≡ length (encrypt_blocks k clear) =
      omega (arith, length-encrypt_blocks k clear, whole) in
    let taken : take (n + 6 - 6) (drop 6 b) ≡ encrypt_blocks k clear =
      rw (count, holds) (take-append (encrypt_blocks k clear) rest) in
    let back : decrypt_blocks k (take (n + 6 - 6) (drop 6 b)) ≡ clear =
      ap (decrypt_blocks k) taken ∙ decrypt_blocks-encrypt_blocks k clear bytes in
    let behind = drop-overwrite 6 clear b (omega (arith, whole, sized)) in
    let all : drop 6 (overwrite 6 clear b)
        ≡ le_bytes 2 l ++ (text ++ (more ++ drop (6 + length clear) b)) =
      behind ∙ ap (λ (x : List ℕ). x ++ drop (6 + length clear) b) split ∙ simp append_assoc in
    rw (accepted, back)
      (open_message-Opens (n + 6) l r (overwrite 6 clear b) text (more ++ drop (6 + length clear) b)
        (omega arith) fits size all)

-- A message that went out, as the other side holds it with its headers read.
abbrev pub received : OutputMessage → Message
received o = record o.message { position = 6 }

split_at : (m n : ℕ) (xs : List ℕ) → m ≤ n → take n xs ≡ take m xs ++ take (n - m) (drop m xs)
split_at m n xs h =
    let whole : m + (n - m) ≡ n = omega arith in
    ap (λ (j : ℕ). take j xs) (sym whole) ∙ take_add m (n - m) xs

sealed-Opens :
    (k : Key) (checksum l : ℕ) (text : List ℕ) (o : OutputMessage)
    → Packed (le_bytes 2 l ++ text) (pad o)
    → (pad o).message.length_ % 8 ≡ 0
    → length text ≡ l
    → Opens l text (xtea_decrypt k (received (add_crypto_header true checksum (xtea_encrypt k o))))
unfolding xtea_encrypt add_crypto_header write_message_length add_header
sealed-Opens k checksum l text o p even size =
    let n = (pad o).message.length_ in
    let buf = (pad o).message.buffer in
    let clear = take n (drop 6 buf) in
    let inner = le_bytes 2 l ++ text in
    let b3 = overwrite 6 (encrypt_blocks k clear) buf in
    let b4 = overwrite 2 (le_bytes 4 checksum) b3 in
    let total : (n + 4) % 2 ^ 16 ≡ n + 4 = omega (arith, p.fits) in
    let total' : (n + 4 + 2) % 2 ^ 16 ≡ n + 6 = omega (arith, p.fits) in
    let inside : l + 2 ≤ n =
      omega (arith, length-append (le_bytes 2 l) text, length-le_bytes 2 l, p.enough, size) in
    let whole : length clear ≡ n =
      omega (arith, length-take n (drop 6 buf), length-drop 6 buf, p.sized, p.fits) in
    let sizes = length-encrypt_blocks k clear in
    let room3 : 6 + length (encrypt_blocks k clear) ≤ length buf =
      omega (arith, sizes, whole, p.sized) in
    let size3 = length-overwrite 6 (encrypt_blocks k clear) buf room3 in
    let room4 : 2 + length (le_bytes 4 checksum) ≤ length b3 =
      omega (arith, length-le_bytes 4 checksum, size3, p.sized) in
    let size4 = length-overwrite 2 (le_bytes 4 checksum) b3 room4 in
    let room5 : 0 + length (le_bytes 2 (n + 4)) ≤ length b4 =
      omega (arith, length-le_bytes 2 (n + 4), size4, size3, p.sized) in
    let size5 = length-overwrite 0 (le_bytes 2 (n + 4)) b4 room5 in
    let split : clear ≡ inner ++ take (n - length inner) (drop (length inner) (drop 6 buf)) =
      split_at (length inner) n (drop 6 buf) p.enough
      ∙ ap (λ (x : List ℕ). x ++ take (n - length inner) (drop (length inner) (drop 6 buf)))
          p.holds in
    rw (p.start, total, total')
      (xtea_decrypt-Opens k n l (pad o).message.overrun (overwrite 0 (le_bytes 2 (n + 4)) b4) clear
        text (take (n - length inner) (drop (length inner) (drop 6 buf)))
        (drop (6 + length (encrypt_blocks k clear)) buf) even inside (omega (arith, p.fits))
        (size5 ∙ size4 ∙ size3 ∙ p.sized) size
        (AreBytes-take n (drop 6 buf) (AreBytes-drop 6 buf p.bytes)) whole
        (split ∙ simp append_assoc)
        (drop-overwrite_before 0 6 (le_bytes 2 (n + 4)) b4
            (omega (arith, length-le_bytes 2 (n + 4))) room5
          ∙ drop-overwrite_before 2 6 (le_bytes 4 checksum) b3
              (omega (arith, length-le_bytes 4 checksum)) room4
          ∙ drop-overwrite 6 (encrypt_blocks k clear) buf room3))

headed-Opens :
    (k : Key) (checksum : ℕ) (o : OutputMessage)
    → o.output_buffer_start ≡ 8
    → IsSound o.message
    → 8 + o.message.position < max_body_length
    → AreBytes o.message.buffer
    → Opens o.message.length_ (output_bytes o) (
        xtea_decrypt k
          (received (add_crypto_header true checksum (xtea_encrypt k (write_message_length o)))))
headed-Opens k checksum o fresh s room b =
    let headed = write_message_length o in
    let l = o.message.length_ in
    let n = length-content o fresh s room b in
    let longer : headed.message.length_ ≡ l + 2 =
      unfold write_message_length add_header in omega (arith, s.at_end) in
    let still : headed.message.position ≡ o.message.position =
      unfold write_message_length add_header in refl in
    let padded =
      pad-Packed (content o) headed (write_message_length-Packed o fresh s room b)
        (omega (arith, n, longer)) (omega (arith, longer, still, s.at_end))
        (omega (arith, still)) in
    let text = output_bytes o in
    sealed-Opens k checksum l text headed padded.0 padded.1
      (omega (arith, n, length-append (le_bytes 2 l) text, length-le_bytes 2 l))

-- A message of bytes, written into a fresh buffer up to its position, that an encrypting protocol
-- with checksums sends, with room for padding and headers: what goes out starts with the buffer, and
-- the other side's `XTEA_decrypt` under the same key accepts it and finds its length and its bytes
-- as they were before `onSendMessage`.
pub xtea_decrypt-on_send_message :
    (p : Protocol) (o : OutputMessage)
    → p.raw_messages ≡ false
    → p.encryption_enabled ≡ true
    → p.checksum_method ≢ none_
    → o.output_buffer_start ≡ 8
    → IsSound o.message
    → 8 + o.message.position < max_body_length
    → AreBytes o.message.buffer
    → ((on_send_message p o).1.output_buffer_start ≡ 0)
      × Opens o.message.length_
          (output_bytes o)
          (xtea_decrypt p.key (received (on_send_message p o).1))
unfolding on_send_message add_checksum
xtea_decrypt-on_send_message p o cooked crypt method fresh s room b = (started, opened)
  where
    go :
        (c : ChecksumMethod)
        → c ≢ none_
        → Opens o.message.length_ (output_bytes o) (
            xtea_decrypt p.key
              (received (add_checksum c p (xtea_encrypt p.key (write_message_length o))).1))
    go none_ ne = absurd (ne refl)
    go adler32 ne =
        headed-Opens p.key
          (adler_checksum (output_bytes (xtea_encrypt p.key (write_message_length o)))) o fresh s
          room b
    go sequence ne = headed-Opens p.key p.sequence_number o fresh s room b

    started : (on_send_message p o).1.output_buffer_start ≡ 0
    started =
        (on_send_message-framed p o cooked crypt method fresh (omega arith)
          (omega (arith, s.at_end))).1

    opened :
        Opens o.message.length_
          (output_bytes o)
          (xtea_decrypt p.key (received (on_send_message p o).1))
    opened = simp (cooked, crypt) (go p.checksum_method method)
