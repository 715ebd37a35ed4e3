-- ===== src/Network/Protocol/Packing.antt =====
-- The length and the padding that engine/src/protocol.cpp puts around a message, in its buffer.
use Prim.Native.Nat.add
use otx_teste.Common.{
  ℕ, zero, suc, ◌+◌, ◌-◌, ◌/◌, ◌%◌, ◌<◌, ◌≤◌, ◌≡◌, refl, sym, ap, ◌∙◌, true, ◌==◌, ltb, Bool-cases,
  inl, inr, arith, List, [], ◌∷◌, ◌++◌, length, take, drop, replicate, length-append, length-take,
  length-drop, length-replicate, take-append, drop-append, drop-drop, drop-take,
}
use otx_teste.Network.Bytes.{AreBytes, AreBytes-take, AreBytes-drop, AreBytes-append}
use otx_teste.Network.Message.{
  max_body_length, networkmessage_maxsize, can_add, add_padding_bytes, overwrite, le_bytes,
}
use otx_teste.Network.Message.Buffer.{length-overwrite, drop-overwrite, length-le_bytes}
use otx_teste.Network.Message.Written.{IsSound}
use otx_teste.Network.Protocol.{output_bytes, OutputMessage, add_header, write_message_length, pad}

pub take_add : (a b : ℕ) (xs : List ℕ) → take (a + b) xs ≡ take a xs ++ take b (drop a xs)
take_add zero b xs = rw add.zero
take_add (suc a) zero [] = rw add.suc refl
take_add (suc a) (suc b) [] = rw add.suc refl
take_add (suc a) b (x ∷ xs) = rw (add.suc, take_add a b xs)

pub overwrite-AreBytes :
    (at : ℕ) (bs buffer : List ℕ)
    → AreBytes bs
    → AreBytes buffer
    → AreBytes (overwrite at bs buffer)
unfolding overwrite
overwrite-AreBytes at bs buffer p q =
    AreBytes-append (take at buffer) (bs ++ drop (at + length bs) buffer)
      (AreBytes-take at buffer q)
      (AreBytes-append bs (drop (at + length bs) buffer) p
        (AreBytes-drop (at + length bs) buffer q))

le_bytes-AreBytes : (n v : ℕ) → AreBytes (le_bytes n v)
unfolding le_bytes
le_bytes-AreBytes zero v = tt
le_bytes-AreBytes (suc n) v = (omega arith, le_bytes-AreBytes n (v / 256))

-- What lies behind the bytes that are written stays.
pub drop-overwrite_after :
    (at r : ℕ) (bs buffer : List ℕ)
    → at + length bs ≤ length buffer
    → drop (at + length bs + r) (overwrite at bs buffer) ≡ drop (at + length bs + r) buffer
drop-overwrite_after at r bs buffer fits =
    sym (drop-drop (at + length bs) r (overwrite at bs buffer))
    ∙ ap (drop r) (
        sym (drop-drop at (length bs) (overwrite at bs buffer))
        ∙ ap (drop (length bs)) (drop-overwrite at bs buffer fits)
        ∙ drop-append bs (drop (at + length bs) buffer))
    ∙ drop-drop (at + length bs) r buffer

-- What lies before them as well.
take-overwrite :
    (at : ℕ) (bs buffer : List ℕ)
    → at + length bs ≤ length buffer
    → take at (overwrite at bs buffer) ≡ take at buffer
unfolding overwrite
take-overwrite at bs buffer fits =
    let n : length (take at buffer) ≡ at = omega (arith, length-take at buffer) in
    ap (λ k. take k (overwrite at bs buffer)) (sym n) ∙ take-append (take at buffer) _

pub replicate-AreBytes : (k b : ℕ) → b < 256 → AreBytes (replicate k b)
replicate-AreBytes zero b h = tt
replicate-AreBytes (suc k) b h = (h, replicate-AreBytes k b h)

-- A message whose buffer holds `content` from its start, which is at 6.
pub record Packed (content : List ℕ) (o : OutputMessage) : Type 0 where
  pub start : o.output_buffer_start ≡ 6
  pub sized : length o.message.buffer ≡ networkmessage_maxsize
  pub bytes : AreBytes o.message.buffer
  pub enough : length content ≤ o.message.length_
  pub fits : 6 + o.message.length_ ≤ networkmessage_maxsize
  pub holds : take (length content) (drop 6 o.message.buffer) ≡ content

-- The length that stands in front, and what the message holds.
abbrev pub content : OutputMessage → List ℕ
content o = le_bytes 2 o.message.length_ ++ output_bytes o

module _ (o : OutputMessage) (fresh : o.output_buffer_start ≡ 8) (s : IsSound o.message)
    (room : 8 + o.message.position < max_body_length) (b : AreBytes o.message.buffer) where
  pub length-content : length (content o) ≡ o.message.length_ + 2
  length-content = rw fresh (
      omega (
        arith,
        length-append (le_bytes 2 o.message.length_)
            (take o.message.length_ (drop 8 o.message.buffer)),
        length-le_bytes 2 o.message.length_,
        length-take o.message.length_ (drop 8 o.message.buffer),
        length-drop 8 o.message.buffer,
        s.sized,
        s.at_end,
      ))

  pub write_message_length-Packed : Packed (content o) (write_message_length o)
  unfolding write_message_length add_header
  write_message_length-Packed =
      let l = o.message.length_ in
      let room' : 6 + length (le_bytes 2 l) ≤ length o.message.buffer =
        omega (arith, length-le_bytes 2 l, s.sized) in
      let behind = drop-overwrite 6 (le_bytes 2 l) o.message.buffer room' in
      let eight : 6 + length (le_bytes 2 l) ≡ 8 = omega (arith, length-le_bytes 2 l) in
      let n : length (content o) ≡ suc (suc l) = omega (arith, length-content) in
      record {
        start = rw fresh refl;
        sized = rw fresh (length-overwrite 6 (le_bytes 2 l) o.message.buffer room' ∙ s.sized);
        bytes =
            overwrite-AreBytes (o.output_buffer_start - 2) (le_bytes 2 l) o.message.buffer
              (le_bytes-AreBytes 2 l) b;
        enough = omega (arith, length-content, s.at_end);
        fits = omega (arith, s.at_end);
        holds = rw (n, fresh, behind, eight) (unfold le_bytes in refl);
      }

pub pad-Packed :
    (c : List ℕ) (o : OutputMessage)
    → Packed c o
    → length c ≡ o.message.length_
    → o.message.position ≡ 6 + o.message.length_
    → 8 + o.message.position < max_body_length
    → Packed c (pad o) × ((pad o).message.length_ % 8 ≡ 0)
unfolding pad add_padding_bytes can_add
pad-Packed c o p n at room = elim (Bool-cases (o.message.length_ % 8 == 0)) [
  | inl even ↦ simp even (p, ground arith)
  | inr odd ↦
      let l = o.message.length_ in
      let k = 8 - l % 8 in
      let fill : List ℕ = replicate k 0x33 in
      let fits : ltb (k + o.message.position) max_body_length ≡ true = ground arith in
      let room' : o.message.position + length fill ≤ length o.message.buffer =
        omega (arith, p.sized, length-replicate {A = ℕ} k 0x33) in
      let there : o.message.position ≡ 6 + length c = omega (arith, n, at) in
      simp (odd, fits)
        (
          record {
            start = p.start;
            sized = length-overwrite o.message.position fill o.message.buffer room' ∙ p.sized;
            bytes =
                overwrite-AreBytes o.message.position fill o.message.buffer
                  (replicate-AreBytes k 0x33 (omega arith)) p.bytes;
            enough = omega (arith, p.enough, at);
            fits = omega (arith, p.fits, at);
            holds =
                sym (drop-take 6 (length c) (overwrite o.message.position fill o.message.buffer))
                ∙ ap (drop 6) (
                    ap (λ (j : ℕ). take j (overwrite o.message.position fill o.message.buffer))
                      (sym there)
                    ∙ take-overwrite o.message.position fill o.message.buffer room'
                    ∙ ap (λ (j : ℕ). take j o.message.buffer) there)
                ∙ drop-take 6 (length c) o.message.buffer
                ∙ p.holds;
          },
          omega (arith, at),
        )
]
