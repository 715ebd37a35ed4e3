-- ===== src/Network/Message/Written.antt =====
-- A message while it is written: what it holds, and what a read in the middle of it gives.
use mathlib.Core.List.{append_assoc}
use otx_teste.Common.{
  ℕ, ◌+◌, ◌%◌, ◌^◌, ◌<◌, ◌≡◌, refl, sym, ◌∙◌, true, List, [], ◌++◌, arith, length, take, drop,
  take-append, drop-append, drop-take, drop-drop, drop-append_le, length-append, length-take,
}
use otx_teste.Network.Message.{
  Message, put, get, get_chars, can_read, overwrite, le_value, max_body_length,
  networkmessage_maxsize,
}
use otx_teste.Network.Message.Buffer.{length-overwrite}

-- A message that is being written: what it holds ends at the position, short of the end.
pub record IsSound (m : Message) : Type 0 where
  pub sized : length m.buffer ≡ networkmessage_maxsize
  pub at_end : m.position ≡ m.length_ + 8
  pub short : m.position < max_body_length

-- `bs` may be written at the end of `m`.
abbrev pub HasRoom : List ℕ → Message → Type 0
HasRoom bs m = length bs + m.position < max_body_length

pub put-IsSound : (bs : List ℕ) (m : Message) → IsSound m → HasRoom bs m → IsSound (put bs m)
unfolding put
put-IsSound bs m s room = record {
  sized = length-overwrite m.position bs m.buffer (omega arith) ∙ s.sized;
  at_end = omega arith;
  short = omega arith;
}

pub position-put :
    (bs : List ℕ) (m : Message) → (put bs m).position ≡ (m.position + length bs) % 2 ^ 16
unfolding put
position-put bs m = refl

-- From `p` on, a message holds what was written since it was at `p`.
pub record Written (p : ℕ) (bs : List ℕ) (m : Message) : Type 0 where
  pub sound : IsSound m
  pub span : p + length bs ≡ m.position
  pub holds : (rest : List ℕ) × (drop p m.buffer ≡ bs ++ rest)

pub Written-nil : (m : Message) → IsSound m → Written m.position [] m
Written-nil m s = record { sound = s; span = omega arith; holds = (drop m.position m.buffer, refl) }

kept : (p : ℕ) (xs : List ℕ) (m : Message) → Written p xs m → drop p (take m.position m.buffer) ≡ xs
kept p xs m w =
    rw (← w.span) (drop-take p (length xs) m.buffer ∙ (rw w.holds.1 (take-append xs w.holds.0)))

drop-put :
    (p : ℕ) (xs bs : List ℕ) (m : Message)
    → Written p xs m
    → drop p (put bs m).buffer ≡ (xs ++ bs) ++ drop (m.position + length bs) m.buffer
unfolding put overwrite
drop-put p xs bs m w =
    drop-append_le p (take m.position m.buffer) _
      (let s = w.sound in omega (arith, length-take m.position m.buffer, w.span, s))
    ∙ (rw (kept p xs m w) (sym (append_assoc xs bs _)))

pub put-Written :
    (p : ℕ) (xs bs : List ℕ) (m : Message)
    → Written p xs m
    → HasRoom bs m
    → Written p (xs ++ bs) (put bs m)
put-Written p xs bs m w room = record {
  sound = put-IsSound bs m w.sound room;
  span = omega (arith, length-append xs bs, position-put bs m, w.sound);
  holds = (drop (m.position + length bs) m.buffer, drop-put p xs bs m w);
}

-- The reader's view of a written message: the same bytes, from an earlier position.
abbrev pub rewind : ℕ → Message → Message
rewind p m = record m { position = p }

-- A read of what was written after `xs` and before `zs`.
module _ (p : ℕ) (xs ys zs : List ℕ) (m : Message) (w : Written p (xs ++ (ys ++ zs)) m) where
  pub readable : can_read (length ys) (rewind (p + length xs) m) ≡ true
  unfolding can_read
  readable = ground (arith, w.sound, w.span, length-append xs (ys ++ zs), length-append ys zs)

  stored : take (length ys) (drop (p + length xs) m.buffer) ≡ ys
  stored =
      let tail = sym (drop-drop p (length xs) m.buffer) in
      rw tail (rw (w.holds.1, append_assoc, append_assoc, drop-append xs _) (take-append ys _))

  after_read : (p + length xs + length ys) % 2 ^ 16 ≡ p + length (xs ++ ys)
  after_read = omega (
    arith,
    w.sound,
    w.span,
    length-append xs ys,
    length-append xs (ys ++ zs),
    length-append ys zs,
  )

  pub get_chars-Written :
      get_chars (length ys) (rewind (p + length xs) m) ≡ (ys, rewind (p + length (xs ++ ys)) m)
  unfolding get_chars
  get_chars-Written = rw (readable, stored, after_read)

  pub get-Written :
      get (length ys) (rewind (p + length xs) m) ≡ (le_value ys, rewind (p + length (xs ++ ys)) m)
  unfolding get
  get-Written = rw (readable, stored, after_read)
