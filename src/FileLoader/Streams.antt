-- ===== src/FileLoader/Streams.antt =====
-- engine/src/fileloader.h: `PropStream`, the bytes that are left, and `PropWriteStream`.
use otx_teste.Common.{
  ℕ, ◌^◌, ◌<◌, ◌≡◌, refl, Bool, true, false, Option, none, some, List, [], ◌++◌, ltb, if◌then◌else◌,
  length, take, drop, arith, Bool-cases, inl, inr, take-append, drop-append, length-append,
}
use otx_teste.Network.Message.{le_bytes, le_value}
use otx_teste.Network.Message.Buffer.{length-le_bytes, le_value-le_bytes}
use mathlib.Core.List.{append_assoc}

abbrev pub PropStream : Type 0
PropStream = List ℕ

-- `read<T>` of a type of `n` bytes.
unfoldable pub read : ℕ → PropStream → Option ℕ × PropStream
unfolding le_value
read n s = if ltb (length s) n then (none, s) else (some (le_value (take n s)), drop n s)

unfoldable pub read_chars : Option ℕ → PropStream → Option (List ℕ) × PropStream
read_chars none s = (none, s)
read_chars (some n) s = if ltb (length s) n then (none, s) else (some (take n s), drop n s)

-- `readString`: where the text is cut off its length is gone from the stream.
unfoldable pub read_string : PropStream → Option (List ℕ) × PropStream
unfolding read read_chars
read_string s = let (n, left) = read 2 s in read_chars n left

unfoldable pub skip : ℕ → PropStream → Bool × PropStream
skip n s = if ltb (length s) n then (false, s) else (true, drop n s)

-- `write<T>` and `writeString`.
unfoldable pub write : ℕ → ℕ → List ℕ → List ℕ
unfolding le_bytes
write n v buffer = buffer ++ le_bytes n v

unfoldable pub write_string : List ℕ → List ℕ → List ℕ
unfolding write
write_string str buffer =
    if ltb 65535 (length str) then write 2 0 buffer else write 2 (length str) buffer ++ str

-- What a stream of a text's writer holds behind what was there before.
abbrev pub stored : List ℕ → List ℕ
stored str = if ltb 65535 (length str) then [] else str

long_enough : (n : ℕ) (xs rest : List ℕ) → length xs ≡ n → ltb (length (xs ++ rest)) n ≡ false
long_enough n xs rest e = ground (arith, length-append xs rest)

read-append :
    (n v : ℕ) (rest : List ℕ) → v < 256 ^ n → read n (le_bytes n v ++ rest) ≡ (some v, rest)
unfolding read
read-append n v rest fits =
    let e = length-le_bytes n v in
    rw (
      long_enough n (le_bytes n v) rest e,
      rw e at (take-append (le_bytes n v) rest),
      rw e at (drop-append (le_bytes n v) rest),
      le_value-le_bytes n v fits,
    )

read_chars-append :
    (str rest : List ℕ) → read_chars (some (length str)) (str ++ rest) ≡ (some str, rest)
unfolding read_chars
read_chars-append str rest =
    rw (long_enough (length str) str rest refl, take-append str rest, drop-append str rest)

-- What `writeString` puts behind anything already written, `readString` takes off again, whatever
-- follows: the text, or the empty text where it has more than 65535 characters, which the two
-- bytes of a length cannot count.
pub read_string-write_string :
    (str written rest : List ℕ)
    → read_string (drop (length written) (write_string str written ++ rest))
      ≡ (some (stored str), rest)
unfolding read_string write_string write
read_string-write_string str written rest = elim (Bool-cases (ltb 65535 (length str))) [
  | inl e ↦ rw (
    e,
    append_assoc written (le_bytes 2 0) rest,
    drop-append written (le_bytes 2 0 ++ rest),
    read-append 2 0 rest (omega arith),
    read_chars-append [] rest,
  )
  | inr e ↦ rw (
    e,
    append_assoc (written ++ le_bytes 2 (length str)) str rest,
    append_assoc written (le_bytes 2 (length str)) (str ++ rest),
    drop-append written (le_bytes 2 (length str) ++ (str ++ rest)),
    read-append 2 (length str) (str ++ rest) (ground arith),
    read_chars-append str rest,
  )
]
