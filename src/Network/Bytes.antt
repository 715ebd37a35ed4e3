-- ===== src/Network/Bytes.antt =====
-- Words in memory: what `memcpy` of a `uint16_t` or `uint32_t` stores on a little-endian machine.
use otx_teste.Common.{ℕ, zero, suc, ◌+◌, ◌*◌, ◌/◌, ◌%◌, ◌<◌, List, [], ◌∷◌, ◌++◌, take, drop}

abbrev pub bytes16 : ℕ → List ℕ
bytes16 w = w % 256 ∷ w / 256 % 256 ∷ []

abbrev pub bytes32 : ℕ → List ℕ
bytes32 w = w % 256 ∷ w / 256 % 256 ∷ w / 65536 % 256 ∷ w / 16777216 % 256 ∷ []

abbrev pub word16 : ℕ → ℕ → ℕ
word16 a b = a + 256 * b

abbrev pub word32 : ℕ → ℕ → ℕ → ℕ → ℕ
word32 a b c d = a + 256 * b + 65536 * c + 16777216 * d

-- The elements are bytes.
abbrev pub AreBytes : List ℕ → Type 0
AreBytes [] = Unit {0}
AreBytes (b ∷ bs) = (b < 256) × AreBytes bs

pub AreBytes-take : (n : ℕ) (bs : List ℕ) → AreBytes bs → AreBytes (take n bs)
AreBytes-take zero bs p = tt
AreBytes-take (suc n) [] p = tt
AreBytes-take (suc n) (b ∷ bs) p = (p.0, AreBytes-take n bs p.1)

pub AreBytes-drop : (n : ℕ) (bs : List ℕ) → AreBytes bs → AreBytes (drop n bs)
AreBytes-drop zero bs p = p
AreBytes-drop (suc n) [] p = tt
AreBytes-drop (suc n) (b ∷ bs) p = AreBytes-drop n bs p.1

pub AreBytes-append : (bs cs : List ℕ) → AreBytes bs → AreBytes cs → AreBytes (bs ++ cs)
AreBytes-append [] cs p q = q
AreBytes-append (b ∷ bs) cs p q = (p.0, AreBytes-append bs cs p.1 q)
