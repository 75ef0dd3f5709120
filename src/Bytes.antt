-- ===== src/Bytes.antt =====
-- src/mp4_priv.h: words in network order (`htonl`, `ntohl`, `htons`, `ntohs`), as lists of bytes.
use libmp.Prelude.{
  ℕ, List, ◌++◌, length, ◌/◌, ◌∷◌, ◌<◌, ◌*◌, [], ◌≡◌, ◌^◌, ◌%◌, refl, ◌+◌, arith, length-append,
}
use mathlib.Core.List.{append_assoc}

-- The bytes of the low 32 and of the low 16 bits of a number
unfoldable pub be_32 : ℕ → List ℕ
be_32 v = v / 2 ^ 24 % 2 ^ 8 ∷ v / 2 ^ 16 % 2 ^ 8 ∷ v / 2 ^ 8 % 2 ^ 8 ∷ v % 2 ^ 8 ∷ []

unfoldable pub be_16 : ℕ → List ℕ
be_16 v = v / 2 ^ 8 % 2 ^ 8 ∷ v % 2 ^ 8 ∷ []

abbrev pub be_loop : ℕ → List ℕ → ℕ
be_loop acc [] = acc
be_loop acc (b ∷ bs) = be_loop (acc * 2 ^ 8 + b) bs

-- The number that the bytes spell
unfoldable pub from_be : List ℕ → ℕ
from_be bs = be_loop 0 bs

-- The words of one list after those of another
unfoldable pub words : List ℕ → List ℕ
words [] = []
words (w ∷ ws) = be_32 w ++ words ws

pub from_be-be_32 : (v : ℕ) → v < 2 ^ 32 → from_be (be_32 v) ≡ v
unfolding from_be be_32
from_be-be_32 v h = omega arith

pub from_be-be_16 : (v : ℕ) → v < 2 ^ 16 → from_be (be_16 v) ≡ v
unfolding from_be be_16
from_be-be_16 v h = omega arith

pub length-be_32 : (v : ℕ) → length (be_32 v) ≡ 4
unfolding be_32
length-be_32 v = refl

pub length-words : (ws : List ℕ) → length (words ws) ≡ 4 * length ws
unfolding words
length-words [] = refl
length-words (w ∷ ws) =
    omega (arith, length-append (be_32 w) (words ws), length-be_32 w, length-words ws)

pub words-append : (vs ws : List ℕ) → words (vs ++ ws) ≡ words vs ++ words ws
unfolding words
words-append [] ws = refl
words-append (v ∷ vs) ws = rw (words-append vs ws, append_assoc) refl
