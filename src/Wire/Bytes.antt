-- ===== src/Wire/Bytes.antt =====
-- Little-endian words: the bytes that the buf_put and buf_get functions of libnpfs/np.c move.
use npfs.Prelude.{
  ℕ, zero, suc, ◌+◌, ◌*◌, ◌/◌, ◌%◌, ◌<◌, ◌≡◌, refl, List, [], ◌∷◌, ◌++◌, arith, length, ap, ◌∙◌,
}
use mathlib.Core.List.{append_assoc}
use npfs.Types.{Npqid}

-- `p[0] = v; p[1] = v >> 8; …` for n bytes.
unfoldable pub le_bytes : ℕ → ℕ → List ℕ
le_bytes zero v = []
le_bytes (suc n) v = v % 256 ∷ le_bytes n (v / 256)

-- `p[0] | (p[1] << 8) | …`, where every element is a byte.
unfoldable pub le_word : List ℕ → ℕ
le_word [] = 0
le_word (b ∷ bs) = b + 256 * le_word bs

pub length-le_bytes : (n v : ℕ) → length (le_bytes n v) ≡ n
unfolding le_bytes
length-le_bytes zero v = refl
length-le_bytes (suc n) v = omega (arith, length-le_bytes n (v / 256))

pub le_word-bytes1 : (v : ℕ) → v < 256 → le_word (le_bytes 1 v) ≡ v
unfolding le_bytes le_word
le_word-bytes1 v h = omega arith

pub le_word-bytes2 : (v : ℕ) → v < 65536 → le_word (le_bytes 2 v) ≡ v
unfolding le_bytes le_word
le_word-bytes2 v h = omega arith

pub le_word-bytes4 : (v : ℕ) → v < 0x1_0000_0000 → le_word (le_bytes 4 v) ≡ v
unfolding le_bytes le_word
le_word-bytes4 v h = omega arith

pub le_word-bytes8 : (v : ℕ) → v < 0x1_0000_0000_0000_0000 → le_word (le_bytes 8 v) ≡ v
unfolding le_bytes le_word
le_word-bytes8 v h = omega arith

-- A qid: type[1] version[4] path[8].
unfoldable pub qid_bytes : Npqid → List ℕ
qid_bytes q = le_bytes 1 q.type ++ (le_bytes 4 q.version ++ le_bytes 8 q.path)

pub append_three : (a b c d : List ℕ) → (a ++ (b ++ c)) ++ d ≡ a ++ (b ++ (c ++ d))
append_three a b c d = append_assoc a (b ++ c) d ∙ ap (λ x. a ++ x) (append_assoc b c d)
