-- ===== src/Chunk/Bytes.antt =====
-- Numbers as their bytes in memory, lowest first, and the header of a chunk.
use cpplua.Prelude.{
  ℕ, zero, suc, ◌+◌, ◌*◌, ◌/◌, ◌%◌, ◌^◌, ◌<◌, ◌≡◌, refl, ap, List, [], ◌∷◌, ◌++◌, arith, length,
}
use native.Mathlib.Nat.{pow-suc}

-- the `k` bytes of `x`
abbrev pub to_bytes : ℕ → ℕ → List ℕ
to_bytes zero x = []
to_bytes (suc k) x = x % 256 ∷ to_bytes k (x / 256)

-- the number that stands in some bytes
abbrev pub of_bytes : List ℕ → ℕ
of_bytes [] = 0
of_bytes (b ∷ bs) = b + 256 * of_bytes bs

pub length-to_bytes : (k x : ℕ) → length (to_bytes k x) ≡ k
length-to_bytes zero x = refl
length-to_bytes (suc k) x = ap suc (length-to_bytes k (x / 256))

pub of_bytes-to_bytes : (k x : ℕ) → x < 256 ^ k → of_bytes (to_bytes k x) ≡ x
of_bytes-to_bytes zero x h = omega arith
of_bytes-to_bytes (suc k) x h =
    omega (arith, of_bytes-to_bytes k (x / 256) (omega (arith, pow-suc 256 k)))

-- the vector of words at `b`, `size` bytes each
abbrev pub vector_bytes : ℕ → List ℕ → List ℕ
vector_bytes size [] = []
vector_bytes size (x ∷ xs) = to_bytes size x ++ vector_bytes size xs

abbrev pub headersize : ℕ
headersize = 12

-- luaU_header: signature, version, format, endianness, four sizes, and whether numbers are integral
unfoldable pub chunk_header : List ℕ
chunk_header = 0x1b ∷ b'L' ∷ b'u' ∷ b'a' ∷ 0x51 ∷ 0 ∷ 1 ∷ 4 ∷ 8 ∷ 4 ∷ 8 ∷ 0 ∷ []
