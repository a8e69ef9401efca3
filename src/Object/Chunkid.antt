-- ===== src/Object/Chunkid.antt =====
-- luaO_chunkid stays inside its buffer, and what of the source it shows.
use native.Mathlib.Nat.{le_trans}
use cpplua.Prelude.{
  ℕ, ◌+◌, ◌-◌, ◌%◌, ◌^◌, ◌≤◌, ◌<◌, ◌≡◌, List, [], ◌∷◌, arith, ltb, Bool-cases, inl, inr,
  if◌then◌else◌, length, length-append, length-take, length-drop,
}
use cpplua.Prelude.Text.{first_line}
use cpplua.Object.{chunkid, chunkid_file, chunkid_text, shown, sub64}

length-first_line : (s : List ℕ) → length (first_line s) ≤ length s
unfolding first_line
length-first_line [] = omega arith
length-first_line (c ∷ s) = ground (arith, length-first_line s)

length-shown : (len n : ℕ) (s : List ℕ) → len ≤ n → len ≤ length s → length (shown len s) ≤ n + 3
unfolding shown
length-shown len n s h k = elim (Bool-cases (ltb len (length s))) [
  | inl cut ↦ rw (cut, length-append) (omega (arith, length-take len s))
  | inr whole ↦ rw whole (ground arith)
]

clip : (n len : ℕ) → ((if ltb n len then n else len) ≤ n) × ((if ltb n len then n else len) ≤ len)
clip n len = ground arith

module _ (bufflen : ℕ) (lo : 17 ≤ bufflen) (hi : bufflen < 2 ^ 64) where
  length-chunkid_file : (s : List ℕ) → length (chunkid_file s bufflen) < bufflen
  unfolding chunkid_file
  length-chunkid_file s = elim (Bool-cases (ltb ((bufflen + 2 ^ 64 - 8) % 2 ^ 64) (length s))) [
    | inl cut ↦ rw cut (ground (arith, length-drop (length s - (bufflen + 2 ^ 64 - 8) % 2 ^ 64) s))
    | inr whole ↦ rw whole (ground arith)
  ]

  length-chunkid_text : (s : List ℕ) → length (chunkid_text s bufflen) < bufflen
  unfolding chunkid_text
  length-chunkid_text s =
      let n = sub64 bufflen 17 in
      let e : n ≡ bufflen - 17 = omega arith in
      let len = length (first_line s) in
      let (few, inside) = clip n len in
      let fits =
        length-shown (if ltb n len then n else len) n s few
          (le_trans inside (length-first_line s)) in
      rw (length-append, length-append) (omega (arith, fits, e))

-- With a buffer of at least 17 bytes the C string of luaO_chunkid and its terminator fit the buffer,
-- for every source name.
pub chunkid-fits :
    (source : List ℕ) (bufflen : ℕ)
    → 17 ≤ bufflen
    → bufflen < 2 ^ 64
    → length (chunkid source bufflen) < bufflen
unfolding chunkid
chunkid-fits [] n lo hi = length-chunkid_text n lo hi []
chunkid-fits (c ∷ s) n lo hi = ground (
  arith,
  length-chunkid_text n lo hi (c ∷ s),
  length-chunkid_file n lo hi s,
  length-take (n - 1) s,
)
