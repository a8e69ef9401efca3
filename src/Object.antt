-- ===== src/Object.antt =====
-- lobject.cpp: sizes packed in a byte, integer logarithms, and the names of chunks.
-- Unsigned numbers have 32 bits.
pub mod Sizes
pub mod Log
pub mod Chunkid
use cpplua.Prelude.{
  ℕ, zero, suc, ◌+◌, ◌-◌, ◌*◌, ◌/◌, ◌%◌, ◌^◌, Bool, Option, none, some, List, [], ◌∷◌, ◌++◌, ◌==◌,
  ltb, leb, if◌then◌else◌, length, get_or, take, drop,
}
use cpplua.Prelude.Int.{ℤ, pos, negsuc, ◌+ℤ◌}
use cpplua.Prelude.Text.{codes, first_line}

-- the loop of luaO_int2fb; `none` is fuel that ran out
int2fb_loop : ℕ → ℕ → ℕ → Option (ℕ × ℕ)
int2fb_loop zero x e = none
int2fb_loop (suc fuel) x e =
    let rest = int2fb_loop fuel ((x + 1) % 2 ^ 32 / 2) (e + 1) in
    if leb 16 x then rest else some (x, e)

abbrev int2fb_result : ℕ × ℕ → ℕ
int2fb_result (x, e) = if ltb x 8 then x else (e + 1) * 8 + (x - 8)

-- luaO_int2fb: every round at least halves, so 30 rounds do
unfoldable pub int2fb : ℕ → Option ℕ
unfolding int2fb_loop
int2fb x = elim (int2fb_loop 30 x 0) [ none ↦ none | some p ↦ some (int2fb_result p) ]

-- luaO_fb2int
unfoldable pub fb2int : ℕ → ℕ
fb2int x = let e = x / 8 % 32 in if e == 0 then x else (x % 8 + 8) * 2 ^ (e - 1) % 2 ^ 32

-- the table log_2 of luaO_log2
abbrev log_2 : List ℕ
log_2 =
    0 ∷ 1 ∷ 2 ∷ 2 ∷ 3 ∷ 3 ∷ 3 ∷ 3 ∷ 4 ∷ 4 ∷ 4 ∷ 4 ∷ 4 ∷ 4 ∷ 4 ∷ 4 ∷ 5 ∷ 5 ∷ 5 ∷ 5 ∷ 5 ∷ 5 ∷ 5 ∷ 5
    ∷ 5 ∷ 5 ∷ 5 ∷ 5 ∷ 5 ∷ 5 ∷ 5 ∷ 5 ∷ 6 ∷ 6 ∷ 6 ∷ 6 ∷ 6 ∷ 6 ∷ 6 ∷ 6 ∷ 6 ∷ 6 ∷ 6 ∷ 6 ∷ 6 ∷ 6 ∷ 6 ∷ 6
    ∷ 6 ∷ 6 ∷ 6 ∷ 6 ∷ 6 ∷ 6 ∷ 6 ∷ 6 ∷ 6 ∷ 6 ∷ 6 ∷ 6 ∷ 6 ∷ 6 ∷ 6 ∷ 6 ∷ 7 ∷ 7 ∷ 7 ∷ 7 ∷ 7 ∷ 7 ∷ 7 ∷ 7
    ∷ 7 ∷ 7 ∷ 7 ∷ 7 ∷ 7 ∷ 7 ∷ 7 ∷ 7 ∷ 7 ∷ 7 ∷ 7 ∷ 7 ∷ 7 ∷ 7 ∷ 7 ∷ 7 ∷ 7 ∷ 7 ∷ 7 ∷ 7 ∷ 7 ∷ 7 ∷ 7 ∷ 7
    ∷ 7 ∷ 7 ∷ 7 ∷ 7 ∷ 7 ∷ 7 ∷ 7 ∷ 7 ∷ 7 ∷ 7 ∷ 7 ∷ 7 ∷ 7 ∷ 7 ∷ 7 ∷ 7 ∷ 7 ∷ 7 ∷ 7 ∷ 7 ∷ 7 ∷ 7 ∷ 7 ∷ 7
    ∷ 7 ∷ 7 ∷ 7 ∷ 7 ∷ 7 ∷ 7 ∷ 7 ∷ 7 ∷ 8 ∷ 8 ∷ 8 ∷ 8 ∷ 8 ∷ 8 ∷ 8 ∷ 8 ∷ 8 ∷ 8 ∷ 8 ∷ 8 ∷ 8 ∷ 8 ∷ 8 ∷ 8
    ∷ 8 ∷ 8 ∷ 8 ∷ 8 ∷ 8 ∷ 8 ∷ 8 ∷ 8 ∷ 8 ∷ 8 ∷ 8 ∷ 8 ∷ 8 ∷ 8 ∷ 8 ∷ 8 ∷ 8 ∷ 8 ∷ 8 ∷ 8 ∷ 8 ∷ 8 ∷ 8 ∷ 8
    ∷ 8 ∷ 8 ∷ 8 ∷ 8 ∷ 8 ∷ 8 ∷ 8 ∷ 8 ∷ 8 ∷ 8 ∷ 8 ∷ 8 ∷ 8 ∷ 8 ∷ 8 ∷ 8 ∷ 8 ∷ 8 ∷ 8 ∷ 8 ∷ 8 ∷ 8 ∷ 8 ∷ 8
    ∷ 8 ∷ 8 ∷ 8 ∷ 8 ∷ 8 ∷ 8 ∷ 8 ∷ 8 ∷ 8 ∷ 8 ∷ 8 ∷ 8 ∷ 8 ∷ 8 ∷ 8 ∷ 8 ∷ 8 ∷ 8 ∷ 8 ∷ 8 ∷ 8 ∷ 8 ∷ 8 ∷ 8
    ∷ 8 ∷ 8 ∷ 8 ∷ 8 ∷ 8 ∷ 8 ∷ 8 ∷ 8 ∷ 8 ∷ 8 ∷ 8 ∷ 8 ∷ 8 ∷ 8 ∷ 8 ∷ 8 ∷ 8 ∷ 8 ∷ 8 ∷ 8 ∷ 8 ∷ 8 ∷ 8 ∷ 8
    ∷ 8 ∷ 8 ∷ 8 ∷ 8 ∷ 8 ∷ 8 ∷ 8 ∷ 8 ∷ 8 ∷ 8 ∷ 8 ∷ 8 ∷ 8 ∷ 8 ∷ 8 ∷ 8 ∷ []

log2_loop : ℕ → ℕ → ℤ → Option (ℕ × ℤ)
log2_loop zero x l = none
log2_loop (suc fuel) x l =
    let rest = log2_loop fuel (x / 2 ^ 8) (l +ℤ pos 8) in if leb 256 x then rest else some (x, l)

-- luaO_log2: four rounds exhaust 32 bits
unfoldable pub log2 : ℕ → Option ℤ
unfolding log2_loop
log2 x = elim (log2_loop 4 x (negsuc 0)) [
  | none ↦ none
  | some (y, l) ↦ some (l +ℤ pos (get_or log_2 y 0))
]

-- macro ceillog2; `x - 1` is on unsigned numbers
unfoldable pub ceillog2 : ℕ → Option ℤ
ceillog2 x = elim (log2 ((x + 2 ^ 32 - 1) % 2 ^ 32)) [ none ↦ none | some l ↦ some (l +ℤ pos 1) ]

-- `bufflen -= k` on a size_t
abbrev pub sub64 : ℕ → ℕ → ℕ
sub64 n k = (n + 2 ^ 64 - k) % 2 ^ 64

-- the `@` case of luaO_chunkid, past the `@`; `sizeof(" '...' ")` is 8
chunkid_file : List ℕ → ℕ → List ℕ
chunkid_file source bufflen =
    let n = sub64 bufflen 8 in
    let l = length source in if ltb n l then codes "..." ++ drop (l - n) source else source

-- the text between the quotes in the last case, `len` characters of the source at most
unfoldable pub shown : ℕ → List ℕ → List ℕ
shown len source = if ltb len (length source) then take len source ++ codes "..." else source

-- the last case; `sizeof(" [string \"...\"] ")` is 17
chunkid_text : List ℕ → ℕ → List ℕ
unfolding first_line shown
chunkid_text source bufflen =
    let n = sub64 bufflen 17 in
    let len = length (first_line source) in
    codes "[string \"" ++ (shown (if ltb n len then n else len) source ++ codes "\"]")

-- luaO_chunkid: the C string that it leaves in `out`, without its terminator
unfoldable pub chunkid : List ℕ → ℕ → List ℕ
unfolding chunkid_file chunkid_text
chunkid [] bufflen = chunkid_text [] bufflen
chunkid (c ∷ source) bufflen =
    if c == b'='
    then take (bufflen - 1) source
    else if c == b'@'
    then chunkid_file source bufflen
    else chunkid_text (c ∷ source) bufflen
