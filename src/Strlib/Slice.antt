-- ===== src/Strlib/Slice.antt =====
-- lstrlib.cpp: str_sub, str_byte, str_rep, str_reverse, str_lower, str_upper and str_char.
pub mod Bounds
use cpplua.Prelude.{
  ℕ, zero, suc, ◌+◌, ◌-◌, ◌%◌, ◌^◌, Bool, true, false, ◌||◌, Option, none, some, List, [], ◌∷◌,
  ◌++◌, map, length, take, drop, ltb, leb, ◌==◌, if◌then◌else◌,
}
use cpplua.Prelude.Ctype.{tolower, toupper}
use cpplua.Prelude.Int.{ℤ, pos, negsuc, ◌+ℤ◌}
use cpplua.Prelude.Outcome.{Outcome, ok, err, fault}
use cpplua.Strlib.Find.{posrelat}

abbrev pub default : Option ℤ → ℤ → ℤ
default none d = d
default (some i) d = i

-- `if (start < 1) start = 1`
unfoldable pub at_least_one : ℤ → ℕ
at_least_one (pos zero) = 1
at_least_one (pos (suc n)) = suc n
at_least_one (negsuc n) = 1

-- The bytes from place `a` to place `b`, counted from 1, that is s + a - 1 with length b - a + 1. `none`
-- is a read out of bounds.
unfoldable pub bytes_between : List ℕ → ℕ → ℕ → Option (List ℕ)
bytes_between s a b = if ltb (length s) b then none else some (take (b - a + 1) (drop (a - 1) s))

-- `if (end > l) end = l`, then the test `start <= end`
unfoldable pub sub_until : List ℕ → ℕ → ℤ → Option (List ℕ)
unfolding bytes_between
sub_until s a (negsuc n) = some []
sub_until s a (pos e) =
    let b = if ltb (length s) e then length s else e in
    if leb a b then bytes_between s a b else some []

unfoldable pub str_sub : List ℕ → ℤ → Option ℤ → Option (List ℕ)
unfolding at_least_one sub_until posrelat
str_sub s i j =
    sub_until s (at_least_one (posrelat i (length s))) (posrelat (default j (negsuc 0)) (length s))

-- `if ((size_t)pose > l) pose = l`: cast to an unsigned size, a negative end exceeds every length.
unfoldable pub byte_end : ℤ → ℕ → ℕ
byte_end (negsuc n) l = l
byte_end (pos e) l = if ltb l e then l else e

-- the errors of str_byte
pub data SliceError : Type 0 where
  slice_too_long : SliceError
  stack_overflow : SliceError

-- LUAI_MAXCSTACK
abbrev pub max_cstack : ℕ
max_cstack = 2048

-- The test of lua_checkstack for `size` slots more, where the call has `used` of them.
unfoldable pub has_stack : ℕ → ℕ → Bool
has_stack used size = leb (used + size) max_cstack

-- The loop of str_byte over `n` bytes from place `a`; a byte that is not in the string is a fault.
unfoldable pub push_bytes : List ℕ → ℕ → ℕ → Outcome SliceError (List ℕ)
push_bytes s a n = if leb (a - 1 + n) (length s) then ok (take n (drop (a - 1) s)) else fault

-- Between places that are no empty interval: `n = (int)(pose - posi + 1)` is cut to 32 bits, and negative
-- from 2 ^ 31 on, where `posi + n <= pose` holds.
unfoldable pub byte_slice : ℕ → List ℕ → ℕ → ℕ → Outcome SliceError (List ℕ)
unfolding has_stack push_bytes
byte_slice used s a b =
    let n = (b - a + 1) % 2 ^ 32 in
    if leb (2 ^ 31) n || leb (a + n) b
    then err slice_too_long
    else if has_stack used n
    then push_bytes s a n
    else err stack_overflow

-- `used` is the number of slots that the call's arguments take.
unfoldable pub str_byte : ℕ → List ℕ → Option ℤ → Option ℤ → Outcome SliceError (List ℕ)
unfolding at_least_one byte_end byte_slice posrelat
str_byte used s i j =
    let posi = posrelat (default i (pos 1)) (length s) in
    let a = at_least_one posi in
    let b = byte_end (posrelat (default j posi) (length s)) (length s) in
    if leb a b then byte_slice used s a b else ok []

unfoldable pub rep : ℕ → List ℕ → List ℕ
rep zero s = []
rep (suc n) s = s ++ rep n s

-- `while (n-- > 0)`
unfoldable pub str_rep : List ℕ → ℤ → List ℕ
unfolding rep
str_rep s (pos n) = rep n s
str_rep s (negsuc n) = []

-- The loop `while (l--) luaL_addchar(&b, s[l])`.
unfoldable pub from_end : List ℕ → ℕ → Option (List ℕ)
from_end s zero = some []
from_end s (suc l) = elim (take 1 (drop l s)) [
  | [] ↦ none
  | c ∷ _ ↦ elim (from_end s l) [ none ↦ none | some cs ↦ some (c ∷ cs) ]
]

unfoldable pub str_reverse : List ℕ → Option (List ℕ)
unfolding from_end
str_reverse s = from_end s (length s)

unfoldable pub str_lower : List ℕ → List ℕ
unfolding tolower
str_lower s = map tolower s

unfoldable pub str_upper : List ℕ → List ℕ
unfolding toupper
str_upper s = map toupper s

-- Each argument has to be the value of an unsigned char.
unfoldable pub str_char : List ℤ → Option (List ℕ)
str_char [] = some []
str_char (negsuc n ∷ cs) = none
str_char (pos n ∷ cs) =
    if ltb n 256 then elim (str_char cs) [ none ↦ none | some s ↦ some (n ∷ s) ] else none
