-- ===== src/Tests/Patterns.antt =====
-- Strings and patterns on concrete inputs.
use cpplua.Prelude.{
  ℕ, ◌≡◌, refl, true, false, Option, none, some, List, [], ◌∷◌, length, replicate, arith,
}
use cpplua.Prelude.Int.{ℤ, pos, negsuc}
use cpplua.Prelude.Text.{codes}
use cpplua.Prelude.Outcome.{ok, err, fault}
use cpplua.Prelude.Post.{Ends}
use cpplua.Strlib.Pattern.{unfinished, MatchState}
use cpplua.Strlib.Pattern.Match.{match}
use cpplua.Strlib.Pattern.Captures.{Fits, Tries}
use cpplua.Strlib.Pattern.Sound.{match-Tries}
use cpplua.Strlib.Find.{num, str, lmemfind, str_find_aux, gmatch_aux, posrelat}
use cpplua.Strlib.Find.Plain.{naive, lmemfind-naive}
use cpplua.Strlib.Find.Ends.{Reported, str_find_aux-Ends, Moves, gmatch_aux-Moves}
use cpplua.Strlib.Replace.{Replacement, template}
use cpplua.Strlib.Slice.{
  default, str_sub, str_byte, stack_overflow, byte_slice, has_stack, byte_end, at_least_one,
}
use cpplua.Strlib.Slice.Bounds.{places, str_sub-places, str_byte-negative}
use cpplua.Strlib.Format.{is_flag, scanformat}
use cpplua.Strlib.Format.Overrun.{scanformat_overrun}

abbrev start : MatchState
start = record { level = 0; capture = λ i. record { init = 0; extent = unfinished } }

abbrev assignment : List ℕ
assignment = codes "key = value"

abbrev key_and_value : List ℕ
key_and_value = codes "(%w+)%s*=%s*(%w+)"

start-Fits : Fits 0 start
start-Fits = record { few = omega arith; within = λ i h. absurd (omega arith) }

find_runs :
    str_find_aux assignment true key_and_value (pos 1) false start
    ≡ ok (
      num 1 ∷ num 11 ∷ str (codes "key") ∷ str (codes "value") ∷ [],
      (elim (str_find_aux assignment true key_and_value (pos 1) false start) [
        | ok (_, t) ↦ t
        | _ ↦ start
      ]),
    )
unfolding str_find_aux
find_runs = refl

match-Tries_example : Tries assignment 0 start (match assignment key_and_value 20 0 0)
match-Tries_example =
    match-Tries assignment key_and_value 20 0 0 start (omega arith) (omega arith) (omega arith)
      start-Fits

lmemfind-naive_example :
    lmemfind (codes "ababac") (codes "abac") ≡ some (naive (codes "abac") (codes "ababac") 0)
lmemfind-naive_example = lmemfind-naive (codes "ababac") (codes "abac")

str_find_aux-Ends_example :
    Ends
      (λ vs _. Reported assignment key_and_value true vs)
      (str_find_aux assignment true key_and_value (negsuc 10) false)
      start
str_find_aux-Ends_example = str_find_aux-Ends assignment true key_and_value (negsuc 10) false start

gmatch_aux-Moves_example :
    Ends (Moves assignment (codes "%w*") 3) (gmatch_aux assignment (codes "%w*") 3) start
gmatch_aux-Moves_example = gmatch_aux-Moves assignment (codes "%w*") 3 start (omega arith)

abbrev no_limit : Option ℤ
no_limit = none

abbrev in_brackets : Replacement
in_brackets = template (codes "<%0>")

str_sub-places_example :
    str_sub assignment (negsuc 4) none
    ≡ some (
        places
          (posrelat (negsuc 4) (length assignment))
          (posrelat (default none (negsuc 0)) (length assignment))
          1
          assignment)
str_sub-places_example = str_sub-places assignment (negsuc 4) none

before_start : posrelat (negsuc 4) (length (codes "abc")) ≡ negsuc 0
unfolding posrelat
before_start = refl

str_byte-negative_example :
    (str_byte 3 (codes "abc") (some (pos 1)) (some (negsuc 4))
      ≡ ok (
          places
            (posrelat (pos 1) (length (codes "abc")))
            (pos (length (codes "abc")))
            1
            (codes "abc")))
    × (str_sub (codes "abc") (pos 1) (some (negsuc 4)) ≡ some [])
str_byte-negative_example =
    str_byte-negative 3 (codes "abc") (pos 1) (negsuc 4) 0 (omega arith) before_start

-- a string that the stack has no room for
long_slice : str_byte 3 (replicate 2046 b'x') (some (pos 1)) (some (pos 2046)) ≡ err stack_overflow
unfolding str_byte byte_slice has_stack byte_end at_least_one posrelat
long_slice = refl

all_flags : (is_flag b'-' ≡ true) × ((is_flag b'0' ≡ true) × Unit {0})
unfolding is_flag
all_flags = (refl, (refl, tt))

scanformat_overrun_example : scanformat (codes "x%-0") 2 start ≡ fault
scanformat_overrun_example = scanformat_overrun (codes "x%-0") 2 start all_flags (omega arith)
