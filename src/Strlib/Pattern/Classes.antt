-- ===== src/Strlib/Pattern/Classes.antt =====
-- lstrlib.cpp: where a piece of a pattern ends, and whether it accepts a character.
use cpplua.Prelude.{
  ℕ, zero, suc, ◌+◌, ◌-◌, Bool, true, false, ◌&&◌, List, length, ltb, leb, ◌==◌, if◌then◌else◌,
}
use cpplua.Prelude.Ctype.{
  isalnum, isalpha, iscntrl, isdigit, islower, ispunct, isspace, isupper, isxdigit, tolower,
}
use cpplua.Prelude.Outcome.{◌>>=◌, pure, raise, stucks}
use cpplua.Strlib.Pattern.{Matcher, char_at, missing_bracket, ends_with_escape}

abbrev pub not : Bool → Bool
not true = false
not false = true

-- a letter of a class, in either case; upper case stands for the complement
unfoldable pub match_class : ℕ → ℕ → Bool
unfolding isalnum isalpha iscntrl isdigit islower ispunct isspace isupper isxdigit tolower
match_class c cl =
    let in_class = λ (res : Bool). if islower cl then res else not res in
    let l = tolower cl in
    if l == b'a'
    then in_class (isalpha c)
    else if l == b'c'
    then in_class (iscntrl c)
    else if l == b'd'
    then in_class (isdigit c)
    else if l == b'l'
    then in_class (islower c)
    else if l == b'p'
    then in_class (ispunct c)
    else if l == b's'
    then in_class (isspace c)
    else if l == b'u'
    then in_class (isupper c)
    else if l == b'w'
    then in_class (isalnum c)
    else if l == b'x'
    then in_class (isxdigit c)
    else if l == b'z'
    then in_class (c == 0)
    else cl == c

module _ (pat : List ℕ) where
  unfoldable pub skip_escape : ℕ → ℕ → Matcher ℕ
  unfolding char_at
  skip_escape c p =
      if c == b'%'
      then (do d ← char_at pat (p + 1); pure (if d == 0 then p + 1 else p + 2))
      else pure (p + 1)

  unfoldable pub class_scan : ℕ → ℕ → Matcher ℕ
  unfolding char_at skip_escape
  class_scan zero p = stucks
  class_scan (suc fuel) p = do
    c ← char_at pat p
    if c == 0 then raise missing_bracket else do
      q ← skip_escape c p
      d ← char_at pat q
      if d == b']' then pure (q + 1) else class_scan fuel q

  unfoldable pub classend : ℕ → Matcher ℕ
  unfolding char_at class_scan
  classend p = do
    c ← char_at pat p
    if c == b'%'
        then (do d ← char_at pat (p + 1); if d == 0 then raise ends_with_escape else pure (p + 2))
        else if c == b'['
        then (do
          d ← char_at pat (p + 1)
          class_scan (length pat + 1) (if d == b'^' then p + 2 else p + 1))
        else pure (p + 1)

  -- One round of the loop of matchbracketclass at `q`, which is below `ec`; `next` goes on.
  unfoldable pub bracket_step : (ℕ → Matcher Bool) → Bool → ℕ → ℕ → ℕ → Matcher Bool
  unfolding char_at match_class
  bracket_step next sig c ec q = do
    x ← char_at pat q
    if x == b'%'
        then (do y ← char_at pat (q + 1); if match_class c y then pure sig else next (q + 1))
        else do
          y ← char_at pat (q + 1)
          if y == b'-' && ltb (q + 2) ec
              then (do
                z ← char_at pat (q + 2)
                if leb x c && leb c z then pure sig else next (q + 2))
              else if x == c
              then pure sig
              else next q

  unfoldable pub bracket_scan : ℕ → Bool → ℕ → ℕ → ℕ → Matcher Bool
  unfolding bracket_step
  bracket_scan zero sig c ec p = stucks
  bracket_scan (suc fuel) sig c ec p =
      if ltb (p + 1) ec
      then bracket_step (bracket_scan fuel sig c ec) sig c ec (p + 1)
      else pure (not sig)

  unfoldable pub matchbracketclass : ℕ → ℕ → ℕ → Matcher Bool
  unfolding char_at bracket_scan
  matchbracketclass c p ec = do
    d ← char_at pat (p + 1)
    if d == b'^'
        then bracket_scan (length pat + 1) false c ec (p + 1)
        else bracket_scan (length pat + 1) true c ec p

  unfoldable pub singlematch : ℕ → ℕ → ℕ → Matcher Bool
  unfolding char_at match_class matchbracketclass
  singlematch c p ep = do
    x ← char_at pat p
    if x == b'.'
        then pure true
        else if x == b'%'
        then (do y ← char_at pat (p + 1); pure (match_class c y))
        else if x == b'['
        then matchbracketclass c p (ep - 1)
        else pure (x == c)
