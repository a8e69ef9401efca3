-- ===== src/Lexer/Strings.antt =====
-- llex.cpp: skip_sep, read_long_string and read_string.
use cpplua.Prelude.{
  ℕ, zero, suc, ◌+◌, ◌-◌, ◌*◌, Bool, ◌&&◌, Option, none, some, length, take, drop, ltb, ◌==◌,
  if◌then◌else◌,
}
use cpplua.Prelude.Ctype.{isdigit}
use cpplua.Prelude.Outcome.{◌>>=◌, ◌>>◌, pure, stucks}
use cpplua.Lexer.{
  Lexer, SemInfo, nothing, string, tk_string, tk_eos, holds, is_newline, same, current, buffered,
  lexerror, next, resetbuffer, save, save_and_next, inclinenumber, unfinished_long_string,
  unfinished_long_comment, unfinished_string, escape_too_large,
}

abbrev pub closes : Bool × ℕ → ℕ → Bool
closes (found, count) sep = found && count == sep

-- the character that a letter after a backslash stands for
unfoldable pub control : ℕ → Option ℕ
control x =
    if x == b'a'
    then some 7
    else if x == b'b'
    then some 8
    else if x == b'f'
    then some 12
    else if x == b'n'
    then some 10
    else if x == b'r'
    then some 13
    else if x == b't'
    then some 9
    else if x == b'v'
    then some 11
    else none

module _ {Num : Type 0} where
  -- the loop of skip_sep
  unfoldable pub count_equals : ℕ → ℕ → Lexer Num ℕ
  unfolding save_and_next
  count_equals zero count = stucks
  count_equals (suc fuel) count = do
    c ← current
    if holds (λ x. x == b'=') c
        then (do save_and_next; count_equals fuel (count + 1))
        else pure count

  -- The count of `=` and whether the same bracket follows; the source codes the pair in one number,
  -- (-count) - 1 where it does not.
  unfoldable pub skip_sep : ℕ → Lexer Num (Bool × ℕ)
  unfolding save_and_next count_equals
  skip_sep fuel = do
    s ← current
    save_and_next
    count ← count_equals fuel 0
    c ← current
    pure (same c s, count)

  -- A round of the loop of read_long_string on the current character; `again` goes on.
  unfoldable pub long_step : ℕ → Lexer Num (Unit {0}) → Bool → ℕ → Lexer Num (Unit {0})
  unfolding lexerror skip_sep save_and_next save inclinenumber resetbuffer next
  long_step fuel again keep sep = do
    c ← current
    elim c [
      | none ↦ lexerror (if keep then unfinished_long_string else unfinished_long_comment) tk_eos
      | some x ↦
          if x == b']'
          then (do found ← skip_sep fuel; if closes found sep then save_and_next else again)
          else if is_newline x
          then (do save 10; inclinenumber; (if keep then pure tt else resetbuffer); again)
          else if keep
          then (do save_and_next; again)
          else (do next; again)
    ]

  unfoldable pub long_loop : ℕ → ℕ → Bool → ℕ → Lexer Num (Unit {0})
  unfolding long_step
  long_loop zero f keep sep = stucks
  long_loop (suc fuel) f keep sep = long_step f (long_loop fuel f keep sep) keep sep

  -- `keep` is whether there is a seminfo, so not a comment
  unfoldable pub read_long_string : ℕ → Bool → ℕ → Lexer Num (SemInfo Num)
  unfolding save_and_next inclinenumber long_loop
  read_long_string fuel keep sep = do
    save_and_next
    c ← current
    (if holds is_newline c then inclinenumber else pure tt)
    long_loop fuel fuel keep sep
    b ← buffered
    pure (if keep then string (take (length b - 2 * (2 + sep)) (drop (2 + sep) b)) else nothing)

  -- the digits of \xxx, at most `left` of them
  unfoldable pub read_decimal : ℕ → ℕ → Lexer Num ℕ
  unfolding next
  read_decimal zero c = pure c
  read_decimal (suc left) c = do
    d ← current
    elim d [
      | none ↦ pure c
      | some x ↦ if isdigit x then (do next; read_decimal left (10 * c + (x - b'0'))) else pure c
    ]

  unfoldable pub save_decimal : ℕ → Lexer Num (Unit {0})
  unfolding lexerror save
  save_decimal c = if ltb 255 c then lexerror escape_too_large tk_string else save c

  -- an escape, with the backslash skipped
  unfoldable pub read_escape : Lexer Num (Unit {0})
  unfolding save next inclinenumber save_and_next control read_decimal save_decimal isdigit
  read_escape = do
    e ← current
    elim e [
      | none ↦ pure tt
      | some x ↦ elim (control x) [
        | some c ↦ do save c; next
        | none ↦
            if is_newline x
            then (do save 10; inclinenumber)
            else if isdigit x
            then (do c ← read_decimal 3 0; save_decimal c)
            else save_and_next
      ]
    ]

  unfoldable pub string_step : Lexer Num (Unit {0}) → ℕ → Lexer Num (Unit {0})
  unfolding lexerror next read_escape save_and_next
  string_step again del = do
    c ← current
    elim c [
      | none ↦ lexerror unfinished_string tk_eos
      | some x ↦
          if x == del
          then pure tt
          else if is_newline x
          then lexerror unfinished_string tk_string
          else if x == b'\\'
          then (do next; read_escape; again)
          else (do save_and_next; again)
    ]

  unfoldable pub string_loop : ℕ → ℕ → Lexer Num (Unit {0})
  unfolding string_step
  string_loop zero del = stucks
  string_loop (suc fuel) del = string_step (string_loop fuel del) del

  unfoldable pub read_string : ℕ → ℕ → Lexer Num (SemInfo Num)
  unfolding save_and_next string_loop
  read_string fuel del = do
    save_and_next
    string_loop fuel del
    save_and_next
    b ← buffered
    pure (string (take (length b - 2) (drop 1 b)))
