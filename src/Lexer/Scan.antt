-- ===== src/Lexer/Scan.antt =====
-- llex.cpp: numerals, llex, luaX_setinput, luaX_next and luaX_lookahead.
use cpplua.Prelude.{
  ℕ, zero, suc, ◌+◌, ◌-◌, Bool, true, false, ◌||◌, Option, none, some, List, [], ◌∷◌, map, ltb,
  ◌==◌, if◌then◌else◌,
}
use cpplua.Prelude.Ctype.{isalnum, isalpha, isdigit, isspace}
use cpplua.Prelude.Outcome.{ok, err, fault, stuck, ◌>>=◌, ◌>>◌, pure, stucks}
use cpplua.Prelude.Text.{codes}
use cpplua.Strlib.Pattern.Match.{bytes_eq}
use cpplua.Zio.{Zio}
use cpplua.Lexer.{
  Lexer, SemInfo, nothing, number, string, first_reserved, tk_concat, tk_dots, tk_eq, tk_ge, tk_le,
  tk_ne, tk_number, tk_name, tk_string, tk_eos, holds, is_newline, current, buffered, lexerror,
  next, resetbuffer, save, save_and_next, inclinenumber, check_next, malformed_number,
  invalid_delimiter,
}
use cpplua.Lexer.Strings.{skip_sep, read_long_string, read_string}

-- luaX_tokens, up to the last reserved word
abbrev pub reserved_words : List (List ℕ)
reserved_words =
    codes "and"
    ∷ codes "break"
    ∷ codes "do"
    ∷ codes "else"
    ∷ codes "elseif"
    ∷ codes "end"
    ∷ codes "false"
    ∷ codes "for"
    ∷ codes "function"
    ∷ codes "if"
    ∷ codes "in"
    ∷ codes "local"
    ∷ codes "nil"
    ∷ codes "not"
    ∷ codes "or"
    ∷ codes "repeat"
    ∷ codes "return"
    ∷ codes "then"
    ∷ codes "true"
    ∷ codes "until"
    ∷ codes "while"
    ∷ []

-- The field `reserved` of a string, set by luaX_init: where it stands among the words, from 1, or 0.
unfoldable pub reserved : List (List ℕ) → ℕ → List ℕ → ℕ
reserved [] k name = 0
reserved (w ∷ ws) k name = if bytes_eq w name then k else reserved ws (k + 1) name

-- a C string ends at its first 0
unfoldable pub c_string : List ℕ → List ℕ
c_string [] = []
c_string (c ∷ cs) = if c == 0 then [] else c ∷ c_string cs

abbrev pub is_word : ℕ → Bool
is_word x = isalnum x || x == b'_'

abbrev pub is_numeral : ℕ → Bool
is_numeral x = isdigit x || x == b'.'

-- `cv ? cv->decimal_point[0] : '.'`
unfoldable pub locale_char : Option ℕ → ℕ
locale_char none = b'.'
locale_char (some p) = p

module _ {Num : Type 0} where
  unfoldable pub buffreplace : ℕ → ℕ → Lexer Num (Unit {0})
  buffreplace from to ls =
      ok (tt, record ls { buffer = map (λ x. if x == from then to else x) ls.buffer })

  -- ls->decpoint
  unfoldable pub decimal_point : Lexer Num ℕ
  decimal_point ls = ok (ls.decpoint, ls)

  unfoldable pub set_decpoint : ℕ → Lexer Num (Unit {0})
  set_decpoint c ls = ok (tt, record ls { decpoint = c })

  -- the do-while loop of read_numeral
  unfoldable pub numeral_digits : ℕ → Lexer Num (Unit {0})
  unfolding save_and_next
  numeral_digits zero = stucks
  numeral_digits (suc fuel) = do
    save_and_next
    c ← current
    if holds is_numeral c then numeral_digits fuel else pure tt

  -- letters, digits and underscores
  unfoldable pub word_rest : ℕ → Lexer Num (Unit {0})
  unfolding save_and_next
  word_rest zero = stucks
  word_rest (suc fuel) = do
    c ← current
    if holds is_word c then (do save_and_next; word_rest fuel) else pure tt

  -- to the end of the line
  unfoldable pub skip_line : ℕ → Lexer Num (Unit {0})
  unfolding next
  skip_line zero = stucks
  skip_line (suc fuel) = do
    c ← current
    if holds (λ x. if is_newline x then false else true) c
        then (do next; skip_line fuel)
        else pure tt

  -- `x`, or `token` where an = follows
  unfoldable pub maybe_equals : ℕ → ℕ → Lexer Num (ℕ × SemInfo Num)
  unfolding next
  maybe_equals x token = do
    next
    c ← current
    if holds (λ y. y == b'=') c then (do next; pure (token, nothing)) else pure (x, nothing)

  unfoldable pub read_name : ℕ → Lexer Num (ℕ × SemInfo Num)
  unfolding save_and_next word_rest reserved
  read_name fuel = do
    save_and_next
    word_rest fuel
    b ← buffered
    let r = reserved reserved_words 1 b
    pure (if ltb 0 r then (r + first_reserved - 1, nothing) else (tk_name, string b))

  -- after `--`
  unfoldable pub comment : ℕ → Lexer Num (ℕ × SemInfo Num) → Lexer Num (ℕ × SemInfo Num)
  unfolding skip_sep resetbuffer read_long_string skip_line
  comment fuel again = do
    c ← current
    if holds (λ x. x == b'[') c
        then (do
          sep ← skip_sep fuel
          resetbuffer
          if sep.0
              then (do skipped ← read_long_string fuel false sep.1; resetbuffer; again)
              else (do skip_line fuel; again))
        else (do skip_line fuel; again)

  unfoldable pub dash : ℕ → Lexer Num (ℕ × SemInfo Num) → Lexer Num (ℕ × SemInfo Num)
  unfolding next comment
  dash fuel again = do
    next
    c ← current
    if holds (λ x. x == b'-') c then (do next; comment fuel again) else pure (b'-', nothing)

  unfoldable pub bracket : ℕ → Lexer Num (ℕ × SemInfo Num)
  unfolding skip_sep read_long_string lexerror
  bracket fuel = do
    sep ← skip_sep fuel
    if sep.0
        then (do s ← read_long_string fuel true sep.1; pure (tk_string, s))
        else if sep.1 == 0
        then pure (b'[', nothing)
        else lexerror invalid_delimiter tk_string

-- `str2d` is luaO_str2d on a C string, and `locale_point` what localeconv gives.
module _ {Num : Type 0} (str2d : List ℕ → Option Num) (locale_point : Option ℕ) where
  unfoldable pub trydecpoint : Lexer Num (ℕ × SemInfo Num)
  unfolding buffreplace set_decpoint lexerror
  trydecpoint = do
    old ← decimal_point
    set_decpoint (locale_char locale_point)
    buffreplace old (locale_char locale_point)
    b ← buffered
    elim (str2d (c_string b)) [
      | some r ↦ pure (tk_number, number r)
      | none ↦ do buffreplace (locale_char locale_point) b'.'; lexerror malformed_number tk_number
    ]

  unfoldable pub read_numeral : ℕ → Lexer Num (ℕ × SemInfo Num)
  unfolding numeral_digits check_next word_rest save buffreplace trydecpoint
  read_numeral fuel = do
    numeral_digits fuel
    e ← check_next (b'E' ∷ b'e' ∷ [])
    sign ← (if e then check_next (b'+' ∷ b'-' ∷ []) else pure false)
    word_rest fuel
    save 0
    point ← decimal_point
    buffreplace b'.' point
    b ← buffered
    elim (str2d (c_string b)) [ some r ↦ pure (tk_number, number r) | none ↦ trydecpoint ]

  unfoldable pub dot : ℕ → Lexer Num (ℕ × SemInfo Num)
  unfolding save_and_next check_next read_numeral
  dot fuel = do
    save_and_next
    two ← check_next (b'.' ∷ [])
    if two
        then (do
          three ← check_next (b'.' ∷ [])
          pure (if three then (tk_dots, nothing) else (tk_concat, nothing)))
        else (do c ← current; if holds isdigit c then read_numeral fuel else pure (b'.', nothing))

  unfoldable pub default : ℕ → Lexer Num (ℕ × SemInfo Num) → ℕ → Lexer Num (ℕ × SemInfo Num)
  unfolding next read_numeral read_name isspace isdigit isalpha
  default fuel again x =
      if isspace x
      then (do next; again)
      else if isdigit x
      then read_numeral fuel
      else if isalpha x || x == b'_'
      then read_name fuel
      else (do next; pure (x, nothing))

  -- A round of the loop of llex; `again` goes on.
  unfoldable pub llex_step : ℕ → Lexer Num (ℕ × SemInfo Num) → Lexer Num (ℕ × SemInfo Num)
  unfolding inclinenumber dash bracket maybe_equals read_string dot default
  llex_step fuel again = do
    c ← current
    elim c [
      | none ↦ pure (tk_eos, nothing)
      | some x ↦
          if is_newline x
          then (do inclinenumber; again)
          else if x == b'-'
          then dash fuel again
          else if x == b'['
          then bracket fuel
          else if x == b'='
          then maybe_equals x tk_eq
          else if x == b'<'
          then maybe_equals x tk_le
          else if x == b'>'
          then maybe_equals x tk_ge
          else if x == b'~'
          then maybe_equals x tk_ne
          else if x == b'"' || x == 39
          then (do s ← read_string fuel x; pure (tk_string, s))
          else if x == b'.'
          then dot fuel
          else default fuel again x
    ]

  unfoldable pub llex_loop : ℕ → ℕ → Lexer Num (ℕ × SemInfo Num)
  unfolding llex_step
  llex_loop zero f = stucks
  llex_loop (suc fuel) f = llex_step f (llex_loop fuel f)

  unfoldable pub llex : ℕ → Lexer Num (ℕ × SemInfo Num)
  unfolding resetbuffer llex_loop
  llex fuel = do resetbuffer; llex_loop fuel fuel

  -- luaX_next: the token becomes the current one
  unfoldable pub next_token : ℕ → Lexer Num (Unit {0})
  unfolding llex
  next_token fuel ls =
      let ls' = record ls { lastline = ls.linenumber } in
      if ls.lookahead.token == tk_eos
      then elim (llex fuel ls') [
        | ok (r, t) ↦ ok (tt, record t { t = record { token = r.0; seminfo = r.1 } })
        | err e ↦ err e
        | fault ↦ fault
        | stuck ↦ stuck
      ]
      else ok (
        tt,
        record ls' {
          t = ls.lookahead;
          lookahead = record { token = tk_eos; seminfo = ls.lookahead.seminfo };
        },
      )

  -- luaX_lookahead
  unfoldable pub look_ahead : ℕ → Lexer Num (Unit {0})
  unfolding llex
  look_ahead fuel ls = elim (llex fuel ls) [
    | ok (r, t) ↦ ok (tt, record t { lookahead = record { token = r.0; seminfo = r.1 } })
    | err e ↦ err e
    | fault ↦ fault
    | stuck ↦ stuck
  ]

  -- luaX_setinput, from a state whose buffer is `ls.buffer`; LUA_MINBUFFER is 32
  unfoldable pub setinput : Zio → Lexer Num (Unit {0})
  unfolding next
  setinput z ls = next (record ls {
    decpoint = b'.';
    lookahead = record { token = tk_eos; seminfo = ls.lookahead.seminfo };
    z = z;
    linenumber = 1;
    lastline = 1;
    buffsize = 32;
  })
