-- ===== src/Tests/Tokens.antt =====
-- The lexer on concrete inputs.
use cpplua.Prelude.{
  ℕ, ◌≢◌, All, ◌<◌, ◌≡◌, refl, ap, Option, none, some, List, [], ◌∷◌, ◌++◌, length, arith,
}
use mathlib.Core.List.{append-nil}
use cpplua.Prelude.Text.{codes}
use cpplua.Prelude.Outcome.{ok, err}
use cpplua.Prelude.Post.{Ends}
use cpplua.Prelude.Ctype.{isalnum}
use cpplua.Zio.{zgetc}
use cpplua.Zio.Flat.{flat}
use cpplua.Strlib.Format.{addquoted}
use cpplua.Lexer.{
  LexState, nothing, string, tk_eos, tk_string, tk_number, escape_too_large, current, buffered,
}
use cpplua.Lexer.Strings.{read_string}
use cpplua.Lexer.Scan.{llex, decimal_point}
use cpplua.Lexer.Steps.{ahead, Good}
use cpplua.Lexer.Tokens.{Progress, llex-Progress}
use cpplua.Lexer.Quoted.{read_string-addquoted}

-- in front of a text, `first` the character read already
abbrev reading : ℕ → List ℕ → LexState ℕ
reading first rest = record {
  current = some first;
  linenumber = 1;
  lastline = 1;
  t = record { token = tk_eos; seminfo = nothing };
  lookahead = record { token = tk_eos; seminfo = nothing };
  z = record { n = length rest; p = rest; reader = [] };
  buffer = [];
  buffsize = 32;
  decpoint = b'.';
}

-- numerals stand for their lengths
abbrev count_digits : List ℕ → Option ℕ
count_digits s = some (length s)

abbrev token_of : LexState ℕ → ℕ
token_of ls = elim (llex count_digits none 100 ls) [ ok ((t, _), _) ↦ t | _ ↦ 0 ]

keyword : token_of (reading b'w' (codes "hile x do")) ≡ 277
unfolding llex current buffered zgetc isalnum
keyword = refl

long_string : token_of (reading b'[' (codes "=[ ]] ]=]")) ≡ tk_string
unfolding llex current buffered zgetc
long_string = refl

after_comment : token_of (reading b'-' (codes "-[[ a ]] 12")) ≡ tk_number
unfolding llex current buffered decimal_point zgetc
after_comment = refl

too_large :
    read_string 10 b'"' (reading b'"' (codes "\\256\""))
    ≡ err (record { message = escape_too_large; line = 1; token = tk_string })
unfolding read_string current buffered zgetc
too_large = refl

flat-reading : (first : ℕ) (rest : List ℕ) → flat (reading first rest).z ≡ rest
unfolding flat
flat-reading first rest = append-nil rest

reading-Good : (first : ℕ) (rest : List ℕ) → length rest < 100 → Good (reading first rest)
reading-Good first rest h = record {
  stream =
      (record { counted = refl }, omega (arith, ap (length {A = ℕ}) (flat-reading first rest)));
  room = omega arith;
  fits = omega arith;
}

llex-Progress_example :
    Ends
      (Progress count_digits none (reading b'x' (codes " = 1")))
      (llex count_digits none 20)
      (reading b'x' (codes " = 1"))
llex-Progress_example =
    llex-Progress count_digits none 20 (reading b'x' (codes " = 1"))
      (reading-Good b'x' (codes " = 1") (omega arith))
      (omega (arith, ap (length {A = ℕ}) (flat-reading b'x' (codes " = 1"))))

-- a mark, a backslash, a newline and a 0
abbrev difficult : List ℕ
difficult = b'"' ∷ b'\\' ∷ 10 ∷ 0 ∷ b'7' ∷ []

abbrev quoted_state : LexState ℕ
quoted_state = reading b'"' (codes "\\\"\\\\\\" ++ 10 ∷ codes "\\0007\" end")

quoted_ahead : ahead quoted_state ≡ addquoted difficult ++ codes " end"
unfolding flat addquoted
quoted_ahead = refl

read_string-addquoted_example :
    (t : LexState ℕ) × (read_string 9 b'"' quoted_state ≡ ok (string difficult, t))
    × (ahead t ≡ codes " end")
read_string-addquoted_example =
    read_string-addquoted 9 difficult (codes " end") quoted_state (omega arith) no_return
      (omega arith) (omega arith) (reading-Good _ _ (omega arith)) refl quoted_ahead
  where
    no_return : All (λ c. c ≢ 13) difficult
    no_return = omega arith
