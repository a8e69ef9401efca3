-- ===== src/Lexer.antt =====
-- llex.cpp and llex.h: the lexical state, its buffer, and the steps on characters. The stream is that of
-- Zio; a character is `none` at its end (EOZ).
pub mod Strings
pub mod Scan
pub mod Steps
pub mod Chars
pub mod Total
pub mod Words
pub mod Tokens
pub mod Escapes
pub mod Quoted
use cpplua.Prelude.{
  ℕ, zero, suc, ◌+◌, ◌-◌, ◌*◌, ◌/◌, ◌^◌, Bool, true, false, ◌&&◌, ◌||◌, Option, none, some, List,
  [], ◌∷◌, ◌++◌, length, ltb, leb, ◌==◌, if◌then◌else◌,
}
use cpplua.Prelude.Limits.{max_int, max_sizet}
use cpplua.Prelude.Outcome.{
  Outcome, ok, err, fault, stuck, Proc, ◌>>=◌, ◌>>◌, pure, raise, faults, stucks,
}
use cpplua.Strlib.Find.{member}
use cpplua.Zio.{Zio, zgetc}

-- What the error handler is given: the message, the line, and the token it stands near (0 for none).
pub data Message : Type 0 where
  element_too_long : Message
  too_many_lines : Message
  malformed_number : Message
  unfinished_long_string : Message
  unfinished_long_comment : Message
  unfinished_string : Message
  escape_too_large : Message
  invalid_delimiter : Message

pub record LexError : Type 0 where
  pub message : Message
  pub line : ℕ
  pub token : ℕ

-- the reserved words and other terminals, from FIRST_RESERVED in the order of the enumeration
abbrev pub first_reserved : ℕ
first_reserved = 257

abbrev pub tk_concat : ℕ
tk_concat = 278

abbrev pub tk_dots : ℕ
tk_dots = 279

abbrev pub tk_eq : ℕ
tk_eq = 280

abbrev pub tk_ge : ℕ
tk_ge = 281

abbrev pub tk_le : ℕ
tk_le = 282

abbrev pub tk_ne : ℕ
tk_ne = 283

abbrev pub tk_number : ℕ
tk_number = 284

abbrev pub tk_name : ℕ
tk_name = 285

abbrev pub tk_string : ℕ
tk_string = 286

abbrev pub tk_eos : ℕ
tk_eos = 287

-- a token's value: a string stands for its TString
pub data SemInfo (Num : Type 0) : Type 0 where
  nothing : SemInfo Num
  number : Num → SemInfo Num
  string : List ℕ → SemInfo Num

pub record Token (Num : Type 0) : Type 0 where
  pub token : ℕ
  pub seminfo : SemInfo Num

-- `buffer` has the bytes that are in use, of `buffsize`
pub record LexState (Num : Type 0) : Type 0 where
  pub current : Option ℕ
  pub linenumber : ℕ
  pub lastline : ℕ
  pub t : Token Num
  pub lookahead : Token Num
  pub z : Zio
  pub buffer : List ℕ
  pub buffsize : ℕ
  pub decpoint : ℕ

abbrev pub Lexer : Type 0 → Type 0 → Type 0
Lexer Num A = Proc LexError (LexState Num) A

-- a test of the current character, false at the end of the stream
abbrev pub holds : (ℕ → Bool) → Option ℕ → Bool
holds p none = false
holds p (some c) = p c

abbrev pub is_newline : ℕ → Bool
is_newline c = c == 10 || c == 13

abbrev pub same : Option ℕ → Option ℕ → Bool
same none none = true
same none (some y) = false
same (some x) none = false
same (some x) (some y) = x == y

-- `cast(char, c)`: EOZ is -1
abbrev pub to_char : Option ℕ → ℕ
to_char none = 255
to_char (some c) = c

module _ {Num : Type 0} where
  unfoldable pub current : Lexer Num (Option ℕ)
  current ls = ok (ls.current, ls)

  unfoldable pub line : Lexer Num ℕ
  line ls = ok (ls.linenumber, ls)

  -- the bytes in the buffer
  unfoldable pub buffered : Lexer Num (List ℕ)
  buffered ls = ok (ls.buffer, ls)

  -- luaX_lexerror
  unfoldable pub lexerror : {A : Type 0} → Message → ℕ → Lexer Num A
  lexerror m token ls = err (record { message = m; line = ls.linenumber; token = token })

  -- the macro next
  unfoldable pub next : Lexer Num (Unit {0})
  next ls = elim (zgetc {E = LexError} ls.z) [
    | ok (c, z) ↦ ok (tt, record ls { current = c; z = z })
    | err e ↦ err e
    | fault ↦ fault
    | stuck ↦ stuck
  ]

  -- luaZ_resetbuffer
  unfoldable pub resetbuffer : Lexer Num (Unit {0})
  resetbuffer ls = ok (tt, record ls { buffer = [] })

  -- `b->buffer[b->n++] = c`
  unfoldable pub put_char : ℕ → Lexer Num (Unit {0})
  put_char c ls =
      if ltb (length ls.buffer) ls.buffsize
      then ok (tt, record ls { buffer = ls.buffer ++ c ∷ [] })
      else fault

  -- room for one byte more
  unfoldable pub grow : Lexer Num (Unit {0})
  unfolding lexerror
  grow ls =
      if ltb ls.buffsize (length ls.buffer + 1)
      then (if leb (max_sizet / 2) ls.buffsize
          then lexerror element_too_long 0 ls
          else ok (tt, record ls { buffsize = ls.buffsize * 2 }))
      else ok (tt, ls)

  unfoldable pub save : ℕ → Lexer Num (Unit {0})
  unfolding grow put_char
  save c = do grow; put_char c

  unfoldable pub save_and_next : Lexer Num (Unit {0})
  unfolding save next
  save_and_next = do c ← current; save (to_char c); next

  -- `++ls->linenumber >= MAX_INT`
  unfoldable pub count_line : Lexer Num (Unit {0})
  unfolding lexerror
  count_line ls =
      let ls' = record ls { linenumber = ls.linenumber + 1 } in
      if leb max_int (ls.linenumber + 1)
      then lexerror too_many_lines ls.t.token ls'
      else ok (tt, ls')

  unfoldable pub inclinenumber : Lexer Num (Unit {0})
  unfolding next count_line
  inclinenumber = do
    old ← current
    next
    c ← current
    (if holds is_newline c && (if same c old then false else true) then next else pure tt)
    count_line

  -- strchr finds the 0 at the end of the set too
  unfoldable pub check_next : List ℕ → Lexer Num Bool
  unfolding save_and_next
  check_next set = do
    c ← current
    if holds (λ x. x == 0 || member x set) c then (do save_and_next; pure true) else pure false
