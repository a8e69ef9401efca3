-- ===== src/Strlib/Format.antt =====
-- lstrlib.cpp: scanformat and addquoted.
pub mod Overrun
use cpplua.Prelude.{
  ℕ, zero, suc, ◌+◌, ◌-◌, Bool, true, false, ◌||◌, List, [], ◌∷◌, ◌++◌, length, take, drop, leb,
  ◌==◌, if◌then◌else◌,
}
use cpplua.Prelude.Ctype.{isdigit}
use cpplua.Prelude.Outcome.{◌>>=◌, ◌>>◌, pure, raise, stucks}
use cpplua.Strlib.Pattern.{Matcher, char_at, repeated_flags, format_too_long}
use cpplua.Strlib.Find.{member}

-- FLAGS: -+ #0
abbrev pub flags : List ℕ
flags = b'-' ∷ b'+' ∷ 32 ∷ b'#' ∷ b'0' ∷ []

-- `strchr(FLAGS, c)`, which finds the final 0 of FLAGS too
unfoldable pub is_flag : ℕ → Bool
is_flag c = member c flags || c == 0

module _ (fmt : List ℕ) where
  unfoldable pub skip_flags : ℕ → ℕ → Matcher ℕ
  unfolding char_at is_flag
  skip_flags zero p = stucks
  skip_flags (suc fuel) p = do
    c ← char_at fmt p
    if is_flag c then skip_flags fuel (p + 1) else pure p

  unfoldable pub skip_digit : ℕ → Matcher ℕ
  unfolding char_at isdigit
  skip_digit p = do c ← char_at fmt p; pure (if isdigit c then p + 1 else p)

  -- what follows the width: the precision, and no third digit
  unfoldable pub skip_precision : ℕ → Matcher ℕ
  unfolding char_at skip_digit isdigit
  skip_precision p = do
    c ← char_at fmt p
    q ← (if c == b'.' then (do a ← skip_digit (p + 1); skip_digit a) else pure p)
    d ← char_at fmt q
    if isdigit d then raise format_too_long else pure q

  -- Where the item's letter stands, and the format for sprintf.
  unfoldable pub scanformat : ℕ → Matcher (ℕ × List ℕ)
  unfolding skip_flags skip_digit skip_precision
  scanformat start = do
    p ← skip_flags (length fmt + 2) start
    (if leb (length flags + 1) (p - start) then raise repeated_flags else pure tt)
    a ← skip_digit p
    b ← skip_digit a
    q ← skip_precision b
    pure (q, b'%' ∷ take (q - start + 1) (drop start fmt))

-- one character of addquoted
unfoldable pub quote_char : ℕ → List ℕ
quote_char c =
    if c == b'"' || c == b'\\' || c == 10
    then b'\\' ∷ c ∷ []
    else if c == 0
    then b'\\' ∷ b'0' ∷ b'0' ∷ b'0' ∷ []
    else c ∷ []

unfoldable pub quote_chars : List ℕ → List ℕ
unfolding quote_char
quote_chars [] = []
quote_chars (c ∷ cs) = quote_char c ++ quote_chars cs

unfoldable pub addquoted : List ℕ → List ℕ
unfolding quote_chars
addquoted s = b'"' ∷ quote_chars s ++ b'"' ∷ []
