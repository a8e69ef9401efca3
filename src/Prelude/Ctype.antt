-- ===== src/Prelude/Ctype.antt =====
-- The character classes of <cctype> in the C locale, over the values of an unsigned char.
use cpplua.Prelude.{ℕ, ◌+◌, ◌-◌, Bool, true, false, ◌&&◌, ◌||◌, ltb, leb, ◌==◌, if◌then◌else◌}

abbrev within : ℕ → ℕ → ℕ → Bool
within lo hi c = leb lo c && leb c hi

unfoldable pub isdigit : ℕ → Bool
isdigit c = within b'0' b'9' c

unfoldable pub islower : ℕ → Bool
islower c = within b'a' b'z' c

unfoldable pub isupper : ℕ → Bool
isupper c = within b'A' b'Z' c

unfoldable pub isalpha : ℕ → Bool
unfolding islower isupper
isalpha c = islower c || isupper c

unfoldable pub isalnum : ℕ → Bool
unfolding isalpha isdigit
isalnum c = isalpha c || isdigit c

unfoldable pub isxdigit : ℕ → Bool
unfolding isdigit
isxdigit c = isdigit c || within b'a' b'f' c || within b'A' b'F' c

unfoldable pub isspace : ℕ → Bool
isspace c = c == 32 || within 9 13 c

unfoldable pub iscntrl : ℕ → Bool
iscntrl c = ltb c 32 || c == 127

-- printable, but neither a space nor alphanumeric
unfoldable pub ispunct : ℕ → Bool
unfolding isalnum
ispunct c = within 33 126 c && (if isalnum c then false else true)

unfoldable pub tolower : ℕ → ℕ
unfolding isupper
tolower c = if isupper c then c + 32 else c

unfoldable pub toupper : ℕ → ℕ
unfolding islower
toupper c = if islower c then c - 32 else c
