-- ===== src/Strlib/Pattern.antt =====
-- lstrlib.cpp: the matcher's state, the pieces of a pattern, and the classes of characters.
pub mod Classes
pub mod Match
pub mod Reads
pub mod Captures
pub mod Backtrack
pub mod Items
pub mod Sound
use cpplua.Prelude.{
  ℕ, zero, suc, ◌+◌, ◌-◌, Bool, true, false, ◌&&◌, ◌||◌, List, length, get_or, ltb, leb, ◌==◌,
  if◌then◌else◌,
}
use cpplua.Prelude.Outcome.{Proc, ◌>>=◌, ◌>>◌, pure, raise, faults, stucks, get_state}

pub data PatternError : Type 0 where
  invalid_capture_index : PatternError
  invalid_pattern_capture : PatternError
  ends_with_escape : PatternError
  missing_bracket : PatternError
  unbalanced : PatternError
  missing_after_frontier : PatternError
  too_many_captures : PatternError
  unfinished_capture : PatternError
  invalid_replacement : PatternError
  unexpected_replacement : PatternError
  repeated_flags : PatternError
  format_too_long : PatternError

-- the field `len` of a capture, with the sentinels CAP_UNFINISHED and CAP_POSITION
pub data CaptureLen : Type 0 where
  unfinished : CaptureLen
  position : CaptureLen
  len : ℕ → CaptureLen

pub record Capture : Type 0 where
  pub init : ℕ
  pub extent : CaptureLen

-- Pointers into the subject are offsets from `src_init`. What `capture` holds from `level` on is
-- whatever was left there.
pub record MatchState : Type 0 where
  pub level : ℕ
  pub capture : ℕ → Capture

abbrev pub Matcher : Type 0 → Type 0
Matcher A = Proc PatternError MatchState A

-- LUA_MAXCAPTURES
abbrev pub max_captures : ℕ
max_captures = 32

-- `xs[i]` in a string that ends with a 0
unfoldable pub char_at : List ℕ → ℕ → Matcher ℕ
char_at xs i = if leb i (length xs) then pure (get_or xs i 0) else faults

unfoldable pub capture_at : ℕ → Matcher Capture
capture_at l = do ms ← get_state; if ltb l max_captures then pure (ms.capture l) else faults

abbrev pub is_unfinished : CaptureLen → Bool
is_unfinished unfinished = true
is_unfinished position = false
is_unfinished (len n) = false

unfoldable pub finished_capture : ℕ → Matcher ℕ
unfolding capture_at
finished_capture l = do
  c ← capture_at l
  if is_unfinished c.extent then raise invalid_capture_index else pure l

-- `l` is a digit
unfoldable pub check_capture : ℕ → Matcher ℕ
unfolding finished_capture
check_capture l = do
  ms ← get_state
  if ltb l b'1' || leb ms.level (l - b'1')
      then raise invalid_capture_index
      else finished_capture (l - b'1')

unfoldable pub close_from : ℕ → Matcher ℕ
unfolding capture_at
close_from zero = raise invalid_pattern_capture
close_from (suc l) = do c ← capture_at l; if is_unfinished c.extent then pure l else close_from l

unfoldable pub capture_to_close : Matcher ℕ
unfolding close_from
capture_to_close = do ms ← get_state; close_from ms.level
