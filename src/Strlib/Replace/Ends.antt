-- ===== src/Strlib/Replace/Ends.antt =====
-- lstrlib.cpp: the loop of str_gsub, and the text that it makes.
use cpplua.Prelude.{
  ℕ, ◌+◌, ◌≤◌, ◌<◌, ◌≡◌, Bool, true, false, none, some, List, [], ◌∷◌, ◌++◌, length, drop, get_or,
}
use cpplua.Prelude.Int.{ℤ}
use cpplua.Prelude.Outcome.{ok}
use cpplua.Prelude.Post.{Ends}
use cpplua.Strlib.Pattern.{MatchState, Matcher}
use cpplua.Strlib.Find.{match_at}
use cpplua.Strlib.Replace.{Replacement, add_value, below, gsub_loop}

module _ (number_text : ℕ → List ℕ) (src pat : List ℕ) (repl : Replacement) (anchor : Bool) (p : ℕ)
    (max_s : ℤ) where
  -- the pattern, from its place `p` on, matches the text from `s` to `e`, and add_value makes `v` of the match
  abbrev pub Replaced : ℕ → ℕ → List ℕ → Type 0
  Replaced s e v =
      (before : MatchState) × (after : MatchState) × (match_at src pat s p before
        ≡ ok (some e, after))
      × (add_value number_text src repl s e after ≡ ok (v, after))

  -- the pattern does not match the text from `s` on
  abbrev pub Missed : ℕ → Type 0
  Missed s =
      (before : MatchState) × (after : MatchState) × (match_at src pat s p before
        ≡ ok (none, after))

  -- what lets the loop stop at the place `s` after `n` replacements
  pub data Stops (n s : ℕ) : Type 0 where
    enough : below n max_s ≡ false → Stops n s
    anchored : anchor ≡ true → Stops n s
    at_end : s ≡ length src → Stops n s

  -- The text from place `s` on, `n` replacements after the start, where there are `m` in all: they stand one
  -- behind the other, and a character is kept where there is no match and behind an empty one.
  pub data Rewritten (m : ℕ) : ℕ → ℕ → List ℕ → Type 0 where
    rest : (s : ℕ) → Stops m s → Rewritten m m s (drop s src)
    kept :
        {n s : ℕ} {xs : List ℕ}
        → s < length src
        → Missed s
        → Rewritten m n (s + 1) xs
        → Rewritten m n s (get_or src s 0 ∷ xs)
    replaced :
        {n s e : ℕ} {v xs : List ℕ}
        → s < e
        → e ≤ length src
        → Replaced s e v
        → Rewritten m (n + 1) e xs
        → Rewritten m n s (v ++ xs)
    inserted :
        {n s : ℕ} {v xs : List ℕ}
        → s < length src
        → Replaced s s v
        → Rewritten m (n + 1) (s + 1) xs
        → Rewritten m n s (v ++ get_or src s 0 ∷ xs)
    ended :
        {n s : ℕ} {v : List ℕ}
        → s ≡ length src
        → Replaced s s v
        → n + 1 ≡ m
        → Rewritten m n s (v ++ [])

  -- what a round adds after a match from `s` to `e`
  data After (m n : ℕ) : ℕ → ℕ → List ℕ → Type 0 where
    jumped : {s e : ℕ} {xs : List ℕ} → s < e → Rewritten m n e xs → After m n s e xs
    stepped :
        {s : ℕ} {xs : List ℕ}
        → s < length src
        → Rewritten m n (s + 1) xs
        → After m n s s (get_or src s 0 ∷ xs)
    stopped : {s : ℕ} → s ≡ length src → n ≡ m → After m n s s []

  abbrev Spells : ℕ → ℕ → List ℕ × ℕ → MatchState → Type 0
  Spells n s r t = Rewritten r.1 n s r.0

  module _ (inside : p ≤ length pat) where
    abbrev loop : ℕ → ℕ → ℕ → Matcher (List ℕ × ℕ)
    loop rounds n s = gsub_loop src rounds (add_value number_text src repl) pat anchor p max_s n s
