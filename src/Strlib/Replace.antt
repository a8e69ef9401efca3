-- ===== src/Strlib/Replace.antt =====
-- lstrlib.cpp: str_gsub, add_value and add_s.
pub mod Values
pub mod Ends
use cpplua.Prelude.{
  ℕ, zero, suc, ◌+◌, ◌-◌, Bool, true, false, ◌&&◌, Option, none, some, List, [], ◌∷◌, ◌++◌, length,
  take, drop, get_or, ltb, ◌==◌, if◌then◌else◌,
}
use cpplua.Prelude.Ctype.{isdigit}
use cpplua.Prelude.Int.{ℤ, pos, negsuc}
use cpplua.Prelude.Outcome.{◌>>=◌, pure, raise, stucks}
use cpplua.Strlib.Pattern.{
  MatchState, Matcher, char_at, invalid_capture_index, invalid_replacement, unexpected_replacement,
}
use cpplua.Strlib.Find.{Value, nil, num, str, slice, push_onecapture, push_captures, match_at}

-- what a table holds or a function returns: nil or false, a string or a number, or anything else
pub data Answer : Type 0 where
  falsy : Answer
  text : List ℕ → Answer
  other : Answer

-- the third argument; the lookup and the call run outside this file
pub data Replacement : Type 0 where
  template : List ℕ → Replacement
  table : (Value → Answer) → Replacement
  function : (List Value → Answer) → Replacement
  unusable : Replacement

-- `n < max_s`
unfoldable pub below : ℕ → ℤ → Bool
below n (pos m) = ltb n m
below n (negsuc m) = false

unfoldable pub append : List ℕ → List ℕ × ℕ → Matcher (List ℕ × ℕ)
append v (out, n) = pure (v ++ out, n)

module _ (src : List ℕ) where
  -- The end of a round after a match up to `e`, or after none where `e` is `s`; `next` is the loop.
  unfoldable pub advance : (ℕ → ℕ → Matcher (List ℕ × ℕ)) → Bool → ℕ → ℕ → ℕ → Matcher (List ℕ × ℕ)
  unfolding char_at append
  advance next anchor n s e =
      let go = λ (k : ℕ). if anchor then pure (drop k src, n) else next n k in
      if ltb s e
      then go e
      else if ltb s (length src)
      then (do c ← char_at src s; r ← go (s + 1); append (c ∷ []) r)
      else pure ([], n)

  unfoldable pub gsub_loop :
      ℕ → (ℕ → ℕ → Matcher (List ℕ)) → List ℕ → Bool → ℕ → ℤ → ℕ → ℕ → Matcher (List ℕ × ℕ)
  unfolding match_at below advance append
  gsub_loop zero add pat anchor p max_s n s = stucks
  gsub_loop (suc rounds) add pat anchor p max_s n s =
      if below n max_s
      then (do
        res ← match_at src pat s p
        elim res [
          | some e ↦ do
            v ← add s e
            r ← advance (gsub_loop rounds add pat anchor p max_s) anchor (n + 1) s e
            append v r
          | none ↦ advance (gsub_loop rounds add pat anchor p max_s) anchor n s s
        ])
      else pure (drop s src, n)

-- `number_text` is how a number reads as a string.
module _ (number_text : ℕ → List ℕ) (src : List ℕ) where
  unfoldable pub value_text : Value → List ℕ
  value_text nil = []
  value_text (num n) = number_text n
  value_text (str xs) = xs

  -- what add_s appends for the character `d` after a %; past the end it reads the final 0
  unfoldable pub add_escape : ℕ → ℕ → ℕ → Matcher (List ℕ)
  unfolding isdigit slice push_onecapture value_text
  add_escape d s e =
      if isdigit d
      then (if d == b'0'
          then slice src s (e - s)
          else (do v ← push_onecapture src (d - b'1') s e; pure (value_text v)))
      else pure (d ∷ [])

  unfoldable pub add_s : List ℕ → ℕ → ℕ → Matcher (List ℕ)
  unfolding add_escape
  add_s [] s e = pure []
  add_s (c ∷ []) s e = if c == b'%' then add_escape 0 s e else pure (c ∷ [])
  add_s (c ∷ d ∷ news) s e = do
    let after_one = add_s (d ∷ news) s e
    let after_two = add_s news s e
    if c == b'%'
        then (do x ← add_escape d s e; xs ← after_two; pure (x ++ xs))
        else (do xs ← after_one; pure (c ∷ xs))

  -- the end of add_value: nil and false keep the original text
  unfoldable pub add_answer : Answer → ℕ → ℕ → Matcher (List ℕ)
  unfolding slice
  add_answer falsy s e = slice src s (e - s)
  add_answer (text xs) s e = pure xs
  add_answer other s e = raise invalid_replacement

  unfoldable pub add_value : Replacement → ℕ → ℕ → Matcher (List ℕ)
  unfolding add_s push_captures push_onecapture add_answer
  add_value (template news) s e = add_s news s e
  add_value (function f) s e = do vs ← push_captures src true s e; add_answer (f vs) s e
  add_value (table f) s e = do v ← push_onecapture src 0 s e; add_answer (f v) s e
  add_value unusable s e = raise unexpected_replacement

  -- the new string and the number of substitutions
  unfoldable pub str_gsub : List ℕ → Replacement → Option ℤ → Matcher (List ℕ × ℕ)
  unfolding gsub_loop add_value
  str_gsub pat repl max_s =
      let anchor = get_or pat 0 0 == b'^' in
      gsub_loop src (length src + 2) (add_value repl) pat anchor (if anchor then 1 else 0)
        (elim max_s [ none ↦ pos (length src + 1) | some m ↦ m ]) 0 0
