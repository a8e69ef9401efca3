-- ===== src/Strlib/Find.antt =====
-- lstrlib.cpp: plain search, the captures as results, str_find_aux and gmatch_aux.
pub mod Plain
pub mod Ends
use cpplua.Prelude.{
  ℕ, zero, suc, ◌+◌, ◌-◌, Bool, true, false, ◌&&◌, ◌||◌, Option, none, some, List, [], ◌∷◌, ◌++◌,
  length, take, drop, get_or, ltb, leb, ◌==◌, if◌then◌else◌,
}
use cpplua.Prelude.Int.{ℤ, pos, negsuc, ◌+ℤ◌, ◌-ℤ◌}
use cpplua.Prelude.Outcome.{◌>>=◌, ◌>>◌, pure, raise, faults, stucks, get_state, modify}
use cpplua.Strlib.Pattern.{
  unfinished, position, len, MatchState, Matcher, char_at, capture_at, invalid_capture_index,
  unfinished_capture,
}
use cpplua.Strlib.Pattern.Classes.{not}
use cpplua.Strlib.Pattern.Match.{bytes_eq, match}

-- what is pushed on the stack
pub data Value : Type 0 where
  nil : Value
  num : ℕ → Value
  str : List ℕ → Value

unfoldable pub posrelat : ℤ → ℕ → ℤ
unfolding ◌+ℤ◌
posrelat (pos n) l = pos n
posrelat (negsuc n) l = pos l +ℤ negsuc n +ℤ pos 1

-- memchr over the first `n` bytes, as an offset
unfoldable pub memchr : List ℕ → ℕ → ℕ → Option ℕ
memchr [] c n = none
memchr (x ∷ xs) c zero = none
memchr (x ∷ xs) c (suc n) =
    if x == c then some 0 else elim (memchr xs c n) [ none ↦ none | some i ↦ some (suc i) ]

-- The loop of lmemfind: `s1` is what is left of the text, `l1` counts the starts left in it, and `c`,
-- `rest` are the first character of `s2` and the others. The offset is counted from `base`.
unfoldable pub find_rest : ℕ → List ℕ → ℕ → ℕ → List ℕ → ℕ → Option (Option ℕ)
unfolding memchr
find_rest zero s1 l1 c rest base = none
find_rest (suc fuel) s1 zero c rest base = some none
find_rest (suc fuel) s1 (suc l) c rest base = elim (memchr s1 c (suc l)) [
  | none ↦ some none
  | some i ↦
      let again = find_rest fuel (drop (i + 1) s1) (suc l - (i + 1)) c rest (base + i + 1) in
      if bytes_eq (take (length rest) (drop (i + 1) s1)) rest then some (some (base + i)) else again
]

-- `none` stands for an exhausted fuel.
unfoldable pub lmemfind : List ℕ → List ℕ → Option (Option ℕ)
unfolding find_rest
lmemfind s1 [] = some (some 0)
lmemfind s1 (c ∷ rest) =
    if ltb (length s1) (suc (length rest))
    then some none
    else find_rest (length s1 + 1) s1 (length s1 - length rest) c rest 0

abbrev pub member : ℕ → List ℕ → Bool
member c [] = false
member c (x ∷ xs) = x == c || member c xs

-- ^$*+?.([%-
abbrev pub specials : List ℕ
specials = b'^' ∷ b'$' ∷ b'*' ∷ b'+' ∷ b'?' ∷ b'.' ∷ b'(' ∷ b'[' ∷ b'%' ∷ b'-' ∷ []

-- strpbrk, which ends at the first 0
unfoldable pub has_special : List ℕ → Bool
has_special [] = false
has_special (c ∷ cs) = if c == 0 then false else member c specials || has_special cs

module _ (src : List ℕ) where
  -- lua_pushlstring of `n` bytes at `a`
  unfoldable pub slice : ℕ → ℕ → Matcher (List ℕ)
  slice a n = if leb (a + n) (length src) then pure (take n (drop a src)) else faults

  unfoldable pub push_capture : ℕ → Matcher Value
  unfolding capture_at slice
  push_capture i = do
    c ← capture_at i
    elim c.extent [
      | unfinished ↦ raise unfinished_capture
      | position ↦ pure (num (c.init + 1))
      | len n ↦ do xs ← slice c.init n; pure (str xs)
    ]

  unfoldable pub push_onecapture : ℕ → ℕ → ℕ → Matcher Value
  unfolding push_capture slice
  push_onecapture i s e = do
    ms ← get_state
    if leb ms.level i
        then (if i == 0
            then (do xs ← slice s (e - s); pure (str xs))
            else raise invalid_capture_index)
        else push_capture i

  unfoldable pub push_from : ℕ → ℕ → ℕ → ℕ → Matcher (List Value)
  unfolding push_onecapture
  push_from zero i s e = pure []
  push_from (suc n) i s e = do
    v ← push_onecapture i s e
    vs ← push_from n (i + 1) s e
    pure (v ∷ vs)

  -- push_captures; `whole` tells whether it was given a match and not a null pointer. With the arguments
  -- that the functions name, 32 captures are far below the 2048 slots that luaL_checkstack allows.
  unfoldable pub push_captures : Bool → ℕ → ℕ → Matcher (List Value)
  unfolding push_from
  push_captures whole s e = do
    ms ← get_state
    push_from (if ms.level == 0 && whole then 1 else ms.level) 0 s e

  unfoldable pub match_at : List ℕ → ℕ → ℕ → Matcher (Option ℕ)
  unfolding match
  match_at pat s p = do modify (λ ms. record ms { level = 0 }); match src pat (length pat + 1) s p

  -- the do-while loop of str_find_aux: where a match starts and where it ends
  unfoldable pub find_from : ℕ → List ℕ → Bool → ℕ → ℕ → Matcher (Option (ℕ × ℕ))
  unfolding match_at
  find_from zero pat anchor p s1 = stucks
  find_from (suc rounds) pat anchor p s1 = do
    res ← match_at pat s1 p
    elim res [
      | some e ↦ pure (some (s1, e))
      | none ↦
          if ltb s1 (length src) && not anchor
          then find_from rounds pat anchor p (s1 + 1)
          else pure none
    ]

  -- `init`, cut to the text
  unfoldable pub start_of : ℤ → ℕ
  unfolding posrelat ◌-ℤ◌
  start_of init = elim (posrelat init (length src) -ℤ pos 1) [
    | negsuc n ↦ 0
    | pos n ↦ if ltb (length src) n then length src else n
  ]

  unfoldable pub find_plain : List ℕ → ℕ → Matcher (List Value)
  unfolding lmemfind
  find_plain pat init = elim (lmemfind (drop init src) pat) [
    | none ↦ stucks
    | some none ↦ pure (nil ∷ [])
    | some (some i) ↦ pure (num (init + i + 1) ∷ num (init + i + length pat) ∷ [])
  ]

  unfoldable pub report : Bool → Option (ℕ × ℕ) → Matcher (List Value)
  unfolding push_captures
  report find none = pure (nil ∷ [])
  report find (some (s1, e)) =
      if find
      then (do vs ← push_captures false 0 0; pure (num (s1 + 1) ∷ num e ∷ vs))
      else push_captures true s1 e

  unfoldable pub find_pattern : Bool → List ℕ → ℕ → Matcher (List Value)
  unfolding find_from report
  find_pattern find pat init = do
    let anchor = get_or pat 0 0 == b'^'
    r ← find_from (length src + 1) pat anchor (if anchor then 1 else 0) init
    report find r

  unfoldable pub str_find_aux : Bool → List ℕ → ℤ → Bool → Matcher (List Value)
  unfolding start_of find_plain has_special find_pattern
  str_find_aux find pat init plain =
      if find && (plain || not (has_special pat))
      then find_plain pat (start_of init)
      else find_pattern find pat (start_of init)

  -- The state between the calls is the third upvalue, where the next search starts. A result is the new
  -- start with the values.
  unfoldable pub gmatch_from : ℕ → List ℕ → ℕ → Matcher (Option (ℕ × List Value))
  unfolding match_at push_captures
  gmatch_from zero pat s = pure none
  gmatch_from (suc rounds) pat s = do
    res ← match_at pat s 0
    elim res [
      | some e ↦ do vs ← push_captures true s e; pure (some (if e == s then e + 1 else e, vs))
      | none ↦ gmatch_from rounds pat (s + 1)
    ]

  unfoldable pub gmatch_aux : List ℕ → ℕ → Matcher (Option (ℕ × List Value))
  unfolding gmatch_from
  gmatch_aux pat start = gmatch_from (length src + 1 - start) pat start
