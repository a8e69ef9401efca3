-- ===== src/Strlib/Pattern/Match.antt =====
-- lstrlib.cpp: the matcher. A recursive call is an argument `m` of the functions that make it.
use cpplua.Prelude.{
  ℕ, zero, suc, ◌+◌, ◌-◌, Bool, true, false, ◌&&◌, Option, none, some, List, [], ◌∷◌, length, take,
  drop, ltb, leb, ◌==◌, if◌then◌else◌,
}
use cpplua.Prelude.Ctype.{isdigit}
use cpplua.Prelude.Outcome.{◌>>=◌, ◌>>◌, pure, raise, faults, stucks, get_state, modify}
use cpplua.Strlib.Pattern.{
  CaptureLen, unfinished, position, len, Capture, Matcher, max_captures, char_at, capture_at,
  check_capture, capture_to_close, unbalanced, missing_after_frontier, too_many_captures,
}
use cpplua.Strlib.Pattern.Classes.{classend, matchbracketclass, singlematch}

unfoldable pub put : (ℕ → Capture) → ℕ → Capture → ℕ → Capture
put f l c i = if i == l then c else f i

-- a write to `capture[l]`
unfoldable pub set_capture : ℕ → Capture → Matcher (Unit {0})
unfolding put
set_capture l c =
    if ltb l max_captures then modify (λ ms. record ms { capture = put ms.capture l c }) else faults

abbrev pub bytes_eq : List ℕ → List ℕ → Bool
bytes_eq [] [] = true
bytes_eq [] (y ∷ ys) = false
bytes_eq (x ∷ xs) [] = false
bytes_eq (x ∷ xs) (y ∷ ys) = x == y && bytes_eq xs ys

-- "match failed? undo capture"
unfoldable pub undo_open : Option ℕ → Matcher (Option ℕ)
undo_open none = do modify (λ t. record t { level = t.level - 1 }); pure none
undo_open (some e) = pure (some e)

unfoldable pub open_capture :
    (ℕ → ℕ → Matcher (Option ℕ)) → ℕ → ℕ → CaptureLen → ℕ → Matcher (Option ℕ)
unfolding set_capture undo_open
open_capture m s p what level = do
  set_capture level (record { init = s; extent = what })
  modify (λ t. record t { level = level + 1 })
  res ← m s p
  undo_open res

unfoldable pub start_capture :
    (ℕ → ℕ → Matcher (Option ℕ)) → ℕ → ℕ → CaptureLen → Matcher (Option ℕ)
unfolding open_capture
start_capture m s p what = do
  ms ← get_state
  if leb max_captures ms.level then raise too_many_captures else open_capture m s p what ms.level

unfoldable pub undo_close : ℕ → Option ℕ → Matcher (Option ℕ)
unfolding capture_at set_capture
undo_close l none = do
  d ← capture_at l
  set_capture l (record { init = d.init; extent = unfinished })
  pure none
undo_close l (some e) = pure (some e)

unfoldable pub end_capture : (ℕ → ℕ → Matcher (Option ℕ)) → ℕ → ℕ → Matcher (Option ℕ)
unfolding capture_to_close capture_at set_capture undo_close
end_capture m s p = do
  l ← capture_to_close
  c ← capture_at l
  set_capture l (record { init = c.init; extent = len (s - c.init) })
  res ← m s p
  undo_close l res

module _ (src pat : List ℕ) where
  -- One round of the loop of matchbalance at `s`; `cont` counts the open brackets.
  unfoldable pub balance_step : (ℕ → ℕ → Matcher (Option ℕ)) → ℕ → ℕ → ℕ → ℕ → Matcher (Option ℕ)
  unfolding char_at
  balance_step next b e cont s = do
    x ← char_at src s
    if x == e
        then (if cont == 1 then pure (some (s + 1)) else next (cont - 1) s)
        else if x == b
        then next (cont + 1) s
        else next cont s

  unfoldable pub balance : ℕ → ℕ → ℕ → ℕ → ℕ → Matcher (Option ℕ)
  unfolding balance_step
  balance zero b e cont s = stucks
  balance (suc fuel) b e cont s =
      if ltb (s + 1) (length src)
      then balance_step (balance fuel b e) b e cont (s + 1)
      else pure none

  unfoldable pub matchbalance : ℕ → ℕ → Matcher (Option ℕ)
  unfolding char_at balance
  matchbalance s p = do
    b ← char_at pat p
    if b == 0 then raise unbalanced else do
      e ← char_at pat (p + 1)
      if e == 0
          then raise unbalanced
          else do x ← char_at src s; if x == b then balance (length src + 1) b e 1 s else pure none

  -- `s < src_end && singlematch(uchar(*s), p, ep)`
  unfoldable pub accepts : ℕ → ℕ → ℕ → Matcher Bool
  unfolding char_at singlematch
  accepts s p ep =
      if ltb s (length src) then (do c ← char_at src s; singlematch pat c p ep) else pure false

  -- the first loop of max_expand, from the count `i`
  unfoldable pub count_max : ℕ → ℕ → ℕ → ℕ → ℕ → Matcher ℕ
  unfolding accepts
  count_max zero s p ep i = stucks
  count_max (suc fuel) s p ep i = do
    more ← accepts (s + i) p ep
    if more then count_max fuel s p ep (i + 1) else pure i

  -- the second loop of max_expand
  unfoldable pub give_back : (ℕ → ℕ → Matcher (Option ℕ)) → ℕ → ℕ → ℕ → Matcher (Option ℕ)
  give_back m zero s ep = m s (ep + 1)
  give_back m (suc i) s ep = do
    res ← m (s + suc i) (ep + 1)
    elim res [ some e ↦ pure (some e) | none ↦ give_back m i s ep ]

  unfoldable pub max_expand : (ℕ → ℕ → Matcher (Option ℕ)) → ℕ → ℕ → ℕ → Matcher (Option ℕ)
  unfolding count_max give_back
  max_expand m s p ep = do i ← count_max (length src + 1) s p ep 0; give_back m i s ep

  unfoldable pub min_expand : (ℕ → ℕ → Matcher (Option ℕ)) → ℕ → ℕ → ℕ → ℕ → Matcher (Option ℕ)
  unfolding accepts
  min_expand m zero s p ep = stucks
  min_expand m (suc fuel) s p ep = do
    res ← m s (ep + 1)
    elim res [
      | some e ↦ pure (some e)
      | none ↦ do more ← accepts s p ep; if more then min_expand m fuel (s + 1) p ep else pure none
    ]

  -- memcmp of `n` bytes at `a` and at `b`
  unfoldable pub same_bytes : ℕ → ℕ → ℕ → Matcher Bool
  same_bytes a b n =
      if leb (a + n) (length src) && leb (b + n) (length src)
      then pure (bytes_eq (take n (drop a src)) (take n (drop b src)))
      else faults

  -- Cast to an unsigned size, a sentinel is larger than any string.
  unfoldable pub match_capture : ℕ → ℕ → Matcher (Option ℕ)
  unfolding check_capture capture_at same_bytes
  match_capture s digit = do
    l ← check_capture digit
    c ← capture_at l
    elim c.extent [
      | unfinished ↦ pure none
      | position ↦ pure none
      | len n ↦
          if leb n (length src - s)
          then (do same ← same_bytes c.init s n; pure (if same then some (s + n) else none))
          else pure none
    ]

  -- the case default of match
  unfoldable pub match_item : (ℕ → ℕ → Matcher (Option ℕ)) → ℕ → ℕ → Matcher (Option ℕ)
  unfolding classend accepts max_expand min_expand
  match_item m s p = do
    ep ← classend pat p
    once ← accepts s p ep
    c ← char_at pat ep
    if c == b'?'
        then (if once
            then (do
              res ← m (s + 1) (ep + 1)
              elim res [ some e ↦ pure (some e) | none ↦ m s (ep + 1) ])
            else m s (ep + 1))
        else if c == b'*'
        then max_expand m s p ep
        else if c == b'+'
        then (if once then max_expand m (s + 1) p ep else pure none)
        else if c == b'-'
        then min_expand m (length src + 1) s p ep
        else if once
        then m (s + 1) ep
        else pure none

  unfoldable pub frontier : (ℕ → ℕ → Matcher (Option ℕ)) → ℕ → ℕ → Matcher (Option ℕ)
  unfolding char_at classend matchbracketclass
  frontier m s p = do
    c ← char_at pat p
    if c == b'['
        then (do
          ep ← classend pat p
          previous ← (if s == 0 then pure 0 else char_at src (s - 1))
          before ← matchbracketclass pat previous p (ep - 1)
          if before then pure none else do
            x ← char_at src s
            after ← matchbracketclass pat x p (ep - 1)
            if after then m s ep else pure none)
        else raise missing_after_frontier

  unfoldable pub match_escape : (ℕ → ℕ → Matcher (Option ℕ)) → ℕ → ℕ → Matcher (Option ℕ)
  unfolding char_at matchbalance frontier match_capture match_item isdigit
  match_escape m s p = do
    d ← char_at pat (p + 1)
    if d == b'b'
        then (do res ← matchbalance s (p + 2); elim res [ none ↦ pure none | some e ↦ m e (p + 4) ])
        else if d == b'f'
        then frontier m s (p + 2)
        else if isdigit d
        then (do res ← match_capture s d; elim res [ none ↦ pure none | some e ↦ m e (p + 2) ])
        else match_item m s p

  unfoldable pub match_step : (ℕ → ℕ → Matcher (Option ℕ)) → ℕ → ℕ → Matcher (Option ℕ)
  unfolding char_at start_capture end_capture match_escape match_item
  match_step m s p = do
    c ← char_at pat p
    if c == b'('
        then (do
          d ← char_at pat (p + 1)
          if d == b')'
              then start_capture m s (p + 2) position
              else start_capture m s (p + 1) unfinished)
        else if c == b')'
        then end_capture m s (p + 1)
        else if c == b'%'
        then match_escape m s p
        else if c == 0
        then pure (some s)
        else if c == b'$'
        then (do
          d ← char_at pat (p + 1)
          if d == 0 then pure (if s == length src then some s else none) else match_item m s p)
        else match_item m s p

  unfoldable pub match : ℕ → ℕ → ℕ → Matcher (Option ℕ)
  unfolding match_step
  match zero s p = stucks
  match (suc fuel) s p = match_step (match fuel) s p
