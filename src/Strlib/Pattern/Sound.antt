-- ===== src/Strlib/Pattern/Sound.antt =====
-- lstrlib.cpp: the function match and the cases of its switch.
use cpplua.Prelude.{
  ℕ, zero, suc, ◌+◌, ◌-◌, ◌≤◌, ◌<◌, ◌≡◌, ◌≢◌, refl, Bool, true, false, List, length, Option, none,
  some, ◌==◌, if◌then◌else◌, arith,
}
use cpplua.Prelude.Ctype.{isdigit}
use cpplua.Prelude.Outcome.{pure}
use cpplua.Prelude.Post.{Ends, Reads, Ends-bind, Ends-read, Ends-if, Ends-pure, Ends-raise}
use cpplua.Strlib.Pattern.{unfinished, position, MatchState, char_at}
use cpplua.Strlib.Pattern.Match.{match_item, frontier, match_escape, match_step, match}
use cpplua.Strlib.Pattern.Captures.{Fits, Attempt, Tried, Tries, Fits-mono, Kept-self, Kept-Fits}
use cpplua.Strlib.Pattern.Reads.{
  char_at-Ends, char_at-Reads, classend-Advances, matchbracketclass-Answers,
}
use cpplua.Strlib.Pattern.Backtrack.{
  Tries-mono, Tries-after, start_capture-Tries, end_capture-Tries,
}
use cpplua.Strlib.Pattern.Items.{
  Lands, Attempts, retry-Tries, matchbalance-Jumps, accepts-Below, max_expand-Tries,
  min_expand-Tries, match_capture-Jumps,
}

module _ (src pat : List ℕ) (m : Attempt) (p : ℕ)
    (tries : (q : ℕ) → p < q → q ≤ length pat → Attempts src m 0 q) (s : ℕ) (ms : MatchState)
    (inside : s ≤ length src) (f : Fits s ms) where
  -- the attempt at a position that was found without a change of state
  onward :
      (q : ℕ) (r : Option ℕ)
      → p < q
      → q ≤ length pat
      → Lands src pat ms s r
      → Tries src s ms (elim r [ none ↦ pure none | some e ↦ m e q ])
  onward q none h k l = Ends-pure Kept-self
  onward q (some e) h k (a, b) = Tries-mono src a (tries q h k e ms (omega arith) b (Fits-mono f a))

  match_item-Tries : p < length pat → Tries src s ms (match_item src pat m s p)
  unfolding match_item
  match_item-Tries h = Ends-read (classend-Advances pat ms p h) (λ ep adv.
      Ends-read (accepts-Below src pat ms p ep h adv.1 s) (λ once below.
        char_at-Ends pat ep adv.1 (λ c more.
          Ends-if (c == b'?')
            (λ e.
              let rest = tries (ep + 1) (omega arith) (ground (arith, more)) in
              let skip = rest s ms (omega arith) inside f in
              Ends-if once
                (λ o.
                  Ends-bind
                    (Tries-mono src (omega arith) (
                      rest (s + 1) ms (omega arith) (omega (arith, below o))
                        (Fits-mono f (omega arith))))
                    (λ r u. retry-Tries src s ms (m s (ep + 1)) r u (λ k.
                      Tries-after src (omega arith) k
                        (rest s u (omega arith) inside (Kept-Fits k f)))))
                (λ _. skip))
            (λ _.
              Ends-if (c == b'*')
                (λ e.
                  max_expand-Tries src pat m p ep h adv.1 0
                    (tries (ep + 1) (omega arith) (ground (arith, more))) s ms (omega arith) inside
                    f)
                (λ _.
                  Ends-if (c == b'+')
                    (λ e.
                      Ends-if once
                        (λ o. Tries-mono src (omega arith) (
                          max_expand-Tries src pat m p ep h adv.1 0
                            (tries (ep + 1) (omega arith) (ground (arith, more))) (s + 1) ms
                            (omega arith) (omega (arith, below o)) (Fits-mono f (omega arith))))
                        (λ _. Ends-pure Kept-self))
                    (λ _.
                      Ends-if (c == b'-')
                        (λ e.
                          min_expand-Tries src pat m p ep h adv.1 0
                            (tries (ep + 1) (omega arith) (ground (arith, more))) (length src + 1) s
                            ms (omega arith) inside (omega arith) f)
                        (λ _.
                          Ends-if once
                            (λ o. Tries-mono src (omega arith) (
                              tries ep adv.0 adv.1 (s + 1) ms (omega arith) (omega (arith, below o))
                                (Fits-mono f (omega arith))))
                            (λ _. Ends-pure Kept-self))))))))

  frontier-Tries : (b : ℕ) → p ≤ b → b ≤ length pat → Tries src s ms (frontier src pat m s b)
  unfolding frontier
  frontier-Tries b lo h = char_at-Ends pat b h (λ c more.
      Ends-if (c == b'[')
        (λ e.
          let here : b < length pat = ground (arith, more) in
          Ends-read (classend-Advances pat ms b here) (λ ep adv.
            Ends-read previous-Reads (λ before _.
              Ends-read (matchbracketclass-Answers pat ms before b (ep - 1) here (omega arith))
                (λ no _.
                  Ends-if no (λ _. Ends-pure Kept-self)
                    (λ _. char_at-Ends src s inside (λ x _.
                      Ends-read (matchbracketclass-Answers pat ms x b (ep - 1) here (omega arith))
                        (λ answer _.
                          Ends-if answer
                            (λ _. tries ep (omega arith) adv.1 s ms (omega arith) inside f)
                            (λ _. Ends-pure Kept-self))))))))
        (λ _. Ends-raise))
    where
      previous-Reads :
          Ends (Reads (λ _. Unit {0}) ms) (if s == 0 then pure 0 else char_at src (s - 1)) ms
      previous-Reads =
          Ends-if (s == 0) (λ _. Ends-pure (tt, refl))
            (λ _. char_at-Reads src (s - 1) (omega arith))

  match_escape-Tries : p < length pat → Tries src s ms (match_escape src pat m s p)
  unfolding match_escape
  match_escape-Tries h = char_at-Ends pat (p + 1) (omega arith) (λ d more.
      Ends-if (d == b'b')
        (λ e.
          Ends-read (matchbalance-Jumps src pat ms s (p + 2) inside (ground (arith, more)))
            (λ r (l, k). onward (p + 4) r (omega arith) (omega arith) l))
        (λ _.
          Ends-if (d == b'f') (λ e. frontier-Tries (p + 2) (omega arith) (ground (arith, more)))
            (λ _.
              Ends-if (isdigit d)
                (λ digit.
                  Ends-read (match_capture-Jumps src pat ms s d inside f)
                    (λ r l. onward (p + 2) r (omega arith) (isdigit-room digit more) l))
                (λ _. match_item-Tries h))))
    where
      isdigit-room : {d : ℕ} → isdigit d ≡ true → (d ≢ 0 → p + 1 < length pat) → p + 2 ≤ length pat
      isdigit-room h k = ground (arith, k)

  match_step-Tries : p ≤ length pat → Tries src s ms (match_step src pat m s p)
  unfolding match_step
  match_step-Tries h = char_at-Ends pat p h (λ c more.
      Ends-if (c == b'(')
        (λ e. char_at-Ends pat (p + 1) (ground (arith, more)) (λ d more'.
          Ends-if (d == b')')
            (λ e'.
              start_capture-Tries src m s (p + 2)
                (λ t g.
                  tries (p + 2) (omega arith) (ground (arith, more')) s t (omega arith) inside g)
                position ms refl f)
            (λ _.
              start_capture-Tries src m s (p + 1)
                (λ t g.
                  tries (p + 1) (omega arith) (ground (arith, more)) s t (omega arith) inside g)
                unfinished ms refl f)))
        (λ _.
          Ends-if (c == b')')
            (λ e.
              end_capture-Tries src m s (p + 1)
                (λ t g.
                  tries (p + 1) (omega arith) (ground (arith, more)) s t (omega arith) inside g)
                ms f)
            (λ _.
              Ends-if (c == b'%') (λ e. match_escape-Tries (ground (arith, more)))
                (λ _.
                  Ends-if (c == 0) (λ _. Ends-pure (omega arith, inside, f))
                    (λ z.
                      Ends-if (c == b'$')
                        (λ e. char_at-Ends pat (p + 1) (ground (arith, more)) (λ d _.
                          Ends-if (d == 0) (λ _. Ends-pure (at_end (s == length src)))
                            (λ _. match_item-Tries (ground (arith, more)))))
                        (λ _. match_item-Tries (ground (arith, more))))))))
    where
      at_end : (b : Bool) → Tried src s ms (if b then some s else none) ms
      at_end true = (omega arith, inside, f)
      at_end false = Kept-self

-- Every recursive call stands further on in the pattern, so its length bounds the fuel. From a position
-- of the subject and captures before it, the matcher returns or raises an error. It reads neither
-- string out of bounds; a match ends between `s` and the end of the subject, with captures in between;
-- a failure leaves the level and the captures below it as they were.
pub match-Tries :
    (src pat : List ℕ) (fuel s p : ℕ) (ms : MatchState)
    → length pat < p + fuel
    → s ≤ length src
    → p ≤ length pat
    → Fits s ms
    → Tries src s ms (match src pat fuel s p)
unfolding match
match-Tries src pat zero s p ms room h k f = absurd (omega arith)
match-Tries src pat (suc fuel) s p ms room h k f =
    match_step-Tries src pat (match src pat fuel) p
      (λ q lo hi u t _ inside g. match-Tries src pat fuel u q t (omega arith) inside hi g) s ms h f
      k
