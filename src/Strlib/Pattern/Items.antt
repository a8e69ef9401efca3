-- ===== src/Strlib/Pattern/Items.antt =====
-- lstrlib.cpp: matchbalance, the items with a repetition, and match_capture.
use cpplua.Prelude.{
  ℕ, zero, suc, ◌+◌, ◌-◌, ◌≤◌, ◌<◌, ◌≡◌, refl, Bool, true, false, List, length, Option, none, some,
  ltb, leb, ◌==◌, if◌then◌else◌, arith, le→leb,
}
use cpplua.Prelude.Outcome.{◌>>=◌, pure}
use cpplua.Prelude.Post.{
  ends, returns, Ends, Reads, Ends-bind, Ends-read, Ends-if, Ends-pure, Ends-raise, Ends_mono,
}
use cpplua.Strlib.Pattern.{CaptureLen, unfinished, position, len, MatchState, Matcher}
use cpplua.Strlib.Pattern.Match.{
  match_capture, same_bytes, balance_step, balance, matchbalance, accepts, count_max, give_back,
  max_expand, min_expand,
}
use cpplua.Strlib.Pattern.Captures.{
  width, Fits, Kept, Attempt, Tried, Tries, Fits-mono, Kept-Fits, capture_at-Reads,
  check_capture-Finished,
}
use cpplua.Strlib.Pattern.Reads.{char_at-Ends, singlematch-Answers}
use cpplua.Strlib.Pattern.Backtrack.{Tries-mono, Tries-after}

module _ (src pat : List ℕ) (ms : MatchState) where
  -- nothing, or a position from `s` to the end of the subject
  abbrev pub Lands : ℕ → Option ℕ → Type 0
  Lands s none = Unit
  Lands s (some e) = (s ≤ e) × (e ≤ length src)

  abbrev pub Jumps : ℕ → Matcher (Option ℕ) → Type 0
  Jumps s m = Ends (Reads (Lands s) ms) m ms

  balance_step-Jumps :
      (next : ℕ → ℕ → Matcher (Option ℕ)) (b e cont s u : ℕ)
      → u < s
      → s < length src
      → ((k : ℕ) → Jumps u (next k s))
      → Jumps u (balance_step src pat next b e cont s)
  unfolding balance_step
  balance_step-Jumps next b e cont s u lo h ih = char_at-Ends src s (omega arith) (λ x _.
      Ends-if (x == e)
        (λ _.
          Ends-if (cont == 1) (λ _. Ends-pure ((omega arith, omega arith), refl))
            (λ _. ih (cont - 1)))
        (λ _. Ends-if (x == b) (λ _. ih (cont + 1)) (λ _. ih cont)))

  balance-Jumps :
      (fuel b e cont s u : ℕ)
      → u ≤ s
      → 0 < fuel
      → length src < s + fuel + 1
      → Jumps u (balance src pat fuel b e cont s)
  unfolding balance
  balance-Jumps zero b e cont s u lo pos room = absurd (omega arith)
  balance-Jumps (suc fuel) b e cont s u lo pos room =
      Ends-if (ltb (s + 1) (length src))
        (λ h.
          balance_step-Jumps (balance src pat fuel b e) b e cont (s + 1) u (omega arith)
            (ground arith)
            (λ k. balance-Jumps fuel b e k (s + 1) u (omega arith) (ground arith) (omega arith)))
        (λ _. Ends-pure (tt, refl))

  -- Where it matches, both brackets stand in the pattern.
  pub matchbalance-Jumps :
      (s p : ℕ)
      → s ≤ length src
      → p ≤ length pat
      → Ends (Reads (λ r. Lands s r × (p + 2 ≤ length pat)) ms) (matchbalance src pat s p) ms
  unfolding matchbalance
  matchbalance-Jumps s p h k = char_at-Ends pat p k (λ b inside.
      Ends-if (b == 0) (λ _. Ends-raise)
        (λ here. char_at-Ends pat (p + 1) (ground (arith, inside)) (λ e inside'.
          Ends-if (e == 0) (λ _. Ends-raise)
            (λ there. char_at-Ends src s h (λ x _.
              let both : p + 2 ≤ length pat = ground (arith, inside') in
              Ends-if (x == b)
                (λ _.
                  Ends_mono
                    (balance-Jumps (length src + 1) b e 1 s s (omega arith) (omega arith)
                      (omega arith))
                    (λ r t (l, e). ((l, both), e)))
                (λ _. Ends-pure ((tt, both), refl)))))))

  module _ (p ep : ℕ) (inside : p < length pat) (until : ep ≤ length pat) where
    -- An item accepts a character of the subject, so not its end.
    abbrev pub Below : ℕ → Bool → Type 0
    Below s b = b ≡ true → s < length src

    pub accepts-Below : (s : ℕ) → Ends (Reads (Below s) ms) (accepts src pat s p ep) ms
    unfolding accepts
    accepts-Below s =
        Ends-if (ltb s (length src))
          (λ h. char_at-Ends src s (ground arith) (λ c _.
            Ends_mono (singlematch-Answers pat ms c p ep inside until)
              (λ b t (_, e). (λ _. ground arith, e))))
          (λ _. Ends-pure (λ bad. absurd (ground arith), refl))

    count_max-Reads :
        (fuel s i : ℕ)
        → s + i ≤ length src
        → length src < s + i + fuel
        → Ends (Reads (λ n. s + n ≤ length src) ms) (count_max src pat fuel s p ep i) ms
    unfolding count_max
    count_max-Reads zero s i h room = absurd (omega arith)
    count_max-Reads (suc fuel) s i h room = Ends-read (accepts-Below (s + i)) (λ more below.
        Ends-if more (λ e. count_max-Reads fuel s (i + 1) (omega (arith, below e)) (omega arith))
          (λ _. Ends-pure (h, refl)))

-- An attempt on the pattern from `q` on, at every position from `lo` and with any captures that fit.
abbrev pub Attempts : List ℕ → Attempt → ℕ → ℕ → Type 0
Attempts src m lo q =
    (s : ℕ) (t : MatchState) → lo ≤ s → s ≤ length src → Fits s t → Tries src s t (m s q)

-- After an attempt `k` runs, if it failed.
pub retry-Tries :
    (src : List ℕ) (s : ℕ) (t : MatchState) (k : Matcher (Option ℕ)) (r : Option ℕ) (u : MatchState)
    → (Kept t u → Ends (Tried src s t) k u)
    → Tried src s t r u
    → Ends (Tried src s t) (elim r [ some e ↦ pure (some e) | none ↦ k ]) u
retry-Tries src s t k none u run q = run q
retry-Tries src s t k (some e) u run q = Ends-pure q

module _ (src pat : List ℕ) (m : Attempt) (p ep : ℕ) (inside : p < length pat)
    (until : ep ≤ length pat) (lo : ℕ) (tries : Attempts src m lo (ep + 1)) where
  give_back-Tries :
      (i s : ℕ) (t : MatchState)
      → lo ≤ s
      → s + i ≤ length src
      → Fits s t
      → Tries src s t (give_back src pat m i s ep)
  unfolding give_back
  give_back-Tries zero s t l h f = tries s t l (omega arith) f
  give_back-Tries (suc i) s t l h f =
      Ends-bind
        (Tries-mono src (omega arith)
          (tries (s + suc i) t (omega arith) h (Fits-mono f (omega arith))))
        (λ r u. retry-Tries src s t (give_back src pat m i s ep) r u (λ k.
          Tries-after src (omega arith) k (give_back-Tries i s u l (omega arith) (Kept-Fits k f))))

  pub max_expand-Tries :
      (s : ℕ) (t : MatchState)
      → lo ≤ s
      → s ≤ length src
      → Fits s t
      → Tries src s t (max_expand src pat m s p ep)
  unfolding max_expand
  max_expand-Tries s t l h f =
      Ends-read
        (count_max-Reads src pat t p ep inside until (length src + 1) s 0 (omega arith)
          (omega arith))
        (λ n k. give_back-Tries n s t l k f)

  pub min_expand-Tries :
      (fuel s : ℕ) (t : MatchState)
      → lo ≤ s
      → s ≤ length src
      → length src < s + fuel
      → Fits s t
      → Tries src s t (min_expand src pat m fuel s p ep)
  unfolding min_expand
  min_expand-Tries zero s t l h room f = absurd (omega arith)
  min_expand-Tries (suc fuel) s t l h room f = Ends-bind (tries s t l h f) (λ r u.
      retry-Tries src s t _ r u (λ k.
        Ends-read (accepts-Below src pat u p ep inside until s) (λ more below.
          Ends-if more
            (λ e. Tries-after src (omega arith) k (
              min_expand-Tries fuel (s + 1) u (omega arith) (omega (arith, below e)) (omega arith)
                (Fits-mono (Kept-Fits k f) (omega arith))))
            (λ _. Ends-pure k))))

module _ (src pat : List ℕ) (ms : MatchState) where
  same_bytes-Ends :
      (a b n : ℕ)
      → a + n ≤ length src
      → b + n ≤ length src
      → Ends (Reads (λ _. Unit {0}) ms) (same_bytes src pat a b n) ms
  unfolding same_bytes
  same_bytes-Ends a b n h k = ends (rw (le→leb _ _ h, le→leb _ _ k) (returns (tt, refl)))

  pub match_capture-Jumps :
      (s d : ℕ) → s ≤ length src → Fits s ms → Jumps src pat ms s (match_capture src pat s d)
  unfolding match_capture
  match_capture-Jumps s d h f = Ends-read (check_capture-Finished ms f.few d) (λ l below.
      Ends-read (capture_at-Reads l (omega (arith, f.few)))
        (λ c same. by_extent c.extent c.init (rw same (f.within l below))))
    where
      by_extent :
          (x : CaptureLen) (init : ℕ)
          → init + width x ≤ s
          → Jumps src pat ms s (elim x [
            | unfinished ↦ pure none
            | position ↦ pure none
            | len n ↦
                if leb n (length src - s)
                then (same_bytes src pat init s n >>= λ same.
                    pure (if same then some (s + n) else none))
                else pure none
          ])
      by_extent unfinished init w = Ends-pure (tt, refl)
      by_extent position init w = Ends-pure (tt, refl)
      by_extent (len n) init w =
          Ends-if (leb n (length src - s))
            (λ room.
              Ends-read (same_bytes-Ends init s n (omega arith) (ground arith))
                (λ same _. Ends-pure (landing same (ground arith), refl)))
            (λ _. Ends-pure (tt, refl))
        where
          landing :
              (same : Bool)
              → s + n ≤ length src
              → Lands src pat ms s (if same then some (s + n) else none)
          landing true k = (omega arith, k)
          landing false k = tt
