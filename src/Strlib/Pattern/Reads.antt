-- ===== src/Strlib/Pattern/Reads.antt =====
-- lstrlib.cpp: the reads of a pattern that classend and the tests of a class make.
use cpplua.Prelude.{
  ℕ, zero, suc, ◌+◌, ◌-◌, ◌≤◌, ◌<◌, ◌≢◌, refl, Bool, List, [], ◌∷◌, length, get_or, ◌==◌, arith,
  le→leb, if◌then◌else◌, ltb, leb, true, false, ◌&&◌,
}
use cpplua.Prelude.Outcome.{◌>>=◌}
use cpplua.Prelude.Post.{
  returns, ends, Ends, Reads, Ends-Post, Ends-read, Ends-if, Ends-pure, Ends-raise, Ends_mono,
}
use cpplua.Strlib.Pattern.{Matcher, MatchState, char_at}
use cpplua.Strlib.Pattern.Classes.{
  skip_escape, class_scan, classend, bracket_step, bracket_scan, matchbracketclass, singlematch,
  match_class,
}

pub get_or-nonzero : (xs : List ℕ) (i : ℕ) → get_or xs i 0 ≢ 0 → i < length xs
get_or-nonzero [] i h = absurd (h refl)
get_or-nonzero (x ∷ xs) zero h = omega arith
get_or-nonzero (x ∷ xs) (suc i) h = omega (arith, get_or-nonzero xs i h)

-- a read within the string or of its final 0
pub char_at-Ends :
    {B : Type 0} {Q : B → MatchState → Type 0} (xs : List ℕ) (i : ℕ) {f : ℕ → Matcher B}
    {ms : MatchState}
    → i ≤ length xs
    → ((c : ℕ) → (c ≢ 0 → i < length xs) → Ends Q (f c) ms)
    → Ends Q (char_at xs i >>= f) ms
unfolding char_at
char_at-Ends {B} {Q} xs i {f} h k =
    ends (rw (le→leb _ _ h, ◌>>=◌) (Ends-Post (k _ (get_or-nonzero xs i))))

pub char_at-Reads :
    (xs : List ℕ) (i : ℕ) {ms : MatchState}
    → i ≤ length xs
    → Ends (Reads (λ _. Unit {0}) ms) (char_at xs i) ms
unfolding char_at
char_at-Reads xs i h = ends (rw (le→leb _ _ h) (returns (tt, refl)))

module _ (pat : List ℕ) (ms : MatchState) where
  abbrev pub Advances : ℕ → ℕ → Type 0
  Advances p q = (p < q) × (q ≤ length pat)

  abbrev pub Finds : ℕ → Matcher ℕ → Type 0
  Finds p m = Ends (Reads (Advances p) ms) m ms

  skip_escape-Advances : (c p : ℕ) → p < length pat → Finds p (skip_escape pat c p)
  unfolding skip_escape
  skip_escape-Advances c p h =
      Ends-if (c == b'%')
        (λ _. char_at-Ends pat (p + 1) (omega arith) (λ d k. Ends-pure (ground arith, refl)))
        (λ _. Ends-pure (omega arith, refl))

  class_scan-Advances :
      (fuel p : ℕ) → p ≤ length pat → length pat < p + fuel → Finds p (class_scan pat fuel p)
  unfolding class_scan
  class_scan-Advances zero p h room = absurd (omega arith)
  class_scan-Advances (suc fuel) p h room = char_at-Ends pat p h (λ c inside.
      Ends-if (c == 0) (λ _. Ends-raise)
        (λ more. Ends-read (skip_escape-Advances c p (inside (ground arith))) (λ q adv.
          char_at-Ends pat q adv.1 (λ d inside'.
            Ends-if (d == b']') (λ e. Ends-pure (ground (arith, inside'), refl))
              (λ _.
                Ends_mono (class_scan-Advances fuel q adv.1 (omega arith))
                  (λ a t (r, e). ((omega arith, r.1), e)))))))

  pub classend-Advances : (p : ℕ) → p < length pat → Finds p (classend pat p)
  unfolding classend
  classend-Advances p h = char_at-Ends pat p (omega arith) (λ c _.
      Ends-if (c == b'%')
        (λ _. char_at-Ends pat (p + 1) (omega arith) (λ d inside.
          Ends-if (d == 0) (λ _. Ends-raise) (λ more. Ends-pure (ground (arith, inside), refl))))
        (λ _.
          Ends-if (c == b'[')
            (λ _. char_at-Ends pat (p + 1) (omega arith) (λ d inside.
              Ends_mono
                (class_scan-Advances (length pat + 1) (if d == b'^' then p + 2 else p + 1)
                  (ground (arith, inside)) (ground arith))
                (λ a t (r, e). ((ground arith, r.1), e))))
            (λ _. Ends-pure (omega arith, refl))))

  abbrev pub Answers : Matcher Bool → Type 0
  Answers m = Ends (Reads (λ _. Unit {0}) ms) m ms

  bracket_step-Answers :
      (next : ℕ → Matcher Bool) (sig : Bool) (c ec q : ℕ)
      → q < ec
      → ec ≤ length pat
      → ((p : ℕ) → q ≤ p → p ≤ ec → Answers (next p))
      → Answers (bracket_step pat next sig c ec q)
  unfolding bracket_step
  bracket_step-Answers next sig c ec q h k ih = char_at-Ends pat q (omega arith) (λ x _.
      Ends-if (x == b'%')
        (λ _. char_at-Ends pat (q + 1) (omega arith) (λ y _.
          Ends-if (match_class c y) (λ _. Ends-pure (tt, refl))
            (λ _. ih (q + 1) (omega arith) (omega arith))))
        (λ _. char_at-Ends pat (q + 1) (omega arith) (λ y _.
          Ends-if (y == b'-' && ltb (q + 2) ec)
            (λ range. char_at-Ends pat (q + 2) (ground arith) (λ z _.
              Ends-if (leb x c && leb c z) (λ _. Ends-pure (tt, refl))
                (λ _. ih (q + 2) (omega arith) (ground arith))))
            (λ _.
              Ends-if (x == c) (λ _. Ends-pure (tt, refl))
                (λ _. ih q (omega arith) (omega arith))))))

  bracket_scan-Answers :
      (fuel : ℕ) (sig : Bool) (c ec p : ℕ)
      → 0 < fuel
      → ec < p + fuel
      → ec ≤ length pat
      → Answers (bracket_scan pat fuel sig c ec p)
  unfolding bracket_scan
  bracket_scan-Answers zero sig c ec p pos room h = absurd (omega arith)
  bracket_scan-Answers (suc fuel) sig c ec p pos room h =
      Ends-if (ltb (p + 1) ec)
        (λ below.
          bracket_step-Answers (bracket_scan pat fuel sig c ec) sig c ec (p + 1) (ground arith) h
            (λ q lo hi. bracket_scan-Answers fuel sig c ec q (omega arith) (omega arith) h))
        (λ _. Ends-pure (tt, refl))

  pub matchbracketclass-Answers :
      (c p ec : ℕ) → p < length pat → ec ≤ length pat → Answers (matchbracketclass pat c p ec)
  unfolding matchbracketclass
  matchbracketclass-Answers c p ec h k = char_at-Ends pat (p + 1) (omega arith) (λ d _.
      Ends-if (d == b'^')
        (λ _.
          bracket_scan-Answers (length pat + 1) false c ec (p + 1) (omega arith) (omega arith) k)
        (λ _. bracket_scan-Answers (length pat + 1) true c ec p (omega arith) (omega arith) k))

  pub singlematch-Answers :
      (c p ep : ℕ) → p < length pat → ep ≤ length pat → Answers (singlematch pat c p ep)
  unfolding singlematch
  singlematch-Answers c p ep h k = char_at-Ends pat p (omega arith) (λ x _.
      Ends-if (x == b'.') (λ _. Ends-pure (tt, refl))
        (λ _.
          Ends-if (x == b'%')
            (λ _. char_at-Ends pat (p + 1) (omega arith) (λ y _. Ends-pure (tt, refl)))
            (λ _.
              Ends-if (x == b'[') (λ _. matchbracketclass-Answers c p (ep - 1) h (omega arith))
                (λ _. Ends-pure (tt, refl)))))
