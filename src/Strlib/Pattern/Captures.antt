-- ===== src/Strlib/Pattern/Captures.antt =====
-- The captures of a match in progress: what a failed attempt restores, and what stays inside the subject.
use cpplua.Prelude.{
  ℕ, zero, suc, ◌+◌, ◌-◌, ◌≤◌, ◌<◌, ◌≡◌, refl, ◌∙◌, true, ◌||◌, List, length, Option, none, some,
  ltb, leb, if◌then◌else◌, lt→ltb, arith,
}
use cpplua.Prelude.Outcome.{◌>>=◌, raise}
use cpplua.Prelude.Post.{
  returns, ends, Ends, Reads, Ends-Post, Ends-read, Ends-if, Ends-pure, Ends-raise, Ends-get,
}
use cpplua.Strlib.Pattern.{
  CaptureLen, unfinished, position, len, Capture, MatchState, Matcher, max_captures, is_unfinished,
  capture_at, close_from, capture_to_close, invalid_capture_index, check_capture, finished_capture,
}
use cpplua.Strlib.Pattern.Match.{put, set_capture}

abbrev pub width : CaptureLen → ℕ
width unfinished = 0
width position = 0
width (len n) = n

-- every capture ends at or before `s`
pub record Fits (s : ℕ) (ms : MatchState) : Type 0 where
  pub few : ms.level ≤ max_captures
  pub within : (i : ℕ) → i < ms.level → (ms.capture i).init + width (ms.capture i).extent ≤ s

-- the level and all captures below it are those of `ms`
pub record Kept (ms t : MatchState) : Type 0 where
  pub level : t.level ≡ ms.level
  pub captures : (i : ℕ) → i < ms.level → t.capture i ≡ ms.capture i

abbrev pub Attempt : Type 0
Attempt = ℕ → ℕ → Matcher (Option ℕ)

module _ (src : List ℕ) where
  -- A failed attempt has restored the captures. A successful one ends between `s` and the end of the
  -- subject.
  abbrev pub Tried : ℕ → MatchState → Option ℕ → MatchState → Type 0
  Tried s ms none t = Kept ms t
  Tried s ms (some e) t = (s ≤ e) × (e ≤ length src) × Fits e t

  abbrev pub Tries : ℕ → MatchState → Matcher (Option ℕ) → Type 0
  Tries s ms m = Ends (Tried s ms) m ms

pub Fits-mono : {s u : ℕ} {ms : MatchState} → Fits s ms → s ≤ u → Fits u ms
Fits-mono f h = record { few = f.few; within = λ i k. omega (arith, f.within i k) }

pub Kept-self : {ms : MatchState} → Kept ms ms
Kept-self = record { level = refl; captures = λ i h. refl }

pub Kept-trans : {a b c : MatchState} → Kept a b → Kept b c → Kept a c
Kept-trans p q = record {
  level = q.level ∙ p.level;
  captures = λ i h. q.captures i (rw p.level h) ∙ p.captures i h;
}

pub Kept-Fits : {s : ℕ} {ms t : MatchState} → Kept ms t → Fits s ms → Fits s t
Kept-Fits {s} k f = record {
  few = omega (arith, k.level, f.few);
  within = λ i h. rw (k.captures i (rw (← k.level) h)) (f.within i (rw (← k.level) h));
}

pub capture_at-Reads :
    (l : ℕ) {ms : MatchState}
    → l < max_captures
    → Ends (Reads (λ c. c ≡ ms.capture l) ms) (capture_at l) ms
unfolding capture_at
capture_at-Reads l h = ends (rw (lt→ltb l max_captures h) (returns (refl, refl)))

pub set_capture-Ends :
    {B : Type 0} {Q : B → MatchState → Type 0} (l : ℕ) (c : Capture) (f : Unit {0} → Matcher B)
    {ms : MatchState}
    → l < max_captures
    → Ends Q (f tt) (record ms { capture = put ms.capture l c })
    → Ends Q (set_capture l c >>= f) ms
unfolding set_capture
set_capture-Ends l c f h k = ends (rw (lt→ltb l max_captures h) (Ends-Post k))

module _ (ms : MatchState) where
  abbrev pub Unfinished : ℕ → Type 0
  Unfinished l = (l < ms.level) × (is_unfinished (ms.capture l).extent ≡ true)

  abbrev pub Finished : ℕ → Type 0
  Finished l = l < ms.level

module _ (ms : MatchState) (few : ms.level ≤ max_captures) where
  close_from-Unfinished : (l : ℕ) → l ≤ ms.level → Ends (Reads (Unfinished ms) ms) (close_from l) ms
  unfolding close_from
  close_from-Unfinished zero h = Ends-raise
  close_from-Unfinished (suc l) h = Ends-read (capture_at-Reads l (omega arith)) (λ c same.
      Ends-if (is_unfinished c.extent) (λ e. Ends-pure ((omega arith, rw (← same) e), refl))
        (λ _. close_from-Unfinished l (omega arith)))

  pub capture_to_close-Unfinished : Ends (Reads (Unfinished ms) ms) capture_to_close ms
  unfolding capture_to_close
  capture_to_close-Unfinished =
      Ends-get (λ t. close_from t.level) (close_from-Unfinished ms.level (omega arith))

  finished_capture-Finished :
      (l : ℕ) → l < ms.level → Ends (Reads (Finished ms) ms) (finished_capture l) ms
  unfolding finished_capture
  finished_capture-Finished l h =
      Ends-read (capture_at-Reads l (omega arith))
        (λ c _. Ends-if (is_unfinished c.extent) (λ _. Ends-raise) (λ _. Ends-pure (h, refl)))

  pub check_capture-Finished : (d : ℕ) → Ends (Reads (Finished ms) ms) (check_capture d) ms
  unfolding check_capture
  check_capture-Finished d =
      Ends-get
        (λ t.
          if ltb d b'1' || leb t.level (d - b'1')
          then raise invalid_capture_index
          else finished_capture (d - b'1'))
        (Ends-if (ltb d b'1' || leb ms.level (d - b'1')) (λ _. Ends-raise)
          (λ e. finished_capture-Finished (d - b'1') (ground arith)))
