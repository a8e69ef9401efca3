-- ===== src/Strlib/Pattern/Backtrack.antt =====
-- lstrlib.cpp: start_capture, end_capture and the repetitions, over the attempts they make.
use cpplua.Prelude.{
  ℕ, ◌+◌, ◌-◌, ◌≤◌, ◌<◌, ◌≡◌, refl, ap, ◌∙◌, true, List, Option, none, some, leb, ◌==◌, ==_iff,
  Bool-cases, inl, inr, if◌then◌else◌, arith,
}
use cpplua.Prelude.Outcome.{◌>>=◌, ◌>>◌, pure, raise, modify}
use cpplua.Prelude.Post.{
  Ends, Ends-bind, Ends-read, Ends-if, Ends-pure, Ends-raise, Ends_mono, Ends-get, Ends-modify,
}
use cpplua.Strlib.Pattern.{
  CaptureLen, unfinished, position, len, Capture, MatchState, Matcher, max_captures, is_unfinished,
  too_many_captures,
}
use cpplua.Strlib.Pattern.Match.{
  put, undo_open, open_capture, undo_close, start_capture, end_capture,
}
use cpplua.Strlib.Pattern.Captures.{
  width, Fits, Kept, Attempt, Tried, Tries, Kept-trans, capture_at-Reads, set_capture-Ends,
  capture_to_close-Unfinished, Unfinished,
}

module _ (src : List ℕ) where
  Tried-mono :
      {s u : ℕ} (ms t : MatchState) (r : Option ℕ) → s ≤ u → Tried src u ms r t → Tried src s ms r t
  Tried-mono ms t none h k = k
  Tried-mono ms t (some e) h (a, b, f) = (omega arith, b, f)

  pub Tries-mono :
      {s u : ℕ} {ms : MatchState} {m : Matcher (Option ℕ)}
      → s ≤ u
      → Tries src u ms m
      → Tries src s ms m
  Tries-mono {ms} h k = Ends_mono k (λ r t q. Tried-mono ms t r h q)

  Tried-after :
      {s u : ℕ} {ms t : MatchState}
      → s ≤ u
      → Kept ms t
      → (r : Option ℕ) (v : MatchState) → Tried src u t r v
      → Tried src s ms r v
  Tried-after h k none v q = Kept-trans k q
  Tried-after h k (some e) v (a, b, f) = (omega arith, b, f)

  -- the same, after an attempt that kept the captures
  pub Tries-after :
      {s u : ℕ} {ms t : MatchState} {m : Matcher (Option ℕ)}
      → s ≤ u
      → Kept ms t
      → Tries src u t m
      → Ends (Tried src s ms) m t
  Tries-after h k e = Ends_mono e (Tried-after h k)

pub Fits-put :
    (ms : MatchState) (s l : ℕ) (c : Capture)
    → Fits s ms
    → c.init + width c.extent ≤ s
    → Fits s (record ms { capture = put ms.capture l c })
unfolding put
Fits-put ms s l c f h = record { few = f.few; within = λ i k. ground (arith, f.within i k) }

Fits-push :
    (ms : MatchState) (s : ℕ) (c : Capture)
    → Fits s ms
    → ms.level < max_captures
    → c.init + width c.extent ≤ s
    → Fits s (record { level = ms.level + 1; capture = put ms.capture ms.level c })
unfolding put
Fits-push ms s c f h k = record { few = omega arith; within = λ i j. ground (arith, f.within i) }

is_unfinished-eq : (e : CaptureLen) → is_unfinished e ≡ true → e ≡ unfinished
is_unfinished-eq unfinished h = refl
is_unfinished-eq position h = cc
is_unfinished-eq (len n) h = cc

reopened :
    (c d : Capture)
    → d.init ≡ c.init
    → is_unfinished c.extent ≡ true
    → record { init = d.init; extent = unfinished } ≡ c
reopened c d e h = let u = is_unfinished-eq c.extent h in ground (arith, u)

module _ (src : List ℕ) (m : Attempt) (s p : ℕ)
    (tries : (t : MatchState) → Fits s t → Tries src s t (m s p)) where
  abbrev opened : MatchState → CaptureLen → MatchState
  opened ms what = record {
    level = ms.level + 1;
    capture = put ms.capture ms.level (record { init = s; extent = what });
  }

  undo_open-Tries :
      (ms : MatchState) (what : CaptureLen) (r : Option ℕ) (t : MatchState)
      → Tried src s (opened ms what) r t
      → Ends (Tried src s ms) (undo_open r) t
  unfolding undo_open put
  undo_open-Tries ms what none t k =
      Ends-modify (λ _. pure none)
        (Ends-pure (record {
          level = omega (arith, k.level);
          captures = λ i h. k.captures i (omega arith) ∙ ground arith;
        }))
  undo_open-Tries ms what (some e) t k = Ends-pure k

  open_capture-Tries :
      (what : CaptureLen) (ms : MatchState)
      → width what ≡ 0
      → Fits s ms
      → ms.level < max_captures
      → Tries src s ms (open_capture m s p what ms.level)
  unfolding open_capture
  open_capture-Tries what ms w f room =
      set_capture-Ends ms.level (record { init = s; extent = what })
        (λ _. modify (λ t. record t { level = ms.level + 1 }) >> (m s p >>= undo_open)) room
        (Ends-modify (λ _. m s p >>= undo_open)
          (Ends-bind (tries (opened ms what) (Fits-push ms s _ f room (omega arith)))
            (undo_open-Tries ms what)))

  pub start_capture-Tries :
      (what : CaptureLen) (ms : MatchState)
      → width what ≡ 0
      → Fits s ms
      → Tries src s ms (start_capture m s p what)
  unfolding start_capture
  start_capture-Tries what ms w f =
      Ends-get
        (λ t.
          if leb max_captures t.level
          then raise too_many_captures
          else open_capture m s p what t.level)
        (Ends-if (leb max_captures ms.level) (λ _. Ends-raise)
          (λ room. open_capture-Tries what ms w f (ground arith)))

  -- `ms` with its capture `l` closed at `s`
  abbrev closed : MatchState → ℕ → MatchState
  closed ms l = record ms {
    capture =
        put ms.capture l
          (record { init = (ms.capture l).init; extent = len (s - (ms.capture l).init) });
  }

  undo_close-Kept :
      (ms t : MatchState) (l : ℕ) (d : Capture)
      → Unfinished ms l
      → Kept (closed ms l) t
      → d ≡ t.capture l
      → Kept ms
          (record t { capture = put t.capture l (record { init = d.init; extent = unfinished }) })
  unfolding put
  undo_close-Kept ms t l d u k same =
      let closed_l = same ∙ k.captures l u.0 in
      record {
        level = k.level;
        captures = λ i h. elim (Bool-cases (i == l)) [
          | inl e ↦
              rw (e, (==_iff i l).0 e)
                (reopened (ms.capture l) d (ground (arith, ap (λ (c : Capture). c.init) closed_l))
                  u.1)
          | inr e ↦ rw e (k.captures i h ∙ rw e)
        ];
      }

  undo_close-Tries :
      (ms : MatchState) (l : ℕ) (r : Option ℕ) (t : MatchState)
      → Fits s ms
      → Unfinished ms l
      → Tried src s (closed ms l) r t
      → Ends (Tried src s ms) (undo_close l r) t
  unfolding undo_close
  undo_close-Tries ms l none t f u k =
      Ends-read (capture_at-Reads l (omega (arith, f.few))) (λ d same.
        set_capture-Ends l (record { init = d.init; extent = unfinished }) (λ _. pure none)
          (omega (arith, f.few)) (Ends-pure (undo_close-Kept ms t l d u k same)))
  undo_close-Tries ms l (some e) t f u k = Ends-pure k

  pub end_capture-Tries : (ms : MatchState) → Fits s ms → Tries src s ms (end_capture m s p)
  unfolding end_capture
  end_capture-Tries ms f = Ends-read (capture_to_close-Unfinished ms f.few) (λ l u.
      Ends-read (capture_at-Reads l (omega (arith, f.few))) (λ c same.
        set_capture-Ends l (record { init = c.init; extent = len (s - c.init) })
          (λ _. m s p >>= undo_close l) (omega (arith, f.few))
          (rw same (
            Ends-bind (tries (closed ms l) (Fits-put ms s l _ f (omega (arith, f.within l u.0))))
              (λ r t. undo_close-Tries ms l r t f u)))))
