-- ===== src/Lexer/Escapes.antt =====
-- llex.cpp: what read_string does with one character or one escape.
use cpplua.Prelude.{
  ℕ, ◌+◌, ◌/◌, ◌<◌, ◌≡◌, ◌≢◌, inr, refl, ap, ◌∙◌, true, false, ◌&&◌, Option, some, List, [], ◌∷◌,
  ◌++◌, length, if◌then◌else◌, arith,
}
use cpplua.Prelude.Ctype.{isdigit}
use cpplua.Prelude.Outcome.{◌>>=◌, pure}
use cpplua.Prelude.Post.{Runs, Ends-bind, Ends-read, Ends-pure, Ends_mono}
use cpplua.Prelude.Limits.{max_int, max_sizet}
use cpplua.Lexer.{
  LexState, Lexer, is_newline, same, current, next, save, save_and_next, count_line, inclinenumber,
}
use cpplua.Lexer.Strings.{read_decimal, control, save_decimal, read_escape}
use cpplua.Lexer.Steps.{
  ahead, ahead-cons, Good, next-Moved, save-Saved, count_line-Counted, current-Reads,
}

module _ {Num : Type 0} where
  -- in order, with `s` to read, `b` in the buffer, on line `l`
  pub record Sees (s b : List ℕ) (l : ℕ) (ls : LexState Num) : Type 0 where
    pub good : Good ls
    pub left : ahead ls ≡ s
    pub buffer : ls.buffer ≡ b
    pub line : ls.linenumber ≡ l

  pub next-Sees :
      {s b : List ℕ} {l : ℕ} (c : ℕ) (ls : LexState Num)
      → Sees (c ∷ s) b l ls
      → Runs (λ _ t. Sees s b l t) next ls
  next-Sees {s} c ls h = Ends_mono (next-Moved ls c s h.good h.left) (λ _ t m. record {
    good = m.good;
    left = m.left;
    buffer = ap (λ (x : LexState Num). x.buffer) m.rest ∙ h.buffer;
    line = ap (λ (x : LexState Num). x.linenumber) m.rest ∙ h.line;
  })

  save-Sees :
      {s b : List ℕ} {l : ℕ} (c : ℕ) (ls : LexState Num)
      → length b < max_sizet / 2
      → Sees s b l ls
      → Runs (λ _ t. Sees s (b ++ c ∷ []) l t) (save c) ls
  save-Sees {s} {b} c ls room h =
      Ends_mono (save-Saved ls c (inr (rw h.buffer room)) h.good) (λ _ t m. record {
        good = m.good;
        left = ap (λ (x : LexState Num). ahead x) m.rest ∙ h.left;
        buffer =
            ap (λ (x : LexState Num). x.buffer) m.rest ∙ ap (λ (x : List ℕ). x ++ c ∷ []) h.buffer;
        line = ap (λ (x : LexState Num). x.linenumber) m.rest ∙ h.line;
      })

  current-some :
      (c : ℕ) (s : List ℕ) (ls : LexState Num) → Good ls → ahead ls ≡ c ∷ s → ls.current ≡ some c
  current-some c s ls g e = (ahead-cons ls.current ls.z c s e g.stream).0

  pub current-Sees :
      {B : Type 0} {Q : B → LexState Num → Type 0} {s b : List ℕ} {l : ℕ} (c : ℕ)
      (f : Option ℕ → Lexer Num B) (ls : LexState Num)
      → Sees (c ∷ s) b l ls
      → Runs Q (f (some c)) ls
      → Runs Q (current >>= f) ls
  current-Sees {Q} {s} c f ls h k =
      Ends-read (current-Reads ls)
        (λ a e. let at : a ≡ some c = e ∙ current-some c s ls h.good h.left in rw at k)

  pub save_and_next-Sees :
      {s b : List ℕ} {l : ℕ} (c : ℕ) (ls : LexState Num)
      → length b < max_sizet / 2
      → Sees (c ∷ s) b l ls
      → Runs (λ _ t. Sees s (b ++ c ∷ []) l t) save_and_next ls
  unfolding save_and_next
  save_and_next-Sees c ls room h =
      current-Sees c _ ls h (Ends-bind (save-Sees c ls room h) (λ _ t k. next-Sees c t k))

  count_line-Sees :
      {s b : List ℕ} {l : ℕ} (ls : LexState Num)
      → l + 1 < max_int
      → Sees s b l ls
      → Runs (λ _ t. Sees s b (l + 1) t) count_line ls
  count_line-Sees ls room h = Ends_mono (count_line-Counted ls (inr (rw h.line room))) (λ _ t e.
      rw e (record {
        good = record { stream = h.good.stream; room = h.good.room; fits = h.good.fits };
        left = h.left;
        buffer = h.buffer;
        line = ap (λ (n : ℕ). n + 1) h.line;
      }))

  -- A newline that no carriage return follows.
  inclinenumber-Sees :
      {s b : List ℕ} {l : ℕ} (c : ℕ) (ls : LexState Num)
      → l + 1 < max_int
      → c ≢ 13
      → Sees (10 ∷ c ∷ s) b l ls
      → Runs (λ _ t. Sees (c ∷ s) b (l + 1) t) inclinenumber ls
  unfolding inclinenumber
  inclinenumber-Sees c ls room h13 h = current-Sees 10 _ ls h (
      Ends-bind (next-Sees 10 ls h) (λ _ t k.
        current-Sees c _ t k (Ends-bind (stay t) (λ _ u e. rw e (count_line-Sees t room k)))))
    where
      stay :
          (t : LexState Num)
          → Runs
              (λ (_ : Unit {0}) u. u ≡ t)
              (if is_newline c && (if same (some c) (some 10) then false else true)
                then next
                else pure tt)
              t
      stay t =
          let alone : (is_newline c && (if same (some c) (some 10) then false else true)) ≡ false =
            ground (arith, h13) in
          rw alone (Ends-pure refl)

  -- the escape that quote_char writes for a character, with its backslash read
  module _ (s b : List ℕ) (l : ℕ) (ls : LexState Num) (room : length b < max_sizet / 2) where
    pub escape-mark :
        Sees (b'"' ∷ s) b l ls → Runs (λ _ t. Sees s (b ++ b'"' ∷ []) l t) read_escape ls
    unfolding read_escape control isdigit
    escape-mark h = current-Sees b'"' _ ls h (save_and_next-Sees b'"' ls room h)

    pub escape-backslash :
        Sees (b'\\' ∷ s) b l ls → Runs (λ _ t. Sees s (b ++ b'\\' ∷ []) l t) read_escape ls
    unfolding read_escape control isdigit
    escape-backslash h = current-Sees b'\\' _ ls h (save_and_next-Sees b'\\' ls room h)

    pub escape-newline :
        (c : ℕ)
        → l + 1 < max_int
        → c ≢ 13
        → Sees (10 ∷ c ∷ s) b l ls
        → Runs (λ _ t. Sees (c ∷ s) (b ++ 10 ∷ []) (l + 1) t) read_escape ls
    unfolding read_escape control isdigit
    escape-newline c few h13 h =
        current-Sees 10 _ ls h
          (Ends-bind (save-Sees 10 ls room h) (λ _ t k. inclinenumber-Sees c t few h13 k))

    pub escape-zero :
        Sees (b'0' ∷ b'0' ∷ b'0' ∷ s) b l ls → Runs (λ _ t. Sees s (b ++ 0 ∷ []) l t) read_escape ls
    unfolding read_escape control read_decimal save_decimal isdigit
    escape-zero h = current-Sees b'0' _ ls h (
        Ends-bind
          (current-Sees b'0' _ ls h (
            Ends-bind (next-Sees b'0' ls h) (λ _ t k. current-Sees b'0' _ t k (
              Ends-bind (next-Sees b'0' t k) (λ _ u k'. current-Sees b'0' _ u k' (
                Ends-bind (next-Sees b'0' u k')
                  (λ _ v k''. Ends-pure {Q = λ c t. (c ≡ 0) × Sees s b l t} (refl, k''))))))))
          (λ c t (e, k). rw e (save-Sees 0 t room k)))
