-- ===== src/Lexer/Words.antt =====
-- llex.cpp: comments, names, numerals and brackets, and the characters they take.
use cpplua.Prelude.{
  ℕ, zero, suc, ◌-◌, ◌≤◌, ◌<◌, ◌≡◌, ◌⊎◌, inl, inr, refl, ◌∙◌, Bool, true, false, ◌==◌,
  if◌then◌else◌, arith, length-map,
}
use cpplua.Prelude.Outcome.{◌>>=◌, ◌>>◌}
use cpplua.Prelude.Post.{
  returns, ends, Ends, Reads, Ends-bind, Ends-read, Ends-if, Ends-pure, Ends_mono,
}
use cpplua.Lexer.{
  LexState, Lexer, SemInfo, tk_string, tk_eos, is_newline, resetbuffer, invalid_delimiter,
}
use cpplua.Lexer.Strings.{read_long_string}
use cpplua.Lexer.Scan.{
  is_word, is_numeral, buffreplace, decimal_point, set_decpoint, numeral_digits, word_rest,
  skip_line, maybe_equals, read_name, comment, dash, bracket,
}
use cpplua.Lexer.Chars.{
  Within, Keeps, Within_mono, Keeps_mono, Here, Here-current, next-Keeps, save_and_next-Keeps,
  Ends-holds, resetbuffer-Within, resetbuffer-Keeps,
}
use cpplua.Lexer.Steps.{current-Reads, buffered-Reads, lexerror-Ends}
use cpplua.Lexer.Total.{Bracket, skip_sep-Keeps, read_long_string-Keeps}

module _ {Num : Type 0} where
  pub numeral_digits-Keeps :
      (fuel n c : ℕ) (ls : LexState Num) → n < fuel → Here n c ls → Keeps n (numeral_digits fuel) ls
  unfolding numeral_digits
  numeral_digits-Keeps zero n c ls h k = absurd (omega arith)
  numeral_digits-Keeps (suc fuel) n c ls h k = Ends-bind (save_and_next-Keeps n c ls k) (λ _ t w.
      Ends-read (current-Reads t) (λ d e.
        Ends-holds n is_numeral t d w e
          (λ x pos k'.
            Keeps_mono (numeral_digits-Keeps fuel (n - 1) x t (omega arith) k') n (omega arith))
          (Ends-pure w)))

  pub word_rest-Keeps :
      (fuel n : ℕ) (ls : LexState Num) → n < fuel → Within n ls → Keeps n (word_rest fuel) ls
  unfolding word_rest
  word_rest-Keeps zero n ls h w = absurd (omega arith)
  word_rest-Keeps (suc fuel) n ls h w = Ends-read (current-Reads ls) (λ c e.
      Ends-holds n is_word ls c w e
        (λ x pos k.
          Ends-bind (save_and_next-Keeps (n - 1) x ls k)
            (λ _ t v. Keeps_mono (word_rest-Keeps fuel (n - 1) t (omega arith) v) n (omega arith)))
        (Ends-pure w))

  skip_line-Keeps :
      (fuel n : ℕ) (ls : LexState Num) → n < fuel → Within n ls → Keeps n (skip_line fuel) ls
  unfolding skip_line
  skip_line-Keeps zero n ls h w = absurd (omega arith)
  skip_line-Keeps (suc fuel) n ls h w = Ends-read (current-Reads ls) (λ c e.
      Ends-holds n (λ x. if is_newline x then false else true) ls c w e
        (λ x pos k.
          Ends-bind (next-Keeps (n - 1) x ls k)
            (λ _ t v. Keeps_mono (skip_line-Keeps fuel (n - 1) t (omega arith) v) n (omega arith)))
        (Ends-pure w))

  pub maybe_equals-Keeps :
      (n c x token : ℕ) (ls : LexState Num) → Here n c ls → Keeps n (maybe_equals x token) ls
  unfolding maybe_equals
  maybe_equals-Keeps n c x token ls h = Ends-bind (next-Keeps n c ls h) (λ _ t w.
      Ends-read (current-Reads t) (λ d e.
        Ends-holds n (λ y. y == b'=') t d w e
          (λ y pos k.
            Ends-bind (next-Keeps (n - 1) y t k) (λ _ u v. Ends-pure (Within_mono v (omega arith))))
          (Ends-pure w)))

  pub read_name-Keeps :
      (fuel n c : ℕ) (ls : LexState Num) → n < fuel → Here n c ls → Keeps n (read_name fuel) ls
  unfolding read_name
  read_name-Keeps fuel n c ls h k = Ends-bind (save_and_next-Keeps n c ls k) (λ _ t w.
      Ends-bind (word_rest-Keeps fuel n t h w)
        (λ _ u v. Ends-read (buffered-Reads u) (λ b _. Ends-pure v)))

  pub buffreplace-Keeps :
      (from to n : ℕ) (ls : LexState Num) → Within n ls → Keeps n (buffreplace from to) ls
  unfolding buffreplace
  buffreplace-Keeps from to n ls w = ends (
      returns (record {
        good = record {
          stream = w.good.stream;
          room = w.good.room;
          fits = rw (length-map ls.buffer (λ (x : ℕ). if x == from then to else x)) w.good.fits;
        };
        few = w.few;
      }))

  pub decimal_point-Reads : (ls : LexState Num) → Ends (Reads (λ _. Unit {0}) ls) decimal_point ls
  unfolding decimal_point
  decimal_point-Reads ls = ends (returns (tt, refl))

  pub set_decpoint-Keeps : (c n : ℕ) (ls : LexState Num) → Within n ls → Keeps n (set_decpoint c) ls
  unfolding set_decpoint
  set_decpoint-Keeps c n ls w = ends (
      returns (record {
        good = record { stream = w.good.stream; room = w.good.room; fits = w.good.fits };
        few = w.few;
      }))

module _ {Num : Type 0} where
  -- Of `n` characters at least one is gone, or the token is the end of the stream.
  abbrev pub Took : ℕ → ℕ × SemInfo Num → LexState Num → Type 0
  Took n r t = ((r.0 ≡ tk_eos) × Within n t) ⊎ ((0 < n) × Within (n - 1) t)

  abbrev pub Takes : ℕ → Lexer Num (ℕ × SemInfo Num) → LexState Num → Type 0
  Takes n m ls = Ends (Took n) m ls

  Took-mono : (k n : ℕ) (r : ℕ × SemInfo Num) (t : LexState Num) → k ≤ n → Took k r t → Took n r t
  Took-mono k n r t h (inl (e, w)) = inl (e, Within_mono w h)
  Took-mono k n r t h (inr (pos, w)) = inr (omega arith, Within_mono w (omega arith))

  pub Takes-mono :
      (k n : ℕ) (m : Lexer Num (ℕ × SemInfo Num)) (ls : LexState Num)
      → k ≤ n
      → Takes k m ls
      → Takes n m ls
  Takes-mono k n m ls h e = Ends_mono e (λ r t. Took-mono k n r t h)

  pub Keeps-Takes :
      (n : ℕ) (m : Lexer Num (ℕ × SemInfo Num)) (ls : LexState Num)
      → 0 < n
      → Keeps (n - 1) m ls
      → Takes n m ls
  Keeps-Takes n m ls pos h = Ends_mono h (λ r t w. inr (pos, w))

  module _ (f n : ℕ) (room : n ≤ f) (pos : 0 < n) (again : Lexer Num (ℕ × SemInfo Num))
      (ih : (k : ℕ) (t : LexState Num) → k < n → Within k t → Takes k again t) where
    pub on : (t : LexState Num) → Within (n - 1) t → Takes n again t
    on t w = Takes-mono (n - 1) n again t (omega arith) (ih (n - 1) t (omega arith) w)

    line-Takes : (t : LexState Num) → Within (n - 1) t → Takes n (skip_line f >> again) t
    line-Takes t w = Ends-bind (skip_line-Keeps f (n - 1) t (omega arith) w) (λ _ u v. on u v)

    long_comment-Takes :
        (sep : Bool × ℕ) (u : LexState Num)
        → Within (n - 1) u
        → Bracket sep u
        → Takes n
            (resetbuffer
              >> (if sep.0
                  then (read_long_string f false sep.1 >>= λ _. resetbuffer >> again)
                  else skip_line f >> again))
            u
    long_comment-Takes sep u v b = Ends-bind (resetbuffer-Within (n - 1) u v) (λ _ y (z, e).
        Ends-if sep.0
          (λ found.
            let (x, at) = b found in
            let (more, k) = Here-current (n - 1) x y z (e ∙ at) in
            Ends-bind (read_long_string-Keeps f (n - 1 - 1) x false sep.1 y (omega arith) k)
              (λ _ y1 z1.
                Ends-bind (resetbuffer-Keeps (n - 1) y1 (Within_mono z1 (omega arith)))
                  (λ _ y2 z2. on y2 z2)))
          (λ _. line-Takes y z))

    comment-Takes : (t : LexState Num) → Within (n - 1) t → Takes n (comment f again) t
    unfolding comment
    comment-Takes t w = Ends-read (current-Reads t) (λ c e.
        Ends-holds (n - 1) (λ x. x == b'[') t c w e
          (λ x more k.
            Ends-bind (skip_sep-Keeps f (n - 1 - 1) x t (omega arith) k)
              (λ sep u (v, b). long_comment-Takes sep u (Within_mono v (omega arith)) b))
          (line-Takes t w))

    pub dash-Takes : (c : ℕ) (t : LexState Num) → Here (n - 1) c t → Takes n (dash f again) t
    unfolding dash
    dash-Takes c t k = Ends-bind (next-Keeps (n - 1) c t k) (λ _ u w.
        Ends-read (current-Reads u) (λ d e.
          Ends-holds (n - 1) (λ x. x == b'-') u d w e
            (λ x more h.
              Ends-bind (next-Keeps (n - 1 - 1) x u h)
                (λ _ y z. comment-Takes y (Within_mono z (omega arith))))
            (Ends-pure (inr (pos, w)))))

    pub bracket-Keeps : (c : ℕ) (t : LexState Num) → Here (n - 1) c t → Keeps (n - 1) (bracket f) t
    unfolding bracket
    bracket-Keeps c t k = Ends-bind (skip_sep-Keeps f (n - 1) c t (omega arith) k) (λ sep u (v, b).
        Ends-if sep.0
          (λ found.
            let (x, at) = b found in
            let (more, h) = Here-current (n - 1) x u v at in
            Ends-bind (read_long_string-Keeps f (n - 1 - 1) x true sep.1 u (omega arith) h)
              (λ s y z. Ends-pure (Within_mono z (omega arith))))
          (λ _.
            Ends-if (sep.1 == 0) (λ _. Ends-pure v)
              (λ _. lexerror-Ends invalid_delimiter tk_string)))
