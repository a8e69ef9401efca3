-- ===== src/Lexer/Tokens.antt =====
-- llex.cpp: the loop of llex, and the characters that its tokens take.
use cpplua.Prelude.{
  ℕ, zero, suc, ◌-◌, ◌≤◌, ◌<◌, ◌≡◌, ◌⊎◌, inl, inr, refl, ◌||◌, Option, none, some, List, [], ◌∷◌,
  ◌==◌, arith, length,
}
use cpplua.Prelude.Ctype.{isalpha, isdigit, isspace}
use cpplua.Prelude.Outcome.{◌>>=◌, pure}
use cpplua.Prelude.Post.{Ends, Ends-bind, Ends-read, Ends-if, Ends-pure, Ends_mono}
use cpplua.Lexer.{
  LexState, Lexer, SemInfo, number, tk_eq, tk_ge, tk_le, tk_ne, tk_number, tk_string, tk_eos,
  is_newline, malformed_number,
}
use cpplua.Lexer.Strings.{read_string}
use cpplua.Lexer.Scan.{
  maybe_equals, trydecpoint, read_numeral, c_string, locale_char, dot, default, llex_step,
  llex_loop, llex,
}
use cpplua.Lexer.Chars.{
  Within, Keeps, Keeps_mono, Here, next-Keeps, save-Keeps, save_and_next-Keeps, Ends-char,
  Ends-holds, resetbuffer-Keeps, inclinenumber-Keeps, check_next-Keeps,
}
use cpplua.Lexer.Steps.{ahead, Good, current-Reads, buffered-Reads, lexerror-Ends}
use cpplua.Lexer.Total.{read_string-Keeps}
use cpplua.Lexer.Words.{
  Keeps-Takes, Takes, Takes-mono, Took, bracket-Keeps, buffreplace-Keeps, dash-Takes,
  decimal_point-Reads, maybe_equals-Keeps, numeral_digits-Keeps, on, read_name-Keeps,
  set_decpoint-Keeps, word_rest-Keeps,
}

module _ {Num : Type 0} (str2d : List ℕ → Option Num) (locale_point : Option ℕ) where
  -- The number is converted, or `m` runs.
  converted-Keeps :
      (n : ℕ) (m : Lexer Num (ℕ × SemInfo Num)) (o : Option Num) (ls : LexState Num)
      → Within n ls
      → Keeps n m ls
      → Keeps n (elim o [ some r ↦ pure (tk_number, number r) | none ↦ m ]) ls
  converted-Keeps n m (some r) ls w h = Ends-pure w
  converted-Keeps n m none ls w h = h

  trydecpoint-Keeps :
      (n : ℕ) (ls : LexState Num) → Within n ls → Keeps n (trydecpoint str2d locale_point) ls
  unfolding trydecpoint
  trydecpoint-Keeps n ls w = Ends-read (decimal_point-Reads ls) (λ old _.
      Ends-bind (set_decpoint-Keeps (locale_char locale_point) n ls w) (λ _ t v.
        Ends-bind (buffreplace-Keeps old (locale_char locale_point) n t v) (λ _ u x.
          Ends-read (buffered-Reads u) (λ b _. converted-Keeps n _ (str2d (c_string b)) u x (
            Ends-bind (buffreplace-Keeps (locale_char locale_point) b'.' n u x)
              (λ _ y _. lexerror-Ends malformed_number tk_number))))))

  read_numeral-Keeps :
      (fuel n c : ℕ) (ls : LexState Num)
      → n < fuel
      → Here n c ls
      → Keeps n (read_numeral str2d locale_point fuel) ls
  unfolding read_numeral
  read_numeral-Keeps fuel n c ls h k = Ends-bind (numeral_digits-Keeps fuel n c ls h k) (λ _ t w.
      Ends-bind (check_next-Keeps n (b'E' ∷ b'e' ∷ []) t w) (λ e u v.
        Ends-bind (Ends-if e (λ _. check_next-Keeps n (b'+' ∷ b'-' ∷ []) u v) (λ _. Ends-pure v))
          (λ _ x1 w1. Ends-bind (word_rest-Keeps fuel n x1 h w1) (λ _ x2 w2.
            Ends-bind (save-Keeps n 0 x2 w2) (λ _ x3 w3.
              Ends-read (decimal_point-Reads x3) (λ point _.
                Ends-bind (buffreplace-Keeps b'.' point n x3 w3) (λ _ x4 w4.
                  Ends-read (buffered-Reads x4) (λ b _.
                    converted-Keeps n (trydecpoint str2d locale_point) (str2d (c_string b)) x4 w4
                      (trydecpoint-Keeps n x4 w4)))))))))

  module _ (f n : ℕ) (room : n ≤ f) (pos : 0 < n) where
    dot-Keeps :
        (c : ℕ) (t : LexState Num) → Here (n - 1) c t → Keeps (n - 1) (dot str2d locale_point f) t
    unfolding dot
    dot-Keeps c t k = Ends-bind (save_and_next-Keeps (n - 1) c t k) (λ _ u w.
        Ends-bind (check_next-Keeps (n - 1) (b'.' ∷ []) u w) (λ two y v.
          Ends-if two
            (λ _. Ends-bind (check_next-Keeps (n - 1) (b'.' ∷ []) y v) (λ three z x. Ends-pure x))
            (λ _. Ends-read (current-Reads y) (λ d e.
              Ends-holds (n - 1) isdigit y d v e
                (λ x more h.
                  Keeps_mono (read_numeral-Keeps f (n - 1 - 1) x y (omega arith) h) (n - 1)
                    (omega arith))
                (Ends-pure v)))))

    default-Takes :
        (again : Lexer Num (ℕ × SemInfo Num)) (c : ℕ) (t : LexState Num)
        → ((k : ℕ) (u : LexState Num) → k < n → Within k u → Takes k again u)
        → Here (n - 1) c t
        → Takes n (default str2d locale_point f again c) t
    unfolding default
    default-Takes again c t ih k =
        Ends-if (isspace c)
          (λ _.
            Ends-bind (next-Keeps (n - 1) c t k)
              (λ _ u w. Takes-mono (n - 1) n again u (omega arith) (ih (n - 1) u (omega arith) w)))
          (λ _.
            Ends-if (isdigit c)
              (λ _. Keeps-Takes n _ t pos (read_numeral-Keeps f (n - 1) c t (omega arith) k))
              (λ _.
                Ends-if (isalpha c || c == b'_')
                  (λ _. Keeps-Takes n _ t pos (read_name-Keeps f (n - 1) c t (omega arith) k))
                  (λ _. Ends-bind (next-Keeps (n - 1) c t k) (λ _ u w. Ends-pure (inr (pos, w))))))

    equals-Takes :
        (c x token : ℕ) (t : LexState Num) → Here (n - 1) c t → Takes n (maybe_equals x token) t
    equals-Takes c x token t k = Keeps-Takes n _ t pos (maybe_equals-Keeps (n - 1) c x token t k)

    string-Takes :
        (c del : ℕ) (t : LexState Num)
        → Here (n - 1) c t
        → Takes n (read_string f del >>= λ s. pure (tk_string, s)) t
    string-Takes c del t k =
        Ends-bind (read_string-Keeps f (n - 1) c del t (omega arith) k)
          (λ s u w. Ends-pure (inr (pos, w)))

  llex_step-Takes :
      (f n : ℕ) (again : Lexer Num (ℕ × SemInfo Num)) (ls : LexState Num)
      → n ≤ f
      → Within n ls
      → ((k : ℕ) (u : LexState Num) → k < n → Within k u → Takes k again u)
      → Takes n (llex_step str2d locale_point f again) ls
  unfolding llex_step
  llex_step-Takes f n again ls room w ih = Ends-read (current-Reads ls) (λ c e.
      Ends-char n _ _ ls c w e (Ends-pure (inl (refl, w))) (λ x pos k.
        Ends-if (is_newline x)
          (λ _.
            Ends-bind (inclinenumber-Keeps (n - 1) x ls k) (λ _ u v. on f n room pos again ih u v))
          (λ _.
            Ends-if (x == b'-') (λ _. dash-Takes f n room pos again ih x ls k)
              (λ _.
                Ends-if (x == b'[')
                  (λ _. Keeps-Takes n _ ls pos (bracket-Keeps f n room pos again ih x ls k))
                  (λ _.
                    Ends-if (x == b'=') (λ _. equals-Takes f n room pos x x tk_eq ls k)
                      (λ _.
                        Ends-if (x == b'<') (λ _. equals-Takes f n room pos x x tk_le ls k)
                          (λ _.
                            Ends-if (x == b'>') (λ _. equals-Takes f n room pos x x tk_ge ls k)
                              (λ _.
                                Ends-if (x == b'~') (λ _. equals-Takes f n room pos x x tk_ne ls k)
                                  (λ _.
                                    Ends-if (x == b'"' || x == 39)
                                      (λ _. string-Takes f n room pos x x ls k)
                                      (λ _.
                                        Ends-if (x == b'.')
                                          (λ _.
                                            Keeps-Takes n _ ls pos (dot-Keeps f n room pos x ls k))
                                          (λ _.
                                            default-Takes f n room pos again x ls ih k)))))))))))

  llex_loop-Takes :
      (fuel f n : ℕ) (ls : LexState Num)
      → n < fuel
      → n ≤ f
      → Within n ls
      → Takes n (llex_loop str2d locale_point fuel f) ls
  unfolding llex_loop
  llex_loop-Takes zero f n ls h room w = absurd (omega arith)
  llex_loop-Takes (suc fuel) f n ls h room w =
      llex_step-Takes f n (llex_loop str2d locale_point fuel f) ls room w
        (λ k u less v. llex_loop-Takes fuel f k u (omega arith) (omega arith) v)

  -- what llex leaves: the end of the stream was reached, or a token took characters
  abbrev pub Progress : LexState Num → ℕ × SemInfo Num → LexState Num → Type 0
  Progress ls r t =
      Good t
      × (length (ahead t) ≤ length (ahead ls))
      × ((r.0 ≡ tk_eos) ⊎ (length (ahead t) < length (ahead ls)))

  -- From a state in order and with more fuel than characters are left, llex returns a token or raises an
  -- error of the lexer: it does not read past the end of the stream and writes inside its buffer. It never
  -- gains characters, and a token other than TK_EOS takes at least one.
  pub llex-Progress :
      (fuel : ℕ) (ls : LexState Num)
      → Good ls
      → length (ahead ls) < fuel
      → Ends (Progress ls) (llex str2d locale_point fuel) ls
  unfolding llex
  llex-Progress fuel ls g h =
      let n = length (ahead ls) in
      Ends-bind (resetbuffer-Keeps n ls (record { good = g; few = omega arith }))
        (λ _ t w. Ends_mono (llex_loop-Takes fuel fuel n t h (omega arith) w) progress)
    where
      progress :
          (r : ℕ × SemInfo Num) (t : LexState Num) → Took (length (ahead ls)) r t → Progress ls r t
      progress r t (inl (e, w)) = (w.good, w.few, inl e)
      progress r t (inr (pos, w)) = (w.good, omega (arith, w.few), inr (omega (arith, w.few)))
