-- ===== src/Lexer/Total.antt =====
-- llex.cpp: strings, long strings and comments, and the fuel that they use.
use cpplua.Prelude.{
  ℕ, zero, suc, ◌+◌, ◌-◌, ◌*◌, ◌≤◌, ◌<◌, ◌≡◌, refl, Bool, true, Option, none, some, ltb, ◌==◌,
  if◌then◌else◌, arith, sym, ◌∙◌, ap,
}
use cpplua.Prelude.Ctype.{isdigit}
use cpplua.Prelude.Outcome.{◌>>=◌, ◌>>◌}
use cpplua.Prelude.Post.{Ends, Ends-bind, Ends-read, Ends-if, Ends-pure, Ends_mono}
use cpplua.Lexer.{
  LexState, Lexer, tk_string, tk_eos, is_newline, same, save, next, save_and_next, inclinenumber,
  unfinished_long_string, unfinished_long_comment, unfinished_string, escape_too_large,
}
use cpplua.Lexer.Strings.{
  count_equals, skip_sep, closes, long_step, long_loop, read_long_string, read_decimal, control,
  save_decimal, read_escape, string_step, string_loop, read_string,
}
use cpplua.Lexer.Chars.{
  Within, Keeps, Within_mono, Keeps_mono, Here, Here-current, next-Keeps, save-Keeps, save-Here,
  save_and_next-Keeps, Ends-char, Ends-holds, resetbuffer-Keeps, inclinenumber-Keeps,
}
use cpplua.Lexer.Steps.{current-Reads, buffered-Reads, lexerror-Ends}

same-some : (d s : Option ℕ) (c : ℕ) → s ≡ some c → same d s ≡ true → (x : ℕ) × (d ≡ some x)
same-some none s c e h = absurd (ground (arith, e, h))
same-some (some x) s c e h = (x, refl)

module _ {Num : Type 0} where
  count_equals-Keeps :
      (fuel n count : ℕ) (ls : LexState Num)
      → n < fuel
      → Within n ls
      → Keeps n (count_equals fuel count) ls
  unfolding count_equals
  count_equals-Keeps zero n count ls h w = absurd (omega arith)
  count_equals-Keeps (suc fuel) n count ls h w = Ends-read (current-Reads ls) (λ c e.
      Ends-holds n (λ x. x == b'=') ls c w e
        (λ x pos k. Ends-bind (save_and_next-Keeps (n - 1) x ls k) (λ _ t v.
          Keeps_mono (count_equals-Keeps fuel (n - 1) (count + 1) t (omega arith) v) n
            (omega arith)))
        (Ends-pure w))

  -- If the second bracket was found, it is the current character.
  abbrev pub Bracket : Bool × ℕ → LexState Num → Type 0
  Bracket r t = r.0 ≡ true → (x : ℕ) × (t.current ≡ some x)

  pub skip_sep-Keeps :
      (fuel n c : ℕ) (ls : LexState Num)
      → n < fuel
      → Here n c ls
      → Ends (λ r t. Within n t × Bracket r t) (skip_sep fuel) ls
  unfolding skip_sep
  skip_sep-Keeps fuel n c ls h k = Ends-read (current-Reads ls) (λ s e.
      Ends-bind (save_and_next-Keeps n c ls k) (λ _ t w.
        Ends-bind (count_equals-Keeps fuel n 0 t h w) (λ count u v.
          Ends-read (current-Reads u) (λ d g.
            Ends-pure
              (v, λ yes_. let (x, at) = same-some d s c (e ∙ k.char) yes_ in (x, sym g ∙ at))))))

  -- The second bracket is taken.
  close-Keeps :
      (n sep : ℕ) (found : Bool × ℕ) (t : LexState Num)
      → Within n t
      → Bracket found t
      → closes found sep ≡ true
      → Keeps n save_and_next t
  close-Keeps n sep (found, count) t v b h =
      let (x, e) = b (ground arith) in
      let (pos, k) = Here-current n x t v e in
      Keeps_mono (save_and_next-Keeps (n - 1) x t k) n (omega arith)

  -- What goes on after a step runs with fewer characters left.
  abbrev Again : ℕ → Lexer Num (Unit {0}) → Type 0
  Again n again = (k : ℕ) (t : LexState Num) → k < n → Within k t → Keeps k again t

  long_step-Keeps :
      (f n : ℕ) (again : Lexer Num (Unit {0})) (keep : Bool) (sep : ℕ) (ls : LexState Num)
      → n ≤ f
      → Within n ls
      → Again n again
      → Keeps n (long_step f again keep sep) ls
  unfolding long_step
  long_step-Keeps f n again keep sep ls room w ih = Ends-read (current-Reads ls) (λ c e.
      Ends-char n _ _ ls c w e
        (lexerror-Ends (if keep then unfinished_long_string else unfinished_long_comment) tk_eos)
        (λ x pos h.
          Ends-if (x == b']')
            (λ _. Ends-bind (skip_sep-Keeps f (n - 1) x ls (omega arith) h) (λ found t (v, b).
              Ends-if (closes found sep)
                (λ good. Keeps_mono (close-Keeps (n - 1) sep found t v b good) n (omega arith))
                (λ _. on pos t v)))
            (λ _.
              Ends-if (is_newline x)
                (λ _. Ends-bind (save-Here (n - 1) 10 x ls h) (λ _ t k.
                  Ends-bind (inclinenumber-Keeps (n - 1) x t k) (λ _ u v.
                    Ends-bind (Ends-if keep (λ _. Ends-pure v) (λ _. resetbuffer-Keeps (n - 1) u v))
                      (λ _ y z. on pos y z))))
                (λ _.
                  Ends-if keep
                    (λ _. Ends-bind (save_and_next-Keeps (n - 1) x ls h) (λ _ t v. on pos t v))
                    (λ _. Ends-bind (next-Keeps (n - 1) x ls h) (λ _ t v. on pos t v))))))
    where
      on : 0 < n → (t : LexState Num) → Within (n - 1) t → Keeps n again t
      on pos t v = Keeps_mono (ih (n - 1) t (omega arith) v) n (omega arith)

  long_loop-Keeps :
      (fuel f n : ℕ) (keep : Bool) (sep : ℕ) (ls : LexState Num)
      → n < fuel
      → n ≤ f
      → Within n ls
      → Keeps n (long_loop fuel f keep sep) ls
  unfolding long_loop
  long_loop-Keeps zero f n keep sep ls h room w = absurd (omega arith)
  long_loop-Keeps (suc fuel) f n keep sep ls h room w =
      long_step-Keeps f n (long_loop fuel f keep sep) keep sep ls room w
        (λ k t less v. long_loop-Keeps fuel f k keep sep t (omega arith) (omega arith) v)

  pub read_long_string-Keeps :
      (fuel n c : ℕ) (keep : Bool) (sep : ℕ) (ls : LexState Num)
      → n < fuel
      → Here n c ls
      → Keeps n (read_long_string fuel keep sep) ls
  unfolding read_long_string
  read_long_string-Keeps fuel n c keep sep ls h k =
      Ends-bind (save_and_next-Keeps n c ls k) (λ _ t w. Ends-read (current-Reads t) (λ d e.
        Ends-bind
          (Ends-holds n is_newline t d w e
            (λ x pos h'. Keeps_mono (inclinenumber-Keeps (n - 1) x t h') n (omega arith))
            (Ends-pure w))
          (λ _ u v.
            Ends-bind (long_loop-Keeps fuel fuel n keep sep u h (omega arith) v)
              (λ _ x y. Ends-read (buffered-Reads x) (λ _ _. Ends-pure y)))))

  read_decimal-Keeps :
      (left c n : ℕ) (ls : LexState Num) → Within n ls → Keeps n (read_decimal left c) ls
  unfolding read_decimal
  read_decimal-Keeps zero c n ls w = Ends-pure w
  read_decimal-Keeps (suc left) c n ls w = Ends-read (current-Reads ls) (λ d e.
      Ends-char n _ _ ls d w e (Ends-pure w) (λ x pos h.
        Ends-if (isdigit x)
          (λ _. Ends-bind (next-Keeps (n - 1) x ls h) (λ _ t v.
            Keeps_mono (read_decimal-Keeps left (10 * c + (x - b'0')) (n - 1) t v) n (omega arith)))
          (λ _. Ends-pure w)))

  save_decimal-Keeps : (n c : ℕ) (ls : LexState Num) → Within n ls → Keeps n (save_decimal c) ls
  unfolding save_decimal
  save_decimal-Keeps n c ls w =
      Ends-if (ltb 255 c) (λ _. lexerror-Ends escape_too_large tk_string) (λ _. save-Keeps n c ls w)

  read_escape-Keeps : (n : ℕ) (ls : LexState Num) → Within n ls → Keeps n read_escape ls
  unfolding read_escape
  read_escape-Keeps n ls w =
      Ends-read (current-Reads ls) (λ e is.
        Ends-char n _ _ ls e w is (Ends-pure w) (λ x pos h. by_control x pos h (control x)))
    where
      by_control :
          (x : ℕ)
          → 0 < n
          → Here (n - 1) x ls
          → (o : Option ℕ)
          → Keeps n
              (elim o [
                | some c ↦ save c >> next
                | none ↦
                    if is_newline x
                    then save 10 >> inclinenumber
                    else if isdigit x
                    then (read_decimal 3 0 >>= λ c. save_decimal c)
                    else save_and_next
              ])
              ls
      by_control x pos h (some c) =
          Ends-bind (save-Here (n - 1) c x ls h)
            (λ _ t k. Keeps_mono (next-Keeps (n - 1) x t k) n (omega arith))
      by_control x pos h none =
          Ends-if (is_newline x)
            (λ _.
              Ends-bind (save-Here (n - 1) 10 x ls h)
                (λ _ t k. Keeps_mono (inclinenumber-Keeps (n - 1) x t k) n (omega arith)))
            (λ _.
              Ends-if (isdigit x)
                (λ _.
                  Ends-bind (read_decimal-Keeps 3 0 n ls w) (λ c t v. save_decimal-Keeps n c t v))
                (λ _. Keeps_mono (save_and_next-Keeps (n - 1) x ls h) n (omega arith)))

  -- The loop of read_string stops in front of the delimiter.
  abbrev pub Stops : ℕ → ℕ → LexState Num → Type 0
  Stops n del t = Within n t × (t.current ≡ some del)

  Stops-mono :
      {n k del : ℕ} {m : Lexer Num (Unit {0})} {ls : LexState Num}
      → Ends (λ _ t. Stops n del t) m ls
      → n ≤ k
      → Ends (λ _ t. Stops k del t) m ls
  Stops-mono h l = Ends_mono h (λ _ t (w, e). (Within_mono w l, e))

  string_step-Stops :
      (n del : ℕ) (again : Lexer Num (Unit {0})) (ls : LexState Num)
      → Within n ls
      → ((k : ℕ) (t : LexState Num) → k < n → Within k t → Ends (λ _ t. Stops k del t) again t)
      → Ends (λ _ t. Stops n del t) (string_step again del) ls
  unfolding string_step
  string_step-Stops n del again ls w ih = Ends-read (current-Reads ls) (λ c e.
      Ends-char n _ _ ls c w e (lexerror-Ends unfinished_string tk_eos) (λ x pos k.
        Ends-if (x == del) (λ d. Ends-pure (w, k.char ∙ ap some (ground (arith, d))))
          (λ _.
            Ends-if (is_newline x) (λ _. lexerror-Ends unfinished_string tk_string)
              (λ _.
                Ends-if (x == b'\\')
                  (λ _.
                    Ends-bind (next-Keeps (n - 1) x ls k)
                      (λ _ t v. Ends-bind (read_escape-Keeps (n - 1) t v) (λ _ u v'. on pos u v')))
                  (λ _. Ends-bind (save_and_next-Keeps (n - 1) x ls k) (λ _ t v. on pos t v))))))
    where
      on : 0 < n → (t : LexState Num) → Within (n - 1) t → Ends (λ _ t. Stops n del t) again t
      on pos t v = Stops-mono (ih (n - 1) t (omega arith) v) (omega arith)

  string_loop-Stops :
      (fuel n del : ℕ) (ls : LexState Num)
      → n < fuel
      → Within n ls
      → Ends (λ _ t. Stops n del t) (string_loop fuel del) ls
  unfolding string_loop
  string_loop-Stops zero n del ls h w = absurd (omega arith)
  string_loop-Stops (suc fuel) n del ls h w =
      string_step-Stops n del (string_loop fuel del) ls w
        (λ k t less v. string_loop-Stops fuel k del t (omega arith) v)

  pub read_string-Keeps :
      (fuel n c del : ℕ) (ls : LexState Num)
      → n < fuel
      → Here n c ls
      → Keeps n (read_string fuel del) ls
  unfolding read_string
  read_string-Keeps fuel n c del ls h k = Ends-bind (save_and_next-Keeps n c ls k) (λ _ t w.
      Ends-bind (string_loop-Stops fuel n del t h w) (λ _ u (v, e).
        let (pos, k') = Here-current n del u v e in
        Ends-bind (Keeps_mono (save_and_next-Keeps (n - 1) del u k') n (omega arith))
          (λ _ x y. Ends-read (buffered-Reads x) (λ _ _. Ends-pure y))))
