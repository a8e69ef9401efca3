-- ===== src/Lexer/Steps.antt =====
-- llex.cpp: when a lexical state is in order, and what the steps on characters do to it.
use cpplua.Prelude.{
  ℕ, ◌+◌, ◌/◌, ◌^◌, ◌≤◌, ◌<◌, ◌≡◌, ◌⊎◌, refl, ap, ◌∙◌, Option, none, some, List, [], ◌∷◌, ◌++◌,
  length, ltb, leb, arith, length-append, Bool-cases, inl, inr, lt→ltb, ltb→lt, leb→le,
}
use cpplua.Prelude.Outcome.{ok}
use cpplua.Prelude.Post.{returns, raises, Meets, ends, Ends, Reads, Ends-bind, Ends_mono}
use cpplua.Zio.{Zio, zgetc}
use cpplua.Zio.Flat.{flat, IsValid, zgetc_lem, zgetc_at_end}
use cpplua.Prelude.Limits.{max_int, max_sizet}
use cpplua.Lexer.{
  LexError, LexState, Message, current, buffered, lexerror, next, put_char, grow, save, count_line,
}

-- what is left to read, the current character included
abbrev pub ahead_of : Option ℕ → List ℕ → List ℕ
ahead_of none s = []
ahead_of (some c) s = c ∷ s

-- At the end of the stream its counter may be off: nothing more may be read.
abbrev pub Stream : Option ℕ → Zio → Type 0
Stream none z = Unit
Stream (some c) z = IsValid z × (length (flat z) < 2 ^ 64)

module _ {Num : Type 0} where
  abbrev pub ahead : LexState Num → List ℕ
  ahead ls = ahead_of ls.current (flat ls.z)

  pub record Good (ls : LexState Num) : Type 0 where
    pub stream : Stream ls.current ls.z
    pub room : 0 < ls.buffsize
    pub fits : length ls.buffer ≤ ls.buffsize

  -- `t` differs from `ls` in the character read and the stream
  abbrev pub Read : LexState Num → LexState Num → Type 0
  Read ls t = t ≡ record ls { current = t.current; z = t.z }

  pub current-Reads :
      {F : LexError → Type 0} (ls : LexState Num)
      → Meets F (Reads (λ c. c ≡ ls.current) ls) current ls
  unfolding current
  current-Reads ls = ends (returns (refl, refl))

  pub buffered-Reads :
      {F : LexError → Type 0} (ls : LexState Num)
      → Meets F (Reads (λ b. b ≡ ls.buffer) ls) buffered ls
  unfolding buffered
  buffered-Reads ls = ends (returns (refl, refl))

  pub lexerror-Ends :
      {A : Type 0} {Q : A → LexState Num → Type 0} (m : Message) (token : ℕ) {ls : LexState Num}
      → Ends Q (lexerror m token) ls
  unfolding lexerror
  lexerror-Ends m token = ends (raises tt)

flat-le : (z : Zio) → IsValid z → z.n ≤ length (flat z)
unfolding flat
flat-le z v = omega (arith, v.counted, length-append z.p _)

zgetc-Stream :
    (z : Zio) (s : List ℕ)
    → IsValid z
    → length (flat z) < 2 ^ 64
    → flat z ≡ s
    → (c : Option ℕ) × (z' : Zio) × (zgetc {E = LexError} z ≡ ok (c, z'))
      × (ahead_of c (flat z') ≡ s)
      × Stream c z'
zgetc-Stream z [] v h e =
    let (z', g, _) = zgetc_at_end LexError z v (omega (arith, flat-le z v)) e in
    (none, z', g, refl, tt)
zgetc-Stream z (c ∷ s) v h e =
    let (z', v', g, f) = zgetc_lem LexError z v (omega (arith, flat-le z v)) e in
    (
      some c,
      z',
      g,
      ap (λ (r : List ℕ). c ∷ r) f,
      (v', omega (arith, ap (length {A = ℕ}) e, ap (length {A = ℕ}) f)),
    )

module _ {Num : Type 0} where
  -- After `next` the state is `ls` but for the stream, which has moved on.
  pub record Moved (ls : LexState Num) (s : List ℕ) (t : LexState Num) : Type 0 where
    pub good : Good t
    pub left : ahead t ≡ s
    pub rest : t ≡ record ls { current = t.current; z = t.z }

  pub record Saved (ls : LexState Num) (c : ℕ) (t : LexState Num) : Type 0 where
    pub good : Good t
    pub rest : t ≡ record ls { buffer = ls.buffer ++ c ∷ []; buffsize = t.buffsize }

  -- `t` is `ls` with room for a byte
  record Grown (ls t : LexState Num) : Type 0 where
    pub good : Good t
    space : length t.buffer < t.buffsize
    pub rest : t ≡ record ls { buffsize = t.buffsize }

pub ahead-cons :
    (cur : Option ℕ) (z : Zio) (c : ℕ) (s : List ℕ)
    → ahead_of cur (flat z) ≡ c ∷ s
    → Stream cur z
    → (cur ≡ some c) × (flat z ≡ s) × IsValid z × (length (flat z) < 2 ^ 64)
ahead-cons none z c s e h = absurd (cc)
ahead-cons (some d) z c s e (v, b) = (cc, cc, v, b)

module _ {Num : Type 0} {F : LexError → Type 0} where
  pub next-Moved :
      (ls : LexState Num) (c : ℕ) (s : List ℕ)
      → Good ls
      → ahead ls ≡ c ∷ s
      → Meets F (λ _ t. Moved ls s t) next ls
  unfolding next
  next-Moved ls c s g e =
      let (_, f, v, b) = ahead-cons ls.current ls.z c s e g.stream in
      let (x, z, got, left, st) = zgetc-Stream ls.z s v b f in
      ends (
        rw (next, got)
          (returns (record {
            good = record { stream = st; room = g.room; fits = g.fits };
            left = left;
            rest = refl;
          })))

  put_char-Saved :
      (ls : LexState Num) (c : ℕ)
      → Good ls
      → length ls.buffer < ls.buffsize
      → Meets F (λ _ t. Saved ls c t) (put_char c) ls
  unfolding put_char
  put_char-Saved ls c g h = ends (
      rw (lt→ltb _ _ h) (
        returns (record {
          good = record {
            stream = g.stream;
            room = g.room;
            fits = omega (arith, length-append ls.buffer (c ∷ []));
          };
          rest = refl;
        })))

  grow-Grown :
      (ls : LexState Num)
      → ((e : LexError) → F e) ⊎ (length ls.buffer < max_sizet / 2)
      → Good ls
      → Meets F (λ _ t. Grown ls t) grow ls
  unfolding grow lexerror
  grow-Grown ls allow g = elim (Bool-cases (ltb ls.buffsize (length ls.buffer + 1))) [
    | inr fits ↦
        ends (rw fits (returns (record { good = g; space = ground (arith, fits); rest = refl })))
    | inl full ↦ elim (Bool-cases (leb (max_sizet / 2) ls.buffsize)) [
      | inl big ↦ elim allow [
        | inl raise_any ↦ ends (rw (full, big) (raises (raise_any _)))
        | inr small ↦ absurd (omega (arith, ltb→lt _ _ full, leb→le _ _ big, small))
      ]
      | inr small ↦ ends (
          rw (full, small)
            (returns (record {
              good = record {
                stream = g.stream;
                room = omega (arith, g.room);
                fits = omega (arith, g.fits);
              };
              space = omega (arith, g.room, g.fits);
              rest = refl;
            })))
    ]
  ]

  -- The errors that may be raised, or the bound under which none is.
  pub save-Saved :
      (ls : LexState Num) (c : ℕ)
      → ((e : LexError) → F e) ⊎ (length ls.buffer < max_sizet / 2)
      → Good ls
      → Meets F (λ _ t. Saved ls c t) (save c) ls
  unfolding save
  save-Saved ls c allow g = Ends-bind (grow-Grown ls allow g) (λ _ t w.
      Ends_mono (put_char-Saved t c w.good w.space) (λ _ u v. record {
        good = v.good;
        rest =
            v.rest
            ∙ ap
                (λ (x : LexState Num). record x {
                  buffer = x.buffer ++ c ∷ [];
                  buffsize = u.buffsize;
                })
                w.rest;
      }))

  pub count_line-Counted :
      (ls : LexState Num)
      → ((e : LexError) → F e) ⊎ (ls.linenumber + 1 < max_int)
      → Meets F (λ _ t. t ≡ record ls { linenumber = ls.linenumber + 1 }) count_line ls
  unfolding count_line lexerror
  count_line-Counted ls allow = elim (Bool-cases (leb max_int (ls.linenumber + 1))) [
    | inl many ↦ elim allow [
      | inl raise_any ↦ ends (rw many (raises (raise_any _)))
      | inr few ↦ absurd (ground (arith, many))
    ]
    | inr few ↦ ends (rw few (returns refl))
  ]
