-- ===== src/Chunk/Stream.antt =====
-- Loaders on a stream that begins with given bytes: one rule for each way to build a loader.
use cpplua.Prelude.{
  ℕ, ◌+◌, ◌-◌, ◌*◌, ◌%◌, ◌^◌, ◌<◌, ◌≡◌, refl, ◌∙◌, ap, false, Option, none, some, List, [], ◌∷◌,
  ◌++◌, arith, ltb, ◌==◌, if◌then◌else◌, length, take, drop, length-append, All, lt→ltb,
}
use mathlib.Core.Path.{subst}
use cpplua.Prelude.Slices.{take-append, drop-append}
use cpplua.Prelude.Text.{codes}
use mathlib.Core.List.{append-nil, append_assoc}
use cpplua.Prelude.Outcome.{ok, ◌>>=◌, pure}
use cpplua.Zio.{Zio}
use cpplua.Zio.Flat.{flat, IsValid, read_lem}
use cpplua.Chunk.Bytes.{to_bytes, of_bytes, vector_bytes, length-to_bytes, of_bytes-to_bytes}
use cpplua.Chunk.Encoding.{each_bytes}
use cpplua.Chunk.Undump.{
  Load, error, load_block, load_char, load_int, load_word, load_string, words, load_vector,
  load_each,
}

-- on every stream that begins with `bs`, `m` returns `a` and leaves what follows `bs`
pub record Loads {A : Type 0} (m : Load A) (bs : List ℕ) (a : A) : Type 0 where
  pub at :
      (z : Zio) (rest : List ℕ)
      → IsValid z
      → flat z ≡ bs ++ rest
      → (z' : Zio) × IsValid z' × (m z ≡ ok (a, z')) × (flat z' ≡ rest)

pub Loads-pure : {A : Type 0} (a : A) → Loads (pure a) [] a
Loads-pure a = record { at = λ z rest v e. (z, v, refl, e) }

pub Loads-bind :
    {A B : Type 0} {m : Load A} (f : A → Load B) {bs cs : List ℕ} {a : A} {b : B}
    → Loads m bs a
    → Loads (f a) cs b
    → Loads (m >>= f) (bs ++ cs) b
Loads-bind f {bs} {cs} lm lf = record {
  at = λ z rest v e.
      let (z1, v1, r1, e1) = lm.at z (cs ++ rest) v (e ∙ append_assoc bs cs rest) in
      let (z2, v2, r2, e2) = lf.at z1 rest v1 e1 in (z2, v2, rw (r1, ◌>>=◌) r2, e2);
}

pub Loads-eq :
    {A : Type 0} {m : Load A} {bs cs : List ℕ} {a : A} → bs ≡ cs → Loads m bs a → Loads m cs a
Loads-eq {m} {a} e l = subst (λ x. Loads m x a) e l

pub Loads-val :
    {A : Type 0} {m : Load A} {bs : List ℕ} {a b : A} → a ≡ b → Loads m bs a → Loads m bs b
Loads-val {m} {bs} e l = subst (λ x. Loads m bs x) e l

-- a last step that takes nothing off the stream
pub Loads-map :
    {A B : Type 0} {m : Load A} (f : A → B) {bs : List ℕ} {a : A}
    → Loads m bs a
    → Loads (m >>= λ x. pure (f x)) bs (f a)
Loads-map f {bs} {a} l =
    Loads-eq (append-nil bs) (Loads-bind (λ x. pure (f x)) l (Loads-pure (f a)))

module _ (name : List ℕ) where
  pub load_block-Loads : (bs : List ℕ) {n : ℕ} → length bs ≡ n → Loads (load_block name n) bs bs
  unfolding load_block
  load_block-Loads bs {n} e = record {
    at = λ z rest v f.
        let (z', v', r, left) = read_lem (List ℕ) n z v in
        let bytes : take n (flat z) ≡ bs = rw (f, ← e) (take-append bs rest) in
        let full : n - length (flat z) ≡ 0 = omega (arith, ap length f, length-append bs rest) in
        let after : drop n (flat z) ≡ rest = rw (f, ← e) (drop-append bs rest) in
        (
          z',
          v',
          ground (arith, r, bytes, full),
          left (omega (arith, ap length f, length-append bs rest)) ∙ after,
        );
  }

  pub load_char-Loads : (x : ℕ) → x < 256 → Loads (load_char name) (to_bytes 1 x) x
  unfolding load_char
  load_char-Loads x h =
      Loads-val (of_bytes-to_bytes 1 x (omega arith))
        (Loads-map of_bytes (load_block-Loads (to_bytes 1 x) refl))

  pub load_word-Loads : (x : ℕ) → x < 2 ^ 64 → Loads (load_word name) (to_bytes 8 x) x
  unfolding load_word
  load_word-Loads x h =
      Loads-val (of_bytes-to_bytes 8 x (omega arith))
        (Loads-map of_bytes (load_block-Loads (to_bytes 8 x) refl))

  nonneg : List ℕ → Load ℕ
  nonneg b =
      if ltb (of_bytes b) (2 ^ 31) then pure (of_bytes b) else error name (codes "bad integer")

  nonneg-Loads : (x : ℕ) → x < 2 ^ 31 → Loads (nonneg (to_bytes 4 x)) [] x
  unfolding nonneg
  nonneg-Loads x h =
      let e = of_bytes-to_bytes 4 x (omega arith) in
      let t = lt→ltb x (2 ^ 31) h in rw (e, t) (Loads-pure x)

  pub load_int-Loads : (x : ℕ) → x < 2 ^ 31 → Loads (load_int name) (to_bytes 4 x) x
  unfolding load_int nonneg
  load_int-Loads x h =
      Loads-eq (append-nil (to_bytes 4 x))
        (Loads-bind nonneg (load_block-Loads (to_bytes 4 x) refl) (nonneg-Loads x h))

  -- the loader behind the size of a string
  sized : ℕ → Load (Option (List ℕ))
  sized size =
      if size == 0
      then pure none
      else (load_block name size >>= λ s. pure (some (take (size - 1) s)))

  sized-Loads : (s : List ℕ) → Loads (sized (length s + 1)) (s ++ 0 ∷ []) (some s)
  unfolding sized
  sized-Loads s =
      let t : (length s + 1 == 0) ≡ false = ground arith in
      let e : length s + 1 - 1 ≡ length s = omega arith in
      let l = load_block-Loads (s ++ 0 ∷ []) {n = length s + 1} (length-append s (0 ∷ [])) in
      rw t (
        Loads-val (ap some (rw e (take-append s (0 ∷ []))))
          (Loads-map (λ b. some (take (length s + 1 - 1) b)) l))

  pub load_string-null : Loads (load_string name) (to_bytes 8 0) none
  unfolding load_string sized
  load_string-null =
      Loads-eq (append-nil (to_bytes 8 0))
        (Loads-bind sized (load_word-Loads 0 (omega arith)) (Loads-pure none))

  pub load_string-Loads :
      (s : List ℕ)
      → length s + 1 < 2 ^ 64
      → Loads (load_string name) (to_bytes 8 (length s + 1) ++ (s ++ 0 ∷ [])) (some s)
  unfolding load_string sized
  load_string-Loads s h = Loads-bind sized (load_word-Loads (length s + 1) h) (sized-Loads s)

  words-vector_bytes :
      (size : ℕ) (xs : List ℕ)
      → All (λ x. x < 256 ^ size) xs
      → words name size (length xs) (vector_bytes size xs) ≡ xs
  unfolding words
  words-vector_bytes size [] h = refl
  words-vector_bytes size (x ∷ xs) (hx, h) =
      let n = length-to_bytes size x in
      let e1 : take size (to_bytes size x ++ vector_bytes size xs) ≡ to_bytes size x =
        rw n at (take-append (to_bytes size x) (vector_bytes size xs)) in
      let e2 : drop size (to_bytes size x ++ vector_bytes size xs) ≡ vector_bytes size xs =
        rw n at (drop-append (to_bytes size x) (vector_bytes size xs)) in
      rw (e1, e2, of_bytes-to_bytes size x hx, words-vector_bytes size xs h)

  length-vector_bytes : (size : ℕ) (xs : List ℕ) → length (vector_bytes size xs) ≡ length xs * size
  length-vector_bytes size [] = omega arith
  length-vector_bytes size (x ∷ xs) =
      rw length-append (omega (arith, length-to_bytes size x, length-vector_bytes size xs))

  -- the loader behind the length of a vector of 4-byte words
  counted : ℕ → Load (List ℕ)
  counted n = load_block name (n * 4 % 2 ^ 64) >>= λ b. pure (words name 4 n b)

  pub load_vector-Loads :
      (xs : List ℕ)
      → length xs < 2 ^ 31
      → All (λ x. x < 256 ^ 4) xs
      → Loads (load_vector name 4) (to_bytes 4 (length xs) ++ vector_bytes 4 xs) xs
  unfolding load_vector counted
  load_vector-Loads xs h fits =
      let n : length (vector_bytes 4 xs) ≡ length xs * 4 % 2 ^ 64 =
        omega (arith, length-vector_bytes 4 xs) in
      Loads-bind counted (load_int-Loads (length xs) h) (
        Loads-val (words-vector_bytes 4 xs fits)
          (Loads-map (λ b. words name 4 (length xs) b) (load_block-Loads (vector_bytes 4 xs) n)))

  pub load_each-Loads :
      {A : Type 0} {P : A → Type 0} (m : Load A) (enc : A → List ℕ)
      → ((x : A) → P x → Loads m (enc x) x)
      → (xs : List A) → All P xs
      → Loads (load_each name (length xs) m) (each_bytes enc xs) xs
  unfolding load_each
  load_each-Loads m enc one [] h = Loads-pure []
  load_each-Loads m enc one (x ∷ xs) (hx, h) =
      Loads-bind (λ y. load_each name (length xs) m >>= λ ys. pure (y ∷ ys)) (one x hx)
        (Loads-map (λ ys. x ∷ ys) (load_each-Loads m enc one xs h))
