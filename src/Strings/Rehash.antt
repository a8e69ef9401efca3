-- ===== src/Strings/Rehash.antt =====
-- lstring.cpp: the table that luaS_resize rebuilds.
use cpplua.Prelude.{
  ℕ, zero, suc, ◌+◌, ◌≤◌, ◌<◌, ◌≡◌, refl, ap, sym, ◌∙◌, false, ◌&&◌, List, [], ◌∷◌, length, ltb,
  leb, ◌==◌, ==_iff, if◌then◌else◌, Bool-cases, inl, inr, arith,
}
use cpplua.Strlib.Pattern.Match.{bytes_eq}
use cpplua.Strings.{TString, StringTable, lmod, hash_of, store, rechain, rehash_from}
use cpplua.Strings.Chain.{IsInterned, named, home, lookup, Hashed, bytes_eq-eq, named-push}

abbrev onto : List ℕ → List ℕ → List ℕ
onto [] acc = acc
onto (x ∷ xs) acc = onto xs (x ∷ acc)

module _ (n : ℕ) (b : List ℕ) where
  -- One slot is moved: its strings with the bytes `b` come in front of their new slot.
  rechain-named :
      (ps : List TString) (new : ℕ → List TString) (j : ℕ)
      → Hashed ps
      → named (rechain n ps new j) b
        ≡ (if lmod (hash_of b) n == j then onto (named ps b) (named (new j) b) else named (new j) b)
  unfolding rechain named Hashed
  rechain-named [] new j h = ground arith
  rechain-named (p ∷ ps) new j h = elim (Bool-cases (bytes_eq b p.bytes)) [
    | inl e ↦
        let same : p.hash ≡ hash_of b = h.0 ∙ ap hash_of (sym (bytes_eq-eq b p.bytes e)) in
        rechain-named ps (store new (lmod p.hash n) (p ∷ new (lmod p.hash n))) j h.1
        ∙ rw (named-push new (lmod p.hash n) j p b) (rw (e, same) (ground arith))
    | inr e ↦
        rechain-named ps (store new (lmod p.hash n) (p ∷ new (lmod p.hash n))) j h.1
        ∙ rw (named-push new (lmod p.hash n) j p b) (rw e (ground arith))
  ]

  -- After the outer loop over the slots from `i` on, where `H` is the one slot with the bytes `b`.
  rehash_from-named :
      (H : ℕ) (old : ℕ → List TString) (count i : ℕ) (new : ℕ → List TString) (j : ℕ)
      → ((k : ℕ) → Hashed (old k))
      → ((k : ℕ) → (H == k) ≡ false → named (old k) b ≡ [])
      → named (rehash_from n count old i new j) b ≡ (
          if lmod (hash_of b) n == j && (leb i H && ltb H (i + count))
          then onto (named (old H) b) (named (new j) b)
          else named (new j) b)
  unfolding rehash_from
  rehash_from-named H old zero i new j h only = ground arith
  rehash_from-named H old (suc count) i new j h only = elim (Bool-cases (H == i)) [
    | inl e ↦
        let at : old i ≡ old H = ap old (sym ((==_iff H i).0 e)) in
        rehash_from-named H old count (i + 1) (rechain n (old i) new) j h only
        ∙ rw (rechain-named (old i) new j (h i)) (rw at (ground (arith, e)))
    | inr e ↦
        rehash_from-named H old count (i + 1) (rechain n (old i) new) j h only
        ∙ rw (rechain-named (old i) new j (h i)) (rw (only i e) (ground (arith, e)))
  ]

pub store-Hashed :
    (f : ℕ → List TString) (k : ℕ) (c : List TString) (j : ℕ)
    → Hashed c
    → Hashed (f j)
    → Hashed (store f k c j)
unfolding store
store-Hashed f k c j h g = elim (Bool-cases (j == k)) [ inl e ↦ rw e h | inr e ↦ rw e g ]

module _ (n : ℕ) where
  rechain-Hashed :
      (ps : List TString) (new : ℕ → List TString)
      → Hashed ps
      → ((j : ℕ) → Hashed (new j))
      → (j : ℕ) → Hashed (rechain n ps new j)
  unfolding rechain Hashed
  rechain-Hashed [] new h g j = g j
  rechain-Hashed (p ∷ ps) new h g j =
      let k = lmod p.hash n in
      rechain-Hashed ps (store new k (p ∷ new k)) h.1
        (λ i. store-Hashed new k (p ∷ new k) i (h.0, g k) (g i)) j

  rehash_from-Hashed :
      (old : ℕ → List TString) (count i : ℕ) (new : ℕ → List TString)
      → ((k : ℕ) → Hashed (old k))
      → ((j : ℕ) → Hashed (new j))
      → (j : ℕ) → Hashed (rehash_from n count old i new j)
  unfolding rehash_from
  rehash_from-Hashed old zero i new h g j = g j
  rehash_from-Hashed old (suc count) i new h g j =
      rehash_from-Hashed old count (i + 1) (rechain n (old i) new) h
        (rechain-Hashed (old i) new (h i) g) j

-- Within its slot a string that stands there once is found after its slot was turned round.
onto_once : (xs : List ℕ) → length xs ≤ 1 → onto xs [] ≡ xs
onto_once [] h = refl
onto_once (x ∷ []) h = refl
onto_once (x ∷ y ∷ xs) h = absurd (omega (arith, h))

lmod_lt : (h n : ℕ) → 0 < n → lmod h n < n
unfolding lmod
lmod_lt h n k = omega (arith, k)

module _ (n : ℕ) (tb : StringTable) (inv : IsInterned tb) (room : 0 < n) where
  abbrev pub resized : StringTable
  resized = record { hash = rehash_from n tb.size tb.hash 0 (λ _. []); nuse = tb.nuse; size = n }

  resized-named :
      (j : ℕ) (b : List ℕ)
      → named (resized.hash j) b
        ≡ (if lmod (hash_of b) n == j then named (tb.hash (home tb b)) b else [])
  unfolding named rehash_from
  resized-named j b =
      let below = lmod_lt (hash_of b) tb.size inv.room in
      rehash_from-named n b (home tb b) tb.hash tb.size 0 (λ _. []) j inv.hashed
        (λ k. inv.placed k b)
      ∙ rw (onto_once (named (tb.hash (home tb b)) b) (inv.once b)) (ground (arith, below))

  pub resized-IsInterned : IsInterned resized
  unfolding Hashed
  resized-IsInterned = record {
    room = room;
    hashed = rehash_from-Hashed n tb.hash tb.size 0 (λ _. []) inv.hashed (λ _. tt);
    placed = λ i b e. resized-named i b ∙ rw e refl;
    once = λ b. rw (resized-named (lmod (hash_of b) n) b) (ground (arith, inv.once b));
  }

  pub resized-lookup : (b : List ℕ) → lookup resized b ≡ lookup tb b
  unfolding lookup
  resized-lookup b = rw (resized-named (lmod (hash_of b) n) b) (ground arith)
