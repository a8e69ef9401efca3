-- ===== src/Table/Border.antt =====
-- luaH_getn finds a border.
use cpplua.Prelude.{
  ℕ, zero, suc, ◌+◌, ◌-◌, ◌*◌, ◌/◌, ◌%◌, ◌^◌, ◌≤◌, ◌<◌, ◌≡◌, refl, sym, ap, ◌∙◌, Bool, true, false,
  some, List, [], ◌∷◌, arith, ltb, length, get_elem?, ◌⊎◌, inl, inr, Bool-cases, lt→ltb,
  get_elem?-lt, ◌≢◌,
}
use native.Mathlib.Nat.{mul_assoc}
use cpplua.Prelude.Bits.{pow_two_suc}
use cpplua.Prelude.Limits.{max_int}
use cpplua.Prelude.Outcome.{ok, Proc, ◌>>=◌}
use cpplua.Prelude.Int.{pos}
use cpplua.Table.{
  Value, is_nil, Node, has_number, nilobject, Table, Numbers, empty_node, getnum, search, walk,
  hashnum, hashmod,
}
use cpplua.Table.Traverse.{
  value_at, as_int, nil_in, last_is_nil, between, linear, doubling, unbound_search, getn, absent,
}

-- `n` is present, or 0, and `n + 1` is absent
abbrev pub IsBorder : (ℕ → Bool) → ℕ → Type 0
IsBorder nil_at n = ((n ≡ 0) ⊎ (nil_at n ≡ false)) × (nil_at (suc n) ≡ true)

module _ (t : Table) (test : ℕ → Proc (List ℕ) Table Bool) (nil_at : ℕ → Bool) where
  module _ (top : ℕ) (reads : (k : ℕ) → 1 ≤ k → k ≤ top → test k t ≡ ok (nil_at k, t)) where
    between-IsBorder :
        (fuel i j : ℕ)
        → i < j
        → j < 2 ^ 31
        → j ≤ top
        → j - i ≤ 2 ^ fuel
        → (i ≡ 0) ⊎ (nil_at i ≡ false)
        → nil_at j ≡ true
        → (n : ℕ) × (between test fuel i j t ≡ ok (n, t)) × IsBorder nil_at n
    unfolding between
    between-IsBorder zero i j h k u d low high =
        let e : suc i ≡ j = omega arith in (i, ground arith, (low, rw e high))
    between-IsBorder (suc fuel) i j h k u d low high =
        let m = (i + j) % 2 ^ 32 / 2 in
        let middle : m ≡ (i + j) / 2 = omega arith in
        let half = pow_two_suc fuel in
        elim (Bool-cases (ltb 1 ((j + 2 ^ 32 - i) % 2 ^ 32))) [
          | inr stop ↦
              let e : suc i ≡ j = ground (arith, stop) in
              (i, rw (between, stop) refl, (low, rw e high))
          | inl go ↦
              let far : 1 < j - i = ground (arith, go) in
              let r = reads m (omega arith) (omega arith) in
              elim (Bool-cases (nil_at m)) [
                | inl absent ↦
                    let step : between test (suc fuel) i j t ≡ between test fuel i m t =
                      rw (between, go, ◌>>=◌, r, absent) refl in
                    let (n, run, b) =
                      between-IsBorder fuel i m (omega arith) (omega arith) (omega arith)
                        (omega arith) low absent in
                    (n, step ∙ run, b)
                | inr present ↦
                    let step : between test (suc fuel) i j t ≡ between test fuel m j t =
                      rw (between, go, ◌>>=◌, r, present) refl in
                    let (n, run, b) =
                      between-IsBorder fuel m j (omega arith) k u (omega arith) (inr present)
                        high in
                    (n, step ∙ run, b)
              ]
        ]

    linear-IsBorder :
        (fuel i far : ℕ)
        → 1 ≤ i
        → i ≤ far
        → far < 2 ^ 31
        → far ≤ top
        → far - i < fuel
        → (i ≡ 1) ⊎ (nil_at (i - 1) ≡ false)
        → nil_at far ≡ true
        → (n : ℕ) × (linear test fuel i t ≡ ok (n, t)) × IsBorder nil_at n
    unfolding linear
    linear-IsBorder zero i far p h k u d low end = absurd (omega arith)
    linear-IsBorder (suc fuel) i far p h k u d low end =
        let r = reads i p (omega arith) in
        elim (Bool-cases (nil_at i)) [
          | inl absent ↦
              let e : suc (i - 1) ≡ i = omega arith in
              let low' : (i - 1 ≡ 0) ⊎ (nil_at (i - 1) ≡ false) = elim low [
                | inl one ↦ inl (omega arith)
                | inr here ↦ inr here
              ] in
              (i - 1, rw (linear, ◌>>=◌, r, absent) refl, (low', rw e absent))
          | inr present ↦
              let i' : (i + 1) % 2 ^ 32 ≡ suc i = omega arith in
              let step : linear test (suc fuel) i t ≡ linear test fuel (suc i) t =
                rw (linear, ◌>>=◌, r, present, i') refl in
              let before : suc i - 1 ≡ i = omega arith in
              let apart : i ≢ far = λ e. (let both : nil_at far ≡ false = rw e at present in cc) in
              let (n, run, b) =
                linear-IsBorder fuel (suc i) far (omega arith) (ground (arith, apart)) k u
                  (omega arith) (inr (rw before present)) end in
              (n, step ∙ run, b)
        ]

    doubling-IsBorder :
        (far fuel i j : ℕ)
        → far < 2 ^ 31
        → 2 ^ 31 ≤ suc top
        → 1 ≤ far
        → nil_at far ≡ true
        → i < j
        → j < 2 ^ 31
        → 2 ^ 31 ≤ j * 2 ^ fuel
        → (i ≡ 0) ⊎ (nil_at i ≡ false)
        → (n : ℕ) × (doubling test far fuel i j t ≡ ok (n, t)) × IsBorder nil_at n
    unfolding doubling
    doubling-IsBorder far zero i j f u p end h k big low = absurd (omega arith)
    doubling-IsBorder far (suc fuel) i j f u p end h k big low =
        let r = reads j (omega arith) (omega arith) in
        let half = pow_two_suc fuel in
        elim (Bool-cases (nil_at j)) [
          | inl absent ↦
              let step : doubling test far (suc fuel) i j t ≡ between test 31 i j t =
                rw (doubling, ◌>>=◌, r, absent) refl in
              let (n, run, b) =
                between-IsBorder 31 i j h k (omega arith) (omega arith) low absent in
              (n, step ∙ run, b)
          | inr present ↦ elim (Bool-cases (ltb max_int (j * 2 % 2 ^ 32))) [
            | inl over ↦
                let step : doubling test far (suc fuel) i j t ≡ linear test far 1 t =
                  rw (doubling, ◌>>=◌, r, present, over) refl in
                let (n, run, b) =
                  linear-IsBorder far 1 far (omega arith) p f (omega arith) (omega arith) (inl refl)
                    end in
                (n, step ∙ run, b)
            | inr small ↦
                let e : j * 2 % 2 ^ 32 ≡ j * 2 = omega arith in
                let step : doubling test far (suc fuel) i j t ≡ doubling test far fuel j (j * 2) t =
                  rw (doubling, ◌>>=◌, r, present, small, e) refl in
                let below : j * 2 < 2 ^ 31 = ground (arith, small) in
                let grows : j * 2 * 2 ^ fuel ≡ j * 2 ^ suc fuel =
                  rw (half, mul_assoc j 2 (2 ^ fuel)) refl in
                let (n, run, b) =
                  doubling-IsBorder far fuel j (j * 2) f u p end (omega arith) below
                    (omega (arith, grows)) (inr present) in
                (n, step ∙ run, b)
          ]
        ]

unbound_search-eq :
    (num : Numbers) (far j : ℕ) (t : Table)
    → unbound_search num far j t ≡ doubling (absent num) far 32 j ((j + 1) % 2 ^ 32) t
unfolding unbound_search
unbound_search-eq num far j t = refl

module _ (num : Numbers) (t : Table) where
  as_int-small : (k : ℕ) → k < 2 ^ 31 → as_int k ≡ pos k
  as_int-small k h = ground (arith, h)

  pub absent-array :
      (i : ℕ) {v : Value}
      → length t.array < 2 ^ 31
      → i < length t.array
      → get_elem? t.array i ≡ some v
      → absent num (suc i) t ≡ ok (is_nil v, t)
  unfolding absent getnum value_at
  absent-array i h k e =
      let a = as_int-small (suc i) (omega arith) in
      let here = lt→ltb i (length t.array) k in rw (a, ◌>>=◌, here, e) refl

  search-dummy :
      (found : Node → Bool) (i : ℕ)
      → found empty_node ≡ false
      → i ≡ 0
      → t.node ≡ empty_node ∷ []
      → search num found i t ≡ ok (nilobject, t)
  unfolding search walk
  search-dummy found i f z e = rw (◌>>=◌, z, e, f) refl

  hashnum-dummy : (n : ℕ) → t.node ≡ empty_node ∷ [] → hashnum num t n ≡ 0
  unfolding hashnum hashmod
  hashnum-dummy n e =
      let one : (length t.node - 1) / 2 * 2 + 1 ≡ 1 = omega (arith, ap length e) in
      let m = num.plus_one n in
      let w = (m % 2 ^ 32 + m / 2 ^ 32) % 2 ^ 32 in let z : w % 1 ≡ 0 = omega arith in rw (one, z)

  getnum-hash :
      (j : ℕ)
      → ltb j (length t.array) ≡ false
      → getnum num (pos (suc j)) t
        ≡ search num
            (has_number num (num.of_int (pos (suc j))))
            (hashnum num t (num.of_int (pos (suc j))))
            t
  unfolding getnum
  getnum-hash j out = rw (◌>>=◌, out) refl

  pub absent-dummy :
      (j : ℕ)
      → length t.array ≤ j
      → suc j < 2 ^ 31
      → t.node ≡ empty_node ∷ []
      → absent num (suc j) t ≡ ok (true, t)
  unfolding absent value_at
  absent-dummy j h k e =
      let a = as_int-small (suc j) (omega arith) in
      let out : ltb j (length t.array) ≡ false = ground arith in
      let n = num.of_int (pos (suc j)) in
      let s = search-dummy (has_number num n) (hashnum num t n) refl (hashnum-dummy n e) e in
      let g = getnum-hash j out ∙ s in rw (a, ◌>>=◌, g) refl

  module _ (nil_at : ℕ → Bool) (small : suc (length t.array) < 2 ^ 31)
      (reads : (k : ℕ) → 1 ≤ k → k ≤ 2 ^ 31 - 1 → absent num k t ≡ ok (nil_at k, t)) where
    array_reads : (k : ℕ) → 1 ≤ k → k ≤ length t.array → nil_in t.array (k - 1) t ≡ ok (nil_at k, t)
    array_reads k one h =
        let (v, e) = get_elem?-lt t.array (k - 1) (omega arith) in
        let k' : suc (k - 1) ≡ k = omega arith in
        let found = absent-array (k - 1) {v = v} (omega arith) (omega arith) e in
        let here : absent num k t ≡ ok (is_nil v, t) = rw k' at found in
        let there : nil_in t.array (k - 1) t ≡ ok (is_nil v, t) = rw (nil_in, e) refl in
        there ∙ sym here ∙ reads k one (omega arith)

    last_is_nil_lem :
        ((last_is_nil num t ≡ ok (false, t))
          × ((length t.array ≡ 0) ⊎ (nil_at (length t.array) ≡ false)))
        ⊎ ((last_is_nil num t ≡ ok (true, t))
            × (1 ≤ length t.array)
            × (nil_at (length t.array) ≡ true))
    unfolding last_is_nil
    last_is_nil_lem = elim (Bool-cases (ltb 0 (length t.array))) [
      | inr empty ↦ inl (rw empty refl, inl (ground (arith, empty)))
      | inl some_slot ↦
          let one : 1 ≤ length t.array = ground (arith, some_slot) in
          let r = array_reads (length t.array) one (omega arith) in
          elim (Bool-cases (nil_at (length t.array))) [
            | inl absent ↦ inr (rw (some_slot, r, absent) refl, one, absent)
            | inr present ↦ inl (rw (some_slot, r, present) refl, inr present)
          ]
    ]

    getn-array :
        (far : ℕ)
        → last_is_nil num t ≡ ok (true, t)
        → 1 ≤ length t.array
        → nil_at (length t.array) ≡ true
        → (n : ℕ) × (getn num far t ≡ ok (n, t)) × IsBorder nil_at n
    unfolding getn
    getn-array far e one end =
        let step : getn num far t ≡ between (λ m. nil_in t.array (m - 1)) 31 0 (length t.array) t =
          rw (◌>>=◌, e) refl in
        let (n, run, b) =
          between-IsBorder t (λ m. nil_in t.array (m - 1)) nil_at (length t.array) array_reads 31 0
            (length t.array) (omega arith) (omega arith) (omega arith) (omega arith) (inl refl)
            end in
        (n, step ∙ run, b)

    getn-hash :
        (far : ℕ)
        → last_is_nil num t ≡ ok (false, t)
        → (length t.array ≡ 0) ⊎ (nil_at (length t.array) ≡ false)
        → (t.dummy ≡ false) ⊎ (t.node ≡ empty_node ∷ [])
        → 1 ≤ far
        → far < 2 ^ 31
        → nil_at far ≡ true
        → (n : ℕ) × (getn num far t ≡ ok (n, t)) × IsBorder nil_at n
    unfolding getn
    getn-hash far e low d one f end =
        let j = length t.array in
        elim (Bool-cases t.dummy) [
          | inl dummy ↦ elim d [
            | inl other ↦ absurd (let x : false ≡ true = cc in cc)
            | inr only ↦
                let nothing = absent-dummy j (omega arith) small only in
                let beyond : nil_at (suc j) ≡ true =
                  cc (nothing, reads (suc j) (omega arith) (omega arith)) in
                (j, rw (◌>>=◌, e, dummy) refl, (low, beyond))
          ]
          | inr hashed ↦
              let next : (j + 1) % 2 ^ 32 ≡ suc j = omega arith in
              let step : getn num far t ≡ unbound_search num far j t = rw (◌>>=◌, e, hashed) refl in
              let start =
                unbound_search-eq num far j t
                ∙ ap (λ (x : ℕ). doubling (absent num) far 32 j x t) next in
              let (n, run, b) =
                doubling-IsBorder t (absent num) nil_at (2 ^ 31 - 1) reads far 32 j (suc j) f
                  (omega arith) one end (omega arith) small (omega arith) low in
              (n, step ∙ start ∙ run, b)
        ]

-- luaH_getn on a table whose array part has fewer than 2 ^ 31 - 1 slots and whose hash part is not the
-- dummy node or is that one empty node, where the lookups of the keys from 1 to 2 ^ 31 - 1 all end, and
-- one of these keys, `far`, is absent: with fuel `far` it returns a border, an index that is 0 or
-- present and whose successor is absent.
pub getn-IsBorder :
    (num : Numbers) (t : Table) (nil_at : ℕ → Bool) (far : ℕ)
    → suc (length t.array) < 2 ^ 31
    → (t.dummy ≡ false) ⊎ (t.node ≡ empty_node ∷ [])
    → ((k : ℕ) → 1 ≤ k → k ≤ 2 ^ 31 - 1 → absent num k t ≡ ok (nil_at k, t))
    → 1 ≤ far
    → far < 2 ^ 31
    → nil_at far ≡ true
    → (n : ℕ) × (getn num far t ≡ ok (n, t)) × IsBorder nil_at n
getn-IsBorder num t nil_at far h d reads one f end = elim (last_is_nil_lem num t nil_at h reads) [
  | inl (e, low) ↦ getn-hash num t nil_at h reads far e low d one f end
  | inr (e, low, high) ↦ getn-array num t nil_at h reads far e low high
]
