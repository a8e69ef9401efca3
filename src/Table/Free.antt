-- ===== src/Table/Free.antt =====
-- The free positions of the hash part.
use cpplua.Prelude.{
  ℕ, zero, suc, ◌≤◌, ◌<◌, ◌≡◌, refl, ◌∙◌, true, false, Option, none, some, List, arith, ltb, length,
  get_elem?, inl, inr, Bool-cases, get_elem?-lt,
}
use cpplua.Prelude.Int.{ℤ, pos, negsuc}
use cpplua.Prelude.Outcome.{ok}
use cpplua.Table.{Node, Table, Numbers, key_is_nil, free_below, getfreepos}

-- the nodes from `i` on and below `k` have keys
abbrev pub Taken : List Node → ℕ → ℕ → Type 0
Taken nodes i k =
    (j : ℕ)
    → i ≤ j
    → j < k
    → (n : Node) × (get_elem? nodes j ≡ some n) × (key_is_nil n.i_key ≡ false)

-- the last node below `k` without a key, if there is one
abbrev pub LastFree : List Node → ℕ → Option ℕ → ℤ → Type 0
LastFree nodes k none l = Taken nodes 0 k × (l ≡ negsuc 0)
LastFree nodes k (some i) l =
    (i < k)
    × ((n : Node) × (get_elem? nodes i ≡ some n) × (key_is_nil n.i_key ≡ true))
    × Taken nodes (suc i) k
    × (l ≡ pos i)

Taken-suc :
    (nodes : List Node) (i k : ℕ) {n : Node}
    → get_elem? nodes k ≡ some n
    → key_is_nil n.i_key ≡ false
    → Taken nodes i k
    → Taken nodes i (suc k)
Taken-suc nodes i k {n} e full h = λ j a b. elim (Bool-cases (ltb j k)) [
  | inl below ↦ h j a (ground (arith, below))
  | inr here ↦ let same : j ≡ k = ground (arith, here) in (n, rw same e, full)
]

LastFree-suc :
    (nodes : List Node) (k : ℕ) {n : Node} (r : Option ℕ) (l : ℤ)
    → get_elem? nodes k ≡ some n
    → key_is_nil n.i_key ≡ false
    → LastFree nodes k r l
    → LastFree nodes (suc k) r l
LastFree-suc nodes k none l e full (h, z) = (Taken-suc nodes 0 k e full h, z)
LastFree-suc nodes k (some i) l e full (h, here, above, z) =
    (omega arith, here, Taken-suc nodes (suc i) k e full above, z)

free_below-LastFree :
    (num : Numbers) (nodes : List Node) (k : ℕ)
    → k ≤ length nodes
    → (r : Option ℕ) × (l : ℤ) × (free_below num nodes k ≡ ok (r, l)) × LastFree nodes k r l
unfolding free_below
free_below-LastFree num nodes zero h =
    (none, negsuc 0, refl, ((λ j a b. absurd (omega arith)), refl))
free_below-LastFree num nodes (suc k) h =
    let (n, e) = get_elem?-lt nodes k (omega arith) in
    elim (Bool-cases (key_is_nil n.i_key)) [
      | inl free ↦ (
        some k,
        pos k,
        rw (free_below, e, free) refl,
        (omega arith, (n, e, free), (λ j a b. absurd (omega arith)), refl),
      )
      | inr full ↦
          let (r, l, run, last) = free_below-LastFree num nodes k (omega arith) in
          let step : free_below num nodes (suc k) ≡ free_below num nodes k =
            rw (free_below, e, full) refl in
          (r, l, step ∙ run, LastFree-suc nodes k r l e full last)
    ]

getfreepos-eq :
    (num : Numbers) (t : Table) (k : ℕ) (r : Option ℕ) (l : ℤ)
    → t.lastfree ≡ pos k
    → free_below num t.node k ≡ ok (r, l)
    → getfreepos num t ≡ ok (r, record t { lastfree = l })
unfolding getfreepos
getfreepos-eq num t k r l e run = ground (arith, e, run)

-- getfreepos, with `lastfree` inside the nodes: it finds the last node below `lastfree` that has no
-- key, and moves `lastfree` there; if every node below has a key it answers none, and leaves
-- `lastfree` in front of the first. Nothing else of the table changes.
pub getfreepos-LastFree :
    (num : Numbers) (t : Table) (k : ℕ)
    → t.lastfree ≡ pos k
    → k ≤ length t.node
    → (r : Option ℕ) × (l : ℤ) × (getfreepos num t ≡ ok (r, record t { lastfree = l }))
      × LastFree t.node k r l
getfreepos-LastFree num t k e h =
    let (r, l, run, last) = free_below-LastFree num t.node k h in
    (r, l, getfreepos-eq num t k r l e run, last)
