-- ===== src/Tests/Tables.antt =====
-- Tables on concrete inputs.
use cpplua.Prelude.{
  ℕ, zero, suc, ◌+◌, ◌-◌, ◌^◌, ◌≤◌, ◌≡◌, refl, Bool, true, false, Option, none, some, List, [], ◌∷◌,
  arith, replicate, inr, ◌==◌,
}
use cpplua.Prelude.Int.{ℤ, pos, negsuc}
use cpplua.Prelude.Outcome.{ok}
use cpplua.Table.{tnumber, Table, Numbers, empty_node, getfreepos}
use cpplua.Table.Traverse.{absent, getn}
use cpplua.Table.Border.{IsBorder, absent-array, absent-dummy, getn-IsBorder}
use cpplua.Table.Free.{LastFree, getfreepos-LastFree}

-- numbers that are their own bit patterns
abbrev pub naturals : Numbers
naturals = record {
  of_int = λ z. elim z [ pos n ↦ n | negsuc n ↦ 2 ^ 63 + n ];
  to_int = λ n. pos n;
  same = λ a b. a == b;
  plus_one = λ n. n + 1;
  is_nan = λ n. false;
}

-- the table { 7, nil }
abbrev seven : Table
seven = record {
  array = some 7 ∷ none ∷ [];
  node = empty_node ∷ [];
  dummy = true;
  lastfree = pos 0;
  flags = 0;
}

abbrev nil_at : ℕ → Bool
nil_at zero = true
nil_at (suc zero) = false
nil_at (suc (suc k)) = true

seven_reads : (k : ℕ) → 1 ≤ k → k ≤ 2 ^ 31 - 1 → absent naturals k seven ≡ ok (nil_at k, seven)
seven_reads zero h l = absurd (omega arith)
seven_reads (suc zero) h l = absent-array naturals seven 0 (omega arith) (omega arith) refl
seven_reads (suc (suc zero)) h l = absent-array naturals seven 1 (omega arith) (omega arith) refl
seven_reads (suc (suc (suc k))) h l =
    absent-dummy naturals seven (suc (suc k)) (omega arith) (omega arith) refl

getn-IsBorder_example : (n : ℕ) × (getn naturals 2 seven ≡ ok (n, seven)) × IsBorder nil_at n
getn-IsBorder_example =
    getn-IsBorder naturals seven nil_at 2 (omega arith) (inr refl) seven_reads (omega arith)
      (omega arith) refl

-- the counters of a table with the keys 1, 2 and 3
abbrev three_keys : List ℕ
three_keys = 1 ∷ 1 ∷ 1 ∷ replicate 24 0

-- a hash part of two nodes, the second of which has a key
abbrev half_full : Table
half_full = record {
  array = [];
  node = empty_node ∷ record { i_val = some 1; i_key = tnumber 9; next = none } ∷ [];
  dummy = false;
  lastfree = pos 2;
  flags = 0;
}

getfreepos-LastFree_example :
    (r : Option ℕ) × (l : ℤ) × (getfreepos naturals half_full
      ≡ ok (r, record half_full { lastfree = l }))
    × LastFree half_full.node 2 r l
getfreepos-LastFree_example = getfreepos-LastFree naturals half_full 2 refl (omega arith)
