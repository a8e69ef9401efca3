-- ===== src/Tests/Interning.antt =====
-- Interning on concrete inputs.
use cpplua.Prelude.{◌≡◌, refl, false, some, [], if◌then◌else◌, arith}
use cpplua.Prelude.Outcome.{ok}
use cpplua.Prelude.Text.{codes}
use cpplua.Strlib.Pattern.Match.{bytes_eq}
use cpplua.Upvalues.Chain.{or_else}
use cpplua.Strings.{Global, hash_of, chain_new, intern}
use cpplua.Strings.Chain.{IsInterned, named, lookup}
use cpplua.Strings.Intern.{chain_new-IsInterned, empty-IsInterned, intern-lookup}

abbrev no_strings : Global
no_strings = record {
  strt = record { hash = λ _. []; nuse = 0; size = 1 };
  currentwhite = 1;
  sweepstring = false;
  fresh = 5;
}

-- one slot with one string: a second string makes the table grow
abbrev one_string : Global
one_string = chain_new (codes "and") (hash_of (codes "and")) no_strings

one_string-IsInterned : IsInterned one_string.strt
unfolding lookup named chain_new
one_string-IsInterned =
    chain_new-IsInterned (codes "and") no_strings (empty-IsInterned 1 (omega arith)) refl

intern-lookup_example :
    (t : Global) × (intern (codes "or") one_string
      ≡ ok (or_else (lookup one_string.strt (codes "or")) 6, t))
    × (lookup t.strt (codes "and") ≡ (
        if bytes_eq (codes "and") (codes "or")
        then some (or_else (lookup one_string.strt (codes "or")) 6)
        else lookup one_string.strt (codes "and")))
    × IsInterned t.strt
unfolding chain_new
intern-lookup_example =
    intern-lookup (codes "or") (codes "and") one_string one_string-IsInterned (omega arith)

-- a string that is interned again is the same string, and a second one makes the table grow
interned_again :
    (elim (intern (codes "and") one_string) [ ok (i, t) ↦ i | _ ↦ 0 ] ≡ 5)
    × (elim (intern (codes "or") one_string) [ ok (i, t) ↦ t.strt.size | _ ↦ 0 ] ≡ 2)
unfolding intern chain_new
interned_again = (refl, refl)
