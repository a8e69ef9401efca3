-- ===== src/Tests/Upvalue.antt =====
-- Open upvalues on concrete inputs.
use cpplua.Prelude.{ℕ, ◌*◌, ◌<◌, ◌≡◌, refl, some, [], ◌∷◌, All, arith, ◌==◌, if◌then◌else◌}
use cpplua.Upvalues.{State, isdead, findupval, close}
use cpplua.Upvalues.Chain.{IsSorted, at_level, or_else, findupval-at_level}
use cpplua.Upvalues.Close.{Live, reads, close-reads}

-- two upvalues are open, at the levels 7 and 3; the second is dead
abbrev two_open : State ℕ
two_open = record {
  openupval =
      record { id = 5; level = 7; marked = 1 } ∷ record { id = 4; level = 3; marked = 2 } ∷ [];
  closed = [];
  next_link = λ i. if i == 0 then 5 else if i == 5 then 4 else 0;
  prev_link = λ i. if i == 0 then 4 else if i == 4 then 5 else 0;
  stack = λ i. 10 * i;
  currentwhite = 1;
  fresh = 6;
}

two_open-Live : Live 1 5 two_open.openupval
unfolding isdead
two_open-Live = (λ _. refl, (λ bad. absurd (omega (arith, bad)), tt))

findupval-at_level_example :
    ((findupval 5 two_open).1 ≡ or_else (at_level two_open.openupval 5) two_open.fresh)
    × (at_level (findupval 5 two_open).0.openupval 7
        ≡ (if 5 == 7 then some (findupval 5 two_open).1 else at_level two_open.openupval 7))
    × IsSorted (findupval 5 two_open).0.openupval
findupval-at_level_example = findupval-at_level two_open 5 7 (omega arith)

close-reads_example :
    All (λ q. q.level < 5) (close 5 two_open).openupval
    × (at_level (close 5 two_open).openupval 3 ≡ at_level two_open.openupval 3)
    × (reads (close 5 two_open).stack (close 5 two_open).openupval (close 5 two_open).closed 5
        ≡ reads two_open.stack two_open.openupval two_open.closed 5)
close-reads_example =
    close-reads two_open 5 5 3 (omega arith) ((λ bad. absurd (omega (arith, bad)), tt), (tt, tt))
      two_open-Live (omega arith)
