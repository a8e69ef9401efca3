-- ===== src/Tests/Scopes.antt =====
-- Local variables on concrete inputs.
use cpplua.Prelude.{◌≡◌, some, [], ◌∷◌, List, arith}
use cpplua.Prelude.Text.{codes}
use cpplua.Proto.{LocVar}
use cpplua.Locals.{getlocalname, active, entry, getlocalname-active}

-- the second variable ends before the third begins
abbrev three_locals : List LocVar
three_locals =
    record { varname = some (codes "self"); startpc = 0; endpc = 9 }
    ∷ record { varname = some (codes "i"); startpc = 2; endpc = 5 }
    ∷ record { varname = some (codes "j"); startpc = 6; endpc = 9 }
    ∷ []

getlocalname-active_example : getlocalname three_locals 2 7 ≡ entry (active three_locals 7) 2
getlocalname-active_example =
    getlocalname-active three_locals 2 7
      ((omega arith, (omega arith, tt)), ((omega arith, tt), (tt, tt)))
