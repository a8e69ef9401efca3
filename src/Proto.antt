-- ===== src/Proto.antt =====
-- lobject.h: function prototypes. A `TString *` is its bytes, or `none` for the null pointer; an
-- instruction, an int or a lua_Number is its bit pattern.
use cpplua.Prelude.{ℕ, zero, suc, Option, none, some, List}

-- a constant: the TValues that `k` can hold
pub data Constant : Type 0 where
  nil : Constant
  boolean : ℕ → Constant
  number : ℕ → Constant
  string : Option (List ℕ) → Constant

-- struct LocVar
pub record LocVar : Type 0 where
  pub varname : Option (List ℕ)
  pub startpc : ℕ
  pub endpc : ℕ

-- struct Proto without the nested functions; the sizes are the lengths of the lists
pub record Header : Type 0 where
  pub k : List Constant
  pub code : List ℕ
  pub lineinfo : List ℕ
  pub locvars : List LocVar
  pub upvalues : List (Option (List ℕ))
  pub source : Option (List ℕ)
  pub linedefined : ℕ
  pub lastlinedefined : ℕ
  pub nups : ℕ
  pub numparams : ℕ
  pub is_vararg : ℕ
  pub maxstacksize : ℕ

mutual
  -- struct Proto: its header, and the functions that are defined inside it
  pub data Proto : Type 0 where
    proto : Header → Protos → Proto

  pub data Protos : Type 0 where
    none_left : Protos
    more : Proto → Protos → Protos

abbrev pub header : Proto → Header
header (proto h ps) = h

abbrev pub nested : Proto → Protos
nested (proto h ps) = ps

abbrev pub sizep : Protos → ℕ
sizep none_left = 0
sizep (more p ps) = suc (sizep ps)

abbrev pub proto_at : Protos → ℕ → Option Proto
proto_at none_left i = none
proto_at (more p ps) zero = some p
proto_at (more p ps) (suc i) = proto_at ps i
