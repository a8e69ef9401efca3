-- ===== src/Chunk/Reload.antt =====
-- What a dumped function is when it is read back, and what it must fit in.
use cpplua.Prelude.{
  ℕ, suc, ◌+◌, ◌-◌, ◌^◌, ◌<◌, ◌≡◌, Bool, true, Option, none, some, List, length, All,
}
use cpplua.Prelude.Outcome.{ok}
use cpplua.Proto.{
  Constant, nil, boolean, number, string, LocVar, Header, Proto, proto, Protos, none_left, more,
  sizep,
}
use cpplua.CheckCode.{checkcode}
use cpplua.Chunk.Dump.{unless, written_source}

abbrev pub FitsString : Option (List ℕ) → Type 0
FitsString none = Unit
FitsString (some s) = length s + 1 < 2 ^ 64

abbrev pub FitsConstant : Constant → Type 0
FitsConstant nil = Unit
FitsConstant (boolean b) = b < 128
FitsConstant (number n) = n < 2 ^ 64
FitsConstant (string s) = FitsString s

pub record FitsLocVar (v : LocVar) : Type 0 where
  pub varname : FitsString v.varname
  pub startpc : v.startpc < 2 ^ 31
  pub endpc : v.endpc < 2 ^ 31

-- the parts of a function fit the types that they are written with
pub record FitsHeader (f : Header) : Type 0 where
  pub k : length f.k < 2 ^ 31
  pub constants : All FitsConstant f.k
  pub code : length f.code < 2 ^ 31
  pub instructions : All (λ x. x < 256 ^ 4) f.code
  pub lines : length f.lineinfo < 2 ^ 31
  pub line_numbers : All (λ x. x < 256 ^ 4) f.lineinfo
  pub locals : length f.locvars < 2 ^ 31
  pub local_variables : All FitsLocVar f.locvars
  pub ups : length f.upvalues < 2 ^ 31
  pub upvalue_names : All FitsString f.upvalues
  pub source : FitsString f.source
  pub first_line : f.linedefined < 2 ^ 31
  pub last_line : f.lastlinedefined < 2 ^ 31
  pub nups : f.nups < 256
  pub numparams : f.numparams < 256
  pub is_vararg : f.is_vararg < 256
  pub maxstacksize : f.maxstacksize < 256

-- the source that the loader gives a function: `p` and `q` are the enclosing function's source, as
-- it was and as it was loaded
abbrev pub loaded_source :
    Bool → Option (List ℕ) → Option (List ℕ) → Option (List ℕ) → Option (List ℕ)
loaded_source strip p q source = elim (written_source strip source p) [ none ↦ q | some s ↦ some s ]

abbrev pub reload_header : Bool → Option (List ℕ) → Option (List ℕ) → Header → Header
reload_header strip p q f = record f {
  source = loaded_source strip p q f.source;
  lineinfo = unless strip f.lineinfo;
  locvars = unless strip f.locvars;
  upvalues = unless strip f.upvalues;
}

abbrev mutual
  -- a function read back: without its debug information if it was stripped
  pub reload : Bool → Option (List ℕ) → Option (List ℕ) → Proto → Proto
  reload strip p q (proto f ps) =
      proto (reload_header strip p q f)
        (reloads strip f.source (loaded_source strip p q f.source) ps)

  pub reloads : Bool → Option (List ℕ) → Option (List ℕ) → Protos → Protos
  reloads strip p q none_left = none_left
  reloads strip p q (more f fs) = more (reload strip p q f) (reloads strip p q fs)

abbrev mutual
  -- every function fits, and is one that luaG_checkcode accepts once it is read back
  pub Fits : Bool → Option (List ℕ) → Option (List ℕ) → Proto → Type 0
  Fits strip p q (proto f ps) =
      FitsHeader f
      × (sizep ps < 2 ^ 31)
      × (checkcode (reload strip p q (proto f ps)) ≡ ok true)
      × AllFit strip f.source (loaded_source strip p q f.source) ps

  pub AllFit : Bool → Option (List ℕ) → Option (List ℕ) → Protos → Type 0
  AllFit strip p q none_left = Unit
  AllFit strip p q (more f fs) = Fits strip p q f × AllFit strip p q fs

abbrev mutual
  -- how deep functions are nested
  pub height : Proto → ℕ
  height (proto f ps) = suc (heights ps)

  pub heights : Protos → ℕ
  heights none_left = 0
  heights (more f fs) = height f + (heights fs - height f)
