-- ===== src/Chunk/Dump.antt =====
-- ldump.cpp. The writer is the host's: it takes a block and its own data, and answers a status.
use cpplua.Prelude.{
  ℕ, ◌+◌, Bool, true, false, ◌||◌, Option, none, some, List, [], ◌∷◌, ◌++◌, ◌==◌, if◌then◌else◌,
  length,
}
use cpplua.Proto.{
  Constant, nil, boolean, number, string, LocVar, Header, Proto, proto, Protos, none_left, more,
  sizep,
}
use cpplua.Chunk.Bytes.{to_bytes, vector_bytes, chunk_header}

-- DumpState without the options, which are arguments
pub record DumpState (D : Type 0) : Type 0 where
  pub status : ℕ
  pub user : D

-- two names of a string: `s == t` on interned strings, null included
unfoldable pub same_bytes : List ℕ → List ℕ → Bool
same_bytes [] [] = true
same_bytes [] (y ∷ ys) = false
same_bytes (x ∷ xs) [] = false
same_bytes (x ∷ xs) (y ∷ ys) = if x == y then same_bytes xs ys else false

unfoldable pub same_string : Option (List ℕ) → Option (List ℕ) → Bool
unfolding same_bytes
same_string none none = true
same_string none (some t) = false
same_string (some s) none = false
same_string (some s) (some t) = same_bytes s t

abbrev pub unless : {A : Type 0} → Bool → List A → List A
unless true xs = []
unless false xs = xs

-- the source that DumpFunction writes
unfoldable pub written_source : Bool → Option (List ℕ) → Option (List ℕ) → Option (List ℕ)
unfolding same_string
written_source strip source p = if same_string source p || strip then none else source

module _ {D : Type 0} (writer : List ℕ → D → ℕ × D) where
  abbrev pub Dumps : Type 0
  Dumps = DumpState D → DumpState D

  -- DumpBlock
  unfoldable pub dump_block : List ℕ → Dumps
  dump_block b s =
      if s.status == 0
      then (let (status, user) = writer b s.user in record { status = status; user = user })
      else s

  infixl 5 ◌>>◌
  abbrev pub ◌>>◌ : Dumps → Dumps → Dumps
  ◌>>◌ f g s = g (f s)

  abbrev pub nothing : Dumps
  nothing s = s

  -- DumpChar
  abbrev pub dump_char : ℕ → Dumps
  dump_char y = dump_block (to_bytes 1 y)

  -- DumpInt
  abbrev pub dump_int : ℕ → Dumps
  dump_int x = dump_block (to_bytes 4 x)

  -- DumpNumber
  abbrev pub dump_number : ℕ → Dumps
  dump_number x = dump_block (to_bytes 8 x)

  abbrev pub dump_size : ℕ → Dumps
  dump_size x = dump_block (to_bytes 8 x)

  -- DumpVector
  unfoldable pub dump_vector : ℕ → List ℕ → Dumps
  dump_vector size b = do dump_int (length b); dump_block (vector_bytes size b)

  -- DumpString
  unfoldable pub dump_string : Option (List ℕ) → Dumps
  dump_string none = dump_size 0
  dump_string (some s) = do dump_size (length s + 1); dump_block (s ++ 0 ∷ [])

  -- one round of the first loop of DumpConstants: the type tag and the value
  unfoldable pub dump_constant : Constant → Dumps
  unfolding dump_string
  dump_constant nil = dump_char 0
  dump_constant (boolean b) = do dump_char 1; dump_char b
  dump_constant (number n) = do dump_char 3; dump_number n
  dump_constant (string s) = do dump_char 4; dump_string s

  unfoldable pub dump_each : {A : Type 0} → (A → Dumps) → List A → Dumps
  dump_each f [] = nothing
  dump_each f (x ∷ xs) = do f x; dump_each f xs

  unfoldable pub dump_locvar : LocVar → Dumps
  unfolding dump_string
  dump_locvar v = do dump_string v.varname; dump_int v.startpc; dump_int v.endpc

  -- DumpDebug
  unfoldable pub dump_debug : Bool → Header → Dumps
  unfolding dump_vector dump_each dump_locvar
  dump_debug strip f = do
    dump_vector 4 (unless strip f.lineinfo)
    dump_int (length (unless strip f.locvars))
    dump_each dump_locvar (unless strip f.locvars)
    dump_int (length (unless strip f.upvalues))
    dump_each dump_string (unless strip f.upvalues)

  -- DumpFunction up to its code
  unfoldable pub dump_head : Bool → Option (List ℕ) → Header → Dumps
  unfolding dump_vector written_source dump_string
  dump_head strip p f = do
    dump_string (written_source strip f.source p)
    dump_int f.linedefined
    dump_int f.lastlinedefined
    dump_char f.nups
    dump_char f.numparams
    dump_char f.is_vararg
    dump_char f.maxstacksize
    dump_vector 4 f.code

  unfoldable mutual
    unfolding dump_head dump_each dump_constant dump_debug

    -- DumpFunction
    pub dump_function : Bool → Option (List ℕ) → Proto → Dumps
    dump_function strip p (proto f ps) = do
      dump_head strip p f
      dump_int (length f.k)
      dump_each dump_constant f.k
      dump_int (sizep ps)
      dump_functions strip f.source ps
      dump_debug strip f

    -- the second loop of DumpConstants
    pub dump_functions : Bool → Option (List ℕ) → Protos → Dumps
    dump_functions strip p none_left = nothing
    dump_functions strip p (more f fs) = do dump_function strip p f; dump_functions strip p fs

  -- luaU_dump: the writer's last status, and the writer's data
  unfoldable pub dump : Proto → D → Bool → ℕ × D
  unfolding dump_function
  dump f user strip =
      let start : DumpState D = record { status = 0; user = user } in
      let end = dump_function strip none f (dump_block chunk_header start) in (end.status, end.user)
