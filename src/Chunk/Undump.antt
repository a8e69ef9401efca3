-- ===== src/Chunk/Undump.antt =====
-- lundump.cpp. Errors are the messages that the loader raises.
use cpplua.Prelude.{
  ℕ, zero, suc, ◌+◌, ◌-◌, ◌*◌, ◌%◌, ◌^◌, ◌||◌, Option, none, some, List, [], ◌∷◌, ◌++◌, ltb, ◌==◌,
  if◌then◌else◌, take, drop,
}
use cpplua.Prelude.Text.{codes}
use cpplua.Prelude.Outcome.{ok, err, fault, stuck, Proc, ◌>>=◌, ◌>>◌, pure, raise, stucks}
use cpplua.Zio
use cpplua.Zio.{Zio}
use cpplua.Proto.{
  Constant, nil, boolean, number, string, LocVar, Header, Proto, proto, Protos, none_left, more,
}
use cpplua.CheckCode.{checkcode}
use cpplua.Chunk.Bytes.{of_bytes, headersize, chunk_header}
use cpplua.Chunk.Dump.{same_bytes}

abbrev pub Load : Type 0 → Type 0
Load A = Proc (List ℕ) Zio A

-- S->name, as luaU_undump sets it
unfoldable pub display_name : List ℕ → List ℕ
display_name [] = []
display_name (c ∷ name) =
    if c == b'@' || c == b'=' then name else if c == 0x1b then codes "binary string" else c ∷ name

module _ (name : List ℕ) where
  -- error
  unfoldable pub error : {A : Type 0} → List ℕ → Load A
  error why = raise (name ++ (codes ": " ++ (why ++ codes " in precompiled chunk")))

  abbrev whole : List ℕ × ℕ → Load (List ℕ)
  whole (b, missing) = if missing == 0 then pure b else error (codes "unexpected end")

  -- LoadBlock
  unfoldable pub load_block : ℕ → Load (List ℕ)
  load_block size = Zio.read size >>= whole

  -- LoadChar: a char is signed
  unfoldable pub load_char : Load ℕ
  load_char = do b ← load_block 1; pure (of_bytes b)

  -- LoadInt: a pattern from 2 ^ 31 on is a negative int
  unfoldable pub load_int : Load ℕ
  unfolding load_block
  load_int = do
    b ← load_block 4
    let x = of_bytes b
    if ltb x (2 ^ 31) then pure x else error (codes "bad integer")

  -- LoadNumber, and the size_t of LoadString
  unfoldable pub load_word : Load ℕ
  load_word = do b ← load_block 8; pure (of_bytes b)

  -- LoadString: the last byte is dropped
  unfoldable pub load_string : Load (Option (List ℕ))
  unfolding load_word
  load_string = do
    size ← load_word
    if size == 0 then pure none else (do s ← load_block size; pure (some (take (size - 1) s)))

  -- the `n` words of `size` bytes in a block
  unfoldable pub words : ℕ → ℕ → List ℕ → List ℕ
  words size zero b = []
  words size (suc n) b = of_bytes (take size b) ∷ words size n (drop size b)

  -- LoadCode, and the line numbers of LoadDebug: `n * size` is a size_t
  unfoldable pub load_vector : ℕ → Load (List ℕ)
  unfolding load_int words
  load_vector size = do n ← load_int; b ← load_block (n * size % 2 ^ 64); pure (words size n b)

  unfoldable pub load_each : {A : Type 0} → ℕ → Load A → Load (List A)
  load_each zero m = pure []
  load_each (suc n) m = do x ← m; xs ← load_each n m; pure (x ∷ xs)

  -- `(int)x` of a char
  abbrev pub char_to_int : ℕ → ℕ
  char_to_int x = if ltb x 128 then x else x + 2 ^ 32 - 256

  -- one round of the first loop of LoadConstants
  unfoldable pub load_constant : Load Constant
  unfolding load_char load_word load_string
  load_constant = do
    t ← load_char
    if t == 0
        then pure nil
        else if t == 1
        then (do b ← load_char; pure (boolean (char_to_int b)))
        else if t == 3
        then (do n ← load_word; pure (number n))
        else if t == 4
        then (do s ← load_string; pure (string s))
        else error (codes "bad constant")

  unfoldable pub load_locvar : Load LocVar
  unfolding load_string load_int
  load_locvar = do
    varname ← load_string
    startpc ← load_int
    endpc ← load_int
    pure (record { varname = varname; startpc = startpc; endpc = endpc })

  -- what LoadDebug fills in
  pub record DebugInfo : Type 0 where
    pub lineinfo : List ℕ
    pub locvars : List LocVar
    pub upvalues : List (Option (List ℕ))

  -- LoadDebug
  unfoldable pub load_debug : Load DebugInfo
  unfolding load_vector load_each load_locvar
  load_debug = do
    lineinfo ← load_vector 4
    n ← load_int
    locvars ← load_each n load_locvar
    m ← load_int
    upvalues ← load_each m load_string
    pure (record { lineinfo = lineinfo; locvars = locvars; upvalues = upvalues })

  -- LoadFunction up to its code; `p` is the enclosing function's source
  unfoldable pub load_head : Option (List ℕ) → Load Header
  unfolding load_string load_int load_char load_vector
  load_head p = do
    source ← load_string
    linedefined ← load_int
    lastlinedefined ← load_int
    nups ← load_char
    numparams ← load_char
    is_vararg ← load_char
    maxstacksize ← load_char
    code ← load_vector 4
    pure (record {
      k = [];
      code = code;
      lineinfo = [];
      locvars = [];
      upvalues = [];
      source = elim source [ none ↦ p | some s ↦ some s ];
      linedefined = linedefined;
      lastlinedefined = lastlinedefined;
      nups = nups;
      numparams = numparams;
      is_vararg = is_vararg;
      maxstacksize = maxstacksize;
    })

  -- the second loop of LoadConstants, over a loader of one function
  unfoldable pub load_functions : Load Proto → ℕ → Load Protos
  load_functions m zero = pure none_left
  load_functions m (suc n) = do f ← m; fs ← load_functions m n; pure (more f fs)

  -- the last test of LoadFunction
  unfoldable pub accept : Proto → Load Proto
  accept f = elim (checkcode f) [
    | ok good ↦ if good then pure f else error (codes "bad code")
    | err e ↦ error (codes "bad code")
    | fault ↦ λ s. fault
    | stuck ↦ stucks
  ]

  -- LoadFunction; the fuel is the depth to which functions may be nested
  unfoldable pub load_function : ℕ → Option (List ℕ) → Load Proto
  unfolding load_head load_each load_constant load_functions load_debug accept
  load_function zero p = stucks
  load_function (suc depth) p = do
    f ← load_head p
    n ← load_int
    k ← load_each n load_constant
    m ← load_int
    ps ← load_functions (load_function depth f.source) m
    d ← load_debug
    accept (
        proto
          (record f { k = k; lineinfo = d.lineinfo; locvars = d.locvars; upvalues = d.upvalues })
          ps)

  -- LoadHeader
  unfoldable pub load_header : Load (Unit {0})
  unfolding load_block same_bytes
  load_header = do
    s ← load_block headersize
    if same_bytes chunk_header s then pure tt else error (codes "bad header")

-- luaU_undump
unfoldable pub undump : ℕ → List ℕ → Load Proto
unfolding display_name load_header load_function
undump depth name = do
  load_header (display_name name)
  load_function (display_name name) depth (some (codes "=?"))
