-- ===== src/Chunk/RoundTrip.antt =====
-- A function that luaU_dump writes and luaU_undump reads back.
use cpplua.Prelude.{
  ℕ, zero, suc, ◌≤◌, ◌≡◌, refl, ◌∙◌, ap, Bool, true, false, Option, none, some, List, [], ◌++◌,
  arith, ◌||◌, if◌then◌else◌, length, All, lt→ltb,
}
use mathlib.Core.List.{append-nil}
use cpplua.Prelude.Text.{codes}
use cpplua.Prelude.Outcome.{ok}
use cpplua.Zio.{Zio}
use cpplua.Zio.Flat.{flat, IsValid}
use cpplua.Proto.{
  Constant, nil, boolean, number, string, LocVar, Header, Proto, proto, Protos, none_left, more,
  sizep,
}
use cpplua.CheckCode.{checkcode}
use cpplua.Chunk.Bytes.{chunk_header}
use cpplua.Chunk.Dump.{dump, unless, written_source, same_string}
use cpplua.Chunk.Undump.{
  display_name, load_string, load_constant, load_locvar, load_debug, load_head, load_functions,
  load_function, load_header, accept, DebugInfo, undump,
}
use cpplua.Chunk.Encoding.{
  append, dump_lem, string_code, constant_code, locvar_code, debug_code, head_code, function_code,
  functions_code,
}
use cpplua.Chunk.Reload.{
  FitsString, FitsConstant, FitsLocVar, FitsHeader, loaded_source, reload, reloads, Fits, AllFit,
  height, heights,
}
use cpplua.Chunk.Stream.{
  Loads, Loads-pure, Loads-bind, Loads-eq, Loads-val, Loads-map, load_block-Loads, load_char-Loads,
  load_word-Loads, load_int-Loads, load_string-null, load_string-Loads, load_vector-Loads,
  load_each-Loads,
}

module _ (name : List ℕ) where
  string-Loads : (s : Option (List ℕ)) → FitsString s → Loads (load_string name) (string_code s) s
  string-Loads none h = load_string-null name
  string-Loads (some s) h = load_string-Loads name s h

  pub constant-Loads :
      (k : Constant) → FitsConstant k → Loads (load_constant name) (constant_code k) k
  unfolding load_constant
  constant-Loads nil h = Loads-bind _ (load_char-Loads name 0 (omega arith)) (Loads-pure nil)
  constant-Loads (boolean b) h =
      Loads-bind _ (load_char-Loads name 1 (omega arith))
        (Loads-val (rw (lt→ltb b 128 h) refl) (Loads-map _ (load_char-Loads name b (omega arith))))
  constant-Loads (number n) h =
      Loads-bind _ (load_char-Loads name 3 (omega arith))
        (Loads-map number (load_word-Loads name n h))
  constant-Loads (string s) h =
      Loads-bind _ (load_char-Loads name 4 (omega arith)) (Loads-map string (string-Loads s h))

  locvar-Loads : (v : LocVar) → FitsLocVar v → Loads (load_locvar name) (locvar_code v) v
  unfolding load_locvar
  locvar-Loads v h = Loads-bind _ (string-Loads v.varname h.varname) (
      Loads-bind _ (load_int-Loads name v.startpc h.startpc)
        (Loads-map _ (load_int-Loads name v.endpc h.endpc)))

  unless-All :
      {A : Type 0} (P : A → Type 0) (strip : Bool) (xs : List A)
      → All P xs
      → All P (unless strip xs)
  unless-All P true xs h = tt
  unless-All P false xs h = h

  length-unless : {A : Type 0} (strip : Bool) (xs : List A) → length (unless strip xs) ≤ length xs
  length-unless true xs = omega arith
  length-unless false xs = omega arith

  unfoldable pub debug_info : Bool → Header → DebugInfo name
  debug_info strip f = record {
    lineinfo = unless strip f.lineinfo;
    locvars = unless strip f.locvars;
    upvalues = unless strip f.upvalues;
  }

  pub debug-Loads :
      (strip : Bool) (f : Header)
      → FitsHeader f
      → Loads (load_debug name) (debug_code strip f) (debug_info strip f)
  unfolding load_debug debug_code debug_info
  debug-Loads strip f h =
      Loads-bind _
        (load_vector-Loads name (unless strip f.lineinfo)
          (omega (arith, length-unless strip f.lineinfo, h.lines))
          (unless-All _ strip f.lineinfo h.line_numbers))
        (Loads-bind _
          (load_int-Loads name (length (unless strip f.locvars))
            (omega (arith, length-unless strip f.locvars, h.locals)))
          (Loads-bind _
            (load_each-Loads name (load_locvar name) locvar_code locvar-Loads
              (unless strip f.locvars) (unless-All _ strip f.locvars h.local_variables))
            (Loads-bind _
              (load_int-Loads name (length (unless strip f.upvalues))
                (omega (arith, length-unless strip f.upvalues, h.ups)))
              (Loads-map _ (
                load_each-Loads name (load_string name) string_code string-Loads
                  (unless strip f.upvalues) (unless-All _ strip f.upvalues h.upvalue_names))))))

  -- a function's header before its constants and its debug information are read
  unfoldable pub bare : Bool → Option (List ℕ) → Option (List ℕ) → Header → Header
  bare strip p q f = record f {
    k = [];
    lineinfo = [];
    locvars = [];
    upvalues = [];
    source = loaded_source strip p q f.source;
  }

  written_source-Fits :
      (strip : Bool) (source p : Option (List ℕ))
      → FitsString source
      → FitsString (written_source strip source p)
  unfolding written_source
  written_source-Fits strip source p h = if_either (same_string source p || strip)
    where
      if_either : (b : Bool) → FitsString (if b then none else source)
      if_either true = tt
      if_either false = h

  pub head-Loads :
      (strip : Bool) (p q : Option (List ℕ)) (f : Header)
      → FitsHeader f
      → Loads (load_head name q) (head_code strip p f) (bare strip p q f)
  unfolding load_head head_code bare
  head-Loads strip p q f h =
      Loads-bind _
        (string-Loads (written_source strip f.source p)
          (written_source-Fits strip f.source p h.source))
        (Loads-bind _ (load_int-Loads name f.linedefined h.first_line) (
          Loads-bind _ (load_int-Loads name f.lastlinedefined h.last_line) (
            Loads-bind _ (load_char-Loads name f.nups h.nups) (
              Loads-bind _ (load_char-Loads name f.numparams h.numparams) (
                Loads-bind _ (load_char-Loads name f.is_vararg h.is_vararg) (
                  Loads-bind _ (load_char-Loads name f.maxstacksize h.maxstacksize)
                    (Loads-map _ (load_vector-Loads name f.code h.code h.instructions))))))))

  accept-Loads : (f : Proto) → checkcode f ≡ ok true → Loads (accept name f) [] f
  unfolding accept
  accept-Loads f e = rw (accept, e) (Loads-pure f)

  mutual
    unfolding load_function function_code load_functions bare debug_info

    function-Loads :
        (depth : ℕ) (strip : Bool) (p q : Option (List ℕ)) (f : Proto)
        → height f ≤ depth
        → Fits strip p q f
        → Loads (load_function name depth q) (function_code strip p f) (reload strip p q f)
    function-Loads zero strip p q (proto f ps) d h = absurd (omega arith)
    function-Loads (suc depth) strip p q (proto f ps) d (fits, n, good, rest) =
        Loads-bind _ (head-Loads strip p q f fits) (
          Loads-bind _ (load_int-Loads name (length f.k) fits.k) (
            Loads-bind _
              (load_each-Loads name (load_constant name) constant_code constant-Loads f.k
                fits.constants)
              (Loads-bind _ (load_int-Loads name (sizep ps) n) (
                Loads-bind _
                  (functions-Loads depth strip f.source (loaded_source strip p q f.source) ps
                    (omega arith) rest)
                  (Loads-eq (append-nil (debug_code strip f)) (
                    Loads-bind _ (debug-Loads strip f fits)
                      (accept-Loads (reload strip p q (proto f ps)) good)))))))

    pub functions-Loads :
        (depth : ℕ) (strip : Bool) (p q : Option (List ℕ)) (fs : Protos)
        → heights fs ≤ depth
        → AllFit strip p q fs
        → Loads
            (load_functions name (load_function name depth q) (sizep fs))
            (functions_code strip p fs)
            (reloads strip p q fs)
    functions-Loads depth strip p q none_left d h = Loads-pure none_left
    functions-Loads depth strip p q (more f fs) d (h, hs) =
        Loads-bind _ (function-Loads depth strip p q f (omega arith) h)
          (Loads-map _ (functions-Loads depth strip p q fs (omega arith) hs))

  pub header-Loads : Loads (load_header name) chunk_header tt
  unfolding load_header chunk_header
  header-Loads =
      Loads-eq (append-nil chunk_header)
        (Loads-bind _ (load_block-Loads name chunk_header refl) (Loads-pure tt))

-- A chunk that luaU_dump made, of a function whose parts fit their types and whose functions pass
-- luaG_checkcode when read back, loads from every stream that begins with its bytes, with fuel for
-- the nesting: luaU_undump returns the function, without the debug information if it was stripped,
-- each source left out being the enclosing one's or "=?", and the stream stands just behind the chunk.
pub undump-dump :
    (f : Proto) (strip : Bool) (depth : ℕ) (name rest : List ℕ) (z : Zio)
    → height f ≤ depth
    → Fits strip none (some (codes "=?")) f
    → IsValid z
    → flat z ≡ (dump append f [] strip).1 ++ rest
    → (z' : Zio) × (undump depth name z ≡ ok (reload strip none (some (codes "=?")) f, z'))
      × (flat z' ≡ rest)
unfolding undump
undump-dump f strip depth name rest z deep fits v e =
    let written = ap (λ d. d.1 ++ rest) (dump_lem f strip []) in
    let shown = display_name name in
    let l =
      Loads-bind _ (header-Loads shown)
        (function-Loads shown depth strip none (some (codes "=?")) f deep fits) in
    let (z', v', loaded, after) = l.at z rest v (e ∙ written) in (z', loaded, after)
