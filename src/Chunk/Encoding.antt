-- ===== src/Chunk/Encoding.antt =====
-- The format of a chunk, as the bytes that stand for each part, and luaU_dump as a writer of it.
use cpplua.Prelude.{
  ℕ, ◌+◌, ◌≡◌, refl, ap, ◌∙◌, sym, Bool, Option, none, some, List, [], ◌∷◌, ◌++◌, length,
}
use mathlib.Core.List.{append-nil, append_assoc}
use cpplua.Proto.{
  Constant, nil, boolean, number, string, LocVar, Header, Proto, proto, Protos, none_left, more,
  sizep,
}
use cpplua.Chunk.Bytes.{to_bytes, vector_bytes, chunk_header}
use cpplua.Chunk.Dump.{
  DumpState, dump_block, nothing, dump_char, dump_int, dump_number, dump_size, dump_vector,
  dump_string, dump_constant, dump_each, dump_locvar, dump_debug, dump_head, dump_function,
  dump_functions, dump, written_source, unless,
}

abbrev pub each_bytes : {A : Type 0} → (A → List ℕ) → List A → List ℕ
each_bytes enc [] = []
each_bytes enc (x ∷ xs) = enc x ++ each_bytes enc xs

abbrev pub vector_code : List ℕ → List ℕ
vector_code xs = to_bytes 4 (length xs) ++ vector_bytes 4 xs

abbrev pub string_code : Option (List ℕ) → List ℕ
string_code none = to_bytes 8 0
string_code (some s) = to_bytes 8 (length s + 1) ++ (s ++ 0 ∷ [])

abbrev pub constant_code : Constant → List ℕ
constant_code nil = to_bytes 1 0
constant_code (boolean b) = to_bytes 1 1 ++ to_bytes 1 b
constant_code (number n) = to_bytes 1 3 ++ to_bytes 8 n
constant_code (string s) = to_bytes 1 4 ++ string_code s

abbrev pub locvar_code : LocVar → List ℕ
locvar_code v = string_code v.varname ++ (to_bytes 4 v.startpc ++ to_bytes 4 v.endpc)

unfoldable pub debug_code : Bool → Header → List ℕ
debug_code strip f =
    vector_code (unless strip f.lineinfo)
    ++ (to_bytes 4 (length (unless strip f.locvars))
        ++ (each_bytes locvar_code (unless strip f.locvars)
            ++ (to_bytes 4 (length (unless strip f.upvalues))
                ++ each_bytes string_code (unless strip f.upvalues))))

unfoldable pub head_code : Bool → Option (List ℕ) → Header → List ℕ
head_code strip p f =
    string_code (written_source strip f.source p)
    ++ (to_bytes 4 f.linedefined
        ++ (to_bytes 4 f.lastlinedefined
            ++ (to_bytes 1 f.nups
                ++ (to_bytes 1 f.numparams
                    ++ (to_bytes 1 f.is_vararg
                        ++ (to_bytes 1 f.maxstacksize ++ vector_code f.code))))))

unfoldable mutual
  pub function_code : Bool → Option (List ℕ) → Proto → List ℕ
  function_code strip p (proto f ps) =
      head_code strip p f
      ++ (to_bytes 4 (length f.k)
          ++ (each_bytes constant_code f.k
              ++ (to_bytes 4 (sizep ps)
                  ++ (functions_code strip f.source ps ++ debug_code strip f))))

  pub functions_code : Bool → Option (List ℕ) → Protos → List ℕ
  functions_code strip p none_left = []
  functions_code strip p (more f fs) = function_code strip p f ++ functions_code strip p fs

-- a writer that keeps the blocks one behind the other, and never fails
abbrev pub append : List ℕ → List ℕ → ℕ × List ℕ
append b user = (0, user ++ b)

record Appends (d : DumpState (List ℕ) → DumpState (List ℕ)) (bs : List ℕ) : Type 0 where
  at : (u : List ℕ) → d (record { status = 0; user = u }) ≡ record { status = 0; user = u ++ bs }

Appends-then :
    (f g : DumpState (List ℕ) → DumpState (List ℕ)) {bs cs : List ℕ}
    → Appends f bs
    → Appends g cs
    → Appends (λ s. g (f s)) (bs ++ cs)
Appends-then f g {bs} {cs} a b = record {
  at = λ u.
      ap g (a.at u)
      ∙ b.at (u ++ bs)
      ∙ ap (λ v. record { status = 0; user = v }) (append_assoc u bs cs);
}

Appends-block : (bs : List ℕ) → Appends (dump_block append bs) bs
unfolding dump_block
Appends-block bs = record { at = λ u. refl }

Appends-nothing : Appends (nothing append) []
Appends-nothing = record {
  at = λ u. ap (λ v. record { status = 0; user = v }) (sym (append-nil u));
}

Appends-vector : (xs : List ℕ) → Appends (dump_vector append 4 xs) (vector_code xs)
unfolding dump_vector
Appends-vector xs =
    Appends-then (dump_int append (length xs)) (dump_block append (vector_bytes 4 xs))
      (Appends-block _) (Appends-block _)

Appends-string : (s : Option (List ℕ)) → Appends (dump_string append s) (string_code s)
unfolding dump_string
Appends-string none = Appends-block _
Appends-string (some s) =
    Appends-then (dump_size append (length s + 1)) (dump_block append (s ++ 0 ∷ []))
      (Appends-block _) (Appends-block _)

Appends-constant : (k : Constant) → Appends (dump_constant append k) (constant_code k)
unfolding dump_constant
Appends-constant nil = Appends-block _
Appends-constant (boolean b) =
    Appends-then (dump_char append 1) (dump_char append b) (Appends-block _) (Appends-block _)
Appends-constant (number n) =
    Appends-then (dump_char append 3) (dump_number append n) (Appends-block _) (Appends-block _)
Appends-constant (string s) =
    Appends-then (dump_char append 4) (dump_string append s) (Appends-block _) (Appends-string s)

Appends-locvar : (v : LocVar) → Appends (dump_locvar append v) (locvar_code v)
unfolding dump_locvar
Appends-locvar v = Appends-then (dump_string append v.varname) _ (Appends-string v.varname) (
    Appends-then (dump_int append v.startpc) (dump_int append v.endpc) (Appends-block _)
      (Appends-block _))

Appends-each :
    {A : Type 0} (f : A → DumpState (List ℕ) → DumpState (List ℕ)) (enc : A → List ℕ)
    → ((x : A) → Appends (f x) (enc x))
    → (xs : List A) → Appends (dump_each append f xs) (each_bytes enc xs)
unfolding dump_each
Appends-each f enc h [] = Appends-nothing
Appends-each f enc h (x ∷ xs) =
    Appends-then (f x) (dump_each append f xs) (h x) (Appends-each f enc h xs)

Appends-debug :
    (strip : Bool) (f : Header) → Appends (dump_debug append strip f) (debug_code strip f)
unfolding dump_debug debug_code
Appends-debug strip f =
    let ls = unless strip f.lineinfo in
    let vs = unless strip f.locvars in
    let us = unless strip f.upvalues in
    Appends-then (dump_vector append 4 ls) _ (Appends-vector ls) (
      Appends-then (dump_int append (length vs)) _ (Appends-block _) (
        Appends-then (dump_each append (dump_locvar append) vs) _
          (Appends-each (dump_locvar append) locvar_code Appends-locvar vs)
          (Appends-then (dump_int append (length us)) (dump_each append (dump_string append) us)
            (Appends-block _) (Appends-each (dump_string append) string_code Appends-string us))))

Appends-head :
    (strip : Bool) (p : Option (List ℕ)) (f : Header)
    → Appends (dump_head append strip p f) (head_code strip p f)
unfolding dump_head head_code
Appends-head strip p f =
    Appends-then (dump_string append (written_source strip f.source p)) _ (Appends-string _) (
      Appends-then (dump_int append f.linedefined) _ (Appends-block _) (
        Appends-then (dump_int append f.lastlinedefined) _ (Appends-block _) (
          Appends-then (dump_char append f.nups) _ (Appends-block _) (
            Appends-then (dump_char append f.numparams) _ (Appends-block _) (
              Appends-then (dump_char append f.is_vararg) _ (Appends-block _) (
                Appends-then (dump_char append f.maxstacksize) _ (Appends-block _)
                  (Appends-vector f.code)))))))

mutual
  unfolding dump_function function_code

  Appends-function :
      (strip : Bool) (p : Option (List ℕ)) (f : Proto)
      → Appends (dump_function append strip p f) (function_code strip p f)
  Appends-function strip p (proto f ps) =
      Appends-then (dump_head append strip p f) _ (Appends-head strip p f) (
        Appends-then (dump_int append (length f.k)) _ (Appends-block _) (
          Appends-then (dump_each append (dump_constant append) f.k) _
            (Appends-each (dump_constant append) constant_code Appends-constant f.k)
            (Appends-then (dump_int append (sizep ps)) _ (Appends-block _) (
              Appends-then (dump_functions append strip f.source ps) _
                (Appends-functions strip f.source ps) (Appends-debug strip f)))))

  Appends-functions :
      (strip : Bool) (p : Option (List ℕ)) (fs : Protos)
      → Appends (dump_functions append strip p fs) (functions_code strip p fs)
  Appends-functions strip p none_left = Appends-nothing
  Appends-functions strip p (more f fs) =
      Appends-then (dump_function append strip p f) _ (Appends-function strip p f)
        (Appends-functions strip p fs)

-- luaU_dump with a writer that appends and does not fail: it answers status 0, and has added the
-- header and the function's code, part by part in the chunk format, to what the writer had.
pub dump_lem :
    (f : Proto) (strip : Bool) (user : List ℕ)
    → dump append f user strip ≡ (0, user ++ (chunk_header ++ function_code strip none f))
unfolding dump
dump_lem f strip user =
    let a =
      Appends-then (dump_block append chunk_header) (dump_function append strip none f)
        (Appends-block chunk_header) (Appends-function strip none f) in
    ap (λ s. (s.status, s.user)) (a.at user)
