-- ===== src/Chunk/Empty.antt =====
-- lundump.cpp: a chunk with a function that has no instructions.
use cpplua.Prelude.{
  ℕ, zero, suc, ◌<◌, ◌≤◌, ◌≡◌, refl, ◌∙◌, ap, Bool, false, ◌&&◌, Option, none, some, List, [], ◌++◌,
  ◌^◌, arith, leb, ◌==◌, if◌then◌else◌, length, Bool-cases, inl, inr,
}
use mathlib.Core.List.{append-nil, append_assoc}
use mathlib.Core.Path.{subst}
use cpplua.Prelude.Text.{codes}
use cpplua.Prelude.Outcome.{Outcome, ok, fault, ◌>>=◌}
use cpplua.Zio.{Zio}
use cpplua.Zio.Flat.{flat, IsValid}
use cpplua.Proto.{Header, Proto, proto, Protos, sizep, header}
use cpplua.CheckCode.{maxstack, symbexec, precheck, last_code, checkcode}
use cpplua.Chunk.Dump.{dump}
use cpplua.Chunk.Undump.{Load, display_name, error, accept, load_function, load_constant, undump}
use cpplua.Chunk.Encoding.{append, dump_lem, debug_code, function_code, constant_code}
use cpplua.Chunk.Reload.{FitsHeader, loaded_source, reload, AllFit, height}
use cpplua.Chunk.RoundTrip.{
  constant-Loads, debug_info, debug-Loads, bare, head-Loads, header-Loads, functions-Loads,
}
use cpplua.Chunk.Stream.{Loads, load_int-Loads, load_each-Loads}

-- what luaG_checkcode looks at before it reads the last instruction
abbrev pub looks_well : Proto → Bool
looks_well pt =
    leb (header pt).maxstacksize maxstack
    && (leb (length (header pt).upvalues) (header pt).nups && length (header pt).lineinfo == 0)

checkcode_empty :
    (pt : Proto)
    → (header pt).code ≡ []
    → checkcode pt ≡ (if looks_well pt then fault else ok false)
unfolding checkcode symbexec precheck last_code
checkcode_empty pt c = ground (arith, ap length c)

-- on every stream that begins with `bs`, `m` comes to `r`
record Comes {A : Type 0} (m : Load A) (bs : List ℕ) (r : Outcome (List ℕ) (A × Zio)) : Type 0 where
  at : (z : Zio) (rest : List ℕ) → IsValid z → flat z ≡ bs ++ rest → m z ≡ r

Comes-bind :
    {A B : Type 0} {m : Load A} (f : A → Load B) {bs cs : List ℕ} {a : A}
    {r : Outcome (List ℕ) (B × Zio)}
    → Loads m bs a
    → Comes (f a) cs r
    → Comes (m >>= f) (bs ++ cs) r
Comes-bind f {bs} {cs} l c = record {
  at = λ z rest v e.
      let (z1, v1, r1, e1) = l.at z (cs ++ rest) v (e ∙ append_assoc bs cs rest) in
      rw (r1, ◌>>=◌) (c.at z1 rest v1 e1);
}

Comes-eq :
    {A : Type 0} {m : Load A} {bs cs : List ℕ} {r : Outcome (List ℕ) (A × Zio)}
    → bs ≡ cs
    → Comes m bs r
    → Comes m cs r
Comes-eq {m} {r} e c = subst (λ x. Comes m x r) e c

module _ (name : List ℕ) (z0 : Zio) where
  abbrev verdict : Proto → Outcome (List ℕ) (Proto × Zio)
  verdict pt = if looks_well pt then fault else error name (codes "bad code") z0

  accept-Comes : (pt : Proto) → (header pt).code ≡ [] → Comes (accept name pt) [] (verdict pt)
  unfolding accept error
  accept-Comes pt c = record {
    at = λ z rest v e. elim (Bool-cases (looks_well pt)) [
      | inl well ↦ rw (accept, checkcode_empty pt c, well) refl
      | inr bad ↦ rw (accept, checkcode_empty pt c, bad) refl
    ];
  }

  function-Comes :
      (depth : ℕ) (strip : Bool) (p q : Option (List ℕ)) (f : Header) (ps : Protos)
      → height (proto f ps) ≤ suc depth
      → FitsHeader f
      → sizep ps < 2 ^ 31
      → AllFit strip f.source (loaded_source strip p q f.source) ps
      → f.code ≡ []
      → Comes
          (load_function name (suc depth) q)
          (function_code strip p (proto f ps))
          (verdict (reload strip p q (proto f ps)))
  unfolding load_function function_code bare debug_info
  function-Comes depth strip p q f ps d fits n rest c =
      Comes-bind _ (head-Loads name strip p q f fits) (
        Comes-bind _ (load_int-Loads name (length f.k) fits.k) (
          Comes-bind _
            (load_each-Loads name (load_constant name) constant_code (constant-Loads name) f.k
              fits.constants)
            (Comes-bind _ (load_int-Loads name (sizep ps) n) (
              Comes-bind _
                (functions-Loads name depth strip f.source (loaded_source strip p q f.source) ps
                  (omega arith) rest)
                (Comes-eq (append-nil (debug_code strip f)) (
                  Comes-bind _ (debug-Loads name strip f fits)
                    (accept-Comes (reload strip p q (proto f ps)) c)))))))

-- A chunk that luaU_dump made of a function with no instructions, whose parts fit their types and whose
-- inner functions load: luaU_undump comes as far as luaG_checkcode, which reads in front of the code array,
-- unless it refuses the frame, the names of the upvalues or the line numbers first.
pub undump_empty :
    (f : Header) (ps : Protos) (strip : Bool) (depth : ℕ) (name rest : List ℕ) (z : Zio)
    → height (proto f ps) ≤ depth
    → FitsHeader f
    → sizep ps < 2 ^ 31
    → AllFit strip f.source (loaded_source strip none (some (codes "=?")) f.source) ps
    → f.code ≡ []
    → IsValid z
    → flat z ≡ (dump append (proto f ps) [] strip).1 ++ rest
    → undump depth name z ≡ (
        if looks_well (reload strip none (some (codes "=?")) (proto f ps))
        then fault
        else error (display_name name) (codes "bad code") z)
unfolding undump
undump_empty f ps strip zero name rest z deep fits n inner c v e = absurd (omega arith)
undump_empty f ps strip (suc depth) name rest z deep fits n inner c v e =
    let written = ap (λ d. d.1 ++ rest) (dump_lem (proto f ps) strip []) in
    let shown = display_name name in
    let l =
      Comes-bind _ (header-Loads shown)
        (function-Comes shown z depth strip none (some (codes "=?")) f ps deep fits n inner c) in
    l.at z rest v (e ∙ written)
