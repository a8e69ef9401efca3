-- ===== src/Tests/Chunks.antt =====
-- A chunk written and read back.
use cpplua.Prelude.{
  ℕ, ◌≡◌, refl, true, false, none, some, List, [], ◌∷◌, ◌++◌, arith, length, if◌then◌else◌,
}
use cpplua.Prelude.Text.{codes}
use cpplua.Prelude.Outcome.{ok, fault}
use cpplua.Zio.{Zio}
use cpplua.Zio.Flat.{flat}
use cpplua.Proto.{header, Proto, nested}
use cpplua.CheckCode.{checkcode}
use cpplua.Chunk.Bytes.{chunk_header}
use cpplua.Chunk.Dump.{dump, written_source, same_string}
use cpplua.Chunk.Undump.{undump, error, display_name}
use cpplua.Chunk.Encoding.{append, function_code, dump_lem}
use cpplua.Chunk.Reload.{FitsHeader, reload}
use cpplua.Chunk.RoundTrip.{undump-dump}
use cpplua.Chunk.Empty.{looks_well, undump_empty}
use cpplua.Tests.Code.{two_registers, looping, looping_accepted}

dump_lem_example :
    dump append looping (9 ∷ []) false ≡ (0, 9 ∷ (chunk_header ++ function_code false none looping))
dump_lem_example = dump_lem looping false (9 ∷ [])

looping_fits : FitsHeader (header looping)
looping_fits = record {
  k = omega arith;
  constants = (omega arith, tt);
  code = omega arith;
  instructions = (omega arith, (omega arith, (omega arith, (omega arith, tt))));
  lines = omega arith;
  line_numbers = tt;
  locals = omega arith;
  local_variables = tt;
  ups = omega arith;
  upvalue_names = tt;
  source = tt;
  first_line = omega arith;
  last_line = omega arith;
  nups = omega arith;
  numparams = omega arith;
  is_vararg = omega arith;
  maxstacksize = omega arith;
}

-- the chunk of `looping`, with all its bytes in the buffer
abbrev chunk : List ℕ
chunk = (dump append looping [] false).1

abbrev on_disk : Zio
on_disk = record { n = length chunk; p = chunk; reader = [] }

on_disk-flat : flat on_disk ≡ chunk ++ []
unfolding flat
on_disk-flat = refl

reloaded_accepted : checkcode (reload false none (some (codes "=?")) looping) ≡ ok true
unfolding written_source same_string
reloaded_accepted = looping_accepted (some (codes "=?"))

undump-dump_example :
    (z : Zio) × (undump 1 (codes "=stdin") on_disk
      ≡ ok (reload false none (some (codes "=?")) looping, z))
    × (flat z ≡ [])
undump-dump_example =
    undump-dump looping false 1 (codes "=stdin") [] on_disk (omega arith)
      (looping_fits, omega arith, reloaded_accepted, tt) (record { counted = refl }) on_disk-flat

-- a function with no instructions
abbrev no_code : Proto
no_code = two_registers none []

no_code_fits : FitsHeader (header no_code)
no_code_fits = record {
  k = omega arith;
  constants = (omega arith, tt);
  code = omega arith;
  instructions = tt;
  lines = omega arith;
  line_numbers = tt;
  locals = omega arith;
  local_variables = tt;
  ups = omega arith;
  upvalue_names = tt;
  source = tt;
  first_line = omega arith;
  last_line = omega arith;
  nups = omega arith;
  numparams = omega arith;
  is_vararg = omega arith;
  maxstacksize = omega arith;
}

abbrev empty_on_disk : Zio
empty_on_disk =
    let bytes = (dump append no_code [] false).1 in
    record { n = length bytes; p = bytes; reader = [] }

empty_on_disk-flat : flat empty_on_disk ≡ (dump append no_code [] false).1 ++ []
unfolding flat
empty_on_disk-flat = refl

undump_empty_example : undump 1 (codes "=stdin") empty_on_disk ≡ (
    if looks_well (reload false none (some (codes "=?")) no_code)
    then fault
    else error (display_name (codes "=stdin")) (codes "bad code") empty_on_disk)
undump_empty_example =
    undump_empty (header no_code) (nested no_code) false 1 (codes "=stdin") [] empty_on_disk
      (omega arith) no_code_fits (omega arith) tt refl (record { counted = refl })
      empty_on_disk-flat
