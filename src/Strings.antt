-- ===== src/Strings.antt =====
-- lstring.cpp: the table of interned strings. A string is named by an id; each slot of the table has the
-- chain of its strings, and the array of slots is a function, read below `size` only.
pub mod Chain
pub mod Rehash
pub mod Intern
use cpplua.Prelude.{
  ℕ, zero, suc, ◌+◌, ◌-◌, ◌*◌, ◌/◌, ◌%◌, ◌^◌, Bool, true, false, ◌&&◌, Option, none, some, List, [],
  ◌∷◌, length, get_or, ltb, leb, ◌==◌, if◌then◌else◌,
}
use cpplua.Prelude.Outcome.{Proc, ok, err}
use cpplua.Prelude.Limits.{max_int, max_sizet}
use cpplua.Memory.{MemError, too_big}
use cpplua.Strlib.Pattern.Match.{bytes_eq}
use cpplua.Upvalues.{isdead, changewhite, luac_white}
use Prim.Native.Nat.{bit_xor}

-- `len` is the length of the bytes
pub record TString : Type 0 where
  pub id : ℕ
  pub bytes : List ℕ
  pub hash : ℕ
  pub marked : ℕ
  pub reserved : ℕ

pub record StringTable : Type 0 where
  pub hash : ℕ → List TString
  pub nuse : ℕ
  pub size : ℕ

-- the fields of global_State that strings use; `sweepstring` is whether gcstate is GCSsweepstring
pub record Global : Type 0 where
  pub strt : StringTable
  pub currentwhite : ℕ
  pub sweepstring : Bool
  pub fresh : ℕ

-- macro lmod, for a size that is a power of two
unfoldable pub lmod : ℕ → ℕ → ℕ
lmod s size = s % size

-- The loop of the hash, which takes every `step`-th byte from the end.
unfoldable pub hash_loop : ℕ → List ℕ → ℕ → ℕ → ℕ → ℕ
hash_loop zero str step l1 h = h
hash_loop (suc fuel) str step l1 h =
    let c = get_or str (l1 - 1) 0 in
    let h' = bit_xor h ((h * 32 % 2 ^ 32 + h / 4 + c) % 2 ^ 32) in
    let rest = hash_loop fuel str step (l1 - step) h' in if leb step l1 then rest else h

unfoldable pub hash_of : List ℕ → ℕ
unfolding hash_loop
hash_of str = hash_loop (length str) str (length str / 32 + 1) (length str) (length str % 2 ^ 32)

-- a write to a slot
unfoldable pub store : (ℕ → List TString) → ℕ → List TString → ℕ → List TString
store f k chain i = if i == k then chain else f i

-- the inner loop of luaS_resize: each string goes to the front of its new slot
unfoldable pub rechain : ℕ → List TString → (ℕ → List TString) → ℕ → List TString
unfolding lmod store
rechain newsize [] newhash = newhash
rechain newsize (p ∷ ps) newhash =
    let h1 = lmod p.hash newsize in rechain newsize ps (store newhash h1 (p ∷ newhash h1))

-- the outer loop, over `count` slots from `i`
unfoldable pub rehash_from : ℕ → ℕ → (ℕ → List TString) → ℕ → (ℕ → List TString) → ℕ → List TString
unfolding rechain
rehash_from newsize zero old i newhash = newhash
rehash_from newsize (suc count) old i newhash =
    rehash_from newsize count old (i + 1) (rechain newsize (old i) newhash)

-- luaS_resize
unfoldable pub resize : ℕ → Global → Global
unfolding rehash_from
resize newsize g = if g.sweepstring then g else record g {
  strt = record {
    hash = rehash_from newsize g.strt.size g.strt.hash 0 (λ _. []);
    nuse = g.strt.nuse;
    size = newsize;
  };
}

-- The new string at the front of its slot. `nuse` is an unsigned number of 32 bits.
unfoldable pub chain_new : List ℕ → ℕ → Global → Global
unfolding lmod store luac_white
chain_new str h g =
    let k = lmod h g.strt.size in
    let ts : TString = record {
      id = g.fresh;
      bytes = str;
      hash = h;
      marked = luac_white g.currentwhite;
      reserved = 0;
    } in
    record g {
      strt = record {
        hash = store g.strt.hash k (ts ∷ g.strt.hash k);
        nuse = (g.strt.nuse + 1) % 2 ^ 32;
        size = g.strt.size;
      };
      fresh = g.fresh + 1;
    }

-- "too crowded"
unfoldable pub grow : Global → Global
unfolding resize
grow g =
    if ltb g.strt.size g.strt.nuse && leb g.strt.size (max_int / 2)
    then resize (g.strt.size * 2) g
    else g

-- newlstr; sizeof(TString) is 24
unfoldable pub newlstr : List ℕ → ℕ → Proc MemError Global ℕ
unfolding chain_new grow
newlstr str h g =
    if ltb (max_sizet - 24) (length str + 1)
    then err too_big
    else ok (g.fresh, grow (chain_new str h g))

-- a string that is found is resurrected if it is dead
unfoldable pub revive : ℕ → TString → TString
unfolding isdead changewhite
revive white ts =
    if isdead white ts.marked then record ts { marked = changewhite ts.marked } else ts

-- The loop of luaS_newlstr along a chain: the chain after it, and the string that it finds.
unfoldable pub find_in : ℕ → List ℕ → List TString → List TString × Option ℕ
unfolding revive
find_in white str [] = ([], none)
find_in white str (o ∷ os) =
    let rest = find_in white str os in
    if bytes_eq str o.bytes then (revive white o ∷ os, some o.id) else (o ∷ rest.0, rest.1)

-- luaS_newlstr
unfoldable pub intern : List ℕ → Proc MemError Global ℕ
unfolding hash_of lmod find_in store newlstr
intern str g =
    let h = hash_of str in
    let k = lmod h g.strt.size in
    let found = find_in g.currentwhite str (g.strt.hash k) in
    elim found.1 [
      | some id ↦ ok (
        id,
        record g {
          strt = record {
            hash = store g.strt.hash k found.0;
            nuse = g.strt.nuse;
            size = g.strt.size;
          };
        },
      )
      | none ↦ newlstr str h g
    ]
