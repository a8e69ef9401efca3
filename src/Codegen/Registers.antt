-- ===== src/Codegen/Registers.antt =====
-- Registers and the stack size of the function.
use cpplua.Prelude.{ℕ, ◌+◌, ◌≤◌, ◌<◌, ◌≡◌, refl, arith, leb, ltb, ◌⊎◌, inl, inr, Bool-cases}
use cpplua.Prelude.Text.{codes}
use cpplua.Prelude.Outcome.{ok, err, ◌>>=◌}
use cpplua.CheckCode.{maxstack}
use cpplua.Codegen.{FuncState, checkstack, reserveregs}

-- the registers in use are inside the frame, and the frame is smaller than the limit
pub record InFrame (fs : FuncState) : Type 0 where
  pub inside : fs.freereg ≤ fs.maxstacksize
  pub limited : fs.maxstacksize < maxstack

-- luaK_reserveregs, with the registers in use inside a frame below the limit: it fails with "function
-- or expression too complex" just when the registers would reach the limit; else it takes the n
-- registers, keeps them inside a frame below the limit, never makes the frame smaller, and leaves the
-- code alone.
pub reserveregs-InFrame :
    (n : ℕ) (fs : FuncState)
    → InFrame fs
    → ((maxstack ≤ fs.freereg + n)
        × (reserveregs n fs ≡ err (codes "function or expression too complex")))
      ⊎ ((fs' : FuncState) × (reserveregs n fs ≡ ok (tt, fs'))
          × (fs'.freereg ≡ fs.freereg + n)
          × (fs.maxstacksize ≤ fs'.maxstacksize)
          × (fs'.code ≡ fs.code)
          × InFrame fs')
unfolding reserveregs checkstack
reserveregs-InFrame n fs v =
    let low = v.inside in
    let high = v.limited in
    elim (Bool-cases (ltb fs.maxstacksize (fs.freereg + n))) [
      | inr fits ↦
          let within : fs.freereg + n ≤ fs.maxstacksize = ground (arith, fits) in
          inr (
            record fs { freereg = fs.freereg + n },
            rw (◌>>=◌, fits) refl,
            refl,
            omega arith,
            refl,
            record { inside = within; limited = high },
          )
      | inl grows ↦ elim (Bool-cases (leb maxstack (fs.freereg + n))) [
        | inl over ↦ inl (ground (arith, over), rw (◌>>=◌, grows, over) refl)
        | inr under ↦
            let below : fs.freereg + n < maxstack = ground (arith, under) in
            let wider : fs.maxstacksize < fs.freereg + n = ground (arith, grows) in
            inr (
              record fs { freereg = fs.freereg + n; maxstacksize = fs.freereg + n },
              rw (◌>>=◌, grows, under) refl,
              refl,
              omega arith,
              refl,
              record { inside = omega arith; limited = below },
            )
      ]
    ]
