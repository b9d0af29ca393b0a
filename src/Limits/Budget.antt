-- ===== src/Limits/Budget.antt =====
-- The growth budget of one store, over all of its memories and tables.
use greentic_designer_extens.Base.{
  ℕ, ◌+◌, ◌-◌, ◌≤◌, ◌≡◌, refl, ◌↔◌, Bool, true, false, List, [], ◌∷◌, arith,
}
use greentic_designer_extens.Limits.Defs.{
  PackLimits, new_limits, max_memory_bytes, max_table_elements, admit, memory_growing,
  table_growing,
}

-- A growth request, as wasmtime makes it: from a current to a desired size.
pub data Growth : Type 0 where
  memory table : (current desired : ℕ) → Growth

unfoldable pub grow : PackLimits → Growth → PackLimits × Bool
unfolding memory_growing table_growing
grow l (memory current desired) = memory_growing current desired l
grow l (table current desired) = table_growing current desired l

-- A whole run of requests: the final budget, and the memory and table growth that was granted.
pub record Run : Type 0 where
  pub limits : PackLimits
  pub memory_granted : ℕ
  pub table_granted : ℕ

granted_by : Run → Growth → PackLimits × Bool → Run
granted_by run g (l, false) = record run { limits = l }
granted_by run (memory current desired) (l, true) = record run {
  limits = l;
  memory_granted = run.memory_granted + (desired - current);
}
granted_by run (table current desired) (l, true) = record run {
  limits = l;
  table_granted = run.table_granted + (desired - current);
}

unfoldable pub run_all : Run → List Growth → Run
unfolding granted_by grow
run_all run [] = run
run_all run (g ∷ gs) = run_all (granted_by run g (grow run.limits g)) gs

unfoldable pub fresh : Run
unfolding new_limits
fresh = record { limits = new_limits; memory_granted = 0; table_granted = 0 }

-- The running totals count what was granted, and are within the caps.
pub record IsWithin (run : Run) : Type 0 where
  pub memory_counted : run.limits.memory_bytes ≡ run.memory_granted
  pub table_counted : run.limits.table_elements ≡ run.table_granted
  pub memory_capped : run.memory_granted ≤ max_memory_bytes
  pub table_capped : run.table_granted ≤ max_table_elements

granted_by-IsWithin :
    (run : Run) (g : Growth) → IsWithin run → IsWithin (granted_by run g (grow run.limits g))
unfolding granted_by grow memory_growing admit
granted_by-IsWithin run (memory current desired) v = ground arith
granted_by-IsWithin run (table current desired) v = ground arith

run_all-IsWithin : (run : Run) (gs : List Growth) → IsWithin run → IsWithin (run_all run gs)
unfolding run_all
run_all-IsWithin run [] v = v
run_all-IsWithin run (g ∷ gs) v =
    run_all-IsWithin (granted_by run g (grow run.limits g)) gs (granted_by-IsWithin run g v)

-- Whatever a guest asks for and in whatever order, the growth that a store is granted in total stays
-- within the memory cap and the table cap, and the running totals are exactly what was granted.
pub growth_capped : (gs : List Growth) → IsWithin (run_all fresh gs)
unfolding fresh
growth_capped gs = run_all-IsWithin fresh gs (record {
  memory_counted = refl;
  table_counted = refl;
  memory_capped = omega arith;
  table_capped = omega arith;
})

-- After any run of requests, a further one for memory is granted exactly when the memory granted so
-- far and the growth are together within the cap, and one for a table likewise.
pub grant_iff :
    (gs : List Growth) (current desired : ℕ)
    → (((memory_growing current desired (run_all fresh gs).limits).1 ≡ true)
        ↔ ((run_all fresh gs).memory_granted + (desired - current) ≤ max_memory_bytes))
      × (((table_growing current desired (run_all fresh gs).limits).1 ≡ true)
          ↔ ((run_all fresh gs).table_granted + (desired - current) ≤ max_table_elements))
unfolding memory_growing table_growing admit
grant_iff gs current desired =
    let within = growth_capped gs in
    (ground (arith, within.memory_counted), ground (arith, within.table_counted))
