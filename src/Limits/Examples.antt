-- ===== src/Limits/Examples.antt =====
-- A store that is granted the whole of its memory, and the deadlines of small timeouts.
use greentic_designer_extens.Base.{
  ◌+◌, ◌-◌, ◌*◌, ◌≤◌, ◌<◌, ◌≡◌, refl, ◌↔◌, ◌⊎◌, true, List, [], ◌∷◌,
}
use greentic_designer_extens.Limits.Defs.{
  u64_max, secs, epoch_tick, max_memory_bytes, max_table_elements, deadline_ticks, memory_growing,
  table_growing, admit,
}
use greentic_designer_extens.Limits.Budget.{
  Growth, memory, table, run_all, fresh, IsWithin, growth_capped, grant_iff,
}
use greentic_designer_extens.Limits.Deadline.{deadline_ticks_bounds}

abbrev requests : List Growth
requests = memory 0 max_memory_bytes ∷ memory 0 65_536 ∷ table 10 60_010 ∷ table 0 60_000 ∷ []

growth_test :
    ((run_all fresh requests).memory_granted ≡ max_memory_bytes)
    × ((run_all fresh requests).table_granted ≡ 60_000)
unfolding run_all fresh memory_growing table_growing admit
growth_test = (refl, refl)

deadline_test :
    (deadline_ticks 0 ≡ 1) × (deadline_ticks (secs 2) ≡ 2) × (deadline_ticks (secs 2 + 1) ≡ 3)
unfolding deadline_ticks
deadline_test = (refl, refl, refl)

growth_capped_example : IsWithin (run_all fresh requests)
growth_capped_example = growth_capped requests

grant_iff_example :
    (((memory_growing 0 1 (run_all fresh requests).limits).1 ≡ true)
      ↔ ((run_all fresh requests).memory_granted + (1 - 0) ≤ max_memory_bytes))
    × (((table_growing 0 1 (run_all fresh requests).limits).1 ≡ true)
        ↔ ((run_all fresh requests).table_granted + (1 - 0) ≤ max_table_elements))
grant_iff_example = grant_iff requests 0 1

deadline_ticks_bounds_example :
    (1 ≤ deadline_ticks (secs 300))
    × (deadline_ticks (secs 300) ≤ u64_max)
    × ((secs 300 ≤ deadline_ticks (secs 300) * epoch_tick) ⊎ (deadline_ticks (secs 300) ≡ u64_max))
    × ((deadline_ticks (secs 300) * epoch_tick < secs 300 + epoch_tick) ⊎ (secs 300 ≡ 0))
deadline_ticks_bounds_example = deadline_ticks_bounds (secs 300)
