-- ===== src/Limits/Defs.antt =====
-- limits.rs. A duration is its number of nanoseconds; `usize` and `u64` have 64 bits. The ticker
-- thread and the calls into wasmtime are left out.
use greentic_designer_extens.Base.{
  ℕ, ◌+◌, ◌-◌, ◌*◌, ◌/◌, ◌^◌, Bool, true, false, Option, none, some, ltb, if◌then◌else◌,
}
use Prim.Native.Nat.{min, max}

abbrev pub usize_max : ℕ
usize_max = 2 ^ 64 - 1

abbrev pub u64_max : ℕ
u64_max = 2 ^ 64 - 1

abbrev pub secs : ℕ → ℕ
secs n = n * 1_000_000_000

abbrev pub epoch_tick : ℕ
epoch_tick = secs 1

abbrev pub default_dispatch_timeout : ℕ
default_dispatch_timeout = secs 300

abbrev pub max_host_call_timeout : ℕ
max_host_call_timeout = secs 120

abbrev pub max_memory_bytes : ℕ
max_memory_bytes = 512 * 1024 * 1024

abbrev pub max_table_elements : ℕ
max_table_elements = 100_000

unfoldable pub http_timeout_for : Option ℕ → ℕ
http_timeout_for none = max_host_call_timeout
http_timeout_for (some d) = min d max_host_call_timeout

pub record PackLimits : Type 0 where
  pub memory_bytes : ℕ
  pub table_elements : ℕ

unfoldable pub new_limits : PackLimits
new_limits = record { memory_bytes = 0; table_elements = 0 }

-- `checked_add` on `usize`.
abbrev pub checked_add : ℕ → ℕ → Option ℕ
checked_add a b = if ltb usize_max (a + b) then none else some (a + b)

-- The new running total and the verdict. `-` stops at 0, as `saturating_sub` does.
unfoldable pub admit : ℕ → ℕ → ℕ → ℕ → ℕ × Bool
admit running current desired cap = elim (checked_add running (desired - current)) [
  | none ↦ (running, false)
  | some total ↦ if ltb cap total then (running, false) else (total, true)
]

unfoldable pub memory_growing : ℕ → ℕ → PackLimits → PackLimits × Bool
unfolding admit
memory_growing current desired l =
    let (total, granted) = admit l.memory_bytes current desired max_memory_bytes in
    (record l { memory_bytes = total }, granted)

unfoldable pub table_growing : ℕ → ℕ → PackLimits → PackLimits × Bool
unfolding admit
table_growing current desired l =
    let (total, granted) = admit l.table_elements current desired max_table_elements in
    (record l { table_elements = total }, granted)

-- `u128::div_ceil` for a divisor that is not 0.
abbrev pub div_ceil : ℕ → ℕ → ℕ
div_ceil a b = (a + (b - 1)) / b

unfoldable pub deadline_ticks : ℕ → ℕ
deadline_ticks timeout = min (max (div_ceil timeout (max epoch_tick 1)) 1) u64_max

-- The deadline that `apply` sets.
unfoldable pub epoch_deadline : Option ℕ → ℕ
unfolding deadline_ticks
epoch_deadline none = u64_max
epoch_deadline (some timeout) = deadline_ticks timeout
