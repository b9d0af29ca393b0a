-- ===== src/Limits/Deadline.antt =====
-- Timeouts of host calls, and the deadline of a dispatch in epoch ticks.
use greentic_designer_extens.Base.{
  ℕ, ◌+◌, ◌*◌, ◌≤◌, ◌<◌, ◌≡◌, ◌⊎◌, inl, inr, subst, leb, Bool-cases, Option, none, some, arith,
}
use greentic_designer_extens.Limits.Defs.{
  u64_max, epoch_tick, http_timeout_for, deadline_ticks, epoch_deadline,
}

-- A deadline fits in 64 bits and is never zero; below the largest `u64` it covers the timeout, and
-- by less than one tick more, unless it is the single tick of a zero timeout.
pub deadline_ticks_bounds :
    (timeout : ℕ)
    → (1 ≤ deadline_ticks timeout)
      × (deadline_ticks timeout ≤ u64_max)
      × ((timeout ≤ deadline_ticks timeout * epoch_tick) ⊎ (deadline_ticks timeout ≡ u64_max))
      × ((deadline_ticks timeout * epoch_tick < timeout + epoch_tick) ⊎ (timeout ≡ 0))
unfolding deadline_ticks
deadline_ticks_bounds timeout = ground arith

-- With or without a timeout, the timeout of a host call is at most the ticks of the deadline.
pub host_call_within_deadline :
    (timeout : Option ℕ) → http_timeout_for timeout ≤ epoch_deadline timeout * epoch_tick
unfolding http_timeout_for epoch_deadline deadline_ticks
host_call_within_deadline none = omega arith
host_call_within_deadline (some t) = ground arith

-- What is left of a dispatch's timeout for a host call: the timeout itself, or two minutes if it is
-- longer or there is none.
pub data IsHostCall : Option ℕ → ℕ → Type 0 where
  unset : IsHostCall none 120_000_000_000
  short : (t : ℕ) → t ≤ 120_000_000_000 → IsHostCall (some t) t
  long : (t : ℕ) → 120_000_000_000 < t → IsHostCall (some t) 120_000_000_000

pub http_timeout_for-IsHostCall :
    (timeout : Option ℕ) → IsHostCall timeout (http_timeout_for timeout)
unfolding http_timeout_for
http_timeout_for-IsHostCall none = unset
http_timeout_for-IsHostCall (some t) = elim (Bool-cases (leb t 120_000_000_000)) [
  | inl e ↦
      let same : t ≡ http_timeout_for (some t) = ground arith in
      subst (IsHostCall (some t)) same (short t (ground arith))
  | inr e ↦
      let same : 120_000_000_000 ≡ http_timeout_for (some t) = ground arith in
      subst (IsHostCall (some t)) same (long t (ground arith))
]
