-- ===== src/Events/Timeouts.antt =====
-- src/context/timeout.rs: files that become readable at a time. `mono` and `real` are what the clocks
-- say; the numbers of the clocks are those of `syscall::flag`.
pub mod Scan
use redox_os_kernel.Prelude.{
  ℕ, zero, suc, ◌+◌, ◌-◌, ◌*◌, ◌^◌, ◌%◌, Bool, true, false, Option, none, some, List, [], ◌∷◌, ◌++◌,
  leb, ltb, ◌==◌, length, get_elem?, if◌then◌else◌,
}
use redox_os_kernel.Events.{Events, trigger}

pub record Timeout : Type 0 where
  pub scheme_id : ℕ
  pub event_id : ℕ
  pub clock : ℕ
  pub time : ℕ

-- `CLOCK_REALTIME`, `CLOCK_MONOTONIC` and `EVENT_READ`
pub record Flags : Type 0 where
  pub clock_realtime : ℕ
  pub clock_monotonic : ℕ
  pub event_read : ℕ

abbrev pub nanos_per_sec : ℕ
nanos_per_sec = 1000000000

-- `as u128` of a signed number, given by its `w` bits.
unfoldable pub extend : ℕ → ℕ → ℕ
extend w n = if ltb n (2 ^ (w - 1)) then n else n + (2 ^ 128 - 2 ^ w)

-- `TimeSpec` has an `i64` and an `i32`. The sum and the product are those of `u128`.
unfoldable pub register_timeout : ℕ → ℕ → ℕ → ℕ → ℕ → List Timeout → List Timeout
unfolding extend
register_timeout scheme_id event_id clock tv_sec tv_nsec registry =
    registry
    ++ record {
      scheme_id = scheme_id;
      event_id = event_id;
      clock = clock;
      time = (extend 64 tv_sec * nanos_per_sec + extend 32 tv_nsec) % 2 ^ 128;
    }
      ∷ []

-- A timeout of an unknown clock is due.
unfoldable pub is_due : Flags → ℕ → ℕ → Timeout → Bool
is_due f mono real t =
    if t.clock == f.clock_monotonic
    then leb t.time mono
    else if t.clock == f.clock_realtime
    then leb t.time real
    else true

-- `registry.remove(i)`
unfoldable pub remove_at : ℕ → List Timeout → List Timeout
remove_at i [] = []
remove_at zero (t ∷ ts) = ts
remove_at (suc i) (t ∷ ts) = t ∷ remove_at i ts

module _ {X : Type 0} (f : Flags) (mono real : ℕ) where
  -- The loop of `trigger`, from the index `i` on; each turn comes one timeout nearer to the end.
  unfoldable pub trigger_from : ℕ → ℕ → List Timeout → Events X → List Timeout × Events X
  unfolding is_due remove_at
  trigger_from zero i registry ev = (registry, ev)
  trigger_from (suc fuel) i registry ev = elim (get_elem? registry i) [
    | none ↦ (registry, ev)
    | some t ↦ elim (is_due f mono real t) [
      | true ↦
          trigger_from fuel i (remove_at i registry)
            (trigger t.scheme_id t.event_id f.event_read ev)
      | false ↦ trigger_from fuel (i + 1) registry ev
    ]
  ]

  unfoldable pub trigger_timeouts : List Timeout → Events X → List Timeout × Events X
  unfolding trigger_from
  trigger_timeouts registry ev = trigger_from (length registry) 0 registry ev
