-- ===== src/Interface/Health.antt =====
-- `update_transport_health` and `maybe_update_diagnostics`.
pub mod Transitions
use odrive_ros2_control.Prelude.{
  ℕ, ◌+◌, ◌-◌, Bool, true, false, not, ◌&&◌, String, Option, none, some, if◌then◌else◌, leb, ◌==◌,
}
use odrive_ros2_control.Prelude.Int.{ℤ, pos, eq_ℤ}
use odrive_ros2_control.Fpu.{Fpu, zero_of}
use odrive_ros2_control.Interface.{TransportLogState, Diagnostics}

-- What is written to the log: the transport went offline, came back, or is still offline.
pub data HealthEvent : Type 0 where
  offline recovered still_offline : HealthEvent

abbrev same : Bool → Bool → Bool
same true b = b
same false b = not b

module _ {W F : Type 0} (u : Fpu W F) (summary_period : W) where
  open u use {lt, le, seconds}

  -- The last part: a summary at most once in a period. The steady clock does not run backwards.
  abbrev summarise : Bool → ℕ → TransportLogState → Option HealthEvent × TransportLogState
  summarise good now s =
      if not good
        && lt (zero_of u) summary_period
        && le summary_period (seconds (now - s.last_summary))
      then (some HealthEvent.still_offline, record s { last_summary = now })
      else (none, s)

  unfoldable pub update_transport_health :
      Bool → ℤ → String → ℕ → TransportLogState → Option HealthEvent × TransportLogState
  update_transport_health good error_code context now s =
      if not s.known
      then (
        (if good then none else some HealthEvent.offline),
        record s {
          known = true;
          ok = good;
          last_error_code = if good then pos 0 else error_code;
          last_context = context;
          last_transition = now;
          last_summary = now;
          offline_since = if good then s.offline_since else now;
        },
      )
      else let noted = record s {
        last_context = context;
        last_error_code =
            if not good && not (eq_ℤ error_code (pos 0)) then error_code else s.last_error_code;
      } in
        let changed = record noted { ok = good; last_transition = now; last_summary = now } in
        if same good s.ok
        then summarise good now noted
        else if good
        then (some HealthEvent.recovered, changed)
        else (some HealthEvent.offline, record changed { offline_since = now })

-- A period that is not positive is 0 here: the configuration only takes positive ones.
unfoldable pub maybe_update_diagnostics : ℕ → Diagnostics → Diagnostics
maybe_update_diagnostics now d =
    if not d.present
    then d
    else if d.period == 0
    then record d { last_update = some now; updates = d.updates + 1 }
    else elim d.last_update [
      | none ↦ record d { last_update = some now; updates = d.updates + 1 }
      | some last ↦
          if leb d.period (now - last)
          then record d { last_update = some now; updates = d.updates + 1 }
          else d
    ]
