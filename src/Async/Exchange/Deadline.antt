-- ===== src/Async/Exchange/Deadline.antt =====
-- What `read` takes over in the asynchronous mode.
use odrive_ros2_control.Prelude.{ℕ, ◌-◌, ◌⊎◌, true, false, ◌≡◌, List, [], ◌∷◌, All}
use odrive_ros2_control.Fpu.{Fpu, zero_of}
use odrive_ros2_control.Interface.{JointContext, Interface}
use odrive_ros2_control.Async.{JointTelemetry, AsyncIo}
use odrive_ros2_control.Async.Exchange.{copy_joint}

module _ {W F : Type 0} (u : Fpu W F) where
  -- A joint that is reported as out of date: its telemetry is not valid.
  abbrev pub IsOutdated : JointContext W F → Type 0
  IsOutdated j = (j.healthy ≡ zero_of u) × (j.telemetry_valid ≡ zero_of u)

  -- A joint agrees with the telemetry that a snapshot has of it.
  pub data Agree : List (JointContext W F) → List (JointTelemetry W) → Type 0 where
    no_more : (xs : List (JointTelemetry W)) → Agree [] xs
    and_joint :
        (j : JointContext W F) (x : JointTelemetry W) (joints : List (JointContext W F))
        (xs : List (JointTelemetry W))
        → j ≡ copy_joint u j x
        → Agree joints xs
        → Agree (j ∷ joints) (x ∷ xs)

  -- What `read` reports of the joints and of the transport at this time: the worker has been in its
  -- cycle for longer than the deadline, or it is in none, or not for that long.
  pub data Reports (now : ℕ) (io : AsyncIo W F) (s s' : Interface W F) : Type 0 where
    late :
        io.in_flight ≡ true
        → u.lt s.runtime_config.async_cycle_deadline_sec (u.seconds (now - io.cycle_start)) ≡ true
        → All IsOutdated s'.joints
        → s'.transport_log_state.ok ≡ false
        → Reports now io s s'
    in_time :
        (io.in_flight ≡ false)
          ⊎ (u.lt s.runtime_config.async_cycle_deadline_sec (u.seconds (now - io.cycle_start))
              ≡ false)
        → Agree s'.joints io.latest_telemetry.joints
        → s'.transport_log_state.ok ≡ io.latest_telemetry.transport_ok
        → Reports now io s s'
