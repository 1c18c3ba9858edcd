-- ===== src/Async/Exchange.antt =====
-- `read` and `write` in the asynchronous mode: they only exchange snapshots with the worker.
pub mod Deadline
use odrive_ros2_control.Prelude.{ℕ, Bool, true, false, List, [], ◌∷◌, map, if◌then◌else◌}
use odrive_ros2_control.Fpu.{Fpu, zero_of}
use odrive_ros2_control.Interface.{SensorContext, DriveContext, JointContext, CycleStats, Interface}
use odrive_ros2_control.Interface.Health.{update_transport_health, maybe_update_diagnostics}
use odrive_ros2_control.Async.{
  JointCommand, AsyncCommandSnapshot, SensorTelemetry, DriveTelemetry, JointTelemetry,
  AsyncTelemetrySnapshot, AsyncIo,
}
use odrive_ros2_control.Async.Buffers.{async_io_should_report_deadline_miss}

-- The loops `i < a.size() && i < b.size()` that copy a vector into another.
abbrev pub copy_into {ℓ κ} : {A : Type ℓ} {B : Type κ} → (A → B → A) → List A → List B → List A
copy_into f [] ys = []
copy_into f (x ∷ xs) [] = x ∷ xs
copy_into f (x ∷ xs) (y ∷ ys) = f x y ∷ copy_into f xs ys

module _ {W F : Type 0} (u : Fpu W F) where
  unfoldable pub copy_sensor : SensorContext W → SensorTelemetry W → SensorContext W
  copy_sensor n x = record n { vbus_voltage = x.vbus_voltage; transport_error = x.transport_error }

  unfoldable pub copy_drive : DriveContext W → DriveTelemetry W → DriveContext W
  copy_drive d x = record d {
    can_error = x.can_error;
    can_error_read_error = x.can_error_read_error;
  }

  unfoldable pub copy_joint : JointContext W F → JointTelemetry W → JointContext W F
  copy_joint j x = record j {
    position = x.position;
    velocity = x.velocity;
    effort = x.effort;
    axis_error = x.axis_error;
    motor_error = x.motor_error;
    encoder_error = x.encoder_error;
    controller_error = x.controller_error;
    fet_temperature = x.fet_temperature;
    motor_temperature = x.motor_temperature;
    read_error = x.read_error;
    write_error = x.write_error;
    telemetry_valid = x.telemetry_valid;
    healthy = x.healthy;
    position_rate_limited = x.position_rate_limited;
    velocity_rate_limited = x.velocity_rate_limited;
    effort_rate_limited = x.effort_rate_limited;
  }

  -- A cycle that misses its deadline.
  unfoldable pub mark_late : AsyncTelemetrySnapshot W → AsyncTelemetrySnapshot W
  mark_late x = record x {
    transport_ok = false;
    joints =
        map
          (λ (j : JointTelemetry W). record j { healthy = zero_of u; telemetry_valid = zero_of u })
          x.joints;
  }

  -- `read`, at the time `now`; the health is updated at `event`, the diagnostics at `diagnosis`.
  unfoldable pub read_async :
      (now event diagnosis : ℕ) → AsyncIo W F → Interface W F → Interface W F
  unfolding mark_late copy_sensor copy_drive copy_joint async_io_should_report_deadline_miss
  read_async now event diagnosis io s =
      let x =
        if async_io_should_report_deadline_miss u s.runtime_config now io
        then mark_late io.latest_telemetry
        else io.latest_telemetry in
      record s {
        sensors = copy_into copy_sensor s.sensors x.sensors;
        drives = copy_into copy_drive s.drives x.drives;
        joints = copy_into copy_joint s.joints x.joints;
        cycle_stats = x.cycle_stats;
        transport_log_state =
            (update_transport_health u s.runtime_config.transport_summary_period_sec x.transport_ok
              x.transport_error "async I/O read" event s.transport_log_state).1;
        diagnostics = maybe_update_diagnostics diagnosis s.diagnostics;
      }

  unfoldable pub command_of : JointContext W F → JointCommand W
  command_of j = record {
    command_position = j.command_position;
    command_velocity = j.command_velocity;
    command_effort = j.command_effort;
    control_level = j.control_level;
    command_sequence = j.command_sequence;
  }

  -- `write`: the commands become the worker's, and a cycle is requested.
  unfoldable pub write_async : W → Interface W F → AsyncIo W F → AsyncIo W F
  unfolding command_of
  write_async period s io = record io {
    latest_command = record { dt_s = period; joints = map command_of s.joints };
    request_pending = true;
  }
