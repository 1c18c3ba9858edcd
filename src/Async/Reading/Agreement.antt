-- ===== src/Async/Reading/Agreement.antt =====
-- A round of the worker's read phase and of the synchronous `read`, side by side.
use odrive_ros2_control.Prelude.{◌≡◌, refl, inl, inr, Option, none, some, List, Bool-cases}
use odrive_ros2_control.Prelude.Int.{ℤ, pos, eq_ℤ}
use odrive_ros2_control.Fpu.{Fpu}
use odrive_ros2_control.Transport.{Log, Transport}
use odrive_ros2_control.TransportError.{is_fail_fast_transport_error}
use odrive_ros2_control.AxisTelemetry.{AxisTelemetrySample, empty_sample, read_axis_telemetry}
use odrive_ros2_control.Interface.{SensorContext, JointContext}
use odrive_ros2_control.Interface.Reset.{hold_joint_state}
use odrive_ros2_control.Interface.Feedback.{
  mark_joint_unhealthy, feedback_valid, errors_clear, take_state, accept_sample, refuse_sample,
}
use odrive_ros2_control.Interface.Read.{read_joint}
use odrive_ros2_control.Async.{JointCommand, Slot}
use odrive_ros2_control.Async.Reading.{
  hold_slot, fail_slot, take_slot_state, accept_slot, read_slot,
}
use odrive_ros2_control.Async.Writing.Effect.{joint_of}

-- What is known of a joint from its telemetry.
pub record Reading (W : Type 0) : Type 0 where
  pub position : W
  pub velocity : W
  pub effort : W
  pub axis_error : W
  pub motor_error : W
  pub encoder_error : W
  pub controller_error : W
  pub fet_temperature : W
  pub motor_temperature : W
  pub read_error : W
  pub telemetry_valid : W
  pub healthy : W

abbrev pub joint_reading : {W F : Type 0} → JointContext W F → Reading W
joint_reading j = record {
  position = j.position;
  velocity = j.velocity;
  effort = j.effort;
  axis_error = j.axis_error;
  motor_error = j.motor_error;
  encoder_error = j.encoder_error;
  controller_error = j.controller_error;
  fet_temperature = j.fet_temperature;
  motor_temperature = j.motor_temperature;
  read_error = j.read_error;
  telemetry_valid = j.telemetry_valid;
  healthy = j.healthy;
}

abbrev pub slot_reading : {W F : Type 0} → Slot W F → Reading W
slot_reading x = record {
  position = x.telemetry.position;
  velocity = x.telemetry.velocity;
  effort = x.telemetry.effort;
  axis_error = x.telemetry.axis_error;
  motor_error = x.telemetry.motor_error;
  encoder_error = x.telemetry.encoder_error;
  controller_error = x.telemetry.controller_error;
  fet_temperature = x.telemetry.fet_temperature;
  motor_temperature = x.telemetry.motor_temperature;
  read_error = x.telemetry.read_error;
  telemetry_valid = x.telemetry.telemetry_valid;
  healthy = x.telemetry.healthy;
}

module _ {W F : Type 0} (u : Fpu W F) where
  -- The joint at the end of a synchronous cycle that this status cuts short.
  abbrev pub ended_by : Option ℤ → JointContext W F → JointContext W F
  ended_by none j = j
  ended_by (some status) j = mark_joint_unhealthy u status j

  accept_agrees :
      (k : JointCommand W) (x : Slot W F) (sample : AxisTelemetrySample W)
      → slot_reading (accept_slot u sample x)
        ≡ joint_reading (accept_sample u (joint_of u k x) sample)
  unfolding accept_slot accept_sample take_slot_state take_state hold_slot hold_joint_state
  accept_agrees k x sample = elim (Bool-cases (errors_clear u sample)) [
    | inl e ↦ rw e refl
    | inr e ↦ rw e refl
  ]

  -- A round of the worker's read phase does what a round of the synchronous `read` does with the
  -- joint that the slot corresponds to: the same operations with the same answers, the same status,
  -- if any, that ends the cycle, and the same telemetry, where the synchronous cycle that is cut
  -- short has marked the joint as unhealthy.
  pub read_slot-read_joint :
      (t : Transport F) (k : JointCommand W) (x : Slot W F) (sensors : List (SensorContext W))
      (log : Log F)
      → let (x', lost, log') = read_slot u t x log in
        let ((j, sensors'), lost', log'') = read_joint u t (joint_of u k x) sensors log in
        (log' ≡ log'') × (lost ≡ lost') × (slot_reading x' ≡ joint_reading (ended_by lost' j))
  unfolding read_slot read_joint refuse_sample mark_joint_unhealthy fail_slot hold_slot
      hold_joint_state
  read_slot-read_joint t k x sensors log =
      let (o, sample, log') =
        read_axis_telemetry u t x.static.serial_number x.static.axis x.static.torque_constant
          (empty_sample u) log in
      elim (Bool-cases (eq_ℤ o.status (pos 0))) [
        | inl good ↦
            elim (Bool-cases
              (feedback_valid u x.static.feedback_limits x.memory.last_valid_position sample)) [
                | inl valid ↦ rw (good, valid) (refl, refl, accept_agrees k x sample)
                | inr refused ↦ rw (good, refused) (refl, refl, refl)
              ]
        | inr bad ↦ elim (Bool-cases (is_fail_fast_transport_error o.status)) [
          | inl lost ↦ rw (bad, lost) (refl, refl, refl)
          | inr kept ↦ rw (bad, kept) (refl, refl, refl)
        ]
      ]
