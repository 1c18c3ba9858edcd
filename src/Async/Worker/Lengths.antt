-- ===== src/Async/Worker/Lengths.antt =====
-- A cycle keeps an element for each joint.
use odrive_ros2_control.Prelude.{
  ℕ, suc, Bool, ◌&&◌, ◌≡◌, refl, ap, ◌∙◌, inl, inr, List, [], ◌∷◌, head?, tail, length, arith,
  Bool-cases, Option-cases,
}
use odrive_ros2_control.Fpu.{Fpu}
use odrive_ros2_control.Transport.{Log, Transport}
use odrive_ros2_control.Interface.{SafetyConfig, Interface, CycleStats}
use odrive_ros2_control.Interface.Session.Lengths.{length-map}
use odrive_ros2_control.Async.{
  AsyncJointStatic, AsyncMemory, JointTelemetry, JointCommand, AsyncCommandSnapshot, AsyncIo, Slot,
  Work, CycleInstants,
}
use odrive_ros2_control.Async.Buffers.{slots_of, begin_cycle, clear_limited}
use odrive_ros2_control.Async.Reading.{
  read_phase, read_slots, read_slot, hold_all, abandon_cycle, count_async_read, read_sensor_rows,
  read_drive_rows,
}
use odrive_ros2_control.Async.Writing.{write_phase, write_slots, write_slot, count_async_write}
use odrive_ros2_control.Async.Drafting.{command_at}
use odrive_ros2_control.Interface.Command.{limiting_period}
use odrive_ros2_control.Interface.Write.{lifecycle_ok}

module _ {W F : Type 0} (u : Fpu W F) where
  length-read_slots :
      (t : Transport F) (slots : List (Slot W F)) (log : Log F)
      → length (read_slots u t slots log).0 ≡ length slots
  unfolding read_slots
  length-read_slots t [] log = refl
  length-read_slots t (x ∷ slots) log = elim (Option-cases (read_slot u t x log).1) [
    | inl go_on ↦ rw (read_slots, go_on) (ap suc (length-read_slots t slots _))
    | inr (status, stop) ↦ rw (read_slots, stop) refl
  ]

  length-write_slots :
      (c : SafetyConfig) (t : Transport F) (dt : W) (commands : List (JointCommand W))
      (slots : List (Slot W F)) (stats : CycleStats W) (log : Log F)
      → length (write_slots u c t dt commands slots stats log).slots ≡ length slots
  unfolding write_slots
  length-write_slots c t dt commands [] stats log = refl
  length-write_slots c t dt commands (x ∷ slots) stats log =
      elim (Option-cases (write_slot u c t dt (command_at u (head? commands)) x stats log).lost) [
        | inl go_on ↦
            rw (write_slots, go_on) (ap suc (length-write_slots c t dt (tail commands) slots _ _))
        | inr (failure, stop) ↦ rw (write_slots, stop) refl
      ]

  length-slots_of :
      (statics : List (AsyncJointStatic W F)) (memories : List (AsyncMemory W))
      (telemetries : List (JointTelemetry W))
      → length memories ≡ length statics
      → length telemetries ≡ length statics
      → length (slots_of u statics memories telemetries) ≡ length statics
  length-slots_of [] memories telemetries hm ht = refl
  length-slots_of (s ∷ statics) (m ∷ memories) (x ∷ telemetries) hm ht =
      ap suc (length-slots_of statics memories telemetries (omega (arith, hm)) (omega (arith, ht)))
  length-slots_of (s ∷ statics) [] telemetries hm ht = absurd (omega (arith, hm))
  length-slots_of (s ∷ statics) (m ∷ memories) [] hm ht = absurd (omega (arith, ht))

  -- The phases change what they work on, and keep an element for each joint.
  pub length-read_phase :
      (t : Transport F) (at : CycleInstants) (s : Interface W F) (w : Work W F) (log : Log F)
      → length (read_phase u t at s w log).1.slots ≡ length w.slots
  unfolding read_phase abandon_cycle hold_all count_async_read
  length-read_phase t at s w log =
      let (sensors, lost, log1) = read_sensor_rows u t s.sensors w.sensors log in
      let (drives, lost2, log2) = read_drive_rows u t s.drives w.drives log1 in
      let (slots, lost3, log3) = read_slots u t w.slots log2 in
      let kept : length slots ≡ length w.slots = length-read_slots t w.slots log2 in
      elim (Bool-cases s.connected) [
        | inr off ↦ rw off (length-map _ w.slots)
        | inl on ↦ elim (Option-cases lost) [
          | inr (status, e) ↦ rw (on, e) (length-map _ w.slots)
          | inl e ↦ elim (Option-cases lost2) [
            | inr (status, e2) ↦ rw (on, e, e2) (length-map _ w.slots)
            | inl e2 ↦ elim (Option-cases lost3) [
              | inr (status, e3) ↦ rw (on, e, e2, e3) (length-map _ slots ∙ kept)
              | inl e3 ↦ rw (on, e, e2, e3) kept
            ]
          ]
        ]
      ]

  pub length-write_phase :
      (t : Transport F) (at : CycleInstants) (command : AsyncCommandSnapshot W) (s : Interface W F)
      (w : Work W F) (log : Log F)
      → length (write_phase u t at command s w log).1.slots ≡ length w.slots
  unfolding write_phase abandon_cycle count_async_write
  length-write_phase t at command s w log =
      let r =
        write_slots u s.safety_config t (limiting_period u command.dt_s) command.joints w.slots
          w.cycle_stats log in
      let kept : length r.slots ≡ length w.slots =
        length-write_slots s.safety_config t _ command.joints w.slots w.cycle_stats log in
      elim (Bool-cases w.ended) [
        | inl e ↦ rw e refl
        | inr e ↦ elim (Bool-cases (s.connected && lifecycle_ok u s)) [
          | inr off ↦ rw (e, off) refl
          | inl on ↦ elim (Option-cases r.lost) [
            | inl go_on ↦ rw (e, on, go_on) kept
            | inr (failure, stop) ↦ rw (e, on, stop) (length-map _ r.slots ∙ kept)
          ]
        ]
      ]

  -- The vectors side by side at the start of a cycle.
  pub length-begin_cycle :
      (connected : Bool) (start : ℕ) (io : AsyncIo W F)
      → length io.memory ≡ length io.joint_static
      → length io.latest_telemetry.joints ≡ length io.joint_static
      → length (begin_cycle u connected start io).slots ≡ length io.joint_static
  unfolding begin_cycle
  length-begin_cycle connected start io hm ht =
      length-slots_of io.joint_static io.memory _ hm
        (length-map (clear_limited u) io.latest_telemetry.joints ∙ ht)
