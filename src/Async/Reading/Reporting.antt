-- ===== src/Async/Reading/Reporting.antt =====
-- What a cycle of the worker publishes.
use odrive_ros2_control.Prelude.{
  true, ◌≡◌, refl, ◌⊎◌, inl, inr, none, List, [], ◌∷◌, map, sym, Each, Each-map, Each-then,
  Bool-cases, Option-cases, arith,
}
use odrive_ros2_control.Prelude.Int.{ℤ, pos, negsuc, eq_ℤ, eq_ℤ_iff}
use odrive_ros2_control.Fpu.{Fpu, zero_of, one_of}
use odrive_ros2_control.Fpu.Laws.{IsIeee}
use odrive_ros2_control.Transport.{Log, Transport}
use odrive_ros2_control.AxisTelemetry.{empty_sample, read_axis_telemetry}
use odrive_ros2_control.Interface.{Interface}
use odrive_ros2_control.Interface.Reset.{finite_or_zero}
use odrive_ros2_control.Interface.Feedback.{feedback_valid, is_clear, errors_clear}
use mathlib.Core.Path.{subst}
use odrive_ros2_control.Interface.Read.Valid.{Sampled, IsKept, Passed-hold}
use odrive_ros2_control.Interface.Read.Holding.{
  finite_or_zero-finite, sign_finite, feedback_valid-finite, errors_clear-each,
}
use odrive_ros2_control.Async.{Slot, Work, CycleInstants}
use odrive_ros2_control.Async.Reading.{
  hold_slot, fail_slot, mark_slot, take_slot_state, accept_slot, read_slot, read_slots, hold_all,
  abandon_cycle, count_async_read, read_sensor_rows, read_drive_rows, read_phase,
}
use odrive_ros2_control.Async.Reading.Agreement.{Reading, slot_reading}

module _ {W F : Type 0} (u : Fpu W F) where
  -- Healthy, with a complete sample and clear error registers.
  pub record IsSoundReading (r : Reading W) : Type 0 where
    pub healthy_set : r.healthy ≡ one_of u
    pub telemetry_complete : r.telemetry_valid ≡ one_of u
    pub read_ok : r.read_error ≡ zero_of u
    pub axis_clear : is_clear u r.axis_error ≡ true
    pub motor_clear : is_clear u r.motor_error ≡ true
    pub encoder_clear : is_clear u r.encoder_error ≡ true
    pub controller_clear : is_clear u r.controller_error ≡ true

  -- Not healthy, and standing still at the last valid position, or at 0 if that is not finite.
  pub record IsHeldReading (r : Reading W) (last_valid_position : W) : Type 0 where
    pub healthy_unset : r.healthy ≡ zero_of u
    pub at_last_valid : r.position ≡ finite_or_zero u last_valid_position
    pub no_velocity : r.velocity ≡ zero_of u
    pub no_effort : r.effort ≡ zero_of u

  pub record IsFiniteReading (r : Reading W) : Type 0 where
    pub position_finite : u.is_finite r.position ≡ true
    pub velocity_finite : u.is_finite r.velocity ≡ true
    pub effort_finite : u.is_finite r.effort ≡ true

  -- What is known of a joint, with its last valid position.
  abbrev pub view : Slot W F → Reading W × W
  view x = (slot_reading x, x.memory.last_valid_position)

  -- What a position is to the joint from before a cycle: `Sampled`, `Next` or `Passed` of its axis.
  abbrev pub SampledSlot : Transport F → Slot W F → W → Type 0
  SampledSlot t x =
      Sampled u t x.static.serial_number x.static.axis x.static.torque_constant x.static.invert_axis
        x.static.feedback_limits x.memory.last_valid_position

  abbrev pub NextSlot : Transport F → Slot W F → W → Type 0
  NextSlot t x p = SampledSlot t x p ⊎ IsKept u x.memory.last_valid_position p

  abbrev pub PassedSlot : Transport F → Slot W F → W → Type 0
  PassedSlot t x p = NextSlot t x p ⊎ (p ≡ x.memory.last_valid_position)

  -- What is told of a joint that was `x` before: it is sound at a new position, which is remembered as
  -- the last valid one, or held.
  abbrev pub IsTold : Transport F → Slot W F → Reading W × W → Type 0
  IsTold t x (r, last) =
      IsFiniteReading r
      × ((IsSoundReading r × SampledSlot t x r.position × (last ≡ r.position))
          ⊎ (IsHeldReading r last × NextSlot t x r.position × PassedSlot t x last))

  abbrev pub IsReportedSlot : Transport F → Slot W F → Slot W F → Type 0
  IsReportedSlot t x y = IsTold t x (view y)

  -- A joint in the course of a cycle.
  abbrev pub IsPassedSlot : Transport F → Slot W F → Slot W F → Type 0
  IsPassedSlot t x y = PassedSlot t x y.memory.last_valid_position

  pub IsReportedSlot-IsPassedSlot :
      (t : Transport F) (x y : Slot W F) → IsReportedSlot t x y → IsPassedSlot t x y
  IsReportedSlot-IsPassedSlot t x y (_, inl (_, sampled, last)) =
      inl (inl (subst (SampledSlot t x) (sym last) sampled))
  IsReportedSlot-IsPassedSlot t x y (_, inr (_, _, passed)) = passed

  unchanged : (t : Transport F) (slots : List (Slot W F)) → Each (IsPassedSlot t) slots slots
  unchanged t [] = tt
  unchanged t (x ∷ slots) = (inr refl, unchanged t slots)

  module _ (laws : IsIeee u) (t : Transport F) where
    held_reading :
        (last : W)
        → let p = finite_or_zero u last in (u.is_finite p ≡ true) × (u.is_finite (zero_of u) ≡ true)
    held_reading last = (finite_or_zero-finite u laws last, laws.of_int_finite (pos 0))

    held_next : (x : Slot W F) (p : W) → PassedSlot t x p → NextSlot t x (finite_or_zero u p)
    held_next x =
        Passed-hold u t x.static.serial_number x.static.axis x.static.torque_constant
          x.static.invert_axis x.static.feedback_limits x.memory.last_valid_position laws

    hold_slot-IsReportedSlot :
        (x y : Slot W F)
        → y.telemetry.healthy ≡ zero_of u
        → IsPassedSlot t x y
        → IsReportedSlot t x (hold_slot u y)
    unfolding hold_slot
    hold_slot-IsReportedSlot x y h passed =
        let last = y.memory.last_valid_position in
        let (at_last, at_zero) = held_reading last in
        (
          record { position_finite = at_last; velocity_finite = at_zero; effort_finite = at_zero },
          inr (
            record {
              healthy_unset = h;
              at_last_valid = refl;
              no_velocity = refl;
              no_effort = refl;
            },
            held_next x last passed,
            passed,
          ),
        )

    fail_slot-IsReportedSlot :
        (e : W) (x y : Slot W F) → IsPassedSlot t x y → IsReportedSlot t x (fail_slot u e y)
    unfolding fail_slot
    fail_slot-IsReportedSlot e x y =
        hold_slot-IsReportedSlot x
          (record y {
            telemetry = record (y.telemetry) {
              read_error = e;
              telemetry_valid = zero_of u;
              healthy = zero_of u;
            };
          })
          refl

    pub mark_slot-IsReportedSlot :
        (status : ℤ) (x y : Slot W F)
        → IsPassedSlot t x y
        → IsReportedSlot t x (mark_slot u status y)
    unfolding mark_slot
    mark_slot-IsReportedSlot status x y = fail_slot-IsReportedSlot (u.of_int status) x y

    accept_slot-IsReportedSlot :
        (x : Slot W F) (log : Log F)
        → let (o, sample, _) =
            read_axis_telemetry u t x.static.serial_number x.static.axis x.static.torque_constant
              (empty_sample u)
              log in
          o.status ≡ pos 0
          → feedback_valid u x.static.feedback_limits x.memory.last_valid_position sample ≡ true
          → IsReportedSlot t x (accept_slot u sample x)
    unfolding accept_slot take_slot_state hold_slot
    accept_slot-IsReportedSlot x log good h =
        let sample =
          (read_axis_telemetry u t x.static.serial_number x.static.axis x.static.torque_constant
            (empty_sample u) log).1 in
        elim (Bool-cases (errors_clear u sample)) [
          | inl clear ↦
              let (hp, hv, he) =
                feedback_valid-finite u laws x.static.feedback_limits x.memory.last_valid_position
                  sample h in
              let (ca, cm, ce, cc) = errors_clear-each u laws sample clear in
              let finite = sign_finite u laws x.static.invert_axis sample.position hp in
              rw clear (
                record {
                  position_finite = finite;
                  velocity_finite = sign_finite u laws x.static.invert_axis sample.velocity hv;
                  effort_finite = sign_finite u laws x.static.invert_axis sample.effort he;
                },
                inl (
                  record {
                    healthy_set = refl;
                    telemetry_complete = refl;
                    read_ok = refl;
                    axis_clear = ca;
                    motor_clear = cm;
                    encoder_clear = ce;
                    controller_clear = cc;
                  },
                  (log, good, h, clear, refl, finite),
                  refl,
                ),
              )
          | inr set ↦
              let last = x.memory.last_valid_position in
              let (at_last, at_zero) = held_reading last in
              rw set (
                record {
                  position_finite = at_last;
                  velocity_finite = at_zero;
                  effort_finite = at_zero;
                },
                inr (
                  record {
                    healthy_unset = refl;
                    at_last_valid = refl;
                    no_velocity = refl;
                    no_effort = refl;
                  },
                  held_next x last (inr refl),
                  inr refl,
                ),
              )
        ]

    read_slot-IsReportedSlot :
        (x : Slot W F) (log : Log F) → IsReportedSlot t x (read_slot u t x log).0
    unfolding read_slot
    read_slot-IsReportedSlot x log =
        let (o, sample, log') =
          read_axis_telemetry u t x.static.serial_number x.static.axis x.static.torque_constant
            (empty_sample u) log in
        elim (Bool-cases (eq_ℤ o.status (pos 0))) [
          | inr failed ↦ rw failed (fail_slot-IsReportedSlot (u.of_int o.status) x x (inr refl))
          | inl good ↦
              elim (Bool-cases
                (feedback_valid u x.static.feedback_limits x.memory.last_valid_position sample)) [
                  | inl valid ↦
                      rw (good, valid)
                        (accept_slot-IsReportedSlot x log ((eq_ℤ_iff _ _).0 good) valid)
                  | inr refused ↦
                      rw (good, refused)
                        (fail_slot-IsReportedSlot (u.of_int (negsuc 0)) x x (inr refl))
                ]
        ]

    read_slots-IsReportedSlot :
        (slots : List (Slot W F)) (log : Log F)
        → (read_slots u t slots log).1 ≡ none
        → Each (IsReportedSlot t) slots (read_slots u t slots log).0
    unfolding read_slots
    read_slots-IsReportedSlot [] log = λ h. tt
    read_slots-IsReportedSlot (x ∷ slots) log =
        let (x', lost, log') = read_slot u t x log in
        elim (Option-cases lost) [
          | inl go_on ↦
              rw (read_slots, go_on)
                (λ h. (read_slot-IsReportedSlot x log, read_slots-IsReportedSlot slots log' h))
          | inr (status, stop) ↦ rw (read_slots, stop) (λ h. absurd (ground (arith, h)))
        ]

    read_slots-Passed :
        (slots : List (Slot W F)) (log : Log F)
        → Each (IsPassedSlot t) slots (read_slots u t slots log).0
    unfolding read_slots
    read_slots-Passed [] log = tt
    read_slots-Passed (x ∷ slots) log =
        let (x', lost, log') = read_slot u t x log in
        let passed = IsReportedSlot-IsPassedSlot t x x' (read_slot-IsReportedSlot x log) in
        elim (Option-cases lost) [
          | inl go_on ↦ rw (read_slots, go_on) (passed, read_slots-Passed slots log')
          | inr (status, stop) ↦ rw (read_slots, stop) (passed, unchanged t slots)
        ]

    pub marked-IsReportedSlot :
        (status : ℤ) (before slots : List (Slot W F))
        → Each (IsPassedSlot t) before slots
        → Each (IsReportedSlot t) before (map (mark_slot u status) slots)
    marked-IsReportedSlot status before slots =
        Each-then (IsPassedSlot t) (IsReportedSlot t) (mark_slot u status) before slots
          (mark_slot-IsReportedSlot status)

    -- After the read phase, every joint is reported.
    pub read_phase-IsReportedSlot :
        (at : CycleInstants) (s : Interface W F) (w : Work W F) (log : Log F)
        → Each (IsReportedSlot t) w.slots (read_phase u t at s w log).1.slots
    unfolding read_phase abandon_cycle hold_all count_async_read
    read_phase-IsReportedSlot at s w log =
        let (sensors, lost, log1) = read_sensor_rows u t s.sensors w.sensors log in
        let (drives, lost2, log2) = read_drive_rows u t s.drives w.drives log1 in
        let (slots, lost3, log3) = read_slots u t w.slots log2 in
        let same = unchanged t w.slots in
        elim (Bool-cases s.connected) [
          | inr off ↦ rw off (
              Each-map (IsReportedSlot t) _ w.slots (λ x.
                hold_slot-IsReportedSlot x
                  (record x {
                    telemetry = record (x.telemetry) {
                      healthy = zero_of u;
                      telemetry_valid = zero_of u;
                    };
                  })
                  refl (inr refl)))
          | inl on ↦ elim (Option-cases lost) [
            | inr (status, e) ↦ rw (on, e) (marked-IsReportedSlot status w.slots w.slots same)
            | inl e ↦ elim (Option-cases lost2) [
              | inr (status, e2) ↦
                  rw (on, e, e2) (marked-IsReportedSlot status w.slots w.slots same)
              | inl e2 ↦ elim (Option-cases lost3) [
                | inr (status, e3) ↦
                    rw (on, e, e2, e3)
                      (marked-IsReportedSlot status w.slots slots (read_slots-Passed w.slots log2))
                | inl e3 ↦ rw (on, e, e2, e3) (read_slots-IsReportedSlot w.slots log2 e3)
              ]
            ]
          ]
        ]
