-- ===== src/Interface/Read/Holding.antt =====
-- What `read` leaves in the joints: finite kinematic state, and a frozen one for an unhealthy joint.
use odrive_ros2_control.Prelude.{
  ℕ, Bool, true, false, ◌≡◌, refl, ◌⊎◌, inl, inr, none, List, [], ◌∷◌, map, arith, All, Each,
  Each-map, Each-then, Each-before, some, sym, ap, Bool-cases, Option-cases, if◌then◌else◌,
}
use odrive_ros2_control.Prelude.Int.{ℤ, pos, negsuc, eq_ℤ, eq_ℤ_iff}
use odrive_ros2_control.Fpu.{Fpu, zero_of, one_of, minus_one_of}
use odrive_ros2_control.Fpu.Laws.{IsIeee}
use odrive_ros2_control.Transport.{Log, Transport}
use odrive_ros2_control.Configuration.{FeedbackLimits}
use odrive_ros2_control.AxisTelemetry.{AxisTelemetrySample, empty_sample, read_axis_telemetry}
use odrive_ros2_control.TransportError.{is_fail_fast_transport_error}
use odrive_ros2_control.Interface.{SensorContext, JointContext, Interface, Instants}
use odrive_ros2_control.Interface.Reset.{hold_joint_state, finite_or_zero}
use odrive_ros2_control.Interface.Feedback.{
  mark_joint_unhealthy, feedback_valid, is_clear, errors_clear, accept_sample, refuse_sample,
}
use mathlib.Core.Path.{subst}
use odrive_ros2_control.Interface.Read.Valid.{Sampled, IsKept, finite_or_zero-IsKept, Passed-hold}
use odrive_ros2_control.Interface.Read.{
  mark_all_unhealthy_and_hold, read_joint, read_joints, read_sync, read_sensors, read_drives,
  count_read_cycle, hold_without_transport,
}

pub All-map {ℓ κ μ} :
    {A : Type ℓ} {B : Type κ} (P : B → Type μ) (f : A → B) (xs : List A)
    → ((a : A) → P (f a))
    → All P (map f xs)
All-map P f [] h = tt
All-map P f (x ∷ xs) h = (h x, All-map P f xs h)

module _ {W F : Type 0} (u : Fpu W F) where
  pub record IsFinite (j : JointContext W F) : Type 0 where
    pub position_finite : u.is_finite j.position ≡ true
    pub velocity_finite : u.is_finite j.velocity ≡ true
    pub effort_finite : u.is_finite j.effort ≡ true

  -- Healthy, with a complete sample and clear error registers.
  pub record IsHealthy (j : JointContext W F) : Type 0 where
    pub healthy_set : j.healthy ≡ one_of u
    pub telemetry_complete : j.telemetry_valid ≡ one_of u
    pub read_ok : j.read_error ≡ zero_of u
    pub axis_clear : is_clear u j.axis_error ≡ true
    pub motor_clear : is_clear u j.motor_error ≡ true
    pub encoder_clear : is_clear u j.encoder_error ≡ true
    pub controller_clear : is_clear u j.controller_error ≡ true

  -- Not healthy, and standing still at what is now the last valid position.
  pub record IsFrozen (j : JointContext W F) : Type 0 where
    pub healthy_unset : j.healthy ≡ zero_of u
    pub at_last_valid : j.position ≡ j.last_valid_position
    pub no_velocity : j.velocity ≡ zero_of u
    pub no_effort : j.effort ≡ zero_of u

  -- What a position is to the joint from before a cycle: `Sampled`, `Next` or `Passed` of its axis.
  abbrev pub SampledOf : Transport F → JointContext W F → W → Type 0
  SampledOf t j =
      Sampled u t j.serial_number j.axis j.torque_constant j.invert_axis j.feedback_limits
        j.last_valid_position

  abbrev pub NextOf : Transport F → JointContext W F → W → Type 0
  NextOf t j p = SampledOf t j p ⊎ IsKept u j.last_valid_position p

  abbrev pub PassedOf : Transport F → JointContext W F → W → Type 0
  PassedOf t j p = NextOf t j p ⊎ (p ≡ j.last_valid_position)

  -- A joint `j` and what a read makes of it: healthy at a new position, which is its last valid one
  -- from now on, or frozen.
  abbrev pub IsReported : Transport F → JointContext W F → JointContext W F → Type 0
  IsReported t j j' =
      IsFinite j'
      × ((IsHealthy j' × SampledOf t j j'.position × (j'.last_valid_position ≡ j'.position))
          ⊎ (IsFrozen j' × NextOf t j j'.position))

  -- A joint in the course of a read.
  abbrev PassedJoint : Transport F → JointContext W F → JointContext W F → Type 0
  PassedJoint t j j' = PassedOf t j j'.last_valid_position

  unchanged :
      (t : Transport F) (joints : List (JointContext W F)) → Each (PassedJoint t) joints joints
  unchanged t [] = tt
  unchanged t (j ∷ joints) = (inr refl, unchanged t joints)

  -- The joint with which `read` begins.
  abbrev unread : JointContext W F → JointContext W F
  unread j = record j { healthy = zero_of u }

  IsReported-PassedJoint :
      (t : Transport F) (j j' : JointContext W F) → IsReported t j j' → PassedJoint t j j'
  IsReported-PassedJoint t j j' (_, inl (_, sampled, last)) =
      inl (inl (subst (SampledOf t j) (sym last) sampled))
  IsReported-PassedJoint t j j' (_, inr (frozen, next)) =
      inl (subst (NextOf t j) frozen.at_last_valid next)

  module _ (laws : IsIeee u) where
    pub finite_or_zero-finite : (x : W) → u.is_finite (finite_or_zero u x) ≡ true
    finite_or_zero-finite x = ground (arith, laws.of_int_finite (pos 0))

    hold_joint_state-IsReported :
        (t : Transport F) (j j' : JointContext W F)
        → j'.healthy ≡ zero_of u
        → PassedJoint t j j'
        → IsReported t j (hold_joint_state u j')
    unfolding hold_joint_state
    hold_joint_state-IsReported t j j' h passed = (
      record {
        position_finite = finite_or_zero-finite j'.last_valid_position;
        velocity_finite = laws.of_int_finite (pos 0);
        effort_finite = laws.of_int_finite (pos 0);
      },
      inr (
        record { healthy_unset = h; at_last_valid = refl; no_velocity = refl; no_effort = refl },
        Passed-hold u t j.serial_number j.axis j.torque_constant j.invert_axis j.feedback_limits
            j.last_valid_position laws j'.last_valid_position passed,
      ),
    )

    mark_joint_unhealthy-IsReported :
        (t : Transport F) (status : ℤ) (j j' : JointContext W F)
        → PassedJoint t j j'
        → IsReported t j (mark_joint_unhealthy u status j')
    unfolding mark_joint_unhealthy
    mark_joint_unhealthy-IsReported t status j j' passed =
        hold_joint_state-IsReported t j
          (record j' {
            read_error = u.of_int status;
            healthy = zero_of u;
            telemetry_valid = zero_of u;
          })
          refl passed

    pub sign_finite :
        (b : Bool) (x : W)
        → u.is_finite x ≡ true
        → u.is_finite (u.mul x (if b then minus_one_of u else one_of u)) ≡ true
    sign_finite true x h = laws.mul_minus_one_finite x h
    sign_finite false x h = laws.mul_one_finite x h

    pub feedback_valid-finite :
        (l : FeedbackLimits W) (last : W) (x : AxisTelemetrySample W)
        → feedback_valid u l last x ≡ true
        → (u.is_finite x.position ≡ true)
          × (u.is_finite x.velocity ≡ true)
          × (u.is_finite x.effort ≡ true)
    unfolding feedback_valid
    feedback_valid-finite l last x h = ground arith

    pub errors_clear-each :
        (x : AxisTelemetrySample W)
        → errors_clear u x ≡ true
        → (is_clear u x.axis_error ≡ true)
          × (is_clear u x.motor_error ≡ true)
          × (is_clear u x.encoder_error ≡ true)
          × (is_clear u x.controller_error ≡ true)
    unfolding errors_clear
    errors_clear-each x h = ground arith

    accept_sample-IsReported :
        (t : Transport F) (j : JointContext W F) (log : Log F)
        → let (o, x, _) =
            read_axis_telemetry u t j.serial_number j.axis j.torque_constant (empty_sample u) log in
          o.status ≡ pos 0
          → feedback_valid u j.feedback_limits j.last_valid_position x ≡ true
          → IsReported t j (accept_sample u j x)
    unfolding accept_sample
    accept_sample-IsReported t j log good h =
        let x =
          (read_axis_telemetry u t j.serial_number j.axis j.torque_constant (empty_sample u)
            log).1 in
        elim (Bool-cases (errors_clear u x)) [
          | inl clear ↦
              let (hp, hv, he) =
                feedback_valid-finite j.feedback_limits j.last_valid_position x h in
              let (ca, cm, ce, cc) = errors_clear-each x clear in
              let finite = sign_finite j.invert_axis x.position hp in
              rw clear (
                record {
                  position_finite = finite;
                  velocity_finite = sign_finite j.invert_axis x.velocity hv;
                  effort_finite = sign_finite j.invert_axis x.effort he;
                },
                inl (
                  record {
                    healthy_set = refl;
                    telemetry_complete = refl;
                    read_ok = refl;
                    axis_clear = ca;
                    motor_clear = cm;
                    encoder_clear = ce;
                    controller_clear = cc;
                  },
                  (log, good, h, clear, refl, finite),
                  refl,
                ),
              )
          | inr set ↦ rw set (
            record {
              position_finite = finite_or_zero-finite j.last_valid_position;
              velocity_finite = laws.of_int_finite (pos 0);
              effort_finite = laws.of_int_finite (pos 0);
            },
            inr (
              record {
                healthy_unset = refl;
                at_last_valid = refl;
                no_velocity = refl;
                no_effort = refl;
              },
              inr (finite_or_zero-IsKept u j.last_valid_position),
            ),
          )
        ]

    read_joint-IsReported :
        (t : Transport F) (j : JointContext W F) (sensors : List (SensorContext W)) (log : Log F)
        → (read_joint u t j sensors log).1 ≡ none
        → IsReported t j (read_joint u t j sensors log).0.0
    unfolding read_joint refuse_sample
    read_joint-IsReported t j sensors log =
        let (o, sample, log') =
          read_axis_telemetry u t j.serial_number j.axis j.torque_constant (empty_sample u) log in
        elim (Bool-cases (eq_ℤ o.status (pos 0))) [
          | inl good ↦
              elim (Bool-cases (feedback_valid u j.feedback_limits j.last_valid_position sample)) [
                | inl valid ↦
                    rw (good, valid)
                      (λ _. accept_sample-IsReported t j log ((eq_ℤ_iff _ _).0 good) valid)
                | inr invalid ↦
                    rw (good, invalid)
                      (λ _. mark_joint_unhealthy-IsReported t (negsuc 0) j j (inr refl))
              ]
          | inr failed ↦ elim (Bool-cases (is_fail_fast_transport_error o.status)) [
            | inl lost ↦ rw (failed, lost) (λ h. absurd (ground (arith, h)))
            | inr held ↦
                rw (failed, held) (λ _. mark_joint_unhealthy-IsReported t o.status j j (inr refl))
          ]
        ]

    -- A round that gives the transport up leaves the joint.
    read_joint-lost :
        (t : Transport F) (j : JointContext W F) (sensors : List (SensorContext W)) (log : Log F)
        (status : ℤ)
        → (read_joint u t j sensors log).1 ≡ some status
        → (read_joint u t j sensors log).0.0 ≡ j
    unfolding read_joint
    read_joint-lost t j sensors log status =
        let (o, sample, log') =
          read_axis_telemetry u t j.serial_number j.axis j.torque_constant (empty_sample u) log in
        elim (Bool-cases (eq_ℤ o.status (pos 0))) [
          | inl good ↦ rw good (λ h. absurd (ground (arith, h)))
          | inr failed ↦ elim (Bool-cases (is_fail_fast_transport_error o.status)) [
            | inl lost ↦ rw (failed, lost) (λ h. refl)
            | inr held ↦ rw (failed, held) (λ h. absurd (ground (arith, h)))
          ]
        ]

    read_joints-IsReported :
        (t : Transport F) (joints : List (JointContext W F)) (sensors : List (SensorContext W))
        (log : Log F)
        → (read_joints u t joints sensors log).1 ≡ none
        → Each (IsReported t) joints (read_joints u t joints sensors log).0.0
    unfolding read_joints
    read_joints-IsReported t [] sensors log = λ _. tt
    read_joints-IsReported t (j ∷ joints) sensors log =
        let ((j', sensors'), lost, log') = read_joint u t j sensors log in
        elim (Option-cases lost) [
          | inl none_lost ↦
              rw (read_joints, none_lost)
                (λ h. (
                  read_joint-IsReported t j sensors log none_lost,
                  read_joints-IsReported t joints sensors' log' h,
                ))
          | inr (status, some_lost) ↦ rw (read_joints, some_lost) (λ h. absurd (ground (arith, h)))
        ]

    read_joints-Passed :
        (t : Transport F) (joints : List (JointContext W F)) (sensors : List (SensorContext W))
        (log : Log F)
        → Each (PassedJoint t) joints (read_joints u t joints sensors log).0.0
    unfolding read_joints
    read_joints-Passed t [] sensors log = tt
    read_joints-Passed t (j ∷ joints) sensors log =
        let ((j', sensors'), lost, log') = read_joint u t j sensors log in
        elim (Option-cases lost) [
          | inl go_on ↦
              rw (read_joints, go_on)
                (
                  IsReported-PassedJoint t j j' (read_joint-IsReported t j sensors log go_on),
                  read_joints-Passed t joints sensors' log',
                )
          | inr (status, stop) ↦
              let same =
                ap (λ (i : JointContext W F). i.last_valid_position)
                  (read_joint-lost t j sensors log status stop) in
              rw (read_joints, stop) (inr same, unchanged t joints)
        ]

    marked-IsReported :
        (t : Transport F) (status : ℤ) (joints joints' : List (JointContext W F))
        → Each (PassedJoint t) joints joints'
        → Each (IsReported t) joints (map (mark_joint_unhealthy u status) joints')
    marked-IsReported t status joints joints' =
        Each-then (PassedJoint t) (IsReported t) (mark_joint_unhealthy u status) joints joints'
          (mark_joint_unhealthy-IsReported t status)

    hold_without_transport-IsReported :
        (t : Transport F) (now : ℕ) (s : Interface W F)
        → Each (IsReported t) s.joints (hold_without_transport u now s).joints
    unfolding hold_without_transport
    hold_without_transport-IsReported t now s =
        Each-map (IsReported t)
          (λ (j : JointContext W F).
            hold_joint_state u (record j { healthy = zero_of u; telemetry_valid = zero_of u }))
          s.joints
          (λ j.
            hold_joint_state-IsReported t j
              (record j { healthy = zero_of u; telemetry_valid = zero_of u }) refl (inr refl))

    -- What `read` reports of a joint in place of which it reads an unread one.
    from_unread :
        (t : Transport F) (joints joints' : List (JointContext W F))
        → Each (IsReported t) (map unread joints) joints'
        → Each (IsReported t) joints joints'
    from_unread t joints joints' = Each-before (IsReported t) unread joints joints'

    -- After any `read`, from any state and with any answers of the transport, every joint, in its
    -- place, has finite position, velocity and effort. It is either healthy with a complete sample and
    -- clear error registers, at a position that its axis gave in telemetry that passed the checks
    -- against the last valid position from before, and which is the last valid one from now on. Or it
    -- is marked unhealthy, with velocity and effort 0, and frozen: at its last valid position from
    -- before, or 0 if that was not finite, or at one that its axis gave in such telemetry; and this
    -- stays its last valid position.
    pub read_sync-IsReported :
        (t : Transport F) (at : Instants) (s : Interface W F) (log : Log F)
        → Each (IsReported t) s.joints (read_sync u t at s log).0.joints
    unfolding read_sync count_read_cycle mark_all_unhealthy_and_hold
    read_sync-IsReported t at s log = elim (Bool-cases s.connected) [
      | inr offline ↦ rw offline (hold_without_transport-IsReported t at.event s)
      | inl online ↦
          let joints0 = map unread s.joints in
          let (sensors, lost1, log1) = read_sensors u t s.sensors log in
          let (drives, lost2, log2) = read_drives u t s.drives log1 in
          let ((joints, sensors3), lost3, log3) = read_joints u t joints0 sensors log2 in
          let marked = λ (status : ℤ).
            from_unread t s.joints _
              (marked-IsReported t status joints0 joints0 (unchanged t joints0)) in
          elim (Option-cases lost1) [
            | inr (status, e1) ↦ rw (online, e1) (marked status)
            | inl e1 ↦ elim (Option-cases lost2) [
              | inr (status, e2) ↦ rw (online, e1, e2) (marked status)
              | inl e2 ↦ elim (Option-cases lost3) [
                | inr (status, e3) ↦
                    rw (online, e1, e2, e3)
                      (from_unread t s.joints _ (
                        marked-IsReported t status joints0 joints
                          (read_joints-Passed t joints0 sensors log2)))
                | inl e3 ↦
                    rw (online, e1, e2, e3)
                      (from_unread t s.joints _ (read_joints-IsReported t joints0 sensors log2 e3))
              ]
            ]
          ]
    ]
