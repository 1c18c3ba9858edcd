-- ===== src/Interface/Write/Masking.antt =====
-- What `write` does with a joint that has a fault.
use odrive_ros2_control.Prelude.{
  Bool, true, false, ◌&&◌, ◌==◌, ◌⊎◌, has_value, ◌≡◌, ◌≢◌, refl, inl, inr, Option, some, [], ◌∷◌,
  ◌++◌, arith, Bool-cases, ◌∙◌,
}
use mathlib.Core.Path.{subst}
use odrive_ros2_control.Prelude.Int.{ℤ, pos, eq_ℤ, eq_ℤ_iff}
use odrive_ros2_control.Fpu.{Fpu, zero_of}
use odrive_ros2_control.ErrorMonitoring.{extract_error_value}
use odrive_ros2_control.Endpoints.{axis_endpoint, axis__requested_state}
use odrive_ros2_control.Transport.{Op, Log, Transport, write, int32, perform}
use odrive_ros2_control.AxisControl.{axis_state_idle}
use odrive_ros2_control.Interface.{SafetyConfig, JointContext, CycleStats}
use odrive_ros2_control.Interface.Command.{has_fault, prepare_command}
use odrive_ros2_control.Interface.Write.{Round, mask_joint, write_joint, assign, is_unset}
use odrive_ros2_control.Interface.Command.Prepared.{identity, Identity, prepare_command-identity}

abbrev pub idle_request : {F : Type 0} → ℤ → ℤ → Op F
idle_request serial axis =
    write serial (axis_endpoint axis__requested_state axis) (int32 axis_state_idle)

module _ {F : Type 0} (c : SafetyConfig) (t : Transport F) (serial axis : ℤ) (idle : Option Bool)
    (log : Log F) where
  -- What a masked joint's round leaves of the flag and the history: nothing is sent, or one request
  -- for idle, which sets the flag if it is accepted.
  pub data IdleRequested : Option Bool → Log F → Type 0 where
    silent : (c.request_idle_on_axis_fault && is_unset idle) ≡ false → IdleRequested idle log
    accepted :
        (c.request_idle_on_axis_fault && is_unset idle) ≡ true
        → t.status log (idle_request serial axis) ≡ pos 0
        → IdleRequested (some true) (log ++ (idle_request serial axis ∷ []))
    refused :
        (c.request_idle_on_axis_fault && is_unset idle) ≡ true
        → t.status log (idle_request serial axis) ≢ pos 0
        → IdleRequested idle (log ++ (idle_request serial axis ∷ []))

module _ {W F : Type 0} (u : Fpu W F) where
  -- An error register, as a number, that counts as an error: positive, so that bit 31 is not set.
  abbrev pub IsErrorValue : W → Type 0
  IsErrorValue x =
      (u.is_finite x ≡ true) × (u.lt x (zero_of u) ≡ false) × ((u.to_u64 x == 0) ≡ false)

  -- One of the four error registers of the joint does.
  abbrev pub HasErrorValue : JointContext W F → Type 0
  HasErrorValue j =
      IsErrorValue j.axis_error
      ⊎ (IsErrorValue j.motor_error
          ⊎ (IsErrorValue j.encoder_error ⊎ IsErrorValue j.controller_error))

  extract_error_value-set : (x : W) → IsErrorValue x → has_value (extract_error_value u x) ≡ true
  unfolding extract_error_value
  extract_error_value-set x (finite, positive, nonzero) = rw (finite, positive, nonzero) refl

  any_fault :
      (c : SafetyConfig) (j : JointContext W F)
      → c.mask_faulted_axes ≡ true
      → HasErrorValue j
      → has_fault u c j ≡ true
  unfolding has_fault
  any_fault c j mask (inl h) = ground (arith, extract_error_value-set _ h)
  any_fault c j mask (inr (inl h)) = ground (arith, extract_error_value-set _ h)
  any_fault c j mask (inr (inr (inl h))) = ground (arith, extract_error_value-set _ h)
  any_fault c j mask (inr (inr (inr h))) = ground (arith, extract_error_value-set _ h)

module _ {W F : Type 0} (u : Fpu W F) (c : SafetyConfig) (t : Transport F) where
  -- The flag, the identity and the request of a masked joint's round.
  abbrev pub IsMasked : JointContext W F → Option Bool → Option Bool → Log F → Round W F → Type 0
  IsMasked j faulted idle log r =
      (r.faulted ≡ assign true faulted)
      × (identity u r.joint ≡ identity u j)
      × IdleRequested c t j.serial_number j.axis idle log r.idle_requested r.log

  pub mask_joint-IsMasked :
      (j : JointContext W F) (faulted idle : Option Bool) (stats : CycleStats W) (log : Log F)
      → IsMasked j faulted idle log (mask_joint u c t j faulted idle stats log)
  unfolding mask_joint perform
  mask_joint-IsMasked j faulted idle stats log =
      elim (Bool-cases (c.request_idle_on_axis_fault && is_unset idle)) [
        | inr held ↦ rw held (refl, refl, silent held)
        | inl due ↦
            let status = t.status log (idle_request j.serial_number j.axis) in
            elim (Bool-cases (eq_ℤ status (pos 0))) [
              | inl ok ↦ rw (due, ok) (refl, refl, accepted due ((eq_ℤ_iff _ _).0 ok))
              | inr failed ↦
                  rw (due, failed)
                    (
                      refl,
                      refl,
                      refused due (λ good. absurd (ground (arith, good, eq_ℤ_iff status (pos 0)))),
                    )
            ]
      ]

  module _ (dt : W) where
    faulted_round :
        (j : JointContext W F) (faulted idle : Option Bool) (stats : CycleStats W) (log : Log F)
        → has_fault u c j ≡ true
        → IsMasked j faulted idle log (write_joint u c t dt j faulted idle stats log)
    unfolding write_joint
    faulted_round j faulted idle stats log fault =
        let (ready, stats') = prepare_command u dt j stats in
        let same = prepare_command-identity u dt j stats in
        let (flag, kept, sent) = mask_joint-IsMasked ready faulted idle stats' log in
        rw fault (
          flag,
          kept ∙ same,
          subst
              (λ (i : Identity u).
                IdleRequested c t i.serial_number i.axis idle log
                  (mask_joint u c t ready faulted idle stats' log).idle_requested
                  (mask_joint u c t ready faulted idle stats' log).log)
              same sent,
        )

    -- If faulted axes are masked, and one of the four error registers of a joint was read as a positive
    -- number, a round of `write` sends it no setpoint and no watchdog feed: it sends nothing, or a
    -- single request for idle. The request is made exactly if it is configured and the joint's flag
    -- is there and unset; the flag is set if the drive accepts the request, and else stays. The error
    -- registers stay, and the joint is marked as faulted.
    pub write_joint-IsMasked :
        (j : JointContext W F) (faulted idle : Option Bool) (stats : CycleStats W) (log : Log F)
        → c.mask_faulted_axes ≡ true
        → HasErrorValue u j
        → IsMasked j faulted idle log (write_joint u c t dt j faulted idle stats log)
    write_joint-IsMasked j faulted idle stats log mask h =
        faulted_round j faulted idle stats log (any_fault u c j mask h)

    pub has_fault-identity :
        (j j' : JointContext W F)
        → identity u j' ≡ identity u j
        → has_fault u c j' ≡ has_fault u c j
    unfolding has_fault
    has_fault-identity j j' same = cc

    sends_nothing :
        (serial axis : ℤ) (log : Log F) (idle : Option Bool) {idle' : Option Bool} {log' : Log F}
        → idle ≡ some true
        → IdleRequested c t serial axis idle log idle' log'
        → log' ≡ log
    sends_nothing serial axis log idle set (silent h) = refl
    sends_nothing serial axis log idle set (accepted h e) = absurd (ground (arith, rw set at h))
    sends_nothing serial axis log idle set (refused h e) = absurd (ground (arith, rw set at h))

    requested_now :
        (serial axis : ℤ) (log : Log F) (idle : Option Bool) {idle' : Option Bool} {log' : Log F}
        → idle ≡ some false
        → c.request_idle_on_axis_fault ≡ true
        → t.status log (idle_request serial axis) ≡ pos 0
        → IdleRequested c t serial axis idle log idle' log'
        → (log' ≡ log ++ (idle_request serial axis ∷ [])) × (idle' ≡ some true)
    requested_now serial axis log idle unset on ok (silent h) =
        absurd (ground (arith, rw (unset, on) at h))
    requested_now serial axis log idle unset on ok (accepted h e) = (refl, refl)
    requested_now serial axis log idle unset on ok (refused h e) = absurd (e ok)

    -- If faulted axes are masked and sent to idle, one of a joint's error registers was read as a
    -- positive number, its flag is unset, and the drive accepts the request for idle: then a round of
    -- `write` sends the joint that request and nothing else, and the next round, on the joint and the
    -- flags that the first one leaves, sends it nothing.
    pub write_joint_requests_idle_once :
        (j : JointContext W F) (faulted : Option Bool) (stats : CycleStats W) (log : Log F)
        → c.mask_faulted_axes ≡ true
        → HasErrorValue u j
        → c.request_idle_on_axis_fault ≡ true
        → t.status log (idle_request j.serial_number j.axis) ≡ pos 0
        → let r = write_joint u c t dt j faulted (some false) stats log in
          let r2 = write_joint u c t dt r.joint r.faulted r.idle_requested r.stats r.log in
          (r.log ≡ log ++ (idle_request j.serial_number j.axis ∷ [])) × (r2.log ≡ r.log)
    write_joint_requests_idle_once j faulted stats log mask h on ok =
        let fault = any_fault u c j mask h in
        let r = write_joint u c t dt j faulted (some false) stats log in
        let (_, same, sent) = faulted_round j faulted (some false) stats log fault in
        let (grown, flag) = requested_now j.serial_number j.axis log (some false) refl on ok sent in
        let (_, _, sent2) =
          faulted_round r.joint r.faulted r.idle_requested r.stats r.log
            (has_fault-identity j r.joint same ∙ fault) in
        (grown, sends_nothing r.joint.serial_number r.joint.axis r.log r.idle_requested flag sent2)
