-- ===== src/Interface/Write/Gating.antt =====
-- When `write` sends nothing: stale commands, a lost device, outputs that are not enabled.
use odrive_ros2_control.Prelude.{
  Bool, true, false, ◌&&◌, ◌≡◌, ◌≢◌, refl, sym, ap, ◌∙◌, append_assoc, ◌++◌, inl, inr, Option, none,
  some, String, List, [], ◌∷◌, arith, Bool-cases, Option-cases, if◌then◌else◌, head?, tail,
}
use odrive_ros2_control.Prelude.Int.{ℤ, pos, eq_ℤ, eq_ℤ_iff}
use mathlib.Core.Bool.{false≢true}
use odrive_ros2_control.Fpu.{Fpu}
use odrive_ros2_control.Transport.{Op, Log, Transport, perform}
use odrive_ros2_control.TransportError.{is_fail_fast_transport_error}
use odrive_ros2_control.AxisControl.{Outcome, write_axis_command}
use odrive_ros2_control.AxisControl.Script.{Script, ops, Ran, completed, stopped}
use odrive_ros2_control.AxisControl.Feeding.{write_axis_command-Ran}
use odrive_ros2_control.Interface.{SafetyConfig, JointContext, CycleStats, Interface, Instants}
use odrive_ros2_control.Interface.Command.{
  has_fault, is_stale, prepare_command, invert_commands, command_state, limiting_period,
}
use odrive_ros2_control.Interface.Health.Transitions.{update_transport_health_transitions}
use odrive_ros2_control.Interface.Read.{read_sync}
use odrive_ros2_control.Interface.Write.Masking.{idle_request}
use odrive_ros2_control.Interface.Write.{
  Round, Rounds, assign, is_unset, mask_joint, send_command, write_joint, write_joints, write_sync,
  report_offline, lifecycle_ok, count_write_cycle,
}

module _ {W F : Type 0} (u : Fpu W F) (c : SafetyConfig) (t : Transport F) where
  -- A history ends with an operation that has this status.
  abbrev Ended : ℤ → Log F → Type 0
  Ended status log =
      (before : Log F) × (o : Op F) × (log ≡ before ++ (o ∷ [])) × (t.status before o ≡ status)

  -- A round that ends the cycle has a fail-fast status, which is that of its last operation.
  abbrev FailsFast : Option (ℤ × String) → Log F → Type 0
  FailsFast none log = Unit
  FailsFast (some (status, context)) log =
      Ended status log × (is_fail_fast_transport_error status ≡ true)

  FailsFast-if :
      (status : ℤ) (context : String) (log : Log F)
      → Ended status log
      → FailsFast (if is_fail_fast_transport_error status then some (status, context) else none) log
  FailsFast-if status context log h = elim (Bool-cases (is_fail_fast_transport_error status)) [
    | inl fast ↦ rw fast (h, fast)
    | inr slow ↦ rw slow tt
  ]

  Ran-Ended :
      (s : Script F) (log : Log F) {o : Outcome} {log' : Log F}
      → Ran t s log o log'
      → o.status ≢ pos 0
      → Ended o.status log'
  Ran-Ended s log (completed a) bad = absurd (bad refl)
  Ran-Ended s log (stopped before stage o after split a failed) bad =
      (log ++ ops before, o, sym (append_assoc log (ops before) (o ∷ [])), refl)

  either :
      (b : Bool) (x y : Round W F)
      → FailsFast x.lost x.log
      → FailsFast y.lost y.log
      → FailsFast (if b then x else y).lost (if b then x else y).log
  either true x y hx hy = hx
  either false x y hx hy = hy

  mask_joint-FailsFast :
      (j : JointContext W F) (faulted idle : Option Bool) (stats : CycleStats W) (log : Log F)
      → let r = mask_joint u c t j faulted idle stats log in FailsFast r.lost r.log
  unfolding mask_joint perform
  mask_joint-FailsFast j faulted idle stats log =
      let request = idle_request j.serial_number j.axis in
      let status = t.status log request in
      either (c.request_idle_on_axis_fault && is_unset idle) _ _
        (either (eq_ℤ status (pos 0)) _ _ tt
          (FailsFast-if status "requesting axis idle state" _ (log, request, refl, refl)))
        tt

  send_command-FailsFast :
      (j : JointContext W F) (faulted idle : Option Bool) (stats : CycleStats W) (log : Log F)
      → let r = send_command u c t j faulted idle stats log in FailsFast r.lost r.log
  unfolding send_command
  send_command-FailsFast j faulted idle stats log =
      let sent = invert_commands u j in
      let (o, log') =
        write_axis_command u t sent.serial_number sent.axis sent.control_level
          (command_state u sent) sent.enable_watchdog log in
      let ran =
        write_axis_command-Ran u t sent.serial_number sent.axis sent.control_level
          (command_state u sent) sent.enable_watchdog log in
      elim (Bool-cases (eq_ℤ o.status (pos 0))) [
        | inl good ↦ rw good tt
        | inr bad ↦ rw bad (
            FailsFast-if o.status _ log'
              (Ran-Ended _ log ran (λ z. false≢true (sym bad ∙ (eq_ℤ_iff _ _).1 z))))
      ]

  module _ (dt : W) where
    write_joint-FailsFast :
        (j : JointContext W F) (faulted idle : Option Bool) (stats : CycleStats W) (log : Log F)
        → let r = write_joint u c t dt j faulted idle stats log in FailsFast r.lost r.log
    unfolding write_joint
    write_joint-FailsFast j faulted idle stats log =
        let (ready, stats') = prepare_command u dt j stats in
        either (has_fault u c j) _ _ (mask_joint-FailsFast ready faulted idle stats' log) (
          either (c.gate_stale_commands_with_command_sequence && is_stale u ready) _ _ tt
            (send_command-FailsFast ready (assign false faulted) (assign false idle) stats' log))

    pub write_joints-FailsFast :
        (joints : List (JointContext W F)) (faulted idle : List Bool) (stats : CycleStats W)
        (log : Log F)
        → let r = write_joints u c t dt joints faulted idle stats log in FailsFast r.lost r.log
    unfolding write_joints
    write_joints-FailsFast [] faulted idle stats log = tt
    write_joints-FailsFast (j ∷ joints) faulted idle stats log =
        let r = write_joint u c t dt j (head? faulted) (head? idle) stats log in
        elim (Option-cases r.lost) [
          | inl go_on ↦
              rw (write_joints, go_on)
                (write_joints-FailsFast joints (tail faulted) (tail idle) r.stats r.log)
          | inr (failure, lost) ↦
              rw (write_joints, lost)
                (rw lost at (write_joint-FailsFast j (head? faulted) (head? idle) stats log))
        ]

module _ {W F : Type 0} (u : Fpu W F) where
  -- What the loop over the joints would leave in this cycle.
  abbrev rounds : Transport F → W → Interface W F → Log F → Rounds W F
  rounds t period s log =
      write_joints u s.safety_config t (limiting_period u period) s.joints s.axis_faulted
        s.idle_requested_on_fault s.cycle_stats log

  pub write_sync-offline :
      (t : Transport F) (at : Instants) (period : W) (s : Interface W F) (log : Log F)
      → s.connected ≡ false
      → (write_sync u t at period s log).1 ≡ log
  unfolding write_sync
  write_sync-offline t at period s log offline = rw offline

  pub read_sync-offline :
      (t : Transport F) (at : Instants) (s : Interface W F) (log : Log F)
      → s.connected ≡ false
      → (read_sync u t at s log).1 ≡ log
  unfolding read_sync
  read_sync-offline t at s log offline = rw offline

  -- A cycle that ends with the connection given up, and with this history: the last operation was
  -- answered with a fail-fast status.
  abbrev pub GivesUp : Transport F → Interface W F → Interface W F → Log F → Type 0
  GivesUp t s s' log' =
      (before : Log F) × (o : Op F) × (log' ≡ before ++ (o ∷ []))
      × (is_fail_fast_transport_error (t.status before o) ≡ true)
      × (s'.transport_log_state.ok ≡ false)
      × (s'.outputs_enabled ≡ s.outputs_enabled)

  lost_connection :
      (t : Transport F) (at : Instants) (period : W) (s : Interface W F) (log : Log F)
      → s.connected ≡ true
      → let (s', log') = write_sync u t at period s log in
        s'.connected ≡ false → GivesUp t s s' log'
  unfolding write_sync report_offline count_write_cycle
  lost_connection t at period s log online = elim (Bool-cases (lifecycle_ok u s)) [
    | inr gated ↦ rw (online, gated) (λ off. absurd (ground (arith, online, off)))
    | inl enabled ↦
        let r = rounds t period s log in
        elim (Option-cases r.lost) [
          | inl none_lost ↦
              rw (online, enabled, none_lost) (λ off. absurd (ground (arith, online, off)))
          | inr ((status, context), lost) ↦
              let ((before, o, grown, answer), fast) = rw lost at (
                write_joints-FailsFast u s.safety_config t (limiting_period u period) s.joints
                  s.axis_faulted s.idle_requested_on_fault s.cycle_stats log) in
              rw (online, enabled, lost)
                (λ _. (
                  before,
                  o,
                  grown,
                  ap is_fail_fast_transport_error answer ∙ fast,
                  (update_transport_health_transitions u
                      s.runtime_config.transport_summary_period_sec false status context at.event
                      s.transport_log_state).1,
                  refl,
                ))
        ]
  ]

  -- If a cycle of `write` gives up a connected transport, its last operation was answered with a
  -- fail-fast status, and the transport is recorded as not ok. A `write` or a `read` from the state that is left sends
  -- nothing, whatever the transport would answer, and the outputs stay enabled or disabled as they
  -- were.
  pub write_sync-GivesUp :
      (t : Transport F) (at : Instants) (period : W) (s : Interface W F) (log : Log F)
      (t2 : Transport F) (at2 : Instants) (period2 : W) (log2 : Log F)
      → s.connected ≡ true
      → let (s', log') = write_sync u t at period s log in
        s'.connected ≡ false
        → GivesUp t s s' log'
          × ((write_sync u t2 at2 period2 s' log2).1 ≡ log2)
          × ((read_sync u t2 at2 s' log2).1 ≡ log2)
  write_sync-GivesUp t at period s log t2 at2 period2 log2 online off =
      let s' = (write_sync u t at period s log).0 in
      (
        lost_connection t at period s log online off,
        write_sync-offline t2 at2 period2 s' log2 off,
        read_sync-offline t2 at2 s' log2 off,
      )
