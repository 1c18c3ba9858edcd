-- ===== src/Interface/Lifecycle/States.antt =====
-- What activation and deactivation leave: the outputs and the connection.
use odrive_ros2_control.Prelude.{
  ℕ, Bool, true, false, not, ◌||◌, ◌≡◌, refl, ◌⊎◌, inl, inr, none, some, List, [], ◌∷◌, ◌++◌, ap,
  length, ◌==◌, Bool-cases, Option-cases, if◌then◌else◌, ◌∙◌, sym,
}
use odrive_ros2_control.Prelude.Int.{ℤ, pos, eq_ℤ}
use odrive_ros2_control.Fpu.{Fpu}
use odrive_ros2_control.Endpoints.{axis_endpoint, axis__clear_errors}
use odrive_ros2_control.Transport.{Log, Transport, call, perform}
use odrive_ros2_control.AxisControl.{Outcome}
use odrive_ros2_control.AxisControl.Script.{Script, run_script, Ran, run_script-Ran}
use odrive_ros2_control.Interface.{JointContext, Interface, Instants}
use odrive_ros2_control.Interface.Write.{write_sync, lifecycle_ok}
use odrive_ros2_control.Interface.Write.Masking.{idle_request}
use odrive_ros2_control.Interface.Lifecycle.{
  initialize_joints, initialize_transport, on_activate, clear_errors, request_idle, on_deactivate,
  set_health,
}

module _ {W F : Type 0} (u : Fpu W F) where
  write_sync-gated :
      (t : Transport F) (at : Instants) (period : W) (s : Interface W F) (log : Log F)
      → s.safety_config.gate_outputs_with_lifecycle ≡ true
      → s.outputs_enabled ≡ false
      → (write_sync u t at period s log).1 ≡ log
  unfolding write_sync lifecycle_ok
  write_sync-gated t at period s log gate disabled = elim (Bool-cases s.connected) [
    | inl e ↦ rw (e, gate, disabled) refl
    | inr e ↦ rw e refl
  ]

  module _ (t : Transport F) where
    -- A request for idle for each joint, in order.
    abbrev pub idle_script : List (JointContext W F) → Script F
    idle_script [] = []
    idle_script (j ∷ joints) =
        ("requesting axis idle", idle_request j.serial_number j.axis) ∷ idle_script joints

    request_idle-run_script :
        (joints : List (JointContext W F)) (log : Log F)
        → let (failure, log') = request_idle u t joints log in
          let (o, log'') = run_script t (idle_script joints) log in
          (log' ≡ log'') × (failure ≡ (if eq_ℤ o.status (pos 0) then none else some o.status))
    unfolding request_idle run_script perform
    request_idle-run_script [] log = (refl, refl)
    request_idle-run_script (j ∷ joints) log =
        let o = idle_request j.serial_number j.axis in
        elim (Bool-cases (eq_ℤ (t.status log o) (pos 0))) [
          | inl e ↦ rw e (request_idle-run_script joints (log ++ (o ∷ [])))
          | inr e ↦ rw (e, e) (refl, refl)
        ]

    on_deactivate-outputs :
        (s : Interface W F) (log : Log F)
        → s.safety_config.gate_outputs_with_lifecycle ≡ true
        → let s' = (on_deactivate u t s log).0 in
          (s'.outputs_enabled ≡ false) × (s'.safety_config.gate_outputs_with_lifecycle ≡ true)
    unfolding on_deactivate
    on_deactivate-outputs s log gate = elim (Bool-cases s.connected) [
      | inr e ↦ rw (e, gate) (refl, refl)
      | inl e ↦ elim (Option-cases (request_idle u t s.joints log).0) [
        | inl f ↦ rw (e, f, gate) (refl, refl)
        | inr (status, f) ↦ rw (e, f, gate) (refl, refl)
      ]
    ]

    on_deactivate-Ran :
        (s : Interface W F) (log : Log F)
        → s.connected ≡ true
        → let (s', log') = on_deactivate u t s log in
          let o = (run_script t (idle_script s.joints) log).0 in
          Ran t (idle_script s.joints) log o log' × (s'.connected ≡ eq_ℤ o.status (pos 0))
    unfolding on_deactivate
    on_deactivate-Ran s log online =
        let (o, log'') = run_script t (idle_script s.joints) log in
        let ran = run_script-Ran t (idle_script s.joints) log in
        let (same, failed) = request_idle-run_script s.joints log in
        elim (Bool-cases (eq_ℤ o.status (pos 0))) [
          | inl e ↦ rw (online, failed, e, same) (ran, online)
          | inr e ↦ rw (online, failed, e, same) (ran, refl)
        ]

    -- Deactivation of a connected interface, with outputs gated by the lifecycle, disables the outputs,
    -- and a `write` from the state that it leaves sends nothing, whatever the transport answers. Idle
    -- is requested of every joint in order, up to the first request that fails, and the transport is
    -- given up exactly if one fails.
    pub on_deactivate_stops :
        (s : Interface W F) (log : Log F) (t2 : Transport F) (at : Instants) (period : W)
        (log2 : Log F)
        → s.safety_config.gate_outputs_with_lifecycle ≡ true
        → s.connected ≡ true
        → let (s', log') = on_deactivate u t s log in
          (s'.outputs_enabled ≡ false)
          × ((write_sync u t2 at period s' log2).1 ≡ log2)
          × (o : Outcome) × Ran t (idle_script s.joints) log o log'
          × (s'.connected ≡ eq_ℤ o.status (pos 0))
    on_deactivate_stops s log t2 at period log2 gate online =
        let (disabled, still_gated) = on_deactivate-outputs s log gate in
        let (ran, connection) = on_deactivate-Ran s log online in
        (
          disabled,
          write_sync-gated t2 at period (on_deactivate u t s log).0 log2 still_gated disabled,
          (run_script t (idle_script s.joints) log).0,
          ran,
          connection,
        )

    -- Whether a transport was set up, and what then is connected.
    initialize_transport-connected :
        (created : Bool) (init_status : ℤ) (now later : ℕ) (s : Interface W F) (log : Log F)
        → s.connected ≡ false
        → let (started, s', _) = initialize_transport u t created init_status now later s log in
          s'.connected ≡ started
    unfolding initialize_transport set_health
    initialize_transport-connected created init_status now later s log off =
        let wrong =
          not (length s.hardware_config.joints == length s.joints)
          || not (length s.hardware_config.sensors == length s.sensors) in
        let (fault, _, _, _) =
          initialize_joints u t s.runtime_config s.joints s.hardware_config.joints s.cycle_stats
            log in
        elim (Bool-cases wrong) [
          | inl e ↦ rw e off
          | inr e ↦ elim (Bool-cases created) [
            | inr none_created ↦ rw (e, none_created) refl
            | inl made ↦ elim (Bool-cases (eq_ℤ init_status (pos 0))) [
              | inr bad ↦ rw (e, made, bad) refl
              | inl good ↦ elim (Option-cases fault) [
                | inl fine ↦ rw (e, made, good, fine) refl
                | inr (x, faulty) ↦ rw (e, made, good, faulty) refl
              ]
            ]
          ]
        ]

    -- The errors of each joint cleared, in order.
    abbrev pub clear_script : List (JointContext W F) → Script F
    clear_script [] = []
    clear_script (j ∷ joints) =
        ("clearing errors", call j.serial_number (axis_endpoint axis__clear_errors j.axis))
        ∷ clear_script joints

    clear_errors-run_script :
        (joints : List (JointContext W F)) (log : Log F)
        → let (status, log') = clear_errors u t joints log in
          let (o, log'') = run_script t (clear_script joints) log in
          (log' ≡ log'') × (status ≡ o.status)
    unfolding clear_errors run_script perform
    clear_errors-run_script [] log = (refl, refl)
    clear_errors-run_script (j ∷ joints) log =
        let o = call j.serial_number (axis_endpoint axis__clear_errors j.axis) in
        elim (Bool-cases (eq_ℤ (t.status log o) (pos 0))) [
          | inl e ↦ rw e (clear_errors-run_script joints (log ++ (o ∷ [])))
          | inr e ↦ rw e (refl, refl)
        ]

    -- The errors of the joints are cleared from this history on, which decides what is returned.
    abbrev pub ClearsErrors : List (JointContext W F) → Log F → Bool → Log F → Type 0
    ClearsErrors joints log ok log' =
        (o : Outcome) × Ran t (clear_script joints) log o log' × (ok ≡ eq_ℤ o.status (pos 0))

    clear_errors-ClearsErrors :
        (joints : List (JointContext W F)) (log : Log F)
        → let (status, log') = clear_errors u t joints log in
          ClearsErrors joints log (eq_ℤ status (pos 0)) log'
    clear_errors-ClearsErrors joints log =
        let (same, status) = clear_errors-run_script joints log in
        (
          (run_script t (clear_script joints) log).0,
          rw same (run_script-Ran t (clear_script joints) log),
          ap (λ (n : ℤ). eq_ℤ n (pos 0)) status,
        )

    -- What activation makes of an initialisation that leaves this history.
    abbrev pub Activated : Log F → Bool × Interface W F × Log F → Type 0
    Activated log1 (ok, s', log') =
        ((s'.connected ≡ false) × (ok ≡ true) × (log' ≡ log1))
        ⊎ ((s'.connected ≡ true) × ClearsErrors s'.joints log1 ok log')

    if_true : (b x y : Bool) → b ≡ true → (if b then x else y) ≡ x
    if_true b x y e = rw e refl

    on_activate-Activated :
        (created : Bool) (init_status : ℤ) (now later : ℕ) (s : Interface W F) (log : Log F)
        → s.connected ≡ false
        → let (started, s1, log1) = initialize_transport u t created init_status now later s log in
          let r = on_activate u t created init_status now later s log in
          (r.1.outputs_enabled
            ≡ (if s.safety_config.gate_outputs_with_lifecycle then started else s1.outputs_enabled))
          × (r.1.connected ≡ s1.connected)
          × Activated log1 r
    unfolding on_activate
    on_activate-Activated created init_status now later s log off =
        let r = initialize_transport u t created init_status now later s log in
        let connected = initialize_transport-connected created init_status now later s log off in
        elim (Bool-cases r.0) [
          | inl started ↦
              rw started
                (refl, refl, inr (connected ∙ started, clear_errors-ClearsErrors r.1.joints r.2))
          | inr failed ↦ rw failed (refl, refl, inl (connected ∙ failed, refl, refl))
        ]

    -- From a disconnected interface with outputs gated by the lifecycle, activation enables the
    -- outputs exactly if it leaves the transport connected. If it does not, SUCCESS is returned, and
    -- nothing is sent after the initialisation. If it does, the errors of the joints are cleared
    -- after the initialisation, in order and up to the first failure, and ERROR is returned exactly
    -- if there is one: then the transport stays connected and the outputs stay enabled.
    pub on_activate_outputs :
        (created : Bool) (init_status : ℤ) (now later : ℕ) (s : Interface W F) (log : Log F)
        → s.connected ≡ false
        → s.safety_config.gate_outputs_with_lifecycle ≡ true
        → let r = on_activate u t created init_status now later s log in
          (r.1.outputs_enabled ≡ r.1.connected)
          × Activated (initialize_transport u t created init_status now later s log).2 r
    on_activate_outputs created init_status now later s log off gate =
        let connected = initialize_transport-connected created init_status now later s log off in
        let (outputs, kept, activated) =
          on_activate-Activated created init_status now later s log off in
        (outputs ∙ if_true _ _ _ gate ∙ sym (kept ∙ connected), activated)
