-- ===== src/AxisControl/Feeding.antt =====
-- Which operations a mode switch and a command send, and when the watchdog is fed.
use odrive_ros2_control.Prelude.{
  ℕ, suc, ◌+◌, Bool, true, false, String, [], ◌∷◌, ◌++◌, ◌≡◌, refl, ◌∙◌, ◌⊎◌, inl, inr, arith,
  append_assoc, Bool-cases,
}
use odrive_ros2_control.Prelude.Int.{ℤ, pos, eq_ℤ, eq_ℤ_iff}
use odrive_ros2_control.Fpu.{Fpu}
use odrive_ros2_control.Endpoints.{axis_endpoint, axis__watchdog_feed}
use odrive_ros2_control.Transport.{Payload, Log, Transport, read, write, call}
use odrive_ros2_control.AxisControl.{
  AxisControlLevel, AxisCommandState, is_undefined, write_axis_command,
}
use odrive_ros2_control.AxisControl.Script.{
  Script, ops, run_script, Accepted, Ran, run_script-Ran, command_script,
  write_axis_command-eq-run_script,
}

-- The calls in a history. In a command only the feed of the watchdog is one.
abbrev pub calls : {F : Type 0} → Log F → ℕ
calls [] = 0
calls (read s e ∷ l) = calls l
calls (write s e p ∷ l) = calls l
calls (call s e ∷ l) = suc (calls l)

pub calls-append : {F : Type 0} (k l : Log F) → calls (k ++ l) ≡ calls k + calls l
calls-append [] l = omega arith
calls-append (read s e ∷ k) l = calls-append k l
calls-append (write s e p ∷ k) l = calls-append k l
calls-append (call s e ∷ k) l = omega (arith, calls-append k l)

abbrev Writes : {F : Type 0} → Script F → Type 0
Writes [] = Unit
Writes ((stage, read s e) ∷ r) = ⊥
Writes ((stage, write s e p) ∷ r) = Writes r
Writes ((stage, call s e) ∷ r) = ⊥

module _ {F : Type 0} (t : Transport F) (stage : String) (serial endpoint : ℤ) where
  -- A script of writes with one call at its end makes the call last, or not at all.
  abbrev CallsLast : Script F → Log F → Log F → Type 0
  CallsLast s log log' =
      (calls log' ≡ calls log)
      ⊎ (Accepted t log (ops s) × (log' ≡ log ++ (ops s ++ (call serial endpoint ∷ []))))

  CallsLast-cons :
      (st : String) (s e : ℤ) (p : Payload F) (r : Script F) (log log' : Log F)
      → t.status log (write s e p) ≡ pos 0
      → CallsLast r (log ++ (write s e p ∷ [])) log'
      → CallsLast ((st, write s e p) ∷ r) log log'
  CallsLast-cons st s e p r log log' ok (inl same) =
      inl (same ∙ calls-append log (write s e p ∷ []) ∙ omega arith)
  CallsLast-cons st s e p r log log' ok (inr (a, grown)) =
      inr ((ok, a), grown ∙ append_assoc log (write s e p ∷ []) _)

  run_script-CallsLast :
      (s : Script F) (log : Log F)
      → Writes s
      → CallsLast s log (run_script t (s ++ ((stage, call serial endpoint) ∷ [])) log).1
  unfolding run_script
  run_script-CallsLast [] log w = inr (tt, ground arith)
  run_script-CallsLast ((st, read s e) ∷ r) log w = absurd w
  run_script-CallsLast ((st, write s e p) ∷ r) log w =
      elim (Bool-cases (eq_ℤ (t.status log (write s e p)) (pos 0))) [
        | inl accepted ↦ rw accepted (
            CallsLast-cons st s e p r log _ ((eq_ℤ_iff _ _).0 accepted)
              (run_script-CallsLast r (log ++ (write s e p ∷ [])) w))
        | inr failed ↦ rw failed (inl (calls-append log (write s e p ∷ []) ∙ omega arith))
      ]
  run_script-CallsLast ((st, call s e) ∷ r) log w = absurd w

-- The disjunction of `CallsLast` with the two conditions that hold by the case.
fed :
    {P Q R : Type 0}
    → P ⊎ (Q × R)
    → P ⊎ ((◌≡◌ {A = Bool} true true) × (◌≡◌ {A = Bool} false false) × Q × R)
fed (inl p) = inl p
fed (inr (q, r)) = inr (refl, refl, q, r)

module _ {F : Type 0} (t : Transport F) where
  run_script-Writes :
      (s : Script F) (log : Log F) → Writes s → calls (run_script t s log).1 ≡ calls log
  unfolding run_script
  run_script-Writes [] log w = refl
  run_script-Writes ((st, read s e) ∷ r) log w = absurd w
  run_script-Writes ((st, write s e p) ∷ r) log w = ground (
    arith,
    calls-append log (write s e p ∷ []),
    run_script-Writes r (log ++ (write s e p ∷ [])) w,
  )
  run_script-Writes ((st, call s e) ∷ r) log w = absurd w

module _ {W F : Type 0} (u : Fpu W F) (t : Transport F) (serial axis : ℤ) where
  -- A command sends the setpoints of its mode, and then the watchdog's feed if that is enabled, in
  -- the order of `command_script`: it returns 0 with no failing stage if all are accepted, and else
  -- stops at the first operation that fails, and returns the status and the stage of that one.
  pub write_axis_command-Ran :
      (level : AxisControlLevel) (c : AxisCommandState W) (w : Bool) (log : Log F)
      → let (o, log') = write_axis_command u t serial axis level c w log in
        Ran t (command_script u serial axis level c w) log o log'
  write_axis_command-Ran level c w log =
      rw write_axis_command-eq-run_script (run_script-Ran t _ log)

  -- The watchdog is fed at most once in a command, by its last operation, and only if it is enabled,
  -- the mode is not UNDEFINED and the drive has accepted every setpoint.
  pub write_axis_command_feeds_last :
      (level : AxisControlLevel) (c : AxisCommandState W) (w : Bool) (log : Log F)
      → let log' = (write_axis_command u t serial axis level c w log).1 in
        let setpoints = ops (command_script u serial axis level c false) in
        (calls log' ≡ calls log)
        ⊎ ((w ≡ true)
            × (is_undefined level ≡ false)
            × Accepted t log setpoints
            × (log'
                ≡ log
                  ++ (setpoints ++ (call serial (axis_endpoint axis__watchdog_feed axis) ∷ []))))
  write_axis_command_feeds_last AxisControlLevel.undefined c w log =
      rw write_axis_command-eq-run_script (inl (run_script-Writes t _ log tt))
  write_axis_command_feeds_last AxisControlLevel.effort c false log =
      rw write_axis_command-eq-run_script (inl (run_script-Writes t _ log tt))
  write_axis_command_feeds_last AxisControlLevel.velocity c false log =
      rw write_axis_command-eq-run_script (inl (run_script-Writes t _ log tt))
  write_axis_command_feeds_last AxisControlLevel.position c false log =
      rw write_axis_command-eq-run_script (inl (run_script-Writes t _ log tt))
  write_axis_command_feeds_last AxisControlLevel.effort c true log =
      rw write_axis_command-eq-run_script (
        fed (
          run_script-CallsLast t "feeding watchdog" serial (axis_endpoint axis__watchdog_feed axis)
            (command_script u serial axis AxisControlLevel.effort c false) log tt))
  write_axis_command_feeds_last AxisControlLevel.velocity c true log =
      rw write_axis_command-eq-run_script (
        fed (
          run_script-CallsLast t "feeding watchdog" serial (axis_endpoint axis__watchdog_feed axis)
            (command_script u serial axis AxisControlLevel.velocity c false) log tt))
  write_axis_command_feeds_last AxisControlLevel.position c true log =
      rw write_axis_command-eq-run_script (
        fed (
          run_script-CallsLast t "feeding watchdog" serial (axis_endpoint axis__watchdog_feed axis)
            (command_script u serial axis AxisControlLevel.position c false) log tt))
