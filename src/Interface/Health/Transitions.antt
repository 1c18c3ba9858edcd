-- ===== src/Interface/Health/Transitions.antt =====
-- When the log is told that the transport went offline or came back.
use odrive_ros2_control.Prelude.{
  ℕ, Bool, true, false, ◌≡◌, ◌↔◌, ◌⊎◌, String, some, arith, not, ◌&&◌, ◌||◌, if◌then◌else◌,
}
use odrive_ros2_control.Prelude.Int.{ℤ}
use odrive_ros2_control.Fpu.{Fpu}
use odrive_ros2_control.Interface.{TransportLogState}
use odrive_ros2_control.Interface.Health.{HealthEvent, update_transport_health}

module _ {W F : Type 0} (u : Fpu W F) (period : W) where
  -- An update records the state that it is told. It reports the transport as offline exactly when it
  -- is now not ok and was ok or unknown before, and as recovered exactly when it is ok and was known
  -- not to be. The time of the last transition becomes the time of the update unless the same state
  -- was known before, and the time since which the transport is offline becomes the time of the
  -- update exactly if the update says not ok and the transport was not known to be offline.
  pub update_transport_health_transitions :
      (good : Bool) (code : ℤ) (context : String) (now : ℕ) (s : TransportLogState)
      → let (event, s') = update_transport_health u period good code context now s in
        (s'.known ≡ true)
        × (s'.ok ≡ good)
        × ((event ≡ some HealthEvent.offline)
            ↔ ((good ≡ false) × ((s.known ≡ false) ⊎ (s.ok ≡ true))))
        × ((event ≡ some HealthEvent.recovered)
            ↔ ((good ≡ true) × (s.known ≡ true) × (s.ok ≡ false)))
        × (s'.last_transition
            ≡ (if s.known && (if good then s.ok else not s.ok) then s.last_transition else now))
        × (s'.offline_since ≡ (if good || s.known && not s.ok then s.offline_since else now))
  unfolding update_transport_health
  update_transport_health_transitions good code context now s = ground arith
