-- ===== src/Async/Writing/Loop.antt =====
-- The loops of the two write phases, side by side.
use odrive_ros2_control.Prelude.{
  Bool, String, ◌≡◌, refl, sym, ap, ◌∙◌, Option, none, some, List, [], ◌∷◌, map, head?, tail, cons?,
  All, arith,
}
use odrive_ros2_control.Prelude.Int.{ℤ}
use odrive_ros2_control.Fpu.{Fpu}
use odrive_ros2_control.Transport.{Log, Transport}
use odrive_ros2_control.Interface.{SafetyConfig, JointContext, CycleStats}
use odrive_ros2_control.Interface.Write.{Round, Rounds, write_joint, write_joints}
use odrive_ros2_control.Async.{JointCommand, Slot}
use odrive_ros2_control.Async.Writing.{SlotRound, SlotRounds, write_slot, write_slots}
use odrive_ros2_control.Async.Drafting.{command_at}
use odrive_ros2_control.Async.Writing.Effect.{
  joint_of, IsCleared, status_of, sync_effect, slot_effect,
}
use odrive_ros2_control.Async.Writing.Agreement.{write_slot-write_joint}

abbrev pub faulted_of : {W F : Type 0} → Slot W F → Bool
faulted_of x = x.memory.axis_faulted

abbrev pub idle_of : {W F : Type 0} → Slot W F → Bool
idle_of x = x.memory.idle_requested_on_fault

module _ {W F : Type 0} (u : Fpu W F) where
  -- The joints that the slots and their commands correspond to.
  abbrev pub joints_of : List (JointCommand W) → List (Slot W F) → List (JointContext W F)
  joints_of commands [] = []
  joints_of commands (x ∷ slots) =
      joint_of u (command_at u (head? commands)) x ∷ joints_of (tail commands) slots

  -- What a loop does, seen from outside.
  pub record LoopEffect : Type 0 where
    pub faulted : List Bool
    pub idle_requested : List Bool
    pub stats : CycleStats W
    pub lost : Option ℤ
    pub log : Log F

  abbrev pub slots_effect : SlotRounds W F → LoopEffect
  slots_effect r = record {
    faulted = map faulted_of r.slots;
    idle_requested = map idle_of r.slots;
    stats = r.stats;
    lost = status_of u r.lost;
    log = r.log;
  }

  abbrev pub joints_effect : Rounds W F → LoopEffect
  joints_effect r = record {
    faulted = r.faulted;
    idle_requested = r.idle_requested;
    stats = r.stats;
    lost = status_of u r.lost;
    log = r.log;
  }

  -- The end of a round of each loop.
  abbrev slot_next :
      SlotRound W F → Option (ℤ × String) → List (Slot W F) → SlotRounds W F → SlotRounds W F
  slot_next round lost slots rest = elim lost [
    | none ↦ record {
      slots = round.slot ∷ rest.slots;
      stats = rest.stats;
      lost = rest.lost;
      log = rest.log;
    }
    | some failure ↦ record {
      slots = round.slot ∷ slots;
      stats = round.stats;
      lost = some failure;
      log = round.log;
    }
  ]

  abbrev joint_next :
      Round W F
      → Option (ℤ × String)
      → List (JointContext W F)
      → (faulted idle : List Bool) → Rounds W F
      → Rounds W F
  joint_next round lost joints faulted idle rest = elim lost [
    | none ↦ record {
      joints = round.joint ∷ rest.joints;
      faulted = cons? round.faulted rest.faulted;
      idle_requested = cons? round.idle_requested rest.idle_requested;
      stats = rest.stats;
      lost = rest.lost;
      log = rest.log;
    }
    | some failure ↦ record {
      joints = round.joint ∷ joints;
      faulted = cons? round.faulted faulted;
      idle_requested = cons? round.idle_requested idle;
      stats = round.stats;
      lost = some failure;
      log = round.log;
    }
  ]

  next_agrees :
      (a : SlotRound W F) (r : Round W F) (la lr : Option (ℤ × String)) (slots : List (Slot W F))
      (joints : List (JointContext W F)) (rest : SlotRounds W F) (rest' : Rounds W F)
      → slot_effect u a ≡ sync_effect u r
      → status_of u la ≡ status_of u lr
      → slots_effect rest ≡ joints_effect rest'
      → slots_effect (slot_next a la slots rest)
        ≡ joints_effect (joint_next r lr joints (map faulted_of slots) (map idle_of slots) rest')
  next_agrees a r none none slots joints rest rest' round lost e =
      rw (sym (ap (λ x. x.faulted) round), sym (ap (λ x. x.idle_requested) round))
        (ap
          (λ (x : LoopEffect). record x {
            faulted = faulted_of a.slot ∷ x.faulted;
            idle_requested = idle_of a.slot ∷ x.idle_requested;
          })
          e)
  next_agrees a r none (some y) slots joints rest rest' round lost e = absurd (ground (arith, lost))
  next_agrees a r (some x) none slots joints rest rest' round lost e = absurd (ground (arith, lost))
  next_agrees a r (some x) (some y) slots joints rest rest' round lost e =
      rw
        (
          sym (ap (λ x. x.faulted) round),
          sym (ap (λ x. x.idle_requested) round),
          ap (λ x. x.stats) round,
          ap (λ x. x.log) round,
          lost,
        )
        refl

  module _ (c : SafetyConfig) (t : Transport F) where
    -- On slots whose rate-limiter flags are clear, the worker's loop sends what the loop of the
    -- synchronous `write` sends to the joints that the slots and their commands correspond to, with
    -- the same answers: the two end with the same history, the same fault flags and statistics, and
    -- the same status, if any, that ended the cycle.
    pub write_slots-write_joints :
        (dt : W) (commands : List (JointCommand W)) (slots : List (Slot W F)) (stats : CycleStats W)
        (log : Log F)
        → All (IsCleared u) slots
        → slots_effect (write_slots u c t dt commands slots stats log)
          ≡ joints_effect (
              write_joints u c t dt
                (joints_of commands slots)
                (map faulted_of slots)
                (map idle_of slots)
                stats
                log)
    unfolding write_slots write_joints
    write_slots-write_joints dt commands [] stats log clear = refl
    write_slots-write_joints dt commands (x ∷ slots) stats log clear =
        let k = command_at u (head? commands) in
        let a = write_slot u c t dt k x stats log in
        let r =
          write_joint u c t dt (joint_of u k x) (some (faulted_of x)) (some (idle_of x)) stats
            log in
        let round = write_slot-write_joint u c t dt k x stats log clear.0 in
        let rest = write_slots-write_joints dt (tail commands) slots a.stats a.log clear.1 in
        let joints = joints_of (tail commands) slots in
        next_agrees a r a.lost r.lost slots joints
          (write_slots u c t dt (tail commands) slots a.stats a.log)
          (write_joints u c t dt joints (map faulted_of slots) (map idle_of slots) r.stats r.log)
          round (ap (λ x. x.lost) round)
          (rest
            ∙ ap
                (λ e. joints_effect (
                  write_joints u c t dt joints (map faulted_of slots) (map idle_of slots) e.stats
                    e.log))
                round)
