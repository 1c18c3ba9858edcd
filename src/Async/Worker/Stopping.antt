-- ===== src/Async/Worker/Stopping.antt =====
-- Stopping the worker, whatever happens meanwhile.
use odrive_ros2_control.Prelude.{
  ℕ, ◌+◌, ◌-◌, ◌≤◌, Bool, true, false, ◌≡◌, refl, ap, ◌∙◌, inl, inr, List, [], ◌∷◌, All, arith,
  Bool-cases,
}
use odrive_ros2_control.Fpu.{Fpu}
use odrive_ros2_control.Transport.{Log, Transport}
use odrive_ros2_control.Async.{CycleInstants}
use odrive_ros2_control.Async.Buffers.{publish_cycle}
use odrive_ros2_control.Async.Exchange.{write_async}
use odrive_ros2_control.Async.Worker.{
  Thread, System, Event, joinable, step, run, advance, take_command, request_stop, join,
  async_io_start,
}

-- The worker's steps until it looks at the stop flag, and takes it.
abbrev pub steps_left : {W F : Type 0} → Thread W F → ℕ
steps_left Thread.absent = 0
steps_left Thread.finished = 0
steps_left Thread.waiting = 1
steps_left (Thread.writing command work) = 2
steps_left (Thread.reading command work) = 3

module _ {W F : Type 0} (u : Fpu W F) where
  abbrev pub is_turn : Event u → ℕ
  is_turn (Event.working t at) = 1
  is_turn _ = 0

  -- How often the worker gets to run.
  abbrev pub turns : List (Event u) → ℕ
  turns [] = 0
  turns (e ∷ events) = is_turn e + turns events

  abbrev pub is_joining : Event u → Bool
  is_joining Event.joining = true
  is_joining _ = false

  -- An event that starts the worker, or that uses the transport without it.
  abbrev pub is_restart : Event u → Bool
  is_restart Event.starting = true
  is_restart (Event.activating t created init_status now later) = true
  is_restart (Event.deactivating t) = true
  is_restart (Event.switching t) = true
  is_restart _ = false

  abbrev pub NoneOf : (Event u → Bool) → List (Event u) → Type 0
  NoneOf p = All (λ e. p e ≡ false)

  -- A stop is requested, and the worker is `n` steps from its end.
  record IsStopping (n : ℕ) (s : System W F) : Type 0 where
    is_there : joinable s.thread ≡ true
    stop_set : s.io.stop ≡ true
    left : steps_left s.thread ≡ n

  advance-IsStopping :
      (t : Transport F) (at : CycleInstants) (h : Thread W F) (s : System W F) (n : ℕ)
      → s.thread ≡ h
      → IsStopping n s
      → IsStopping (n - 1) (advance u t at h s)
  unfolding advance take_command publish_cycle
  advance-IsStopping t at Thread.absent s n e h = absurd (ground (arith, h.is_there, ap joinable e))
  advance-IsStopping t at Thread.finished s n e h = record {
    is_there = h.is_there;
    stop_set = h.stop_set;
    left = omega (arith, h.left, ap steps_left e);
  }
  advance-IsStopping t at Thread.waiting s n e h =
      rw h.stop_set
        (record { is_there = refl; stop_set = refl; left = omega (arith, h.left, ap steps_left e) })
  advance-IsStopping t at (Thread.reading command work) s n e h = record {
    is_there = refl;
    stop_set = h.stop_set;
    left = omega (arith, h.left, ap steps_left e);
  }
  advance-IsStopping t at (Thread.writing command work) s n e h = record {
    is_there = refl;
    stop_set = h.stop_set;
    left = omega (arith, h.left, ap steps_left e);
  }

  -- The two flags decide it.
  same-IsStopping :
      (n : ℕ) (s s' : System W F)
      → IsStopping n s
      → s'.thread ≡ s.thread
      → s'.io.stop ≡ true
      → IsStopping (n - 0) s'
  same-IsStopping n s s' h e k = record {
    is_there = ap joinable e ∙ h.is_there;
    stop_set = k;
    left = omega (arith, h.left, ap steps_left e);
  }

  step-IsStopping :
      (e : Event u) (s : System W F) (n : ℕ)
      → is_joining e ≡ false
      → IsStopping n s
      → IsStopping (n - is_turn e) (step u e s)
  unfolding step write_async request_stop async_io_start
  step-IsStopping (Event.working t at) s n k h = advance-IsStopping t at s.thread s n refl h
  step-IsStopping (Event.reading now event diagnosis) s n k h =
      same-IsStopping n s _ h refl h.stop_set
  step-IsStopping (Event.writing period) s n k h = same-IsStopping n s _ h refl h.stop_set
  step-IsStopping (Event.commanding f) s n k h = same-IsStopping n s _ h refl h.stop_set
  step-IsStopping (Event.enabling b) s n k h = same-IsStopping n s _ h refl h.stop_set
  step-IsStopping Event.stopping s n k h = rw h.is_there (same-IsStopping n s _ h refl refl)
  step-IsStopping Event.joining s n k h = absurd (ground (arith, k))
  step-IsStopping Event.starting s n k h =
      elim (Bool-cases s.interface.runtime_config.enable_async_io) [
        | inl e ↦ rw (e, h.is_there) (same-IsStopping n s _ h refl h.stop_set)
        | inr e ↦ rw e (same-IsStopping n s _ h refl h.stop_set)
      ]
  step-IsStopping Event.cleaning s n k h = rw h.is_there (same-IsStopping n s _ h refl h.stop_set)
  step-IsStopping Event.recovering s n k h = rw h.is_there (same-IsStopping n s _ h refl h.stop_set)
  step-IsStopping (Event.activating t created init_status now later) s n k h =
      rw h.is_there (same-IsStopping n s _ h refl h.stop_set)
  step-IsStopping (Event.deactivating t) s n k h =
      rw h.is_there (same-IsStopping n s _ h refl h.stop_set)
  step-IsStopping (Event.switching t) s n k h =
      rw h.is_there (same-IsStopping n s _ h refl h.stop_set)

  run-IsStopping :
      (events : List (Event u)) (s : System W F) (n : ℕ)
      → NoneOf is_joining events
      → IsStopping n s
      → IsStopping (n - turns events) (run u events s)
  unfolding run
  run-IsStopping [] s n k h = same-IsStopping n s s h refl h.stop_set
  run-IsStopping (e ∷ events) s n k h =
      let h' =
        run-IsStopping events (step u e s) (n - is_turn e) k.1 (step-IsStopping e s n k.0 h) in
      record { is_there = h'.is_there; stop_set = h'.stop_set; left = omega (arith, h'.left) }

  finished_of : (h : Thread W F) → joinable h ≡ true → steps_left h ≡ 0 → h ≡ Thread.finished
  finished_of Thread.absent e k = absurd (ground (arith, e))
  finished_of Thread.finished e k = refl
  finished_of Thread.waiting e k = absurd (omega (arith, k))
  finished_of (Thread.reading command work) e k = absurd (omega (arith, k))
  finished_of (Thread.writing command work) e k = absurd (omega (arith, k))

  steps_left_le : (h : Thread W F) → steps_left h ≤ 3
  steps_left_le Thread.absent = omega arith
  steps_left_le Thread.finished = omega arith
  steps_left_le Thread.waiting = omega arith
  steps_left_le (Thread.reading command work) = omega arith
  steps_left_le (Thread.writing command work) = omega arith

  -- Without the worker, nothing is sent by the events that do not use the transport.
  abbrev IsAbsent : Log F → System W F → Type 0
  IsAbsent log s = (s.thread ≡ Thread.absent) × (s.log ≡ log)

  step-IsAbsent :
      (log : Log F) (e : Event u) (s : System W F)
      → is_restart e ≡ false
      → IsAbsent log s
      → IsAbsent log (step u e s)
  unfolding step advance request_stop join
  step-IsAbsent log (Event.working t at) s k h = rw h.0 (refl, h.1)
  step-IsAbsent log (Event.reading now event diagnosis) s k h = h
  step-IsAbsent log (Event.writing period) s k h = h
  step-IsAbsent log (Event.commanding f) s k h = h
  step-IsAbsent log (Event.enabling b) s k h = h
  step-IsAbsent log Event.stopping s k h = rw h.0 (refl, h.1)
  step-IsAbsent log Event.joining s k h = rw h.0 (refl, h.1)
  step-IsAbsent log Event.starting s k h = absurd (ground (arith, k))
  step-IsAbsent log Event.cleaning s k h = rw h.0 (refl, h.1)
  step-IsAbsent log Event.recovering s k h = rw h.0 (refl, h.1)
  step-IsAbsent log (Event.activating t created init_status now later) s k h =
      absurd (ground (arith, k))
  step-IsAbsent log (Event.deactivating t) s k h = absurd (ground (arith, k))
  step-IsAbsent log (Event.switching t) s k h = absurd (ground (arith, k))

  run-IsAbsent :
      (log : Log F) (events : List (Event u)) (s : System W F)
      → NoneOf is_restart events
      → IsAbsent log s
      → IsAbsent log (run u events s)
  unfolding run
  run-IsAbsent log [] s k h = h
  run-IsAbsent log (e ∷ events) s k h =
      run-IsAbsent log events (step u e s) k.1 (step-IsAbsent log e s k.0 h)

  request_stop-IsStopping :
      (s : System W F)
      → joinable s.thread ≡ true
      → IsStopping (steps_left s.thread) (request_stop u s)
  unfolding request_stop
  request_stop-IsStopping s h =
      rw (request_stop, h) (record { is_there = h; stop_set = refl; left = refl })

  -- The join of a finished worker.
  join-finished :
      (s : System W F)
      → s.thread ≡ Thread.finished
      → let s' = join u s in
        IsAbsent s.log s'
        × (s'.io.stop ≡ false)
        × (s'.io.request_pending ≡ false)
        × (s'.io.in_flight ≡ false)
  unfolding join
  join-finished s e = rw e ((refl, refl), refl, refl, refl)

  -- `async_io_stop_and_join` of a running worker ends: once the stop is requested, the worker is
  -- finished as soon as it has run three times, whatever else happens before the join, wherever it
  -- was and whatever the transport answers. After the join there is no worker, no stop or request is
  -- left over and no cycle is in flight. The worker stays away, and nothing is sent, through any
  -- `read`, `write`, command, `on_cleanup` or `recover`, until the worker is started again or another
  -- method uses the transport itself: a mode switch, `on_activate`, or `on_deactivate`, which joins
  -- the worker and then requests idle.
  pub async_io_stop_and_join_ends :
      (s : System W F) (before after : List (Event u))
      → joinable s.thread ≡ true
      → NoneOf is_joining before
      → 3 ≤ turns before
      → NoneOf is_restart after
      → let s1 = run u before (step u Event.stopping s) in
        let s2 = step u Event.joining s1 in
        let s3 = run u after s2 in
        (s1.thread ≡ Thread.finished)
        × (s2.io.stop ≡ false)
        × (s2.io.request_pending ≡ false)
        × (s2.io.in_flight ≡ false)
        × (s3.thread ≡ Thread.absent)
        × (s3.log ≡ s1.log)
  unfolding step
  async_io_stop_and_join_ends s before after h kb kt ka =
      let stopped =
        run-IsStopping before (request_stop u s) (steps_left s.thread) kb
          (request_stop-IsStopping s h) in
      let s1 = run u before (request_stop u s) in
      let ended : s1.thread ≡ Thread.finished =
        finished_of s1.thread stopped.is_there
          (omega (arith, stopped.left, kt, steps_left_le s.thread)) in
      let (gone, stop, pending, in_flight) = join-finished s1 ended in
      let (no_worker, log_kept) = run-IsAbsent s1.log after (join u s1) ka gone in
      (ended, stop, pending, in_flight, no_worker, log_kept)
