-- ===== src/Async/Worker/Phases.antt =====
-- What holds of the worker and its buffers at any time.
use odrive_ros2_control.Prelude.{
  ℕ, Bool, true, false, not, ◌&&◌, ◌≡◌, refl, sym, ap, ◌∙◌, List, [], ◌∷◌, length, arith,
  if◌then◌else◌,
}
use mathlib.Core.Path.{subst}
use odrive_ros2_control.Prelude.Int.{ℤ}
use odrive_ros2_control.Fpu.{Fpu}
use odrive_ros2_control.Transport.{Transport}
use odrive_ros2_control.Interface.Lifecycle.{initialize_transport, on_activate}
use odrive_ros2_control.Interface.Session.Lengths.{length-map}
use odrive_ros2_control.Async.{AsyncCommandSnapshot, AsyncIo, Work, CycleInstants}
use odrive_ros2_control.Async.Buffers.{async_io_init_buffers, begin_cycle, publish_cycle}
use odrive_ros2_control.Async.Exchange.{write_async}
use odrive_ros2_control.Async.Worker.{
  Thread, System, Event, joinable, is_finished, step, run, advance, take_command, request_stop,
  join, async_io_start, activate,
}
use odrive_ros2_control.Async.Worker.Lengths.{
  length-read_phase, length-write_phase, length-begin_cycle,
}

module _ {W F : Type 0} (u : Fpu W F) where
  -- Where the worker is, the flag for a cycle in flight says so.
  pub data IsPhased (io : AsyncIo W F) : Thread W F → Type 0 where
    absent_phase : io.in_flight ≡ false → IsPhased io Thread.absent
    waiting_phase : io.in_flight ≡ false → IsPhased io Thread.waiting
    finished_phase : io.in_flight ≡ false → io.stop ≡ true → IsPhased io Thread.finished
    reading_phase :
        (command : AsyncCommandSnapshot W) (w : Work W F)
        → io.in_flight ≡ true
        → w.ended ≡ false
        → length w.slots ≡ length io.joint_static
        → IsPhased io (Thread.reading command w)
    writing_phase :
        (command : AsyncCommandSnapshot W) (w : Work W F)
        → io.in_flight ≡ true
        → length w.slots ≡ length io.joint_static
        → IsPhased io (Thread.writing command w)

  -- The worker's vectors have an element for each joint that it knows, and the flag is right.
  pub record IsSound (s : System W F) : Type 0 where
    pub memories : length s.io.memory ≡ length s.io.joint_static
    pub telemetries : length s.io.latest_telemetry.joints ≡ length s.io.joint_static
    pub phased : IsPhased s.io s.thread

  either :
      (b : Bool) (x y : System W F)
      → (b ≡ true → IsSound x)
      → (b ≡ false → IsSound y)
      → IsSound (if b then x else y)
  either true x y hx hy = hx refl
  either false x y hx hy = hy refl

  take_command-IsSound :
      (at : CycleInstants) (s : System W F) → IsSound s → IsSound (take_command u at s)
  unfolding take_command begin_cycle
  take_command-IsSound at s h =
      either s.io.stop _ _
        (λ stop. record {
          memories = h.memories;
          telemetries = h.telemetries;
          phased = finished_phase refl stop;
        })
        (λ go_on.
          either s.io.request_pending _ _
            (λ pending. record {
              memories = h.memories;
              telemetries = h.telemetries;
              phased = reading_phase _ _ refl refl (
                  length-begin_cycle u s.interface.connected at.start s.io h.memories
                    h.telemetries);
            })
            (λ idle. h))

  advance-IsSound :
      (t : Transport F) (at : CycleInstants) (thread : Thread W F) (s : System W F)
      → IsSound s
      → s.thread ≡ thread
      → IsPhased s.io thread
      → IsSound (advance u t at thread s)
  unfolding advance publish_cycle
  advance-IsSound t at Thread.absent s h e p = h
  advance-IsSound t at Thread.finished s h e p = h
  advance-IsSound t at Thread.waiting s h e p = take_command-IsSound at s h
  advance-IsSound t at (Thread.reading command work) s h e (reading_phase _ _ f ended l) = record {
    memories = h.memories;
    telemetries = h.telemetries;
    phased = writing_phase _ _ f (length-read_phase u t at s.interface work s.log ∙ l);
  }
  advance-IsSound t at (Thread.writing command work) s h e (writing_phase _ _ f l) =
      let kept = length-write_phase u t at command s.interface work s.log ∙ l in
      record {
        memories = length-map _ _ ∙ kept;
        telemetries = length-map _ _ ∙ kept;
        phased = waiting_phase refl;
      }

  -- Flags other than these two do not matter, and a stop may be requested at any time.
  keep_phase :
      (io io' : AsyncIo W F) (thread : Thread W F)
      → io'.in_flight ≡ io.in_flight
      → (io.stop ≡ true → io'.stop ≡ true)
      → io'.joint_static ≡ io.joint_static
      → IsPhased io thread
      → IsPhased io' thread
  keep_phase io io' thread f stop n (absent_phase h) = absent_phase (f ∙ h)
  keep_phase io io' thread f stop n (waiting_phase h) = waiting_phase (f ∙ h)
  keep_phase io io' thread f stop n (finished_phase h k) = finished_phase (f ∙ h) (stop k)
  keep_phase io io' thread f stop n (reading_phase c w h k l) =
      reading_phase c w (f ∙ h) k (l ∙ ap length (sym n))
  keep_phase io io' thread f stop n (writing_phase c w h l) =
      writing_phase c w (f ∙ h) (l ∙ ap length (sym n))

  async_io_start-IsSound : (s : System W F) → IsSound s → IsSound (async_io_start u s)
  unfolding async_io_start
  async_io_start-IsSound s h =
      either (not s.interface.runtime_config.enable_async_io) _ _ (λ e. h)
        (λ e.
          either (joinable s.thread) _ _ (λ k. h)
            (λ k. record {
              memories = h.memories;
              telemetries = h.telemetries;
              phased = waiting_phase refl;
            }))

  absent_of : (thread : Thread W F) → joinable thread ≡ false → thread ≡ Thread.absent
  absent_of Thread.absent e = refl
  absent_of Thread.waiting e = absurd (ground (arith, e))
  absent_of Thread.finished e = absurd (ground (arith, e))
  absent_of (Thread.reading c w) e = absurd (ground (arith, e))
  absent_of (Thread.writing c w) e = absurd (ground (arith, e))

  -- The same buffers and the same place of the worker.
  same_worker : (s s' : System W F) → s'.io ≡ s.io → s'.thread ≡ s.thread → IsSound s → IsSound s'
  same_worker s s' e k h = record {
    memories = subst (λ io. length io.memory ≡ length io.joint_static) (sym e) h.memories;
    telemetries =
        subst (λ io. length io.latest_telemetry.joints ≡ length io.joint_static) (sym e)
          h.telemetries;
    phased =
        subst (λ io. IsPhased io s'.thread) (sym e)
          (subst (λ thread. IsPhased s.io thread) (sym k) h.phased);
  }

  async_io_init_buffers-IsSound :
      (s : System W F)
      → joinable s.thread ≡ false
      → IsSound (record s { io = async_io_init_buffers u s.interface s.io })
  unfolding async_io_init_buffers
  async_io_init_buffers-IsSound s e = record {
    memories = length-map _ s.interface.joints ∙ sym (length-map _ s.interface.joints);
    telemetries = length-map _ s.interface.joints ∙ sym (length-map _ s.interface.joints);
    phased = rw (absent_of s.thread e) (absent_phase refl);
  }

  activate-IsSound :
      (t : Transport F) (created : Bool) (init_status : ℤ) (now later : ℕ) (s : System W F)
      → joinable s.thread ≡ false
      → IsSound s
      → IsSound (activate u t created init_status now later s)
  unfolding activate
  activate-IsSound t created init_status now later s e h =
      let (ok, interface, log) = on_activate u t created init_status now later s.interface s.log in
      let active : System W F = record s { interface = interface; log = log } in
      either
        ((initialize_transport u t created init_status now later s.interface s.log).0
          && ok
          && interface.runtime_config.enable_async_io)
        _ _ (λ k. async_io_start-IsSound _ (async_io_init_buffers-IsSound active e))
        (λ k. same_worker s _ refl refl h)

  step-IsSound : (e : Event u) (s : System W F) → IsSound s → IsSound (step u e s)
  unfolding step write_async request_stop join
  step-IsSound (Event.working t at) s h = advance-IsSound t at s.thread s h refl h.phased
  step-IsSound (Event.reading now event diagnosis) s h = same_worker s _ refl refl h
  step-IsSound (Event.writing period) s h = record {
    memories = h.memories;
    telemetries = h.telemetries;
    phased = keep_phase s.io _ s.thread refl (λ stop. stop) refl h.phased;
  }
  step-IsSound (Event.commanding f) s h = same_worker s _ refl refl h
  step-IsSound (Event.enabling b) s h = same_worker s _ refl refl h
  step-IsSound Event.stopping s h =
      either (not (joinable s.thread)) _ _
        (λ e. record {
          memories = h.memories;
          telemetries = h.telemetries;
          phased = rw (absent_of s.thread (ground (arith, e))) (absent_phase refl);
        })
        (λ e. record {
          memories = h.memories;
          telemetries = h.telemetries;
          phased = keep_phase s.io _ s.thread refl (λ stop. refl) refl h.phased;
        })
  step-IsSound Event.joining s h =
      either (is_finished s.thread) _ _
        (λ e. record {
          memories = h.memories;
          telemetries = h.telemetries;
          phased = absent_phase refl;
        })
        (λ e. h)
  step-IsSound Event.starting s h = async_io_start-IsSound s h
  step-IsSound Event.cleaning s h =
      either (joinable s.thread) _ _ (λ e. h) (λ e. same_worker s _ refl refl h)
  step-IsSound Event.recovering s h =
      either (joinable s.thread) _ _ (λ e. h) (λ e. same_worker s _ refl refl h)
  step-IsSound (Event.activating t created init_status now later) s h =
      either (joinable s.thread) _ _ (λ e. h)
        (λ e. activate-IsSound t created init_status now later s e h)
  step-IsSound (Event.deactivating t) s h =
      either (joinable s.thread) _ _ (λ e. h) (λ e. same_worker s _ refl refl h)
  step-IsSound (Event.switching t) s h =
      either (joinable s.thread) _ _ (λ e. h) (λ e. same_worker s _ refl refl h)

  -- In any sequence of the events, whatever the transport answers: each of the worker's vectors keeps an element for each joint that it knows, also in the
  -- middle of a cycle; the flag for a cycle in flight is set exactly while the worker is between
  -- taking a command and publishing a snapshot; a cycle is not cut short when its read phase begins;
  -- and the worker has ended only if a stop is requested.
  pub run-IsSound :
      (events : List (Event u)) (s : System W F) → IsSound s → IsSound (run u events s)
  unfolding run
  run-IsSound [] s h = h
  run-IsSound (e ∷ events) s h = run-IsSound events (step u e s) (step-IsSound e s h)
