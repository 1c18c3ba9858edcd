-- ===== src/Usb/Operation/Sticky.antt =====
-- The sticky error.
use odrive_ros2_control.Prelude.{
  ℕ, Bool, true, false, ◌≡◌, ◌⊎◌, refl, ap, ◌∙◌, arith, inl, inr, Option-cases, List, [], ◌∷◌, All,
  if◌then◌else◌,
}
use mathlib.Core.Path.{subst}
use odrive_ros2_control.Prelude.Int.{ℤ, pos, negsuc, eq_ℤ}
use odrive_ros2_control.TransportError.{libusb_error_no_device, is_fail_fast_transport_error}
use odrive_ros2_control.Usb.{UsbLog, Libusb, ODriveUsb}
use odrive_ros2_control.Usb.Operation.{
  remember_error, find_device, endpoint_operation, read_handle, read_impl, write_impl, call,
  Request, request, with_device, Answer,
}

module _ (l : Libusb) where
  -- The answers to requests, one after the other, and what is left.
  abbrev pub requests : List (Request l) → ODriveUsb → UsbLog → List ℤ × ODriveUsb × UsbLog
  requests [] s log = ([], s, log)
  requests (r ∷ rs) s log =
      let (status, payload, s', log') = request l r s log in
      let (statuses, s'', log'') = requests rs s' log' in (status ∷ statuses, s'', log'')

  -- The answer of a transport with a sticky error: that error, or that there is no such device.
  abbrev pub IsRefusal : ℤ → ℤ → Type 0
  IsRefusal sticky status = (status ≡ sticky) ⊎ (status ≡ libusb_error_no_device)

  endpoint_operation-sticky :
      (handle : ℕ) (endpoint : ℤ) (size : ℕ) (payload : List ℕ) (b : Bool) (s : ODriveUsb)
      (log : UsbLog)
      → eq_ℤ s.sticky_error (pos 0) ≡ false
      → endpoint_operation l handle endpoint size payload b s log ≡ (s.sticky_error, [], s, log)
  unfolding endpoint_operation
  endpoint_operation-sticky handle endpoint size payload b s log h = rw h refl

  read_handle-sticky :
      (handle : ℕ) (endpoint : ℤ) (size : ℕ) (s : ODriveUsb) (log : UsbLog)
      → eq_ℤ s.sticky_error (pos 0) ≡ false
      → read_handle l handle endpoint size s log ≡ (s.sticky_error, [], s, log)
  unfolding read_handle endpoint_operation
  read_handle-sticky handle endpoint size s log h = rw (h, h) refl

  -- Nothing is sent, and nothing changes.
  pub record IsRefused (s : ODriveUsb) (log : UsbLog) (a : Answer) : Type 0 where
    pub refusal : IsRefusal s.sticky_error a.0
    pub nothing_read : a.1 ≡ []
    pub unchanged : a.2 ≡ s
    pub nothing_sent : a.3 ≡ log

  with_device-IsRefused :
      (serial : ℤ) (s : ODriveUsb) (log : UsbLog) (operation : ℕ → Answer)
      → ((handle : ℕ) → operation handle ≡ (s.sticky_error, [], s, log))
      → IsRefused s log (with_device l serial s log operation)
  with_device-IsRefused serial s log operation h =
      elim (Option-cases (find_device serial s.odrive_map)) [
        | inl e ↦
            rw (with_device, e)
              (record {
                refusal = inr refl;
                nothing_read = refl;
                unchanged = refl;
                nothing_sent = refl;
              })
        | inr (handle, e) ↦
            rw (with_device, e, h handle)
              (record {
                refusal = inl refl;
                nothing_read = refl;
                unchanged = refl;
                nothing_sent = refl;
              })
      ]

  request-IsRefused :
      (r : Request l) (s : ODriveUsb) (log : UsbLog)
      → eq_ℤ s.sticky_error (pos 0) ≡ false
      → IsRefused s log (request l r s log)
  unfolding request read_impl write_impl call
  request-IsRefused (Request.read serial endpoint size) s log h =
      with_device-IsRefused serial s log (λ handle. read_handle l handle endpoint size s log)
        (λ handle. read_handle-sticky handle endpoint size s log h)
  request-IsRefused (Request.write serial endpoint value) s log h =
      with_device-IsRefused serial s log
        (λ handle. endpoint_operation l handle endpoint 0 value true s log)
        (λ handle. endpoint_operation-sticky handle endpoint 0 value true s log h)
  request-IsRefused (Request.call_function serial endpoint) s log h =
      with_device-IsRefused serial s log
        (λ handle. endpoint_operation l handle endpoint 0 [] true s log)
        (λ handle. endpoint_operation-sticky handle endpoint 0 [] true s log h)

  requests-IsRefused :
      (rs : List (Request l)) (s : ODriveUsb) (log : UsbLog)
      → eq_ℤ s.sticky_error (pos 0) ≡ false
      → let (statuses, s', log') = requests rs s log in
        All (IsRefusal s.sticky_error) statuses × (s' ≡ s) × (log' ≡ log)
  requests-IsRefused [] s log h = (tt, refl, refl)
  requests-IsRefused (r ∷ rs) s log h =
      let a = request-IsRefused r s log h in
      let rest = requests-IsRefused rs s log h in
      rw (a.unchanged, a.nothing_sent) ((a.refusal, rest.0), rest.1, rest.2)

  fail_fast_set :
      (status : ℤ) → is_fail_fast_transport_error status ≡ true → eq_ℤ status (pos 0) ≡ false
  unfolding is_fail_fast_transport_error
  fail_fast_set (pos n) h = absurd (ground (arith, h))
  fail_fast_set (negsuc n) h = refl

  -- What an operation leaves as the sticky error.
  endpoint_operation-sticky_error :
      (handle : ℕ) (endpoint : ℤ) (size : ℕ) (payload : List ℕ) (b : Bool) (s : ODriveUsb)
      (log : UsbLog)
      → s.sticky_error ≡ pos 0
      → let (status, _, s', _) = endpoint_operation l handle endpoint size payload b s log in
        s'.sticky_error ≡ (if is_fail_fast_transport_error status then status else pos 0)
  unfolding endpoint_operation is_fail_fast_transport_error remember_error
  endpoint_operation-sticky_error handle endpoint size payload b s log h = ground (arith, h)

  -- Once an operation on a transport without a sticky error has failed with a time-out or because the
  -- device is gone, every request after it is answered with the same status, or that there is no such
  -- device, and no packet is sent or awaited for it, to any device, whatever libusb would answer.
  pub endpoint_operation_sticks :
      (handle : ℕ) (endpoint : ℤ) (size : ℕ) (payload : List ℕ) (b : Bool) (s : ODriveUsb)
      (log : UsbLog) (rs : List (Request l))
      → s.sticky_error ≡ pos 0
      → is_fail_fast_transport_error (endpoint_operation l handle endpoint size payload b s log).0
        ≡ true
      → let (status, _, s', log') = endpoint_operation l handle endpoint size payload b s log in
        let (statuses, s'', log'') = requests rs s' log' in
        All (IsRefusal status) statuses × (s'' ≡ s') × (log'' ≡ log')
  endpoint_operation_sticks handle endpoint size payload b s log rs h lost =
      let (status, _, s', log') = endpoint_operation l handle endpoint size payload b s log in
      let stuck : s'.sticky_error ≡ status =
        endpoint_operation-sticky_error handle endpoint size payload b s log h
        ∙ ap (λ (c : Bool). if c then status else pos 0) lost in
      let (refused, same, silent) =
        requests-IsRefused rs s' log'
          (ap (λ e. eq_ℤ e (pos 0)) stuck ∙ fail_fast_set status lost) in
      (subst (λ e. All (IsRefusal e) (requests rs s' log').0) stuck refused, same, silent)
