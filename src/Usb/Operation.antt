-- ===== src/Usb/Operation.antt =====
-- `endpointOperation`, `read_impl`, `write_impl` and `call`. A value is its bytes in memory.
pub mod Sticky
use odrive_ros2_control.Prelude.{
  ℕ, zero, suc, Bool, true, false, not, Option, none, some, List, [], ◌∷◌, ◌++◌, length, ltb,
  if◌then◌else◌,
}
use odrive_ros2_control.Prelude.Int.{ℤ, pos, eq_ℤ, bits16}
use odrive_ros2_control.TransportError.{
  libusb_error_io, libusb_error_no_device, libusb_error_timeout, is_fail_fast_transport_error,
}
use odrive_ros2_control.Usb.{UsbOp, UsbLog, Libusb, ODriveUsb}
use odrive_ros2_control.Usb.Packet.{
  encode_packet, decode_packet, effective_endpoint, next_sequence, max_packet_size,
}

-- Status, payload, the transport and the history.
abbrev pub Answer : Type 0
Answer = ℤ × List ℕ × ODriveUsb × UsbLog

-- A time-out and a device that is gone stick.
unfoldable pub remember_error : ℤ → ODriveUsb → ODriveUsb
unfolding is_fail_fast_transport_error
remember_error status s =
    if is_fail_fast_transport_error status then record s { sticky_error = status } else s

-- A handle: `it->second`, or `none` for the end of the map.
abbrev pub find : ℤ → List (ℤ × ℕ) → Option ℕ
find key [] = none
find key ((k, handle) ∷ entries) = if eq_ℤ k key then some handle else find key entries

-- `begin()` for the serial number 0
abbrev pub first : List (ℤ × ℕ) → Option ℕ
first [] = none
first ((k, handle) ∷ entries) = some handle

unfoldable pub find_device : ℤ → List (ℤ × ℕ) → Option ℕ
find_device serial entries = if eq_ℤ serial (pos 0) then first entries else find serial entries

-- The first `n` bytes, as `memcpy` takes them.
abbrev pub take : ℕ → List ℕ → List ℕ
take zero bytes = []
take (suc n) [] = []
take (suc n) (b ∷ bytes) = b ∷ take n bytes

module _ (l : Libusb) where
  unfoldable pub endpoint_operation :
      (handle : ℕ)
      → (endpoint : ℤ) → (response_size : ℕ) → (request_payload : List ℕ) → (expect_response : Bool)
      → ODriveUsb
      → UsbLog
      → Answer
  unfolding encode_packet decode_packet effective_endpoint next_sequence remember_error
  endpoint_operation handle endpoint response_size request_payload expect_response s log =
      let sequence = next_sequence s.sequence_number in
      let s' = record s { sequence_number = sequence } in
      let packet =
        encode_packet sequence
          (if expect_response then effective_endpoint endpoint else bits16 endpoint) response_size
          request_payload in
      let out = UsbOp.bulk_out handle packet s.usb_timeout_ms in
      let ret = l.status log out in
      let log' = log ++ (out ∷ []) in
      let inp = UsbOp.bulk_in handle max_packet_size s.usb_timeout_ms in
      let ret' = l.status log' inp in
      let response = l.received log' inp in
      let log'' = log' ++ (inp ∷ []) in
      if not (eq_ℤ s.sticky_error (pos 0))
      then (s.sticky_error, [], s, log)
      else if not (eq_ℤ ret (pos 0))
      then (ret, [], remember_error ret s', log')
      else if not expect_response
      then (pos 0, [], s', log')
      else if not (eq_ℤ ret' (pos 0))
      then (ret', [], remember_error ret' s', log'')
      else if ltb (length response) response_size
      then (libusb_error_io, [], s', log'')
      else (pos 0, decode_packet response, s', log'')

  -- `read` of a handle, and the rest of `read_impl`.
  unfoldable pub read_handle : (handle : ℕ) → ℤ → (size : ℕ) → ODriveUsb → UsbLog → Answer
  unfolding endpoint_operation
  read_handle handle endpoint size s log =
      let (status, payload, s', log') = endpoint_operation handle endpoint size [] true s log in
      if not (eq_ℤ status (pos 0))
      then (status, [], s', log')
      else if ltb (length payload) size
      then (libusb_error_io, [], s', log')
      else (pos 0, take size payload, s', log')

  -- The search for the device, with which `read_impl`, `write_impl` and `call` begin.
  abbrev pub with_device : ℤ → ODriveUsb → UsbLog → (ℕ → Answer) → Answer
  with_device serial s log operation = elim (find_device serial s.odrive_map) [
    | none ↦ (libusb_error_no_device, [], s, log)
    | some handle ↦ operation handle
  ]

  unfoldable pub read_impl : (serial endpoint : ℤ) → (size : ℕ) → ODriveUsb → UsbLog → Answer
  unfolding read_handle find_device
  read_impl serial endpoint size s log =
      with_device serial s log (λ handle. read_handle handle endpoint size s log)

  unfoldable pub write_impl : (serial endpoint : ℤ) → (value : List ℕ) → ODriveUsb → UsbLog → Answer
  unfolding endpoint_operation find_device
  write_impl serial endpoint value s log =
      with_device serial s log (λ handle. endpoint_operation handle endpoint 0 value true s log)

  unfoldable pub call : (serial endpoint : ℤ) → ODriveUsb → UsbLog → Answer
  unfolding endpoint_operation find_device
  call serial endpoint s log =
      with_device serial s log (λ handle. endpoint_operation handle endpoint 0 [] true s log)

  -- The operations of the interface of the transport.
  pub data Request : Type 0 where
    read : (serial endpoint : ℤ) → (size : ℕ) → Request
    write : (serial endpoint : ℤ) → (value : List ℕ) → Request
    call_function : (serial endpoint : ℤ) → Request

  unfoldable pub request : Request → ODriveUsb → UsbLog → Answer
  unfolding read_impl write_impl call
  request (Request.read serial endpoint size) = read_impl serial endpoint size
  request (Request.write serial endpoint value) = write_impl serial endpoint value
  request (Request.call_function serial endpoint) = call serial endpoint
