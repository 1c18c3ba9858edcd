-- ===== src/Usb/Discovery.antt =====
-- `initialize`, the destructor and `set_timeout_ms`.
pub mod Matching
pub mod Handles
pub mod Answered
pub mod Requested
use odrive_ros2_control.Prelude.{
  ℕ, suc, Bool, true, false, not, ◌&&◌, ◌||◌, Option, none, some, List, [], ◌∷◌, ◌++◌, ◌==◌, ltb,
  ◌+◌, ◌*◌, ◌-◌, map, if◌then◌else◌,
}
use odrive_ros2_control.Prelude.Int.{to_int64, ℤ, pos, negsuc, neg, eq_ℤ, ltb_ℤ}
use odrive_ros2_control.Endpoints.{serial_number}
use odrive_ros2_control.TransportError.{libusb_error_no_device}
use odrive_ros2_control.Usb.{UsbOp, UsbLog, Descriptor, Libusb, ODriveUsb}
use odrive_ros2_control.Usb.Operation.{find, read_handle}

unfoldable pub set_timeout_ms : ℕ → ODriveUsb → ODriveUsb
set_timeout_ms timeout_ms s = record s {
  usb_timeout_ms = if timeout_ms == 0 then 1 else timeout_ms;
}

-- `insert` of a map, which keeps an entry that is there.
abbrev pub insert : ℤ → ℕ → List (ℤ × ℕ) → List (ℤ × ℕ)
insert key handle [] = (key, handle) ∷ []
insert key handle ((k, h) ∷ entries) =
    if eq_ℤ k key
    then (k, h) ∷ entries
    else if ltb_ℤ key k
    then (key, handle) ∷ (k, h) ∷ entries
    else (k, h) ∷ insert key handle entries

-- `erase` of a key.
abbrev pub erase : ℤ → List (ℤ × ℕ) → List (ℤ × ℕ)
erase key [] = []
erase key ((k, h) ∷ entries) = if eq_ℤ k key then entries else (k, h) ∷ erase key entries

-- A little-endian number of bytes, as `memcpy` into an unsigned integer makes it.
abbrev pub number_of_bytes : List ℕ → ℕ
number_of_bytes [] = 0
number_of_bytes (b ∷ bytes) = b + 256 * number_of_bytes bytes

-- `libusb_release_interface` and `libusb_close` of a handle.
abbrev pub let_go : ℕ → UsbLog → UsbLog
let_go handle log = log ++ (UsbOp.release_interface handle ∷ UsbOp.close handle ∷ [])

module _ (l : Libusb) where
  abbrev succeeds : UsbLog → UsbOp → Bool
  succeeds log o = eq_ℤ (l.status log o) (pos 0)

  -- One device of the list: it is opened, claimed, asked for its serial number, and entered under
  -- the negative of that.
  unfoldable pub discover_device : ℕ → Descriptor → ODriveUsb → UsbLog → ODriveUsb × UsbLog
  unfolding read_handle
  discover_device i d s log =
      let log1 = log ++ (UsbOp.get_device_descriptor i ∷ []) in
      let log2 = log1 ++ (UsbOp.open_device i ∷ []) in
      let log3 = log2 ++ (UsbOp.kernel_driver_active i ∷ []) in
      let inactive = succeeds log2 (UsbOp.kernel_driver_active i) in
      let log4 = if inactive then log3 else log3 ++ (UsbOp.detach_kernel_driver i ∷ []) in
      let log5 = log4 ++ (UsbOp.claim_interface i ∷ []) in
      let (status, bytes, s', log6) = read_handle l i (pos serial_number) 8 s log5 in
      if not (succeeds log (UsbOp.get_device_descriptor i))
      then (s, log1)
      else if not (d.id_vendor == 0x1209 && d.id_product == 0x0d32)
      then (s, log1)
      else if not (succeeds log1 (UsbOp.open_device i))
      then (s, log2)
      else if not inactive && not (succeeds log3 (UsbOp.detach_kernel_driver i))
      then (s, log4 ++ (UsbOp.close i ∷ []))
      else if not (succeeds log4 (UsbOp.claim_interface i))
      then (s, log5 ++ (UsbOp.close i ∷ []))
      else if not (eq_ℤ status (pos 0))
      then (s', let_go i log6)
      else (
        record s' { odrive_map = insert (neg (to_int64 (number_of_bytes bytes))) i s'.odrive_map },
        log6,
      )

  -- The loop over the devices from number `i` on.
  unfoldable pub discover : ℕ → List Descriptor → ODriveUsb → UsbLog → ODriveUsb × UsbLog
  unfolding discover_device
  discover i [] s log = (s, log)
  discover i (d ∷ devices) s log =
      let (s', log') = discover_device i d s log in discover (suc i) devices s' log'

-- The loop over the requested serial numbers: each is entered with its sign, or `none` is `NO_DEVICE`
-- at the first that is not there; the map as it is left.
unfoldable pub match_serials : List ℤ → List (ℤ × ℕ) → Bool × List (ℤ × ℕ)
match_serials [] entries = (true, entries)
match_serials (serial ∷ serials) entries =
    let matched = λ (handle : ℕ). erase (neg serial) (insert serial handle entries) in
    let go_on = match_serials serials entries in
    elim (find serial entries) [
      | some handle ↦ go_on
      | none ↦ elim (find (neg serial) entries) [
        | some handle ↦ match_serials serials (matched handle)
        | none ↦ (false, entries)
      ]
    ]

-- The entry of a single device, whatever was requested.
unfoldable pub match_single : List (ℤ × ℕ) → List (ℤ × ℕ)
match_single [] = []
match_single ((k, handle) ∷ entries) = erase k (insert (neg k) handle ((k, handle) ∷ entries))

-- The last loop: entries that keep their negative key are released.
unfoldable pub release_unmatched : List (ℤ × ℕ) → UsbLog → List (ℤ × ℕ) × UsbLog
release_unmatched [] log = ([], log)
release_unmatched ((k, handle) ∷ entries) log =
    let negative = ltb_ℤ k (pos 0) in
    let (rest, log') = release_unmatched entries (if negative then let_go handle log else log) in
    if negative then (rest, log') else ((k, handle) ∷ rest, log')

abbrev pub is_single : List (ℤ × ℕ) → Bool
is_single (e ∷ []) = true
is_single _ = false

-- The rest of `initialize` once the devices are in the map. The rows of the serial matrix are walked
-- in order, so they are one list here.
unfoldable pub match_devices : List ℤ → ODriveUsb → UsbLog → ℤ × ODriveUsb × UsbLog
unfolding match_serials match_single release_unmatched
match_devices serial_numbers s log =
    let (matched, entries) =
      if is_single s.odrive_map
      then (true, match_single s.odrive_map)
      else match_serials serial_numbers s.odrive_map in
    let (kept, log') = release_unmatched entries log in
    elim s.odrive_map [
      | [] ↦ (libusb_error_no_device, s, log)
      | _ ∷ _ ↦
          if matched
          then (pos 0, record s { odrive_map = kept }, log')
          else (libusb_error_no_device, record s { odrive_map = entries }, log)
    ]

module _ (l : Libusb) where
  unfoldable pub initialize : List ℤ → ODriveUsb → UsbLog → ℤ × ODriveUsb × UsbLog
  unfolding discover match_devices
  initialize serial_numbers s log =
      let s0 = record s { sequence_number = 0; sticky_error = pos 0 } in
      let ret = l.status log UsbOp.init in
      let log1 = log ++ (UsbOp.init ∷ []) in
      let s1 = record s0 { context = true } in
      let count = l.device_count log1 in
      let (s2, log2) = discover l 0 (l.devices log1) s1 log1 in
      if not (eq_ℤ ret (pos 0))
      then (ret, s0, log1)
      else if not (ltb_ℤ (pos 0) count)
      then (count, s1, log1)
      else match_devices serial_numbers s2 log2

-- The destructor lets go of every device, and then of libusb.
unfoldable pub close_all : List (ℤ × ℕ) → UsbLog → UsbLog
close_all [] log = log
close_all ((k, handle) ∷ entries) log = close_all entries (let_go handle log)

unfoldable pub destroy : ODriveUsb → UsbLog → UsbLog
unfolding close_all
destroy s log =
    let log' = close_all s.odrive_map log in if s.context then log' ++ (UsbOp.exit ∷ []) else log'
