-- ===== src/Tests/Usb.antt =====
-- The theorems on the USB transport, applied.
use odrive_ros2_control.Prelude.{
  inl, inr, ℕ, ◌+◌, ◌≡◌, ◌≢◌, ◌<◌, ◌/◌, ◌%◌, refl, true, false, some, [], ◌∷◌, All, arith, List,
}
use odrive_ros2_control.Prelude.Int.{pos, negsuc}
use odrive_ros2_control.TransportError.{is_fail_fast_transport_error}
use odrive_ros2_control.Usb.{UsbOp, Libusb, ODriveUsb}
use odrive_ros2_control.Usb.Packet.{encode_packet, next_sequence}
use odrive_ros2_control.Usb.Packet.Receiver.{receive, receive-encode_packet}
use odrive_ros2_control.Usb.Packet.Sequence.{sequence_after, sequence_numbers_differ}
use odrive_ros2_control.Usb.Operation.{endpoint_operation, Request as Request_to}
use odrive_ros2_control.Usb.Operation.Sticky.{requests, IsRefusal, endpoint_operation_sticks}
use odrive_ros2_control.Usb.Discovery.{discover, initialize}
use odrive_ros2_control.Usb.Discovery.Requested.{
  IsNatural, HasDevice, IsSettled, discovered, initialize-IsSettled,
}
use odrive_ros2_control.Usb.Discovery.Handles.{HasHandle}

-- Two drives, with the serial numbers 7 and 8, that answer everything.
abbrev serial_of : UsbOp → List ℕ
serial_of (UsbOp.bulk_in handle size timeout) =
    0 ∷ 0 ∷ (7 + handle) ∷ 0 ∷ 0 ∷ 0 ∷ 0 ∷ 0 ∷ 0 ∷ 0 ∷ []
serial_of _ = []

abbrev two_drives : Libusb
two_drives = record {
  status = λ log o. pos 0;
  received = λ log o. serial_of o;
  device_count = λ log. pos 2;
  devices = λ log.
      record { id_vendor = 0x1209; id_product = 0x0d32 }
      ∷ record { id_vendor = 0x1209; id_product = 0x0d32 }
      ∷ [];
}

-- A drive that is gone.
abbrev unplugged : Libusb
unplugged = record two_drives { status = λ log o. negsuc 3 }

abbrev fresh : ODriveUsb
fresh = record {
  context = false;
  odrive_map = [];
  sequence_number = 0;
  sticky_error = pos 0;
  usb_timeout_ms = 100;
}

abbrev connected : ODriveUsb
connected = record fresh { context = true; odrive_map = (pos 7, 0) ∷ (pos 8, 1) ∷ [] }

receive-encode_packet_example :
    receive (encode_packet 129 32769 4 (5 ∷ 6 ∷ []))
    ≡ some (record {
      sequence = 129;
      endpoint = 32769;
      response_size = 4;
      payload = 5 ∷ 6 ∷ [];
      crc = 0x9b40;
    })
receive-encode_packet_example =
    (receive-encode_packet 129 32769 4 (5 ∷ 6 ∷ []) (omega arith) (omega arith) (omega arith)).0

sequence_numbers_differ_example :
    (sequence_after 3 (next_sequence 255) ≢ next_sequence 255)
    × (next_sequence 255 < 32768)
    × (next_sequence 255 / 128 % 2 ≡ 1)
sequence_numbers_differ_example = sequence_numbers_differ 255 3 (omega arith) (omega arith)

unplugged_fails :
    is_fail_fast_transport_error (endpoint_operation unplugged 0 (pos 1) 4 [] true connected []).0
    ≡ true
unfolding endpoint_operation is_fail_fast_transport_error
unplugged_fails = refl

endpoint_operation_sticks_example :
    let (status, _, s', log') = endpoint_operation unplugged 0 (pos 1) 4 [] true connected [] in
    let (statuses, s'', log'') =
      requests unplugged
        (Request_to.read (pos 8) (pos 1) 4 ∷ Request_to.call_function (pos 9) (pos 299) ∷ [])
        s'
        log' in
    All (IsRefusal unplugged status) statuses × (s'' ≡ s') × (log'' ≡ log')
endpoint_operation_sticks_example =
    endpoint_operation_sticks unplugged 0 (pos 1) 4 [] true connected []
      (Request_to.read (pos 8) (pos 1) 4 ∷ Request_to.call_function (pos 9) (pos 299) ∷ []) refl
      unplugged_fails

initialize_succeeds : (initialize two_drives (pos 8 ∷ []) fresh []).0 ≡ pos 0
unfolding initialize
initialize_succeeds = refl

the_first_is_entered : HasHandle 0 (discovered two_drives fresh []).0.odrive_map
unfolding discover
the_first_is_entered = inr (inl refl)

initialize-IsSettled_example :
    let (_, s', log') = initialize two_drives (pos 8 ∷ []) fresh [] in
    All (HasDevice two_drives s'.odrive_map) (pos 8 ∷ [])
    × All IsNatural s'.odrive_map
    × IsSettled 0 s'.odrive_map log'
unfolding discover
initialize-IsSettled_example =
    initialize-IsSettled two_drives (pos 8 ∷ []) fresh [] 0 refl (refl, tt) refl refl refl
      the_first_is_entered initialize_succeeds
