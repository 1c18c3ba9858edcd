-- ===== src/Usb.antt =====
-- odrive_hardware_interface/src/odrive_usb.cpp and odrive_usb.hpp: the USB transport, over libusb.
pub mod Packet
pub mod Operation
pub mod Discovery
use odrive_ros2_control.Prelude.{ℕ, Bool, List}
use odrive_ros2_control.Prelude.Int.{ℤ}

-- A call of libusb. A device is known by its number in the list of devices, and so is the handle that
-- opening it gives.
pub data UsbOp : Type 0 where
  init exit : UsbOp
  get_device_descriptor open_device kernel_driver_active detach_kernel_driver claim_interface :
      ℕ → UsbOp
  release_interface close : ℕ → UsbOp
  -- a packet, and the time-out in milliseconds
  bulk_out : ℕ → List ℕ → ℕ → UsbOp
  -- the size of the buffer, and the time-out
  bulk_in : ℕ → ℕ → ℕ → UsbOp

abbrev pub UsbLog : Type 0
UsbLog = List UsbOp

-- What the fields of a device's descriptor that are looked at say.
pub record Descriptor : Type 0 where
  pub id_vendor : ℕ
  pub id_product : ℕ

-- libusb and the devices behind it: the result of a call after a history; the bytes that a transfer
-- from a device delivers where its result is 0; and the result of `libusb_get_device_list`, with the
-- devices' descriptors.
pub record Libusb : Type 0 where
  pub status : UsbLog → UsbOp → ℤ
  pub received : UsbLog → UsbOp → List ℕ
  pub device_count : UsbLog → ℤ
  pub devices : UsbLog → List Descriptor

-- The members of `ODriveUSB`. `odrive_map` is ordered by its keys, the serial numbers.
pub record ODriveUsb : Type 0 where
  pub context : Bool
  pub odrive_map : List (ℤ × ℕ)
  pub sequence_number : ℕ
  pub sticky_error : ℤ
  pub usb_timeout_ms : ℕ
