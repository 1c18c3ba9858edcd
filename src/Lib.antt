-- ===== src/Lib.antt =====
-- The hardware interface of ODrive motor controllers for ros2_control.
--
-- The program is odrive_hardware_interface: a plugin that ros2_control calls once in each control
-- cycle. `read` fetches the telemetry of every axis over a transport, `write` limits, validates and
-- sends the commands of the controllers, and the lifecycle callbacks and mode switches set the axes
-- up and down in between. One class, `ODriveHardwareInterface`, holds the state; free functions do
-- the work on one axis.
--
-- The files, with the code from odrive_hardware_interface/ that each is about:
--   Fpu                  `double` and `float` arithmetic, a parameter with the laws of Fpu/Laws
--   Endpoints            odrive_endpoints.hpp, axis_utils.hpp
--   Transport            odrive_transport.hpp, as its callers see it
--   TransportError       transport_error.hpp
--   Retry                `read_with_retry`, `write_with_retry`
--   AxisControl          axis_control.cpp: `perform_axis_mode_switch`, `write_axis_command`
--   CommandValidation    command_validation.cpp
--   AxisTelemetry        axis_telemetry.cpp
--   ErrorMonitoring      error_monitoring.cpp
--   Configuration        hardware_configuration.hpp, and odrive_configuration.cpp:
--     Conversions        `parse_hex_serial`, `parse_bool`, `parse_int`, `parse_double`
--     Parsing            `parse_hardware_configuration`
--   Interface            the state of `ODriveHardwareInterface`, from odrive_hardware_interface.cpp:
--     Health             `update_transport_health`, `maybe_update_diagnostics`
--     Reset              `hold_joint_state`, `reset_runtime_state`
--     Feedback, Read     `read`, synchronous
--     Command, Write     `write`, synchronous
--     Modes              `prepare_command_mode_switch`
--     ModeSwitch         `perform_command_mode_switch`
--     Lifecycle          `initialize_transport`, `on_activate`, `on_deactivate`, `on_cleanup`, `recover`
--     Session            the methods called in any order
--   Usb                  odrive_usb.cpp, over libusb:
--     Packet             `encodePacket`, `decodePacket`, the sequence numbers
--     Operation          `endpointOperation`, `read_impl`, `write_impl`, `call`
--     Discovery          `initialize`, the destructor, `set_timeout_ms`
--   Async                the worker thread of the asynchronous mode, from the same file:
--     Buffers            `async_io_init_buffers`, the snapshots, the deadline
--     Reading            the read phase of a cycle in `async_io_thread_main`
--     Drafting, Writing  the write phase
--     Exchange           `read` and `write`, asynchronous
--     Worker             `async_io_start`, `async_io_stop_and_join`, and the thread among the others
-- The modules below these hold the proofs, and Tests applies the theorems to concrete data.
--
-- State. The class is the record `Interface`, each of whose methods takes it and returns it. The
-- transport is a parameter: its answer to an operation is a function of all operations before, so
-- any device, cable and order of failures is covered, and the methods also return the history of
-- operations, in which the theorems say what was sent. An error is a status other than 0, as in the
-- source. Where the source keeps references into a joint's commands, the record of the joint is
-- updated. The clock is read at the points in `Instants`.
--
-- The conversions of the standard library that the parser calls are parameters.
--
-- libusb, below the USB transport, is a parameter of the same form. There the state is the record
-- `ODriveUsb`, and a value is the list of its bytes.
--
-- Numbers. Native natural numbers, with the wrap-around of `size_t` and `int16_t` written out; error
-- registers are `int32_t`. Floating point is a record of operations; the proofs that need arithmetic
-- take `IsIeee`, which holds of `double`, where the integers that the source converts are 32 bits
-- wide, and of the exact numbers of Fpu/Exact, which the examples use.
--
-- The worker thread. The state is the interface, the buffers that the threads share, where the worker
-- is, and the history. An event is a step of the worker (it takes a command or ends, reads, or writes
-- and publishes), a `read`, a `write`, an assignment of a controller, one half of
-- `async_io_stop_and_join`, or what a lifecycle callback or a mode switch does without the worker,
-- once it is joined: its use of the transport, and the start of the worker at its end. `run` follows
-- any sequence of these events. A phase of a cycle is one step, because the worker alone uses the
-- transport while it runs, and touches what it shares with `read` and `write` only under the mutex, at
-- the two ends of a cycle; only the flag that enables the outputs is read in between, at the start of
-- the write phase. The parallel vectors of the source are lists of records.
--
-- Loops over joints are recursion on their list, and the loop of the retries is recursion on the
-- attempts that are left, so that nothing runs out of fuel.
--
-- Not modelled: `configure_from_info`, the tasks of the diagnostics, the text of log
-- messages, and the registration of the plugins.
pub mod Prelude
pub mod Fpu
pub mod Endpoints
pub mod Transport
pub mod TransportError
pub mod Retry
pub mod AxisControl
pub mod Configuration
pub mod CommandValidation
pub mod AxisTelemetry
pub mod ErrorMonitoring
pub mod Usb
pub mod Interface
pub mod Async
pub mod Tests
