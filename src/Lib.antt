-- ===== src/Lib.antt =====
-- A verification library for the Zephyr and Zenoh integration of ros2_control: firmware on Zephyr and a
-- plugin on a ROS 2 host exchange state and command payloads over Zenoh.
--
-- The parts and how they interact. A microcontroller's `ZenbeddedClient` (zenbedded_rcl) keeps the latest
-- state and the latest command in two double buffers. Its user writes states and reads commands, a
-- control thread publishes the state, and the callback of the subscriber stores each command. The
-- payloads are raw structs, or the CDR messages that zenbedded_transport/src/serialization.c lays out
-- once and then fills in place. Everything goes through zenbedded_transport/src/zenoh_transport.c, which
-- owns the zenoh-pico session and two pools of ten publishers and subscribers. On the host,
-- `ZenbeddedHardware` (zenbedded_hardware_interface) decodes raw payloads by a schema read from YAML,
-- from which the firmware's C header is generated too.
--
-- Which file models which part.
--   Prelude, Prelude/*: shared notation, lists by native numbers, signed integers, bytes and buffers.
--   Cdr/Cursor, JointState, JointCommand: zenbedded_transport/src/serialization.c, one function for each
--     C function, the loops as recursions. Cdr/Reference describes the ROS 2 encodings independently.
--     The other files of Cdr lead from one to the other, the Command ones for JointCommand; Scratch says
--     that a command's layout does not depend on the buffer.
--   Client/Buffer/Slots, Steps: the double buffers of zenbedded_rcl/src/zenbedded_client.cpp
--     (`prepare_state_write_slot`, `commit_state_write_slot`, `write_command_to_buffer`,
--     `read_state_from_buffer`, `read_command_from_buffer`, `reset_buffers`) as a step relation, one step
--     for each access of shared memory, a copy byte by byte. Invariant, Writes and Reads carry the
--     invariant, Safety and Progress use it.
--   Client/Lifecycle: `init_base`, `destroy`, `start_thread` and `stop_thread` of the same file, over the
--     model of the transport; Client/Soundness and Client/Outcome are about them.
--   Client/Codec/Contract: the codec concept of zenbedded_rcl/include/zenbedded_rcl/codecs.hpp, operations
--     apart from laws. Codec/Raw, JointStates, JointCommands: `RawCodec`, `JointStateCodec`,
--     `JointCommandCodec` and why they meet the contract.
--   Client/Channels: `init`, `write_state` and `read_command` of `ZenbeddedClient`
--     (zenbedded_rcl/include/zenbedded_rcl/zenbedded_client.hpp) over any two codecs, with
--     `on_transport_cmd_cb`, `zenoh_publish_state` and the functions on the buffers, each run to its end.
--     Startup, Delivery and JointClient are about them, and Reception about the way of a sample from
--     `internal_sub_handler` to the callback.
--   Client/ControlLoop: `control_thread_fn`; Client/Pacing is about it.
--   Hardware/Schema/*: zenbedded_hardware_interface/src/interface_schema.cpp (`parse_component_fields`,
--     `from_yaml`, `write_c_header`, `field_byte_size`, the accessors of fields).
--   Hardware/Plugin/*: zenbedded_hardware_interface/src/zenbedded_hardware.cpp (`on_init`,
--     `on_activate`, `on_deactivate`, the subscriber's callback, `read`, `write`, the exported handles).
--   Transport/*: zenbedded_transport/src/zenoh_transport.c (`zenbedded_transport_init`, `_destroy`,
--     `_declare_publisher`, `_declare_subscriber`, `_publish`, `internal_sub_handler`) and
--     zenbedded_transport/include/zenbedded_transport/rihs_ledger.h. World says what a call does to the
--     zenoh objects, Refinement compares the pools with them, Sequence is about the attachments of
--     publications, Kept about what one publication leaves of the pool.
--   Demos/Pendulum/*: demos/inverted_pendulum/inverted_pendulum_tier1/src/main.cpp and
--     inverted_pendulum_tier2/src/main.cpp. Motor: `set_stepper_angular_vel`, `get_encoder_angle_deg`,
--     `microsteps_to_angle`; Wait: the loops that wait for the networks; Cycle: one round of the loop of
--     `main`, over the model of the client; Program: `main` of both. The others are about them, Motion
--     about `set_stepper_angular_vel`.
--   Demos/Host/MockPendulum, PendulumController: mock_pendulum_hardware.cpp and
--     inverted_pendulum_controller.cpp of demos/inverted_pendulum/inverted_pendulum_ros/src; Simulation
--     runs the one on the other, Bounded is about that. Demos/SineNode/*: `main` of
--     demos/sine_wave/sine_wave_zephyr/src/main.cpp, Loop and Program; the others are about it. Demos/Host/SineWave:
--     demos/sine_wave/sine_wave_ros/src/sine_wave_controller.cpp.
--
-- How state and operations correspond. A struct or class is a record with the source's members, a
-- function of the code is a function with the same name that takes the state and gives the next one, and
-- `none` where an access would be out of bounds. A null pointer is `none`, a pointer into a pool the index
-- of its slot. What code outside the repository answers (zenoh, the clock, the random source, yaml-cpp,
-- files, the real-time buffer, the C++ casts of doubles) is an argument or a record of operations and
-- laws. The calls into zenoh-pico are values in a list.
--
-- Assumptions. The target is little-endian, `size_t` does not overflow on buffers that fit in memory, a
-- double is its 64-bit pattern, `atomic_t` has 32 bits and wraps. The `int64_t` sums of
-- `zenbedded_transport_publish` wrap in two's complement past 2 ^ 63, where C leaves them undefined; the
-- result on sequence numbers (Transport/Sequence) stays below that, and no other result reads them. The arithmetic of doubles is a record of
-- operations, with the laws that are used of it (Demos/Pendulum/Double, Demos/Host/Double). The accesses
-- of shared memory take effect in one order for both sides, as the fences of the code ask, and each buffer
-- has one writer and one reader. In Client/Channels and all that is above it each call of the client runs
-- to its end before the next. Nothing here runs on fuel: every loop is a recursion on a list or a count,
-- an endless loop one on the list of what its rounds meet, and the retry loop of the readers is a chain
-- of steps.
--
-- Not modelled: creating and joining the control thread, the log output, the registration for
-- introspection, the setting of the clock from the network in the inverted pendulum program of tier 1, the
-- demos under demos but those named above, the tests, the build files and the patches.
mod Prelude
pub mod Cdr
pub mod Client
pub mod Demos
pub mod Hardware
pub mod Transport
