-- ===== src/Client/Channels.antt =====
-- zenbedded_rcl/include/zenbedded_rcl/zenbedded_client.hpp: `ZenbeddedClient` over two codecs, and the
-- functions of zenbedded_client.cpp on its buffers. Each call runs to its end before the next; what
-- interleaved calls do is the subject of Client/Buffer.
use zephyr_zenoh_integration.Prelude.{
  ℕ, Bool, true, false, Option, some, ◌>>=◌, ◌==◌, List, [], length, if◌then◌else◌,
}
use zephyr_zenoh_integration.Prelude.Bytes.{Buffer, zeros, store, load}
use zephyr_zenoh_integration.Transport.State.{Transport, Call}
use zephyr_zenoh_integration.Transport.Endpoints.{zenbedded_transport_publish}
use zephyr_zenoh_integration.Client.Buffer.Slots.{Slot, slot_0, slot_1, other, put, atomic_inc}
use zephyr_zenoh_integration.Client.Codec.Contract.{StateCodec, CommandCodec}
use zephyr_zenoh_integration.Client.Lifecycle.{
  Config, Answers, Result, ok, failure, enodev, ClientBase, init_base,
}

pub record DoubleBuffer : Type 0 where
  pub content : Slot → Buffer
  pub version : Slot → ℕ
  pub active : Slot

-- What `reset_buffers` leaves.
abbrev pub cleared : ℕ → DoubleBuffer
cleared size = record { content = λ i. zeros size; version = λ i. 0; active = slot_0 }

-- `memcpy(data, buffer_[read_idx], size)`; nothing moves between the two looks at the version.
abbrev pub copy_active : ℕ → DoubleBuffer → Option Buffer
copy_active size d = load 0 size (d.content d.active)

-- The commit of slot `i`, with its new bytes.
abbrev pub commit : Slot → Buffer → DoubleBuffer → DoubleBuffer
commit i bytes d = record {
  content = put d.content i bytes;
  version = put d.version i (atomic_inc (d.version i));
  active = i;
}

pub record ZenbeddedClient (S : StateCodec) (C : CommandCodec) : Type 0 where
  pub base : ClientBase
  pub state : DoubleBuffer
  pub command : DoubleBuffer
  pub accepted : ℕ
  pub state_ctx : S.Ctx
  pub cmd_ctx : C.Ctx

module _ (config : Config) (S : StateCodec) (C : CommandCodec) where
  abbrev Client : Type 0
  Client = ZenbeddedClient S C

  unfoldable pub reset_buffers : Client → Client
  reset_buffers c = record c {
    state = cleared config.max_state_buffer_size;
    command = cleared config.max_cmd_buffer_size;
    accepted = 0;
  }

  -- `scratch` is the uninitialised local `cmd_layout_scratch`.
  unfoldable pub init_client :
      Bool
      → Answers
      → ℕ
      → S.InitParams
      → C.InitParams
      → Buffer
      → Client
      → Transport Unit
      → Option (Result × Client × Transport Unit)
  unfolding reset_buffers init_base
  init_client true answers control_freq state_params cmd_params scratch c t = some (ok, c, t)
  init_client false answers control_freq state_params cmd_params scratch c t = do
    let fresh : Client = reset_buffers c
    (first, bytes_0) ← S.init state_params (fresh.state.content slot_0)
    (second, bytes_1) ← S.init state_params (fresh.state.content slot_1)
    (cmd_ctx, left) ← C.init cmd_params scratch
    let ((result, base), t') =
        init_base config answers control_freq (S.payload_size second) (C.payload_size cmd_ctx)
          fresh.base t
    let client : Client = record fresh {
      base = base;
      state = record (fresh.state) {
        content = put (put fresh.state.content slot_0 bytes_0) slot_1 bytes_1;
      };
      state_ctx = second;
      cmd_ctx = cmd_ctx;
    }
    some (result, client, t')

  unfoldable pub init :
      Answers
      → ℕ
      → S.InitParams
      → C.InitParams
      → Buffer
      → Client
      → Transport Unit
      → Option (Result × Client × Transport Unit)
  unfolding init_client
  init answers control_freq state_params cmd_params scratch c t =
      init_client c.base.initialized answers control_freq state_params cmd_params scratch c t

  unfoldable pub write_state_in : Bool → S.Value → Client → Option Client
  write_state_in false value c = some c
  write_state_in true value c = do
    let i = other c.state.active
    bytes ← S.write c.state_ctx value (c.state.content i)
    some (record c { state = commit i bytes c.state })

  unfoldable pub write_state : S.Value → Client → Option Client
  unfolding write_state_in
  write_state value c = write_state_in c.base.initialized value c

  -- `ret < 0` or not, and what the transport did.
  abbrev pub published : Bool × Transport Unit × List Call → Result × Transport Unit × List Call
  published (true, t, calls) = (ok, t, calls)
  published (false, t, calls) = (failure, t, calls)

  unfoldable pub publish_active :
      Bool → ℕ × ℕ → Bool → Client → Transport Unit → Option (Result × Transport Unit × List Call)
  unfolding zenbedded_transport_publish
  publish_active false tv puts c t = some (enodev, t, [])
  publish_active true tv puts c t = do
    payload ← copy_active c.base.state_payload_size c.state
    sent ←
        zenbedded_transport_publish config.tier config.printer Unit c.base.publisher payload tv puts
          t
    some (published sent)

  unfoldable pub zenoh_publish_state :
      ℕ × ℕ → Bool → Client → Transport Unit → Option (Result × Transport Unit × List Call)
  unfolding publish_active
  zenoh_publish_state tv puts c t = publish_active c.base.initialized tv puts c t

  unfoldable pub write_command_to_buffer : Buffer → Client → Option Client
  write_command_to_buffer payload c = do
    let i = other c.command.active
    bytes ← store 0 payload (c.command.content i)
    some (record c { command = commit i bytes c.command; accepted = atomic_inc c.accepted })

  unfoldable pub on_transport_cmd_cb : Buffer → Client → Option Client
  unfolding write_command_to_buffer
  on_transport_cmd_cb payload c =
      if length payload == c.base.cmd_payload_size
      then write_command_to_buffer payload c
      else some c

  unfoldable pub read_command_in : Bool → C.Value → Client → Option (Bool × C.Value)
  read_command_in false out c = some (false, out)
  read_command_in true out c = do
    payload ← copy_active c.base.cmd_payload_size c.command
    C.read c.cmd_ctx payload c.base.cmd_payload_size out

  unfoldable pub read_command : C.Value → Client → Option (Bool × C.Value)
  unfolding read_command_in
  read_command out c = read_command_in c.base.initialized out c
