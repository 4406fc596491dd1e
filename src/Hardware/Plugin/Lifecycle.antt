-- ===== src/Hardware/Plugin/Lifecycle.antt =====
-- zenbedded_hardware_interface/src/zenbedded_hardware.cpp: on_init, the exported interfaces,
-- on_activate and on_deactivate.
use Prim.Native.String.{String}
use zephyr_zenoh_integration.Prelude.{
  ℕ, suc, Bool, true, false, List, [], ◌∷◌, Option, none, some, map, length, if◌then◌else◌,
}
use zephyr_zenoh_integration.Prelude.Bytes.{zeros}
use zephyr_zenoh_integration.Hardware.Schema.Types.{FlatField}
use zephyr_zenoh_integration.Hardware.Schema.Parse.{Document, from_yaml_file}
use zephyr_zenoh_integration.Hardware.Plugin.State.{
  Platform, CallbackReturn, success, error, ZenbeddedHardware, resize,
}

-- An interface handle: its names and the entry of the vector that it points to.
pub record Handle : Type 0 where
  pub component : String
  pub field : String
  pub index : ℕ

-- `for (size_t i = 0; i < fields.size(); i++)` of the two export functions.
unfoldable pub handles : ℕ → List FlatField → List Handle
handles i [] = []
handles i (f ∷ fs) =
    record { component = f.component; field = f.field; index = i } ∷ handles (suc i) fs

-- Where opening the zenoh session throws, if it does.
pub data Opening : Type 0 where
  session_throws subscriber_throws publisher_throws opened : Opening

module _ (platform : Platform) where
  unfoldable pub export_state_interfaces : ZenbeddedHardware platform → List Handle
  unfolding handles
  export_state_interfaces hw = handles 0 hw.schema.state_flat_fields

  unfoldable pub export_command_interfaces : ZenbeddedHardware platform → List Handle
  unfolding handles
  export_command_interfaces hw = handles 0 hw.schema.command_flat_fields

  -- `std::map::at`: without the key, `on_init` gives up with what it has stored so far.
  abbrev pub require :
      Option String
      → ZenbeddedHardware platform
      → (String → CallbackReturn × ZenbeddedHardware platform)
      → CallbackReturn × ZenbeddedHardware platform
  require none hw k = (error, hw)
  require (some value) hw k = k value

  abbrev pub default_mode : Option String → String
  default_mode none = "client"
  default_mode (some mode) = mode

  -- The vectors and buffers for a valid schema; `schema_` is already the one that was read.
  abbrev pub allocate :
      Bool → ZenbeddedHardware platform → CallbackReturn × ZenbeddedHardware platform
  allocate false hw = (error, hw)
  allocate true hw = (
    success,
    record hw {
      hw_states = resize (length hw.schema.state_flat_fields) platform.quiet_nan hw.hw_states;
      hw_commands = resize (length hw.schema.command_flat_fields) platform.quiet_nan hw.hw_commands;
      state_buffer =
          platform.buffers.write_from_non_rt (zeros hw.schema.state_buffer_size) hw.state_buffer;
      command_buffer = resize hw.schema.command_buffer_size 0 hw.command_buffer;
    },
  )

  -- `base` says whether `SystemInterface::on_init` succeeded, `parameters` is the map of the URDF
  -- parameters, `load` and `read_file` are as for the schema.
  unfoldable pub on_init :
      (load : String → Document)
      → (read_file : String → Option String) → (base : Bool) → (parameters : String → Option String)
      → ZenbeddedHardware platform
      → CallbackReturn × ZenbeddedHardware platform
  on_init load read_file false parameters hw = (error, hw)
  on_init load read_file true parameters hw = require (parameters "zenoh_endpoint") hw (λ endpoint.
      let with_endpoint : ZenbeddedHardware platform = record hw { zenoh_endpoint = endpoint } in
      require (parameters "state_topic") with_endpoint (λ state_topic.
        let with_state : ZenbeddedHardware platform = record with_endpoint {
          state_topic = state_topic;
        } in
        require (parameters "command_topic") with_state (λ command_topic.
          let with_topics : ZenbeddedHardware platform = record with_state {
            command_topic = command_topic;
            zenoh_mode = default_mode (parameters "zenoh_mode");
          } in
          require (parameters "schema_path") with_topics (λ path.
            let schema = from_yaml_file load read_file path in
            allocate schema.valid (record with_topics { schema = schema })))))

  -- `if (std::isnan(value)) value = 0;`
  abbrev pub cleaned : List ℕ → List ℕ
  cleaned = map (λ value. if platform.is_nan value then 0 else value)

  -- A pointer is set only once its object exists, so that a later exception leaves the earlier ones.
  unfoldable pub on_activate :
      Opening → ZenbeddedHardware platform → CallbackReturn × ZenbeddedHardware platform
  on_activate session_throws hw = (error, hw)
  on_activate subscriber_throws hw = (error, record hw { session = true })
  on_activate publisher_throws hw = (error, record hw { session = true; state_sub = true })
  on_activate opened hw = (
    success,
    record hw {
      session = true;
      state_sub = true;
      command_pub = true;
      hw_states = cleaned hw.hw_states;
      hw_commands = cleaned hw.hw_commands;
    },
  )

  unfoldable pub on_deactivate :
      ZenbeddedHardware platform → CallbackReturn × ZenbeddedHardware platform
  on_deactivate hw =
      (success, record hw { state_sub = false; command_pub = false; session = false })
