-- ===== src/Hardware/Plugin/Examples.antt =====
-- zenbedded_hardware_interface: a schema of two states and two commands, and the plugin over it.
use Prim.Native.String.{String}
use native.Mathlib.Nat.{mod-lt, pow-suc}
use zephyr_zenoh_integration.Prelude.{
  ℕ, zero, suc, ◌%◌, ◌^◌, ◌<◌, ◌≡◌, ◌≢◌, refl, ◌==◌, ◌↔◌, true, false, List, [], ◌∷◌, Option, none,
  some, arith, get_elem?, length, map, ◌++◌, map_option,
}
use zephyr_zenoh_integration.Prelude.Bytes.{Buffer, zeros}
use zephyr_zenoh_integration.Hardware.Schema.Types.{
  FlatField, InterfaceSchema, field_byte_size, float64,
}
use zephyr_zenoh_integration.Hardware.Schema.Parse.{
  Document, root, string, parse_field_type, parse_component_fields, parse_component, parse_section,
  parse_sections, from_document, from_yaml, from_yaml_file,
}
use zephyr_zenoh_integration.Hardware.Schema.Fields.{
  read_command_field, write_command_field, write_c_header,
}
use zephyr_zenoh_integration.Hardware.Schema.Packing.{IsLaidOut, from_document-IsLaidOut}
use zephyr_zenoh_integration.Hardware.Schema.Validity.{from_document-valid_iff}
use zephyr_zenoh_integration.Hardware.Schema.Header.{
  compile, state_macro, command_macro, place, struct_of, leaves_packed, compile-write_c_header,
}
use zephyr_zenoh_integration.Hardware.Schema.Access.{write_command_field-reads}
use zephyr_zenoh_integration.Hardware.Plugin.State.{
  Platform, CallbackReturn, success, ZenbeddedHardware, IsReady,
}
use zephyr_zenoh_integration.Hardware.Plugin.Lifecycle.{on_init, opened, publisher_throws}
use zephyr_zenoh_integration.Hardware.Plugin.Loop.{on_state, read, write}
use zephyr_zenoh_integration.Hardware.Plugin.Cycle.{decoded}
use zephyr_zenoh_integration.Hardware.Plugin.Readiness.{kept, on_state-read, Outcome, write-Outcome}
use zephyr_zenoh_integration.Hardware.Plugin.Startup.{IsStartable, on_init-IsReady}
use zephyr_zenoh_integration.Hardware.Plugin.Events.{
  Event, activate, deactivate, read_cycle, write_cycle, receive, command, Runs, run_all,
  run_all-Runs,
}

abbrev document : Document
document =
    root
      (some (
        record {
          name = string "wheel";
          fields = (string "position", string "float64") ∷ (string "effort", string "float32") ∷ [];
        }
        ∷ []))
      (some (
        record {
          name = string "wheel";
          fields = (string "led", string "uint8") ∷ (string "velocity", string "double") ∷ [];
        }
        ∷ []))

abbrev schema : InterfaceSchema
schema = from_document document

pow-positive : (w : ℕ) → 0 < 256 ^ w
pow-positive zero = omega arith
pow-positive (suc w) = omega (arith, pow-suc 256 w, pow-positive w)

-- Conversions that keep the low bytes.
mod-fits : (w x : ℕ) → x % 256 ^ w < 256 ^ w
mod-fits w x = mod-lt x (pow-positive w)

abbrev platform : Platform
platform = record {
  casts = record {
    to_double = λ t x. x;
    from_double = λ t x. x % 256 ^ field_byte_size t;
    fits = λ t x. mod-fits (field_byte_size t) x;
  };
  buffers = record {
    Cell = Buffer;
    write_from_non_rt = λ bytes c. bytes;
    read_from_rt = λ c. (some c, c);
    latest = λ c. c;
    latest-write_from_non_rt = λ bytes c. refl;
    read_from_rt-latest = λ c. refl;
    latest-read_from_rt = λ c. refl;
  };
  quiet_nan = 9221120237041090560;
  is_nan = λ v. v == 9221120237041090560;
}

abbrev schema_file : String → Option String
schema_file path = some ""

abbrev blank : ZenbeddedHardware platform
blank = record {
  session = false;
  schema = from_document (root none none);
  state_buffer = [];
  command_buffer = [];
  state_sub = false;
  command_pub = false;
  hw_commands = [];
  hw_states = [];
  zenoh_endpoint = "";
  zenoh_mode = "";
  state_topic = "";
  command_topic = "";
}

abbrev started : CallbackReturn × ZenbeddedHardware platform
started = on_init platform (λ yaml. document) schema_file true (λ key. some key) blank

started-success : started.0 ≡ success
unfolding on_init from_yaml_file from_yaml from_document parse_sections parse_section
    parse_component parse_component_fields parse_field_type
started-success = refl

on_init-IsReady_example :
    (true ≡ true)
    × IsStartable (λ yaml. document) schema_file platform (λ key. some key)
    × IsReady platform started.1
on_init-IsReady_example =
    on_init-IsReady (λ yaml. document) schema_file platform true (λ key. some key) blank
      started-success

started-IsReady : IsReady platform started.1
started-IsReady =
    let (_, _, ready) =
      on_init-IsReady (λ yaml. document) schema_file platform true (λ key. some key) blank
        started-success in
    ready

abbrev payload : Buffer
payload = 1 ∷ 2 ∷ 0 ∷ 0 ∷ 0 ∷ 0 ∷ 0 ∷ 0 ∷ 7 ∷ 0 ∷ 0 ∷ 1 ∷ []

on_state-read_example :
    (next : ZenbeddedHardware platform) × (read platform (on_state platform payload started.1)
      ≡ some next)
    × (next.hw_states ≡ decoded platform started.1.schema (kept platform payload started.1))
on_state-read_example = on_state-read platform started.1 started-IsReady payload

abbrev active : ZenbeddedHardware platform
active = record started.1 { command_pub = true; hw_commands = 200 ∷ 300 ∷ [] }

active-IsReady : IsReady platform active
unfolding on_init from_yaml_file from_yaml from_document parse_sections parse_section
    parse_component parse_component_fields parse_field_type
active-IsReady = record {
  laid_out = started-IsReady.laid_out;
  states = started-IsReady.states;
  commands = refl;
  state_size = started-IsReady.state_size;
  command_size = started-IsReady.command_size;
}

write-Outcome_example :
    (next : ZenbeddedHardware platform) × (out : Option Buffer) × (write platform active
      ≡ some (next, out))
    × Outcome platform true active out
    × IsReady platform next
    × (next.schema ≡ active.schema)
write-Outcome_example = write-Outcome platform active active-IsReady

abbrev events : List Event
events =
    activate publisher_throws
    ∷ activate opened
    ∷ receive payload
    ∷ read_cycle
    ∷ command 1 300
    ∷ write_cycle
    ∷ receive []
    ∷ read_cycle
    ∷ deactivate
    ∷ []

run_all-Runs_example : Runs platform (run_all platform events started.1) started.1
unfolding on_init from_yaml_file from_yaml from_document parse_sections parse_section
    parse_component parse_component_fields parse_field_type
run_all-Runs_example = run_all-Runs platform events started.1 started-IsReady (omega arith, _)

from_document-IsLaidOut_example : IsLaidOut schema
from_document-IsLaidOut_example = from_document-IsLaidOut document

from_document-valid_iff_example : (schema.valid ≡ true) ↔ (schema.error ≡ none)
from_document-valid_iff_example = from_document-valid_iff document

schema-valid : schema.valid ≡ true
unfolding from_document parse_sections parse_section parse_component parse_component_fields
    parse_field_type
schema-valid = refl

compile-write_c_header_example :
    map_option (compile false false 0 1) (write_c_header schema true)
    ≡ some (
        state_macro schema.state_buffer_size
        ∷ command_macro schema.command_buffer_size
        ∷ (map place schema.state_flat_fields
            ++ struct_of "zenbedded_state_t" schema.state_buffer_size
              ∷ (map place schema.command_flat_fields
                  ++ struct_of "zenbedded_command_t" schema.command_buffer_size
                    ∷ leaves_packed false
                    ∷ [])))
compile-write_c_header_example =
    compile-write_c_header schema (from_document-IsLaidOut document) schema-valid

abbrev velocity : FlatField
velocity = record { component = "wheel"; field = "velocity"; type = float64; byte_offset = 1 }

second_command :
    (get_elem? schema.command_flat_fields 1 ≡ some velocity)
    × (length (zeros 9) ≡ schema.command_buffer_size)
unfolding from_document parse_sections parse_section parse_component parse_component_fields
    parse_field_type field_byte_size
second_command = (refl, refl)

write_command_field-reads_example :
    (written : Buffer) × (write_command_field platform.casts schema (zeros 9) 1 300 ≡ some written)
    × (length written ≡ length (zeros 9))
    × (read_command_field platform.casts schema written 1
        ≡ some (platform.casts.to_double float64 (platform.casts.from_double float64 300)))
    × ((j : ℕ)
        → 1 ≢ j
        → read_command_field platform.casts schema written j
          ≡ read_command_field platform.casts schema (zeros 9) j)
write_command_field-reads_example =
    write_command_field-reads platform.casts schema (from_document-IsLaidOut document) 1 velocity
      second_command.0 (zeros 9) second_command.1 300
