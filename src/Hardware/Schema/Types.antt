-- ===== src/Hardware/Schema/Types.antt =====
-- zenbedded_hardware_interface/include/zenbedded_hardware_interface/interface_schema.hpp.
use Prim.Native.String.{String}
use zephyr_zenoh_integration.Prelude.{ℕ, Bool, false, List, [], Option, none}

pub data FieldType : Type 0 where
  float32 float64 int32 uint64 int16 uint8 : FieldType

pub record FlatField : Type 0 where
  pub component : String
  pub field : String
  pub type : FieldType
  pub byte_offset : ℕ

-- The messages that `error_` can hold, with the texts that they name.
pub data SchemaError : Type 0 where
  missing_state_interfaces : SchemaError
  missing_command_interfaces : SchemaError
  unknown_type : (field component type : String) → SchemaError
  yaml_error : (what : String) → SchemaError
  cannot_open : (path : String) → SchemaError

pub record InterfaceSchema : Type 0 where
  pub valid : Bool
  pub error : Option SchemaError
  pub state_buffer_size : ℕ
  pub command_buffer_size : ℕ
  pub state_flat_fields : List FlatField
  pub command_flat_fields : List FlatField

-- `InterfaceSchema schema;`
abbrev pub empty_schema : InterfaceSchema
empty_schema = record {
  valid = false;
  error = none;
  state_buffer_size = 0;
  command_buffer_size = 0;
  state_flat_fields = [];
  command_flat_fields = [];
}

unfoldable pub field_byte_size : FieldType → ℕ
field_byte_size float32 = 4
field_byte_size float64 = 8
field_byte_size int32 = 4
field_byte_size uint64 = 8
field_byte_size int16 = 2
field_byte_size uint8 = 1
