-- ===== src/Hardware/Schema/Fields.antt =====
-- zenbedded_hardware_interface/src/interface_schema.cpp: reading and writing one field of a buffer,
-- and the generated C header. A double is its 64-bit pattern; the conversions of the C++ compiler
-- between it and the other types are parameters.
use Prim.Native.String.{String}
use zephyr_zenoh_integration.Prelude.{
  ℕ, ◌^◌, ◌<◌, Bool, true, false, List, [], ◌∷◌, ◌++◌, Option, none, some, ◌>>=◌, map, get_elem?,
}
use zephyr_zenoh_integration.Prelude.Bytes.{Buffer, le_bytes, le_value, store, load}
use zephyr_zenoh_integration.Hardware.Schema.Types.{
  FieldType, float32, float64, int32, uint64, int16, uint8, FlatField, InterfaceSchema,
  field_byte_size,
}

-- `static_cast` between a double and the bit patterns of the types: what an object of each type
-- holds is below 256 to the power of its size.
pub record Casts : Type 0 where
  pub to_double : FieldType → ℕ → ℕ
  pub from_double : FieldType → ℕ → ℕ
  pub fits : (t : FieldType) (x : ℕ) → from_double t x < 256 ^ field_byte_size t

module _ (casts : Casts) where
  -- `T v; memcpy(&v, buffer + f.byte_offset, sizeof(T)); value = static_cast<double>(v);`
  unfoldable pub read_field : List FlatField → Buffer → ℕ → Option ℕ
  read_field fields buffer field_index = elim (get_elem? fields field_index) [
    | none ↦ some 0
    | some f ↦ do
      bytes ← load f.byte_offset (field_byte_size f.type) buffer
      some (casts.to_double f.type (le_value bytes))
  ]

  unfoldable pub read_state_field : InterfaceSchema → Buffer → ℕ → Option ℕ
  unfolding read_field
  read_state_field schema = read_field schema.state_flat_fields

  unfoldable pub read_command_field : InterfaceSchema → Buffer → ℕ → Option ℕ
  unfolding read_field
  read_command_field schema = read_field schema.command_flat_fields

  -- `T v = static_cast<T>(value); memcpy(buffer + f.byte_offset, &v, sizeof(T));`
  unfoldable pub write_command_field : InterfaceSchema → Buffer → ℕ → ℕ → Option Buffer
  write_command_field schema buffer field_index value =
      elim (get_elem? schema.command_flat_fields field_index) [
        | none ↦ some buffer
        | some f ↦
            store f.byte_offset (le_bytes (field_byte_size f.type) (casts.from_double f.type value))
              buffer
      ]

-- The types that the C header uses.
pub data CType : Type 0 where
  c_float c_double c_int32 c_uint64 c_int16 c_uint8 : CType

unfoldable pub field_type_to_c_type : FieldType → CType
field_type_to_c_type float32 = c_float
field_type_to_c_type float64 = c_double
field_type_to_c_type int32 = c_int32
field_type_to_c_type uint64 = c_uint64
field_type_to_c_type int16 = c_int16
field_type_to_c_type uint8 = c_uint8

-- One output statement of the header.
pub data HeaderLine : Type 0 where
  guard_begin include_stdint pack_push struct_begin pack_pop guard_end : HeaderLine
  define_state_size define_command_size : ℕ → HeaderLine
  member : CType → (component field : String) → HeaderLine
  struct_end : (name : String) → HeaderLine

abbrev pub members : List FlatField → List HeaderLine
members = map (λ f. member (field_type_to_c_type f.type) f.component f.field)

-- `opens` says whether the output file can be opened; `none` stands for `return false`.
unfoldable pub write_c_header : InterfaceSchema → Bool → Option (List HeaderLine)
write_c_header schema opens = elim schema.valid [
  | false ↦ none
  | true ↦ elim opens [
    | false ↦ none
    | true ↦ some (
        guard_begin
        ∷ include_stdint
        ∷ define_state_size schema.state_buffer_size
        ∷ define_command_size schema.command_buffer_size
        ∷ pack_push
        ∷ struct_begin
        ∷ (members schema.state_flat_fields
            ++ struct_end "zenbedded_state_t"
              ∷ struct_begin
              ∷ (members schema.command_flat_fields
                  ++ struct_end "zenbedded_command_t" ∷ pack_pop ∷ guard_end ∷ [])))
  ]
]
