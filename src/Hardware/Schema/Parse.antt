-- ===== src/Hardware/Schema/Parse.antt =====
-- zenbedded_hardware_interface/src/interface_schema.cpp: reading the schema. yaml-cpp and the file
-- system are parameters: what they give is a document as the source walks it.
use Prim.Native.String.{String}
use text.Mathlib.Text.{◌==◌ as str_eq}
use zephyr_zenoh_integration.Prelude.{
  ℕ, ◌+◌, true, ◌||◌, List, [], ◌∷◌, ◌++◌, Option, none, some, if◌then◌else◌,
}
use zephyr_zenoh_integration.Hardware.Schema.Types.{
  FieldType, float32, float64, int32, uint64, int16, uint8, FlatField, SchemaError,
  missing_state_interfaces, missing_command_interfaces, unknown_type, yaml_error, cannot_open,
  InterfaceSchema, empty_schema, field_byte_size,
}

-- A scalar read by `as<std::string>()`, which throws with a message on any other node.
pub data Scalar : Type 0 where
  string : String → Scalar
  throws : (what : String) → Scalar

-- A component and its fields, each a name and a type, in the order of the document.
pub record ComponentNode : Type 0 where
  pub name : Scalar
  pub fields : List (Scalar × Scalar)

-- `YAML::Load`: an exception, or the two sections that the source asks for, `none` if missing.
pub data Document : Type 0 where
  malformed : (what : String) → Document
  root : (state_interfaces command_interfaces : Option (List ComponentNode)) → Document

-- The type, or the text that names none: then the source sets the error and returns type 0.
unfoldable pub parse_field_type : String → Option FieldType
parse_field_type s =
    if str_eq s "float32"
    then some float32
    else if str_eq s "float64" || str_eq s "double"
    then some float64
    else if str_eq s "int32"
    then some int32
    else if str_eq s "uint64"
    then some uint64
    else if str_eq s "int16"
    then some int16
    else if str_eq s "uint8"
    then some uint8
    else none

-- How a loop ends: to its end, by `return false` with the error, or by an exception.
pub data Ending : Type 0 where
  completed : Ending
  failed : SchemaError → Ending
  thrown : (what : String) → Ending

-- The fields and the size that a loop has reached, kept also when it stops early.
pub record Progress : Type 0 where
  pub fields : List FlatField
  pub size : ℕ
  pub ending : Ending

abbrev pub stop : List FlatField → ℕ → Ending → Progress
stop fields size ending = record { fields = fields; size = size; ending = ending }

unfoldable pub parse_component_fields :
    List (Scalar × Scalar) → String → List FlatField → ℕ → Progress
parse_component_fields [] name fields size = stop fields size completed
parse_component_fields ((throws what, type) ∷ rest) name fields size =
    stop fields size (thrown what)
parse_component_fields ((string field, throws what) ∷ rest) name fields size =
    stop fields size (thrown what)
parse_component_fields ((string field, string type) ∷ rest) name fields size =
    elim (parse_field_type type) [
      | none ↦ stop fields size (failed (unknown_type field name type))
      | some t ↦
          parse_component_fields rest name
            (fields
              ++ record { component = name; field = field; type = t; byte_offset = size } ∷ [])
            (size + field_byte_size t)
    ]

-- A loop that goes on where another one has completed.
abbrev pub go_on : Ending → Progress → (List FlatField → ℕ → Progress) → Progress
go_on completed p k = k p.fields p.size
go_on (failed e) p k = p
go_on (thrown what) p k = p

-- One component: its name is read first.
unfoldable pub parse_component :
    Scalar
    → List (Scalar × Scalar)
    → List FlatField
    → ℕ
    → (List FlatField → ℕ → Progress)
    → Progress
parse_component (throws what) nodes fields size k = stop fields size (thrown what)
parse_component (string name) nodes fields size k =
    let p = parse_component_fields nodes name fields size in go_on p.ending p k

-- `for (const auto & component : root[section])`
unfoldable pub parse_section : List ComponentNode → List FlatField → ℕ → Progress
parse_section [] fields size = stop fields size completed
parse_section (c ∷ cs) fields size = parse_component c.name c.fields fields size (parse_section cs)

abbrev pub with_state : InterfaceSchema → Progress → InterfaceSchema
with_state schema p = record schema { state_flat_fields = p.fields; state_buffer_size = p.size }

abbrev pub with_commands : InterfaceSchema → Progress → InterfaceSchema
with_commands schema p = record schema {
  command_flat_fields = p.fields;
  command_buffer_size = p.size;
}

abbrev pub fail : InterfaceSchema → SchemaError → InterfaceSchema
fail schema e = record schema { error = some e }

-- The end of a section: go on, or give up with the error.
abbrev pub close_section : InterfaceSchema → Ending → InterfaceSchema → InterfaceSchema
close_section schema completed next = next
close_section schema (failed e) next = fail schema e
close_section schema (thrown what) next = fail schema (yaml_error what)

unfoldable pub parse_sections : List ComponentNode → List ComponentNode → InterfaceSchema
parse_sections states commands =
    let s = parse_section states [] 0 in
    let c = parse_section commands [] 0 in
    let with_s = with_state empty_schema s in
    let with_c = with_commands with_s c in
    close_section with_s s.ending (close_section with_c c.ending (record with_c { valid = true }))

unfoldable pub from_document : Document → InterfaceSchema
from_document (malformed what) = fail empty_schema (yaml_error what)
from_document (root none commands) = fail empty_schema missing_state_interfaces
from_document (root (some states) none) = fail empty_schema missing_command_interfaces
from_document (root (some states) (some commands)) = parse_sections states commands

-- `load` is `YAML::Load`, and `read_file` gives the text of a file, `none` if it cannot be opened.
module _ (load : String → Document) (read_file : String → Option String) where
  unfoldable pub from_yaml : String → InterfaceSchema
  from_yaml yaml_text = from_document (load yaml_text)

  unfoldable pub from_yaml_file : String → InterfaceSchema
  unfolding from_yaml
  from_yaml_file path = elim (read_file path) [
    | none ↦ fail empty_schema (cannot_open path)
    | some content ↦ from_yaml content
  ]
