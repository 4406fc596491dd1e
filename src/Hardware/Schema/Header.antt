-- ===== src/Hardware/Schema/Header.antt =====
-- zenbedded_hardware_interface/src/interface_schema.cpp: the generated C header places its members
-- where the schema has its fields.
use Prim.Native.String.{String}
use zephyr_zenoh_integration.Prelude.{
  ℕ, ◌+◌, ◌-◌, ◌*◌, ◌/◌, ◌≡◌, refl, sym, ap, ◌∙◌, Bool, true, false, List, [], ◌∷◌, ◌++◌, Option,
  some, none, map, map_option, arith, ltb, if◌then◌else◌,
}
use zephyr_zenoh_integration.Hardware.Schema.Types.{
  FieldType, float32, float64, int32, uint64, int16, uint8, FlatField, InterfaceSchema,
  field_byte_size,
}
use zephyr_zenoh_integration.Hardware.Schema.Fields.{
  CType, c_float, c_double, c_int32, c_uint64, c_int16, c_uint8, field_type_to_c_type, HeaderLine,
  guard_begin, include_stdint, pack_push, struct_begin, pack_pop, guard_end, define_state_size,
  define_command_size, member, struct_end, members, write_c_header,
}
use zephyr_zenoh_integration.Hardware.Schema.Packing.{Packed, IsLaidOut}

-- How a value of a type is stored: its kind and its bytes.
pub data Stored : Type 0 where
  floating signed unsigned : (bytes : ℕ) → Stored

abbrev bytes_of : Stored → ℕ
bytes_of (floating n) = n
bytes_of (signed n) = n
bytes_of (unsigned n) = n

-- What the field types of the schema stand for.
abbrev pub stored : FieldType → Stored
stored float32 = floating 4
stored float64 = floating 8
stored int32 = signed 4
stored uint64 = unsigned 8
stored int16 = signed 2
stored uint8 = unsigned 1

-- What a C compiler stores for a type; those of stdint.h are known once it is included.
abbrev c_stored : CType → Stored
c_stored c_float = floating 4
c_stored c_double = floating 8
c_stored c_int32 = signed 4
c_stored c_uint64 = unsigned 8
c_stored c_int16 = signed 2
c_stored c_uint8 = unsigned 1

abbrev known : Bool → CType → Option Stored
known stdint c_float = some (c_stored c_float)
known stdint c_double = some (c_stored c_double)
known true t = some (c_stored t)
known false t = none

abbrev size_of : CType → ℕ
size_of t = bytes_of (c_stored t)

-- Under a packing of 1 nothing is aligned, else a member is aligned to its size.
abbrev alignment : Bool → CType → ℕ
alignment true t = 1
alignment false t = size_of t

abbrev round_up : ℕ → ℕ → ℕ
round_up at align = (at + (align - 1)) / align * align

abbrev larger : ℕ → ℕ → ℕ
larger a b = if ltb a b then b else a

-- What a C compiler makes of the header: the size macros, how and where each member is stored in its
-- struct, `sizeof` of each struct, and whether the packing of 1 is left on for what includes it.
pub data Placed : Type 0 where
  state_macro command_macro : ℕ → Placed
  member_at : Option Stored → (component field : String) → ℕ → Placed
  struct_of : (name : String) → (size : ℕ) → Placed
  leaves_packed : Bool → Placed

-- `packed` and `stdint` tell what the lines before have set; `at` is the end of the last member and
-- `align` the alignment of the struct so far.
abbrev pub compile : (packed stdint : Bool) → (at align : ℕ) → List HeaderLine → List Placed
compile packed stdint at align [] = leaves_packed packed ∷ []
compile packed stdint at align (guard_begin ∷ ls) = compile packed stdint at align ls
compile packed stdint at align (include_stdint ∷ ls) = compile packed true at align ls
compile packed stdint at align (pack_push ∷ ls) = compile true stdint at align ls
compile packed stdint at align (pack_pop ∷ ls) = compile false stdint at align ls
compile packed stdint at align (guard_end ∷ ls) = compile packed stdint at align ls
compile packed stdint at align (struct_begin ∷ ls) = compile packed stdint 0 1 ls
compile packed stdint at align (define_state_size n ∷ ls) =
    state_macro n ∷ compile packed stdint at align ls
compile packed stdint at align (define_command_size n ∷ ls) =
    command_macro n ∷ compile packed stdint at align ls
compile packed stdint at align (member t c f ∷ ls) =
    let own = alignment packed t in
    let start = round_up at own in
    member_at (known stdint t) c f start
    ∷ compile packed stdint (start + size_of t) (larger align own) ls
compile packed stdint at align (struct_end name ∷ ls) =
    struct_of name (round_up at align) ∷ compile packed stdint at align ls

abbrev pub place : FlatField → Placed
place f = member_at (some (stored f.type)) f.component f.field f.byte_offset

known-field_type_to_c_type : (t : FieldType) → known true (field_type_to_c_type t) ≡ some (stored t)
unfolding field_type_to_c_type
known-field_type_to_c_type float32 = refl
known-field_type_to_c_type float64 = refl
known-field_type_to_c_type int32 = refl
known-field_type_to_c_type uint64 = refl
known-field_type_to_c_type int16 = refl
known-field_type_to_c_type uint8 = refl

size_of-field_type_to_c_type :
    (t : FieldType) → size_of (field_type_to_c_type t) ≡ field_byte_size t
unfolding field_type_to_c_type field_byte_size
size_of-field_type_to_c_type float32 = refl
size_of-field_type_to_c_type float64 = refl
size_of-field_type_to_c_type int32 = refl
size_of-field_type_to_c_type uint64 = refl
size_of-field_type_to_c_type int16 = refl
size_of-field_type_to_c_type uint8 = refl

round_up-one : (at : ℕ) → round_up at 1 ≡ at
round_up-one at = omega arith

-- Under a packing of 1 the members follow each other.
compile-members :
    (at end : ℕ) (fs : List FlatField) (rest : List HeaderLine)
    → Packed at fs end
    → compile true true at 1 (members fs ++ rest) ≡ map place fs ++ compile true true end 1 rest
compile-members at end [] rest p = ap (λ (k : ℕ). compile true true k 1 rest) p
compile-members at end (f ∷ fs) rest p =
    ap
      (λ (k : ℕ).
        member_at (known true (field_type_to_c_type f.type)) f.component f.field k
        ∷ compile true true (k + size_of (field_type_to_c_type f.type)) 1 (members fs ++ rest))
      (round_up-one at)
    ∙ ap
        (λ o.
          member_at o f.component f.field at
          ∷ compile true true (at + size_of (field_type_to_c_type f.type)) 1 (members fs ++ rest))
        (known-field_type_to_c_type f.type)
    ∙ ap
        (λ (k : ℕ).
          member_at (some (stored f.type)) f.component f.field at
          ∷ compile true true (at + k) 1 (members fs ++ rest))
        (size_of-field_type_to_c_type f.type)
    ∙ ap
        (λ (k : ℕ).
          member_at (some (stored f.type)) f.component f.field k
          ∷ compile true true (at + field_byte_size f.type) 1 (members fs ++ rest))
        (sym p.0)
    ∙ ap (λ ps. place f ∷ ps) (compile-members (at + field_byte_size f.type) end fs rest p.1)

-- The end of a struct, under a packing of 1.
compile-struct :
    (end : ℕ) (fs : List FlatField) (name : String) (rest : List HeaderLine)
    → Packed 0 fs end
    → compile true true 0 1 (members fs ++ struct_end name ∷ rest)
      ≡ map place fs ++ struct_of name end ∷ compile true true end 1 rest
compile-struct end fs name rest p =
    compile-members 0 end fs (struct_end name ∷ rest) p
    ∙ ap (λ (k : ℕ). map place fs ++ struct_of name k ∷ compile true true end 1 rest)
        (round_up-one end)

-- For a valid schema whose fields are packed, and a file that can be opened: in the header that
-- `write_c_header` writes, read by a C compiler that aligns members to their size unless a packing is
-- set, every state and command member lies at the byte offset of its field, as a floating, signed or
-- unsigned number of the bytes that the field's type names, in the order of the schema. The structs
-- and the macros have the schema's buffer sizes, and the packing is not left on.
pub compile-write_c_header :
    (schema : InterfaceSchema)
    → IsLaidOut schema
    → schema.valid ≡ true
    → map_option (compile false false 0 1) (write_c_header schema true)
      ≡ some (
          state_macro schema.state_buffer_size
          ∷ command_macro schema.command_buffer_size
          ∷ (map place schema.state_flat_fields
              ++ struct_of "zenbedded_state_t" schema.state_buffer_size
                ∷ (map place schema.command_flat_fields
                    ++ struct_of "zenbedded_command_t" schema.command_buffer_size
                      ∷ leaves_packed false
                      ∷ [])))
unfolding write_c_header
compile-write_c_header schema laid v = rw v (
    ap
      (λ ps.
        some (state_macro schema.state_buffer_size ∷ command_macro schema.command_buffer_size ∷ ps))
      (compile-struct schema.state_buffer_size schema.state_flat_fields "zenbedded_state_t" _
          laid.states
        ∙ ap
            (λ ps.
              map place schema.state_flat_fields
              ++ struct_of "zenbedded_state_t" schema.state_buffer_size ∷ ps)
            (compile-struct schema.command_buffer_size schema.command_flat_fields
              "zenbedded_command_t" _ laid.commands)))
