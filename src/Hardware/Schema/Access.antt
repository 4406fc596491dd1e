-- ===== src/Hardware/Schema/Access.antt =====
-- zenbedded_hardware_interface/src/interface_schema.cpp: reading and writing the fields of a buffer
-- of a packed schema.
use zephyr_zenoh_integration.Prelude.{
  ℕ, ◌+◌, ◌≤◌, ◌≡◌, ◌≢◌, refl, sym, ap, ◌∙◌, ◌⊎◌, inl, inr, List, some, ◌>>=◌, arith, get_elem?,
  Option-cases, length, bind_step, take, drop,
}
use zephyr_zenoh_integration.Prelude.Bytes.{
  Buffer, le_bytes, le_value, store, store-fits, length-store, load-store_self, load-store_ne,
  length-le_bytes, le_value-le_bytes, load-fits,
}
use zephyr_zenoh_integration.Hardware.Schema.Types.{FlatField, InterfaceSchema, field_byte_size}
use zephyr_zenoh_integration.Hardware.Schema.Fields.{
  Casts, read_field, read_command_field, write_command_field,
}
use zephyr_zenoh_integration.Hardware.Schema.Packing.{
  Packed, Packed-within, Packed-Apart, IsLaidOut,
}

module _ (casts : Casts) where
  -- What the buffer holds for a field.
  abbrev pub field_value : FlatField → Buffer → ℕ
  field_value f buffer =
      casts.to_double f.type (le_value (take (field_byte_size f.type) (drop f.byte_offset buffer)))

  -- A field within the buffer is read without a fault.
  pub read_field-value :
      (fs : List FlatField) (end i : ℕ) (f : FlatField) (buffer : Buffer)
      → Packed 0 fs end
      → get_elem? fs i ≡ some f
      → length buffer ≡ end
      → read_field casts fs buffer i ≡ some (field_value f buffer)
  unfolding read_field
  read_field-value fs end i f buffer p h e =
      rw (h, read_field)
        (bind_step _ (load-fits _ _ buffer (omega (arith, Packed-within 0 end fs i f p h, e))) refl)

  module _ (schema : InterfaceSchema) (laid : IsLaidOut schema) (i : ℕ) (f : FlatField)
      (h : get_elem? schema.command_flat_fields i ≡ some f) (buffer : Buffer)
      (e : length buffer ≡ schema.command_buffer_size) (value : ℕ) where
    word : Buffer
    word = le_bytes (field_byte_size f.type) (casts.from_double f.type value)

    length-word : length word ≡ field_byte_size f.type
    unfolding word
    length-word = length-le_bytes _ _

    -- The write of a field is a write within the buffer.
    write_command_field-store :
        (b : Buffer) → write_command_field casts schema b i value ≡ store f.byte_offset word b
    unfolding write_command_field word
    write_command_field-store b = rw (h, write_command_field)

    module _ {written : Buffer} (stored : store f.byte_offset word buffer ≡ some written) where
      read_stored :
          read_command_field casts schema written i
          ≡ some (casts.to_double f.type (casts.from_double f.type value))
      unfolding read_command_field read_field word
      read_stored =
          rw (h, read_field)
            (bind_step _ (load-store_self f.byte_offset _ word buffer stored (sym length-word)) (
              ap (λ (x : ℕ). some (casts.to_double f.type x))
                (le_value-le_bytes _ _ (casts.fits f.type value))))

      read_other :
          (j : ℕ)
          → i ≢ j
          → read_command_field casts schema written j ≡ read_command_field casts schema buffer j
      unfolding read_command_field read_field
      read_other j ne = elim (Option-cases (get_elem? schema.command_flat_fields j)) [
        | inl q ↦ rw (q, read_field) refl
        | inr (g, q) ↦
            rw (q, read_field)
              (ap (λ m. m >>= (λ bytes. some (casts.to_double g.type (le_value bytes))))
                (load-store_ne f.byte_offset g.byte_offset _ word buffer stored (apart g q)))
      ]
        where
          apart :
              (g : FlatField)
              → get_elem? schema.command_flat_fields j ≡ some g
              → (g.byte_offset + field_byte_size g.type ≤ f.byte_offset)
                ⊎ (f.byte_offset + length word ≤ g.byte_offset)
          apart g q = elim (Packed-Apart 0 _ _ i j f g laid.commands h q ne) [
            | inl before ↦ inr (omega (arith, before, length-word))
            | inr behind ↦ inl behind
          ]

    -- For a packed schema, a command field and a buffer of the schema's command size:
    -- `write_command_field` writes within the buffer; `read_command_field` then gives the value
    -- after the casts to the field's type and back, and every other index reads as before.
    pub write_command_field-reads :
        (written : Buffer) × (write_command_field casts schema buffer i value ≡ some written)
        × (length written ≡ length buffer)
        × (read_command_field casts schema written i
            ≡ some (casts.to_double f.type (casts.from_double f.type value)))
        × ((j : ℕ)
            → i ≢ j
            → read_command_field casts schema written j ≡ read_command_field casts schema buffer j)
    write_command_field-reads =
        let (_, high) = Packed-within 0 schema.command_buffer_size _ i f laid.commands h in
        let fits = store-fits f.byte_offset word buffer (omega (arith, high, e, length-word)) in
        (
          _,
          write_command_field-store buffer ∙ fits,
          length-store f.byte_offset word buffer fits,
          read_stored fits,
          λ j ne. read_other fits j ne,
        )
