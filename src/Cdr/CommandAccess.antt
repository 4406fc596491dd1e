-- ===== src/Cdr/CommandAccess.antt =====
-- zenbedded_transport/src/serialization.c: a JointCommand buffer holds a message. `init` leaves the
-- blank one, `serialize` replaces members, `deserialize` reads them.
use zephyr_zenoh_integration.Prelude.{
  ℕ, zero, ◌+◌, ◌-◌, ◌*◌, ◌≤◌, ◌<◌, ◌≡◌, refl, sym, ap, subst, ◌∙◌, ◌⊎◌, inl, inr, Bool, Bool-cases,
  true, false, List, [], ◌∷◌, ◌++◌, Option, some, arith, length, length-append, append-nil,
  length-replicate, bind_step, ltb, if◌then◌else◌,
}
use zephyr_zenoh_integration.Prelude.Bytes.{Buffer, zeros, le_bytes}
use zephyr_zenoh_integration.Prelude.Segments.{concat, length-concat, store-segment}
use zephyr_zenoh_integration.Cdr.Cursor.{doubles}
use zephyr_zenoh_integration.Cdr.JointCommand.{
  JointCommandCtx, JointCommandTarget, zcdr_init_joint_command, zcdr_serialize_joint_command,
  zcdr_deserialize_joint_command,
}
use zephyr_zenoh_integration.Cdr.Reference.{cdr_joint_command, encapsulated}
use zephyr_zenoh_integration.Cdr.Layout.{at_body}
use zephyr_zenoh_integration.Cdr.StateSegments.{array_length}
use zephyr_zenoh_integration.Cdr.CommandInit.{
  CommandFits, joint_command_msg, joint_command_ctx, command_segments, command_strings,
  encoded_command, blank_command, command_template-blank, before_values, values_at,
  zcdr_init_joint_command_lem,
}
use zephyr_zenoh_integration.Cdr.Access.{
  or_old, Replaces, or_old-length, store_doubles-segment, over, HasRoom, fetch-segment,
  array_bytes_lem,
}

-- The targets that are given have room for what is read.
pub record HasCommandSpace (n : ℕ) (out : JointCommandTarget) : Type 0 where
  pub sec_space : HasRoom 4 out.stamp_sec
  pub nanosec_space : HasRoom 4 out.stamp_nanosec
  pub values_space : HasRoom (8 * n) out.values

-- The targets with the members of the message copied to them.
abbrev pub filled_command : ℕ → ℕ → List ℕ → JointCommandTarget → JointCommandTarget
filled_command sec nanosec values out = record {
  stamp_sec = over (le_bytes 4 sec) out.stamp_sec;
  stamp_nanosec = over (le_bytes 4 nanosec) out.stamp_nanosec;
  values = over (doubles values) out.values;
}

module _ (frame_id : Option (List ℕ)) (names : List (List ℕ)) (interface_name : Option (List ℕ))
    (fits : CommandFits frame_id names interface_name) (some_joint : 0 < length names) where
  abbrev n : ℕ
  n = length names

  abbrev ctx : JointCommandCtx
  ctx = joint_command_ctx frame_id names interface_name

  abbrev hdr : Buffer
  hdr = 0 ∷ 1 ∷ 0 ∷ 0 ∷ []

  abbrev strings : Buffer
  strings = command_strings frame_id names interface_name

  abbrev encoding : ℕ → ℕ → List ℕ → Buffer
  encoding sec nanosec values =
      encapsulated
        (cdr_joint_command (joint_command_msg frame_id names interface_name sec nanosec values))

  -- `init` on a cleared buffer leaves the message whose stamp and doubles are zero.
  pub init_command-blank :
      (room : ℕ)
      → length (cdr_joint_command (blank_command frame_id names interface_name)) ≤ room
      → zcdr_init_joint_command frame_id names n interface_name (zeros (4 + room))
        ≡ some (
          ctx,
          encapsulated (cdr_joint_command (blank_command frame_id names interface_name))
              ++ zeros
                  (room - length (cdr_joint_command (blank_command frame_id names interface_name))),
        )
  init_command-blank room h =
      let blank = command_template-blank frame_id names interface_name some_joint in
      zcdr_init_joint_command_lem frame_id names interface_name room fits
        (omega (arith, ap length blank))
      ∙ ap (λ b. some (ctx, (at_body room b).buffer)) blank

  module _ (sec nanosec : ℕ) (values : List ℕ) (e : length values ≡ n) where
    -- `payload_size` is the size of the encoded message.
    pub command_payload-size : ctx.payload_size ≡ length (encoding sec nanosec values)
    command_payload-size = omega (
      arith,
      values_at frame_id names interface_name,
      length-append (before_values frame_id names interface_name (zeros 8)) (zeros (8 * n)),
      length-replicate {0} (8 * n) zero,
      ap length (append-nil (encoding sec nanosec values)),
      ap length (encoded_command frame_id names interface_name sec nanosec values some_joint e []),
      length-concat (command_segments frame_id names interface_name sec nanosec values []),
      array_length n values e,
    )

    module _ (tail : Buffer) where
      -- `serialize` leaves the encoding of the message with the new stamp and the given values.
      pub serialize_command-held :
          (sec' nanosec' : ℕ) (given : Option (List ℕ))
          → Replaces given n
          → zcdr_serialize_joint_command ctx sec' nanosec' given
              (encoding sec nanosec values ++ tail)
            ≡ some (encoding sec' nanosec' (or_old given values) ++ tail)
      unfolding zcdr_serialize_joint_command
      serialize_command-held sec' nanosec' given r =
          ap (zcdr_serialize_joint_command ctx sec' nanosec' given)
            (encoded_command frame_id names interface_name sec nanosec values some_joint e tail)
          ∙ bind_step _
              (store-segment (hdr ∷ []) (le_bytes 4 sec)
                (le_bytes 4 nanosec ∷ strings ∷ doubles values ∷ tail ∷ []) 4 (le_bytes 4 sec') refl
                refl)
              (bind_step _
                (store-segment (hdr ∷ le_bytes 4 sec' ∷ []) (le_bytes 4 nanosec)
                  (strings ∷ doubles values ∷ tail ∷ []) 8 (le_bytes 4 nanosec') refl refl)
                (store_doubles-segment n fits.texts.count
                  (hdr ∷ le_bytes 4 sec' ∷ le_bytes 4 nanosec' ∷ strings ∷ []) values (tail ∷ [])
                  ctx.offset_values given (omega (arith, values_at frame_id names interface_name)) e
                  r))
          ∙ ap some (
              sym (
                encoded_command frame_id names interface_name sec' nanosec' (or_old given values)
                  some_joint (or_old-length given values n r e) tail))

      module _ (out : JointCommandTarget) (space : HasCommandSpace n out) where
        deserialize-segments :
            (size : ℕ)
            → ltb size ctx.payload_size ≡ false
            → zcdr_deserialize_joint_command ctx
                (concat (command_segments frame_id names interface_name sec nanosec values tail))
                size
                out
              ≡ some (true, filled_command sec nanosec values out)
        unfolding zcdr_deserialize_joint_command
        deserialize-segments size long = rw long (
            bind_step _
              (fetch-segment (hdr ∷ []) (le_bytes 4 sec)
                (le_bytes 4 nanosec ∷ strings ∷ doubles values ∷ tail ∷ []) 4 4 out.stamp_sec refl
                refl space.sec_space)
              (bind_step _
                (fetch-segment (hdr ∷ le_bytes 4 sec ∷ []) (le_bytes 4 nanosec)
                  (strings ∷ doubles values ∷ tail ∷ []) 8 4 out.stamp_nanosec refl refl
                  space.nanosec_space)
                (bind_step _
                  (fetch-segment (hdr ∷ le_bytes 4 sec ∷ le_bytes 4 nanosec ∷ strings ∷ [])
                    (doubles values) (tail ∷ []) ctx.offset_values _ out.values
                    (omega (arith, values_at frame_id names interface_name))
                    (array_bytes_lem n fits.texts.count ∙ sym (array_length n values e))
                    (subst (λ (k : ℕ). HasRoom k out.values)
                      (sym (array_bytes_lem n fits.texts.count)) space.values_space))
                  refl)))

        deserialize-short :
            (buffer : Buffer) (size : ℕ)
            → ltb size ctx.payload_size ≡ true
            → zcdr_deserialize_joint_command ctx buffer size out ≡ some (false, out)
        unfolding zcdr_deserialize_joint_command
        deserialize-short buffer size short = rw short

        -- For a context of `zcdr_init_joint_command` over a frame, names and an interface name that
        -- the length words can count, with at least one joint, a buffer that holds the ROS 2
        -- encoding of a JointCommand with these texts before any other bytes, and targets (or null
        -- pointers) with room for one value for each joint: `zcdr_deserialize_joint_command` makes
        -- no access out of bounds. If the size it is told is below the size of the encoding, it
        -- returns false and leaves the targets alone, else it returns true and every target that is
        -- no null pointer gets the message's value.
        pub deserialize_command-held :
            (size : ℕ)
            → zcdr_deserialize_joint_command ctx (encoding sec nanosec values ++ tail) size out
              ≡ some (
                  if ltb size (length (encoding sec nanosec values))
                  then (false, out)
                  else (true, filled_command sec nanosec values out))
        deserialize_command-held size =
            answer (Bool-cases (ltb size ctx.payload_size))
            ∙ ap (λ (k : ℕ). some (chosen (ltb size k))) command_payload-size
          where
            chosen : Bool → Bool × JointCommandTarget
            chosen short =
                if short then (false, out) else (true, filled_command sec nanosec values out)

            answer :
                (ltb size ctx.payload_size ≡ true) ⊎ (ltb size ctx.payload_size ≡ false)
                → zcdr_deserialize_joint_command ctx (encoding sec nanosec values ++ tail) size out
                  ≡ some (chosen (ltb size ctx.payload_size))
            answer (inl short) =
                deserialize-short (encoding sec nanosec values ++ tail) size short
                ∙ ap (λ t. some (chosen t)) (sym short)
            answer (inr long) =
                ap (λ t. zcdr_deserialize_joint_command ctx t size out)
                  (encoded_command frame_id names interface_name sec nanosec values some_joint e
                    tail)
                ∙ deserialize-segments size long
                ∙ ap (λ t. some (chosen t)) (sym long)
