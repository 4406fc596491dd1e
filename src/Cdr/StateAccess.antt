-- ===== src/Cdr/StateAccess.antt =====
-- zenbedded_transport/src/serialization.c: a JointState buffer holds a message. `init` leaves the
-- blank one, `serialize` replaces members, `deserialize` reads them.
use zephyr_zenoh_integration.Prelude.{
  ℕ, ◌+◌, ◌-◌, ◌*◌, ◌≤◌, ◌<◌, ◌≡◌, refl, sym, ap, ◌∙◌, List, [], ◌∷◌, ◌++◌, Option, some, arith,
  length, bind_step,
}
use zephyr_zenoh_integration.Prelude.Bytes.{Buffer, zeros, le_bytes}
use zephyr_zenoh_integration.Prelude.Segments.{concat, total, store-segment}
use zephyr_zenoh_integration.Cdr.Cursor.{doubles}
use zephyr_zenoh_integration.Cdr.JointState.{
  JointStateCtx, JointStateValue, zcdr_init_joint_state, zcdr_serialize_joint_state,
}
use zephyr_zenoh_integration.Cdr.Reference.{cdr_joint_state, encapsulated}
use zephyr_zenoh_integration.Cdr.Layout.{at_body}
use zephyr_zenoh_integration.Cdr.Init.{Fits, joint_state_ctx, zcdr_init_joint_state_lem}
use zephyr_zenoh_integration.Cdr.Shape.{strings, gap, last_gap}
use zephyr_zenoh_integration.Cdr.StateSegments.{
  joint_state_msg, state_segments, encoded_segments, array_length, blank, state_template-blank,
  position_at, velocity_at, effort_at,
}
use zephyr_zenoh_integration.Cdr.Access.{or_old, Replaces, or_old-length, store_doubles-segment}

-- The three arrays that are given have one value for each joint.
pub record IsSized (n : ℕ) (v : JointStateValue) : Type 0 where
  pub positions_sized : Replaces v.positions n
  pub velocities_sized : Replaces v.velocities n
  pub efforts_sized : Replaces v.efforts n

module _ (frame_id : Option (List ℕ)) (names : List (List ℕ)) (fits : Fits frame_id names)
    (some_joint : 0 < length names) where
  abbrev n : ℕ
  n = length names

  -- `init` on a cleared buffer leaves the encoding of the message whose stamp and doubles are zero,
  -- and the size that the encoding has.
  pub init-blank :
      (room : ℕ)
      → length (cdr_joint_state (blank frame_id names)) ≤ room
      → zcdr_init_joint_state frame_id names n (zeros (4 + room))
        ≡ some (
          joint_state_ctx frame_id names,
          encapsulated (cdr_joint_state (blank frame_id names))
              ++ zeros (room - length (cdr_joint_state (blank frame_id names))),
        )
  init-blank room h =
      zcdr_init_joint_state_lem frame_id names room fits
        (omega (arith, ap length (state_template-blank frame_id names some_joint)))
      ∙ ap (λ b. some (joint_state_ctx frame_id names, (at_body room b).buffer))
          (state_template-blank frame_id names some_joint)

  module _ (sec nanosec : ℕ) (position velocity effort : List ℕ) (p : length position ≡ n)
      (v : length velocity ≡ n) (e : length effort ≡ n) (tail : Buffer) where
    -- A buffer that holds the message.
    abbrev held : Buffer
    held =
        encapsulated
          (cdr_joint_state (joint_state_msg frame_id names sec nanosec position velocity effort))
        ++ tail

    abbrev a : Buffer
    a = strings frame_id names

    abbrev b : Buffer
    b = gap frame_id names

    abbrev c : Buffer
    c = last_gap frame_id names

    abbrev hdr : Buffer
    hdr = 0 ∷ 1 ∷ 0 ∷ 0 ∷ []

    abbrev ctx : JointStateCtx
    ctx = joint_state_ctx frame_id names

    length_array : (xs : List ℕ) → length xs ≡ n → length (doubles xs) ≡ 8 * n
    length_array = array_length n

    module _ (value : JointStateValue) (sized : IsSized n value) where
      abbrev sec' : Buffer
      sec' = le_bytes 4 value.stamp_sec

      abbrev nanosec' : Buffer
      nanosec' = le_bytes 4 value.stamp_nanosec

      abbrev position' : List ℕ
      position' = or_old value.positions position

      abbrev velocity' : List ℕ
      velocity' = or_old value.velocities velocity

      abbrev effort' : List ℕ
      effort' = or_old value.efforts effort

      position-sized : length position' ≡ n
      position-sized = or_old-length value.positions position n sized.positions_sized p

      velocity-sized : length velocity' ≡ n
      velocity-sized = or_old-length value.velocities velocity n sized.velocities_sized v

      effort-sized : length effort' ≡ n
      effort-sized = or_old-length value.efforts effort n sized.efforts_sized e

      serialize-segments :
          zcdr_serialize_joint_state ctx value
            (concat (state_segments frame_id names sec nanosec position velocity effort tail))
          ≡ some (
              concat (
                state_segments frame_id names value.stamp_sec value.stamp_nanosec position'
                  velocity' effort' tail))
      unfolding zcdr_serialize_joint_state
      serialize-segments =
          bind_step _ (store-segment (hdr ∷ []) (le_bytes 4 sec) behind_1 4 sec' refl refl) (
            bind_step _
              (store-segment (hdr ∷ sec' ∷ []) (le_bytes 4 nanosec) behind_2 8 nanosec' refl refl)
              (bind_step _
                (store_doubles-segment n fits.count (hdr ∷ sec' ∷ nanosec' ∷ a ∷ []) position
                  behind_3 ctx.offset_position value.positions at_position p sized.positions_sized)
                (bind_step _
                  (store_doubles-segment n fits.count
                    (hdr ∷ sec' ∷ nanosec' ∷ a ∷ doubles position' ∷ b ∷ []) velocity behind_4
                    ctx.offset_velocity value.velocities at_velocity v sized.velocities_sized)
                  (store_doubles-segment n fits.count
                    (hdr ∷ sec' ∷ nanosec' ∷ a ∷ doubles position' ∷ b ∷ doubles velocity' ∷ c ∷ [])
                    effort (tail ∷ []) ctx.offset_effort value.efforts at_effort e
                    sized.efforts_sized))))
        where
          behind_4 : List Buffer
          behind_4 = c ∷ doubles effort ∷ tail ∷ []

          behind_3 : List Buffer
          behind_3 = b ∷ doubles velocity ∷ behind_4

          behind_2 : List Buffer
          behind_2 = a ∷ doubles position ∷ behind_3

          behind_1 : List Buffer
          behind_1 = le_bytes 4 nanosec ∷ behind_2

          at_position : ctx.offset_position ≡ total (hdr ∷ sec' ∷ nanosec' ∷ a ∷ [])
          at_position = omega (arith, position_at frame_id names)

          at_velocity :
              ctx.offset_velocity ≡ total (hdr ∷ sec' ∷ nanosec' ∷ a ∷ doubles position' ∷ b ∷ [])
          at_velocity =
              omega (arith, velocity_at frame_id names, length_array position' position-sized)

          at_effort :
              ctx.offset_effort
              ≡ total
                  (hdr ∷ sec' ∷ nanosec' ∷ a ∷ doubles position' ∷ b ∷ doubles velocity' ∷ c ∷ [])
          at_effort = omega (
            arith,
            effort_at frame_id names,
            length_array position' position-sized,
            length_array velocity' velocity-sized,
          )

      -- For a context of `zcdr_init_joint_state` over a frame and names that the length words can
      -- count, with at least one joint, and a buffer that holds any message of that frame and those
      -- names before any other bytes: `zcdr_serialize_joint_state`, given arrays of one value for
      -- each joint or null pointers, makes no access out of bounds and leaves the ROS 2 encoding of
      -- the message with the new stamp and the given arrays (an array whose pointer is null keeps its
      -- old values) before the same other bytes.
      pub serialize-held :
          zcdr_serialize_joint_state ctx value held
          ≡ some (
              encapsulated (
                cdr_joint_state (
                  joint_state_msg frame_id names value.stamp_sec value.stamp_nanosec position'
                    velocity' effort'))
              ++ tail)
      serialize-held =
          ap (zcdr_serialize_joint_state ctx value) (
            encoded_segments frame_id names sec nanosec position velocity effort some_joint p v e
              tail)
          ∙ serialize-segments
          ∙ ap some (
              sym (
                encoded_segments frame_id names value.stamp_sec value.stamp_nanosec position'
                  velocity' effort' some_joint position-sized velocity-sized effort-sized tail))
