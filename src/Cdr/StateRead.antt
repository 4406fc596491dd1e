-- ===== src/Cdr/StateRead.antt =====
-- zenbedded_transport/src/serialization.c: `zcdr_deserialize_joint_state` on a buffer that holds a
-- JointState.
use zephyr_zenoh_integration.Prelude.{
  ℕ, zero, ◌*◌, ◌<◌, ◌≡◌, refl, sym, ap, subst, ◌∙◌, ◌⊎◌, inl, inr, Bool, Bool-cases, true, false,
  List, [], ◌∷◌, ◌++◌, Option, some, arith, length, length-append, append-nil, length-replicate,
  bind_step, ltb, if◌then◌else◌,
}
use zephyr_zenoh_integration.Prelude.Bytes.{Buffer, zeros, le_bytes}
use zephyr_zenoh_integration.Prelude.Segments.{concat, length-concat}
use zephyr_zenoh_integration.Cdr.Cursor.{doubles, array_bytes}
use zephyr_zenoh_integration.Cdr.JointState.{
  JointStateCtx, JointStateTarget, zcdr_deserialize_joint_state,
}
use zephyr_zenoh_integration.Cdr.Reference.{cdr_joint_state, encapsulated}
use zephyr_zenoh_integration.Cdr.Init.{Fits, joint_state_ctx, before_effort}
use zephyr_zenoh_integration.Cdr.Shape.{strings, gap, last_gap}
use zephyr_zenoh_integration.Cdr.StateSegments.{
  joint_state_msg, state_segments, encoded_segments, array_length, position_at, velocity_at,
  effort_at,
}
use zephyr_zenoh_integration.Cdr.Access.{over, HasRoom, fetch-segment, array_bytes_lem}

-- The targets that are given have room for what is read.
pub record HasSpace (n : ℕ) (out : JointStateTarget) : Type 0 where
  pub sec_space : HasRoom 4 out.stamp_sec
  pub nanosec_space : HasRoom 4 out.stamp_nanosec
  pub positions_space : HasRoom (8 * n) out.positions
  pub velocities_space : HasRoom (8 * n) out.velocities
  pub efforts_space : HasRoom (8 * n) out.efforts

-- The targets with the members of the message copied to them.
abbrev pub filled : ℕ → ℕ → List ℕ → List ℕ → List ℕ → JointStateTarget → JointStateTarget
filled sec nanosec position velocity effort out = record {
  stamp_sec = over (le_bytes 4 sec) out.stamp_sec;
  stamp_nanosec = over (le_bytes 4 nanosec) out.stamp_nanosec;
  positions = over (doubles position) out.positions;
  velocities = over (doubles velocity) out.velocities;
  efforts = over (doubles effort) out.efforts;
}

module _ (frame_id : Option (List ℕ)) (names : List (List ℕ)) (fits : Fits frame_id names)
    (some_joint : 0 < length names) (sec nanosec : ℕ) (position velocity effort : List ℕ)
    (p : length position ≡ length names) (v : length velocity ≡ length names)
    (e : length effort ≡ length names) where
  abbrev n : ℕ
  n = length names

  abbrev ctx : JointStateCtx
  ctx = joint_state_ctx frame_id names

  abbrev message : Buffer
  message = cdr_joint_state (joint_state_msg frame_id names sec nanosec position velocity effort)

  abbrev hdr : Buffer
  hdr = 0 ∷ 1 ∷ 0 ∷ 0 ∷ []

  abbrev a : Buffer
  a = strings frame_id names

  abbrev b : Buffer
  b = gap frame_id names

  abbrev c : Buffer
  c = last_gap frame_id names

  -- `payload_size` is the size of the encoded message.
  pub payload-size : ctx.payload_size ≡ length (encapsulated message)
  payload-size = omega (
    arith,
    effort_at frame_id names,
    length-append (before_effort frame_id names) (zeros (8 * n)),
    length-replicate {0} (8 * n) zero,
    ap length (append-nil (encapsulated message)),
    ap length
        (encoded_segments frame_id names sec nanosec position velocity effort some_joint p v e []),
    length-concat (state_segments frame_id names sec nanosec position velocity effort []),
    array_length n position p,
    array_length n velocity v,
    array_length n effort e,
  )

  module _ (tail : Buffer) (out : JointStateTarget) (space : HasSpace n out) where
    deserialize-segments :
        (size : ℕ)
        → ltb size ctx.payload_size ≡ false
        → zcdr_deserialize_joint_state ctx
            (concat (state_segments frame_id names sec nanosec position velocity effort tail))
            size
            out
          ≡ some (true, filled sec nanosec position velocity effort out)
    unfolding zcdr_deserialize_joint_state
    deserialize-segments size long = rw long (
        bind_step _
          (fetch-segment (hdr ∷ []) (le_bytes 4 sec) behind_1 4 4 out.stamp_sec refl refl
            space.sec_space)
          (bind_step _
            (fetch-segment (hdr ∷ le_bytes 4 sec ∷ []) (le_bytes 4 nanosec) behind_2 8 4
              out.stamp_nanosec refl refl space.nanosec_space)
            (bind_step _
              (fetch-segment (hdr ∷ le_bytes 4 sec ∷ le_bytes 4 nanosec ∷ a ∷ []) (doubles position)
                behind_3 ctx.offset_position _ out.positions
                (omega (arith, position_at frame_id names)) (size_of position p)
                (room_of out.positions space.positions_space))
              (bind_step _
                (fetch-segment
                  (hdr ∷ le_bytes 4 sec ∷ le_bytes 4 nanosec ∷ a ∷ doubles position ∷ b ∷ [])
                  (doubles velocity) behind_4 ctx.offset_velocity _ out.velocities
                  (omega (arith, velocity_at frame_id names, array_length n position p))
                  (size_of velocity v) (room_of out.velocities space.velocities_space))
                (bind_step _
                  (fetch-segment
                    (hdr
                      ∷ le_bytes 4 sec
                      ∷ le_bytes 4 nanosec
                      ∷ a
                      ∷ doubles position
                      ∷ b
                      ∷ doubles velocity
                      ∷ c
                      ∷ [])
                    (doubles effort) (tail ∷ []) ctx.offset_effort _ out.efforts
                    (omega (
                      arith,
                      effort_at frame_id names,
                      array_length n position p,
                      array_length n velocity v,
                    ))
                    (size_of effort e) (room_of out.efforts space.efforts_space))
                  refl)))))
      where
        behind_4 : List Buffer
        behind_4 = c ∷ doubles effort ∷ tail ∷ []

        behind_3 : List Buffer
        behind_3 = b ∷ doubles velocity ∷ behind_4

        behind_2 : List Buffer
        behind_2 = a ∷ doubles position ∷ behind_3

        behind_1 : List Buffer
        behind_1 = le_bytes 4 nanosec ∷ behind_2

        size_of : (xs : List ℕ) → length xs ≡ n → array_bytes n ≡ length (doubles xs)
        size_of xs h = array_bytes_lem n fits.count ∙ sym (array_length n xs h)

        room_of : (o : Option Buffer) → HasRoom (8 * n) o → HasRoom (array_bytes n) o
        room_of o = subst (λ (k : ℕ). HasRoom k o) (sym (array_bytes_lem n fits.count))

    deserialize-short :
        (buffer : Buffer) (size : ℕ)
        → ltb size ctx.payload_size ≡ true
        → zcdr_deserialize_joint_state ctx buffer size out ≡ some (false, out)
    unfolding zcdr_deserialize_joint_state
    deserialize-short buffer size short = rw short

    -- For a context of `zcdr_init_joint_state` over a frame and names that the length words can
    -- count, with at least one joint, a buffer that holds the ROS 2 encoding of a message of that frame
    -- and those names before any other bytes, and target arrays (or null pointers) with room for one
    -- value for each joint: `zcdr_deserialize_joint_state` makes no access out of bounds. If the size
    -- it is told is below the size of the encoding, it returns false and leaves the targets alone,
    -- else it returns true and every target that is no null pointer gets the message's value.
    pub deserialize-held :
        (size : ℕ)
        → zcdr_deserialize_joint_state ctx (encapsulated message ++ tail) size out
          ≡ some (
              if ltb size (length (encapsulated message))
              then (false, out)
              else (true, filled sec nanosec position velocity effort out))
    deserialize-held size =
        answer (Bool-cases (ltb size ctx.payload_size))
        ∙ ap (λ (k : ℕ). some (chosen (ltb size k))) payload-size
      where
        chosen : Bool → Bool × JointStateTarget
        chosen short =
            if short then (false, out) else (true, filled sec nanosec position velocity effort out)

        answer :
            (ltb size ctx.payload_size ≡ true) ⊎ (ltb size ctx.payload_size ≡ false)
            → zcdr_deserialize_joint_state ctx (encapsulated message ++ tail) size out
              ≡ some (chosen (ltb size ctx.payload_size))
        answer (inl short) =
            deserialize-short (encapsulated message ++ tail) size short
            ∙ ap (λ t. some (chosen t)) (sym short)
        answer (inr long) =
            ap (λ t. zcdr_deserialize_joint_state ctx t size out)
              (encoded_segments frame_id names sec nanosec position velocity effort some_joint p v e
                tail)
            ∙ deserialize-segments size long
            ∙ ap (λ t. some (chosen t)) (sym long)
