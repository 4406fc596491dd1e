-- ===== src/Cdr/CommandInit.antt =====
-- zenbedded_transport/src/serialization.c: what `zcdr_init_joint_command` leaves in a buffer of zeros,
-- and a JointCommand buffer cut at the members of the message.
use native.Mathlib.Nat.{le_trans}
use zephyr_zenoh_integration.Prelude.{
  ℕ, ◌+◌, ◌*◌, ◌≤◌, ◌<◌, ◌≡◌, refl, sym, ap, ◌∙◌, List, [], ◌∷◌, ◌++◌, Option, some, length,
  bind_step, length-append, length-replicate, replicate, append_assoc, append-nil,
}
use zephyr_zenoh_integration.Prelude.Bytes.{Buffer, zeros, le_bytes}
use zephyr_zenoh_integration.Prelude.Segments.{concat}
use zephyr_zenoh_integration.Cdr.Cursor.{doubles}
use zephyr_zenoh_integration.Cdr.JointCommand.{JointCommandCtx, zcdr_init_joint_command}
use zephyr_zenoh_integration.Cdr.Reference.{
  cdr_string, cdr_header, cdr_double_seq, JointCommandMsg, cdr_joint_command, encapsulated,
}
use zephyr_zenoh_integration.Cdr.Extends.{
  Extends, Extends-le, Extends-compose, cdr_string-Extends, doubles-zero,
}
use zephyr_zenoh_integration.Cdr.Layout.{
  at_body, IsShort, or_empty, before_doubles, put_optional_text-Appends, reserve-at_body, le_append,
}
use zephyr_zenoh_integration.Cdr.Init.{
  Fits, named_body, put_header-at_body, put_frame, put_count, put_all_names, before_doubles-le,
}
use zephyr_zenoh_integration.Cdr.Shape.{
  stamp, cdr_stamp, seq_lem, before_doubles-Extends, named_body-Extends,
}

-- The frame, the names and the interface name fit their length words.
pub record CommandFits (frame_id : Option (List ℕ)) (names : List (List ℕ))
    (interface_name : Option (List ℕ)) : Type 0 where
  pub texts : Fits frame_id names
  pub interface_fits : IsShort (or_empty interface_name)

module _ (frame_id : Option (List ℕ)) (names : List (List ℕ))
    (interface_name : Option (List ℕ)) where
  abbrev n : ℕ
  n = length names

  -- The body behind the interface name, over the eight bytes of a stamp.
  abbrev pub interfaced_body : Buffer → Buffer
  interfaced_body s = cdr_string (or_empty interface_name) (named_body frame_id names s)

  abbrev pub before_values : Buffer → Buffer
  before_values s = before_doubles n (interfaced_body s)

  before_values-Extends : Extends before_values
  before_values-Extends =
      Extends-compose interfaced_body (before_doubles n)
        (Extends-compose (named_body frame_id names) (cdr_string (or_empty interface_name))
          (named_body-Extends frame_id names) (cdr_string-Extends _))
        (before_doubles-Extends n)

  -- The bytes between the stamp and the values.
  pub command_strings : Buffer
  command_strings = before_values-Extends.0 8

  pub in_front : (s : Buffer) → length s ≡ 8 → before_values s ≡ s ++ command_strings
  unfolding command_strings
  in_front s h = before_values-Extends.1 s ∙ ap (λ (k : ℕ). s ++ before_values-Extends.0 k) h

  abbrev pub command_template : Buffer
  command_template = before_values (zeros 8) ++ zeros (8 * n)

  abbrev pub joint_command_ctx : JointCommandCtx
  joint_command_ctx = record {
    num_joints = n;
    offset_timestamp = 4;
    offset_values = 4 + length (before_values (zeros 8));
    payload_size = 4 + length command_template;
  }

  pub zcdr_init_joint_command_lem :
      (room : ℕ)
      → CommandFits frame_id names interface_name
      → length command_template ≤ room
      → zcdr_init_joint_command frame_id names n interface_name (zeros (4 + room))
        ≡ some (joint_command_ctx, (at_body room command_template).buffer)
  unfolding zcdr_init_joint_command
  zcdr_init_joint_command_lem room fits h = bind_step _ (put_header-at_body room) (
      bind_step _ (put_frame frame_id names room fits.texts named-le) (
        bind_step _ (put_count frame_id names room fits.texts named-le) (
          bind_step _ (put_all_names frame_id names room fits.texts named-le) (
            bind_step _
              (put_optional_text-Appends room interface_name fits.interface_fits
                (named_body frame_id names (zeros 8)) interfaced-le)
              (bind_step _ (reserve-at_body room n _ fits.texts.count h) refl)))))
    where
      interfaced-le : length (interfaced_body (zeros 8)) ≤ room
      interfaced-le =
          le_trans (before_doubles-le n _) (le_trans (le_append (before_values (zeros 8)) _) h)

      named-le : length (named_body frame_id names (zeros 8)) ≤ room
      named-le =
          le_trans
            (Extends-le (cdr_string (or_empty interface_name)) (cdr_string-Extends _)
              (named_body frame_id names (zeros 8)))
            interfaced-le

  abbrev pub joint_command_msg : ℕ → ℕ → List ℕ → JointCommandMsg
  joint_command_msg sec nanosec values = record {
    header = record { sec = sec; nanosec = nanosec; frame_id = or_empty frame_id };
    joint_names = names;
    interface_name = or_empty interface_name;
    values = values;
  }

  -- A JointCommand in memory, with whatever stands behind it.
  abbrev pub command_segments : ℕ → ℕ → List ℕ → Buffer → List Buffer
  command_segments sec nanosec values tail =
      (0 ∷ 1 ∷ 0 ∷ 0 ∷ [])
      ∷ le_bytes 4 sec
      ∷ le_bytes 4 nanosec
      ∷ command_strings
      ∷ doubles values
      ∷ tail
      ∷ []

  module _ (sec nanosec : ℕ) (values : List ℕ) (some_joint : 0 < n) (e : length values ≡ n) where
    encoded_body :
        cdr_joint_command (joint_command_msg sec nanosec values)
        ≡ (stamp sec nanosec ++ command_strings) ++ doubles values
    unfolding cdr_joint_command cdr_header
    encoded_body =
        ap (λ b. cdr_double_seq values (interfaced_body b)) (cdr_stamp sec nanosec)
        ∙ seq_lem n values _ e some_joint
        ∙ ap (λ b. b ++ doubles values) (in_front (stamp sec nanosec) refl)

    pub encoded_command :
        (tail : Buffer)
        → encapsulated (cdr_joint_command (joint_command_msg sec nanosec values)) ++ tail
          ≡ concat (command_segments sec nanosec values tail)
    encoded_command tail =
        ap (λ b. encapsulated b ++ tail) encoded_body
        ∙ ap (λ b. (0 ∷ 1 ∷ 0 ∷ 0 ∷ []) ++ b)
            (regroup (le_bytes 4 sec) (le_bytes 4 nanosec) command_strings (doubles values) tail)
      where
        regroup :
            (a b c d e : Buffer) → (((a ++ b) ++ c) ++ d) ++ e ≡ concat (a ∷ b ∷ c ∷ d ∷ e ∷ [])
        regroup a b c d e = simp (append_assoc, append-nil)

  -- The template is the message with nothing but zeros.
  abbrev pub blank_command : JointCommandMsg
  blank_command = joint_command_msg 0 0 (replicate n 0)

  pub command_template-blank : 0 < n → command_template ≡ cdr_joint_command blank_command
  command_template-blank some_joint = sym (
      encoded_body 0 0 (replicate n 0) some_joint (length-replicate n 0)
      ∙ ap (λ z. (zeros 8 ++ command_strings) ++ z) (doubles-zero n)
      ∙ ap (λ b. b ++ zeros (8 * n)) (sym (in_front (zeros 8) refl)))

  pub values_at : length (before_values (zeros 8)) ≡ 8 + length command_strings
  values_at = ap length (in_front (zeros 8) refl) ∙ length-append (zeros 8) command_strings
