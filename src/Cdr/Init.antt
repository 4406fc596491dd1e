-- ===== src/Cdr/Init.antt =====
-- zenbedded_transport/src/serialization.c: what the `init` functions leave in a buffer of zeros.
use native.Mathlib.Nat.{le_trans}
use zephyr_zenoh_integration.Prelude.{
  ℕ, suc, ◌+◌, ◌-◌, ◌*◌, ◌^◌, ◌≤◌, ◌<◌, ◌≡◌, refl, ap, ◌∙◌, List, [], ◌∷◌, ◌++◌, Option, some,
  arith, length, bind_step,
}
use zephyr_zenoh_integration.Prelude.Bytes.{Buffer, zeros, store-append}
use zephyr_zenoh_integration.Cdr.Cursor.{
  Out, start, skip, align, put_header, put_u32, put_optional_text, put_names,
}
use zephyr_zenoh_integration.Cdr.JointState.{JointStateCtx, zcdr_init_joint_state}
use zephyr_zenoh_integration.Cdr.Reference.{pad, cdr_u32, cdr_string, cdr_strings, cdr_string_seq}
use zephyr_zenoh_integration.Cdr.Extends.{
  Extends-le, Extends-compose, pad-Extends, cdr_u32-Extends, cdr_string_seq-Extends,
  cdr_string-Extends, cdr_strings-Extends,
}
use zephyr_zenoh_integration.Cdr.Layout.{
  at_body, IsShort, AllShort, or_empty, before_doubles, put_u32-Appends, put_optional_text-Appends,
  put_names-Appends, reserve-at_body, skip-at_body, le_append,
}

-- What the strings of a message must satisfy for the `uint32_t` lengths to be exact, and the number
-- of joints for the sizes of the arrays.
pub record Fits (frame_id : Option (List ℕ)) (names : List (List ℕ)) : Type 0 where
  pub frame : IsShort (or_empty frame_id)
  pub names_fit : AllShort names
  pub count : 8 * length names < 2 ^ 32

put_header_lem :
    (a b c d : ℕ) (rest : Buffer)
    → put_header (start (a ∷ b ∷ c ∷ d ∷ rest))
      ≡ some (record { cursor = 4; buffer = 0 ∷ 1 ∷ 0 ∷ 0 ∷ rest })
unfolding put_header
put_header_lem a b c d rest = rw (
  store-append [] (a ∷ []) (b ∷ c ∷ d ∷ rest) 0 (0 ∷ []) refl refl,
  store-append (0 ∷ []) (b ∷ []) (c ∷ d ∷ rest) 1 (1 ∷ []) refl refl,
  store-append (0 ∷ 1 ∷ []) (c ∷ []) (d ∷ rest) 2 (0 ∷ []) refl refl,
  store-append (0 ∷ 1 ∷ 0 ∷ []) (d ∷ []) rest 3 (0 ∷ []) refl refl,
)

pub put_header-at_body : (room : ℕ) → put_header (start (zeros (4 + room))) ≡ some (at_body room [])
put_header-at_body room =
    ap (λ (k : ℕ). put_header (start (zeros k))) {y = suc (suc (suc (suc room)))} (omega arith)
    ∙ put_header_lem 0 0 0 0 (zeros room)
    ∙ ap (λ (k : ℕ). some (out k)) {y = room - 0} (omega arith)
  where
    out : ℕ → Out
    out k = record { cursor = 4; buffer = 0 ∷ 1 ∷ 0 ∷ 0 ∷ zeros k }

-- The body behind the names, over the eight bytes of a stamp.
abbrev pub named_body : Option (List ℕ) → List (List ℕ) → Buffer → Buffer
named_body frame_id names stamp = cdr_string_seq names (cdr_string (or_empty frame_id) stamp)

-- The steps that the two functions share, up to the names.
module _ (frame_id : Option (List ℕ)) (names : List (List ℕ)) (room : ℕ)
    (fits : Fits frame_id names) (h : length (named_body frame_id names (zeros 8)) ≤ room) where
  abbrev framed_body : Buffer
  framed_body = cdr_string (or_empty frame_id) (zeros 8)

  framed-le : length framed_body ≤ room
  framed-le =
      le_trans (Extends-le (cdr_string_seq names) (cdr_string_seq-Extends names) framed_body) h

  pub put_frame :
      put_optional_text frame_id (skip 8 (at_body room [])) ≡ some (at_body room framed_body)
  put_frame =
      ap (put_optional_text frame_id) (
        skip-at_body room 8 [] (
          le_trans (Extends-le (cdr_string (or_empty frame_id)) (cdr_string-Extends _) (zeros 8))
            framed-le))
      ∙ put_optional_text-Appends room frame_id fits.frame (zeros 8) framed-le

  counted-le : length (cdr_u32 (length names) framed_body) ≤ room
  unfolding cdr_string_seq
  counted-le =
      le_trans
        (Extends-le (cdr_strings names) (cdr_strings-Extends names)
          (cdr_u32 (length names) framed_body))
        h

  pub put_count :
      put_u32 (length names) (align 4 (at_body room framed_body))
      ≡ some (at_body room (cdr_u32 (length names) framed_body))
  put_count = put_u32-Appends room (length names) framed_body counted-le

  pub put_all_names :
      put_names (length names) names (at_body room (cdr_u32 (length names) framed_body))
      ≡ some (at_body room (named_body frame_id names (zeros 8)))
  unfolding cdr_string_seq
  put_all_names = put_names-Appends room names fits.names_fit _ h

pub before_doubles-le : (n : ℕ) (body : Buffer) → length body ≤ length (before_doubles n body)
before_doubles-le n =
    Extends-le (before_doubles n)
      (Extends-compose (cdr_u32 n) (pad 8) (cdr_u32-Extends n) (pad-Extends 8))

module _ (frame_id : Option (List ℕ)) (names : List (List ℕ)) where
  abbrev n : ℕ
  n = length names

  -- The bodies in front of the doubles, while these are zero.
  abbrev pub before_position : Buffer
  before_position = before_doubles n (named_body frame_id names (zeros 8))

  abbrev pub before_velocity : Buffer
  before_velocity = before_doubles n (before_position ++ zeros (8 * n))

  abbrev pub before_effort : Buffer
  before_effort = before_doubles n (before_velocity ++ zeros (8 * n))

  abbrev pub state_template : Buffer
  state_template = before_effort ++ zeros (8 * n)

  abbrev pub joint_state_ctx : JointStateCtx
  joint_state_ctx = record {
    num_joints = n;
    offset_timestamp = 4;
    offset_position = 4 + length before_position;
    offset_velocity = 4 + length before_velocity;
    offset_effort = 4 + length before_effort;
    payload_size = 4 + length state_template;
  }

  module _ (room : ℕ) (fits : Fits frame_id names) where
    pub zcdr_init_joint_state_lem :
        length state_template ≤ room
        → zcdr_init_joint_state frame_id names n (zeros (4 + room))
          ≡ some (joint_state_ctx, (at_body room state_template).buffer)
    unfolding zcdr_init_joint_state
    zcdr_init_joint_state_lem h = bind_step _ (put_header-at_body room) (
        bind_step _ (put_frame frame_id names room fits named-le) (
          bind_step _ (put_count frame_id names room fits named-le) (
            bind_step _ (put_all_names frame_id names room fits named-le) (
              bind_step _ (reserve-at_body room n _ fits.count position-le) (
                bind_step _ (reserve-at_body room n _ fits.count velocity-le)
                  (bind_step _ (reserve-at_body room n _ fits.count h) refl))))))
      where
        velocity-le : length (before_velocity ++ zeros (8 * n)) ≤ room
        velocity-le = le_trans (before_doubles-le n _) (le_trans (le_append before_effort _) h)

        position-le : length (before_position ++ zeros (8 * n)) ≤ room
        position-le =
            le_trans (before_doubles-le n _) (le_trans (le_append before_velocity _) velocity-le)

        named-le : length (named_body frame_id names (zeros 8)) ≤ room
        named-le =
            le_trans (before_doubles-le n _) (le_trans (le_append before_position _) position-le)
