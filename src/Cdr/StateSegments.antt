-- ===== src/Cdr/StateSegments.antt =====
-- zenbedded_transport/src/serialization.c: a JointState buffer cut at the members of the message.
use zephyr_zenoh_integration.Prelude.{
  ℕ, ◌+◌, ◌*◌, ◌<◌, ◌≡◌, refl, sym, ap, ◌∙◌, List, [], ◌∷◌, ◌++◌, Option, arith, length,
  length-append, length-replicate, replicate, append_assoc, append-nil,
}
use zephyr_zenoh_integration.Prelude.Bytes.{Buffer, zeros, le_bytes}
use zephyr_zenoh_integration.Prelude.Segments.{concat, concat-append}
use zephyr_zenoh_integration.Cdr.Cursor.{doubles}
use zephyr_zenoh_integration.Cdr.Reference.{
  cdr_double_seq, cdr_header, JointStateMsg, cdr_joint_state, encapsulated,
}
use zephyr_zenoh_integration.Cdr.Layout.{or_empty, before_doubles}
use zephyr_zenoh_integration.Cdr.Extends.{length-doubles, doubles-zero}
use zephyr_zenoh_integration.Cdr.Init.{
  named_body, before_position, before_velocity, before_effort, state_template,
}
use zephyr_zenoh_integration.Cdr.Shape.{
  stamp, cdr_stamp, seq_lem, strings, gap, last_gap, in_front_1, in_front_2, in_front_3,
}

abbrev pub joint_state_msg :
    Option (List ℕ) → List (List ℕ) → ℕ → ℕ → List ℕ → List ℕ → List ℕ → JointStateMsg
joint_state_msg frame_id names sec nanosec position velocity effort = record {
  header = record { sec = sec; nanosec = nanosec; frame_id = or_empty frame_id };
  name = names;
  position = position;
  velocity = velocity;
  effort = effort;
}

regroup :
    (a b c d e f g : Buffer)
    → (((((a ++ b) ++ c) ++ d) ++ e) ++ f) ++ g ≡ concat (a ∷ b ∷ c ∷ d ∷ e ∷ f ∷ g ∷ [])
regroup a b c d e f g = simp (append_assoc, append-nil)

pub array_length : (n : ℕ) (xs : List ℕ) → length xs ≡ n → length (doubles xs) ≡ 8 * n
array_length n xs h = length-doubles xs ∙ ap (λ (k : ℕ). 8 * k) h

module _ (frame_id : Option (List ℕ)) (names : List (List ℕ)) where
  abbrev n : ℕ
  n = length names

  -- A JointState in memory, with whatever stands behind it.
  abbrev pub state_segments : ℕ → ℕ → List ℕ → List ℕ → List ℕ → Buffer → List Buffer
  state_segments sec nanosec position velocity effort tail =
      (0 ∷ 1 ∷ 0 ∷ 0 ∷ [])
      ∷ le_bytes 4 sec
      ∷ le_bytes 4 nanosec
      ∷ strings frame_id names
      ∷ doubles position
      ∷ gap frame_id names
      ∷ doubles velocity
      ∷ last_gap frame_id names
      ∷ doubles effort
      ∷ tail
      ∷ []

  -- The body for a stamp and three arrays, given as bytes.
  body : Buffer → Buffer → Buffer → Buffer → Buffer
  body s x y z =
      before_doubles n (before_doubles n (before_doubles n (named_body frame_id names s) ++ x) ++ y)
      ++ z

  body_segments :
      (s x y z : Buffer)
      → length s ≡ 8
      → length x ≡ 8 * n
      → length y ≡ 8 * n
      → body s x y z
        ≡ concat (
            s
            ∷ strings frame_id names
            ∷ x
            ∷ gap frame_id names
            ∷ y
            ∷ last_gap frame_id names
            ∷ z
            ∷ [])
  unfolding body
  body_segments s x y z hs hx hy =
      ap (λ b. before_doubles n (before_doubles n (b ++ x) ++ y) ++ z)
        (in_front_1 frame_id names s x y hs hx hy)
      ∙ ap (λ b. before_doubles n (b ++ y) ++ z) (in_front_2 frame_id names s x y hs hx hy)
      ∙ ap (λ b. b ++ z) (in_front_3 frame_id names s x y hs hx hy)
      ∙ regroup s _ x _ y _ z

  module _ (sec nanosec : ℕ) (position velocity effort : List ℕ) (some_joint : 0 < n)
      (p : length position ≡ n) (v : length velocity ≡ n) (e : length effort ≡ n) where
    encoded_body :
        cdr_joint_state (joint_state_msg frame_id names sec nanosec position velocity effort)
        ≡ body (stamp sec nanosec) (doubles position) (doubles velocity) (doubles effort)
    unfolding cdr_joint_state cdr_header body
    encoded_body =
        ap
          (λ b.
            cdr_double_seq effort
              (cdr_double_seq velocity (cdr_double_seq position (named_body frame_id names b))))
          (cdr_stamp sec nanosec)
        ∙ ap (λ b. cdr_double_seq effort (cdr_double_seq velocity b))
            (seq_lem n position _ p some_joint)
        ∙ ap (cdr_double_seq effort) (seq_lem n velocity _ v some_joint)
        ∙ seq_lem n effort _ e some_joint

    pub encoded_segments :
        (tail : Buffer)
        → encapsulated (
              cdr_joint_state (joint_state_msg frame_id names sec nanosec position velocity effort))
            ++ tail
          ≡ concat (state_segments sec nanosec position velocity effort tail)
    encoded_segments tail =
        ap (λ b. encapsulated b ++ tail)
          (encoded_body
            ∙ body_segments (stamp sec nanosec) (doubles position) (doubles velocity)
                (doubles effort) refl (array_length n position p) (array_length n velocity v))
        ∙ ap
            (λ t.
              encapsulated (
                concat (
                  stamp sec nanosec
                  ∷ strings frame_id names
                  ∷ doubles position
                  ∷ gap frame_id names
                  ∷ doubles velocity
                  ∷ last_gap frame_id names
                  ∷ doubles effort
                  ∷ []))
              ++ t)
            (sym (append-nil tail))
        ∙ sym (
            concat-append
              ((0 ∷ 1 ∷ 0 ∷ 0 ∷ [])
                ∷ stamp sec nanosec
                ∷ strings frame_id names
                ∷ doubles position
                ∷ gap frame_id names
                ∷ doubles velocity
                ∷ last_gap frame_id names
                ∷ doubles effort
                ∷ [])
              (tail ∷ []))

  -- The template is the message with nothing but zeros.
  abbrev pub blank : JointStateMsg
  blank = joint_state_msg frame_id names 0 0 (replicate n 0) (replicate n 0) (replicate n 0)

  pub state_template-blank : 0 < n → state_template frame_id names ≡ cdr_joint_state blank
  unfolding body
  state_template-blank some_joint = sym (
      encoded_body 0 0 zeros_n zeros_n zeros_n some_joint (length-replicate n 0)
        (length-replicate n 0) (length-replicate n 0)
      ∙ ap (λ z. body (zeros 8) z z z) (doubles-zero n))
    where
      zeros_n : List ℕ
      zeros_n = replicate n 0

  abbrev room : Buffer
  room = zeros (8 * n)

  length-room : length room ≡ 8 * n
  length-room = length-replicate (8 * n) 0

  -- Where the arrays begin.
  pub position_at : length (before_position frame_id names) ≡ 8 + length (strings frame_id names)
  position_at =
      ap length (in_front_1 frame_id names (zeros 8) room room refl length-room length-room)
      ∙ length-append (zeros 8) (strings frame_id names)

  velocity_front :
      before_velocity frame_id names
      ≡ ((zeros 8 ++ strings frame_id names) ++ room) ++ gap frame_id names
  velocity_front =
      ap (λ b. before_doubles n (b ++ room))
        (in_front_1 frame_id names (zeros 8) room room refl length-room length-room)
      ∙ in_front_2 frame_id names (zeros 8) room room refl length-room length-room

  effort_front :
      before_effort frame_id names
      ≡ ((((zeros 8 ++ strings frame_id names) ++ room) ++ gap frame_id names) ++ room)
        ++ last_gap frame_id names
  effort_front =
      ap (λ b. before_doubles n (b ++ room)) velocity_front
      ∙ in_front_3 frame_id names (zeros 8) room room refl length-room length-room

  pub velocity_at :
      length (before_velocity frame_id names)
      ≡ 8 + length (strings frame_id names) + 8 * n + length (gap frame_id names)
  velocity_at =
      ap length velocity_front
      ∙ omega (
        arith,
        length-append (((zeros 8 ++ strings frame_id names) ++ room)) (gap frame_id names),
        length-append (zeros 8 ++ strings frame_id names) room,
        length-append (zeros 8) (strings frame_id names),
        length-room,
      )

  pub effort_at :
      length (before_effort frame_id names)
      ≡ 8
        + length (strings frame_id names)
        + 8 * n
        + length (gap frame_id names)
        + 8 * n
        + length (last_gap frame_id names)
  effort_at =
      ap length effort_front
      ∙ omega (
        arith,
        length-append
            ((((zeros 8 ++ strings frame_id names) ++ room) ++ gap frame_id names) ++ room)
            (last_gap frame_id names),
        length-append (((zeros 8 ++ strings frame_id names) ++ room) ++ gap frame_id names) room,
        length-append ((zeros 8 ++ strings frame_id names) ++ room) (gap frame_id names),
        length-append (zeros 8 ++ strings frame_id names) room,
        length-append (zeros 8) (strings frame_id names),
        length-room,
      )
