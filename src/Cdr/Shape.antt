-- ===== src/Cdr/Shape.antt =====
-- The encoded messages cut at their members, beside the template that `init` leaves behind.
use zephyr_zenoh_integration.Prelude.{
  ℕ, ◌+◌, ◌*◌, ◌<◌, ◌≡◌, refl, ap, ◌∙◌, List, [], ◌++◌, Option, arith, length, length-append,
}
use zephyr_zenoh_integration.Prelude.Bytes.{Buffer, le_bytes}
use zephyr_zenoh_integration.Cdr.Cursor.{doubles}
use zephyr_zenoh_integration.Cdr.Reference.{
  pad, cdr_u32, cdr_string, cdr_string_seq, cdr_double_seq,
}
use zephyr_zenoh_integration.Cdr.Layout.{or_empty, before_doubles}
use zephyr_zenoh_integration.Cdr.Extends.{
  Extends, Extends-compose, pad-Extends, cdr_u32-Extends, cdr_string-Extends,
  cdr_string_seq-Extends, cdr_double_seq_lem,
}
use zephyr_zenoh_integration.Cdr.Init.{named_body}

-- Four bytes of seconds, four of nanoseconds.
abbrev pub stamp : ℕ → ℕ → Buffer
stamp sec nanosec = le_bytes 4 sec ++ le_bytes 4 nanosec

pub before_doubles-Extends : (n : ℕ) → Extends (before_doubles n)
before_doubles-Extends n = Extends-compose (cdr_u32 n) (pad 8) (cdr_u32-Extends n) (pad-Extends 8)

pub named_body-Extends :
    (frame_id : Option (List ℕ)) (names : List (List ℕ)) → Extends (named_body frame_id names)
named_body-Extends frame_id names =
    Extends-compose (cdr_string (or_empty frame_id)) (cdr_string_seq names) (cdr_string-Extends _)
      (cdr_string_seq-Extends names)

pub cdr_stamp : (sec nanosec : ℕ) → cdr_u32 nanosec (cdr_u32 sec []) ≡ stamp sec nanosec
unfolding cdr_u32
cdr_stamp sec nanosec = refl

-- A sequence of `n` doubles behind a body.
pub seq_lem :
    (n : ℕ) (xs : List ℕ) (b : Buffer)
    → length xs ≡ n
    → 0 < n
    → cdr_double_seq xs b ≡ before_doubles n b ++ doubles xs
seq_lem n xs b e pos =
    cdr_double_seq_lem xs b (omega arith) ∙ ap (λ (k : ℕ). before_doubles k b ++ doubles xs) e

-- The bytes between the stamp and the positions, and the gaps behind two of the arrays.
module _ (frame_id : Option (List ℕ)) (names : List (List ℕ)) where
  abbrev n : ℕ
  n = length names

  strings-Extends : Extends (λ b. before_doubles n (named_body frame_id names b))
  strings-Extends =
      Extends-compose (named_body frame_id names) (before_doubles n)
        (named_body-Extends frame_id names) (before_doubles-Extends n)

  pub strings : Buffer
  strings = strings-Extends.0 8

  pub gap : Buffer
  gap = (before_doubles-Extends n).0 (8 + length strings + 8 * n)

  pub last_gap : Buffer
  last_gap = (before_doubles-Extends n).0 (8 + length strings + 8 * n + length gap + 8 * n)

  -- The body in front of each array, for a stamp `s` and arrays `x` and `y` of `8 * n` bytes.
  module _ (s x y : Buffer) (hs : length s ≡ 8) (hx : length x ≡ 8 * n)
      (hy : length y ≡ 8 * n) where
    pub in_front_1 : before_doubles n (named_body frame_id names s) ≡ s ++ strings
    unfolding strings
    in_front_1 = strings-Extends.1 s ∙ ap (λ (k : ℕ). s ++ strings-Extends.0 k) hs

    pub in_front_2 : before_doubles n ((s ++ strings) ++ x) ≡ ((s ++ strings) ++ x) ++ gap
    unfolding gap
    in_front_2 =
        (before_doubles-Extends n).1 _
        ∙ ap (λ (k : ℕ). ((s ++ strings) ++ x) ++ (before_doubles-Extends n).0 k)
            (omega (arith, length-append (s ++ strings) x, length-append s strings))

    pub in_front_3 :
        before_doubles n ((((s ++ strings) ++ x) ++ gap) ++ y)
        ≡ ((((s ++ strings) ++ x) ++ gap) ++ y) ++ last_gap
    unfolding last_gap
    in_front_3 =
        (before_doubles-Extends n).1 _
        ∙ ap (λ (k : ℕ). ((((s ++ strings) ++ x) ++ gap) ++ y) ++ (before_doubles-Extends n).0 k)
            (omega (
              arith,
              length-append (((s ++ strings) ++ x) ++ gap) y,
              length-append ((s ++ strings) ++ x) gap,
              length-append (s ++ strings) x,
              length-append s strings,
            ))
