-- ===== src/Cdr/Layout.antt =====
-- zenbedded_transport/src/serialization.c: the cursor steps of the `init` functions, on a buffer of
-- zeros, append what the encoding appends.
use mathlib.Core.Path.{ap₂}
use native.Mathlib.Nat.{le_trans, mod-eq_of_lt}
use zephyr_zenoh_integration.Prelude.{
  ℕ, zero, ◌+◌, ◌-◌, ◌*◌, ◌%◌, ◌^◌, ◌≤◌, ◌<◌, ◌≡◌, refl, sym, ap, ◌∙◌, List, [], ◌∷◌, ◌++◌, Option,
  none, some, u32, arith, length, take, length-append, length-replicate, take-append,
  replicate-append, append_assoc, append-nil, subst,
}
use zephyr_zenoh_integration.Prelude.Bytes.{Buffer, zeros, le_bytes, store-append}
use zephyr_zenoh_integration.Cdr.Cursor.{
  Out, align_up, align, skip, put, put_u32, put_text, put_optional_text, put_names, reserve,
}
use zephyr_zenoh_integration.Cdr.Extends.{Extends-le, cdr_strings-Extends}
use zephyr_zenoh_integration.Cdr.Reference.{pad, cdr_u32, cdr_string, cdr_strings}

-- A buffer of `4 + room` bytes with the cursor behind the body written so far, zeros behind it.
abbrev pub at_body : ℕ → Buffer → Out
at_body room body = record {
  cursor = 4 + length body;
  buffer = 0 ∷ 1 ∷ 0 ∷ 0 ∷ (body ++ zeros (room - length body));
}

zeros-split : (n k : ℕ) → k ≤ n → zeros n ≡ zeros k ++ zeros (n - k)
zeros-split n k h =
    ap zeros {x = n} {y = k + (n - k)} (omega arith) ∙ sym (replicate-append k (n - k) 0)

out : ℕ → Buffer → Out
out c b = record { cursor = c; buffer = b }

out_path :
    {c c' : ℕ} {b b' : Buffer}
    → c ≡ c'
    → b ≡ b'
    → ◌≡◌ {A = Out} (record { cursor = c; buffer = b }) (record { cursor = c'; buffer = b' })
unfolding out
out_path p q = ap₂ out p q

-- The room behind the body, split behind the next `k` bytes.
room_split :
    (room k : ℕ) (body more : Buffer)
    → length more ≡ k
    → length (body ++ more) ≤ room
    → zeros (room - length body) ≡ zeros k ++ zeros (room - length (body ++ more))
room_split room k body more e h =
    zeros-split (room - length body) k (omega (arith, length-append body more))
    ∙ ap (λ (n : ℕ). zeros k ++ zeros n) (omega (arith, length-append body more))

pub put-at_body :
    (room : ℕ) (bytes body : Buffer)
    → length (body ++ bytes) ≤ room
    → put bytes (at_body room body) ≡ some (at_body room (body ++ bytes))
unfolding put
put-at_body room bytes body h =
    rw
      (
        room_split room (length bytes) body bytes refl h,
        store-append (0 ∷ 1 ∷ 0 ∷ 0 ∷ body) (zeros (length bytes))
            (zeros (room - length (body ++ bytes))) (4 + length body) bytes (omega arith)
            (sym (length-replicate (length bytes) 0)),
      )
      (ap some (
        out_path (omega (arith, length-append body bytes))
          (ap (λ b. 0 ∷ 1 ∷ 0 ∷ 0 ∷ b) (sym (append_assoc body bytes _)))))

-- Bytes that the cursor skips stay zero.
pub skip-at_body :
    (room k : ℕ) (body : Buffer)
    → length (body ++ zeros k) ≤ room
    → skip k (at_body room body) ≡ at_body room (body ++ zeros k)
skip-at_body room k body h =
    out_path (omega (arith, length-append body (zeros k), length-replicate k (zero))) (
      ap (λ b. 0 ∷ 1 ∷ 0 ∷ 0 ∷ (body ++ b))
        (room_split room k body (zeros k) (length-replicate k 0) h)
      ∙ ap (λ b. 0 ∷ 1 ∷ 0 ∷ 0 ∷ b) (sym (append_assoc body (zeros k) _)))

-- `ALIGN_UP` aligns the place in the body.
align_up_4 : (n : ℕ) → align_up (4 + n) 4 ≡ 4 + n + (4 - n % 4) % 4
align_up_4 n = omega arith

align_up_8 : (n : ℕ) → align_up (4 + n) 8 ≡ 4 + n + (8 - n % 8) % 8
align_up_8 n = omega arith

pub align_4-at_body :
    (room : ℕ) (body : Buffer)
    → length (pad 4 body) ≤ room
    → align 4 (at_body room body) ≡ at_body room (pad 4 body)
align_4-at_body room body h = out_path (align_up_4 (length body)) refl ∙ skip-at_body room _ body h

pub align_8-at_body :
    (room : ℕ) (body : Buffer)
    → length (pad 8 body) ≤ room
    → align 8 (at_body room body) ≡ at_body room (pad 8 body)
align_8-at_body room body h = out_path (align_up_8 (length body)) refl ∙ skip-at_body room _ body h

-- `f` appends to the body what the encoding `g` appends, while there is room.
abbrev pub Appends : ℕ → (Out → Option Out) → (Buffer → Buffer) → Type 0
Appends room f g =
    (body : Buffer) → length (g body) ≤ room → f (at_body room body) ≡ some (at_body room (g body))

pub le_append : (xs ys : Buffer) → length xs ≤ length (xs ++ ys)
le_append xs ys = omega (arith, length-append xs ys)

pub put_u32-Appends : (room v : ℕ) → Appends room (λ o. put_u32 v (align 4 o)) (cdr_u32 v)
unfolding put_u32 cdr_u32
put_u32-Appends room v body h =
    rw (align_4-at_body room body (le_trans (le_append (pad 4 body) (le_bytes 4 v)) h))
      (put-at_body room (le_bytes 4 v) (pad 4 body) h)

-- A text that a `uint32_t` can count.
abbrev pub IsShort : List ℕ → Type 0
IsShort s = length s + 1 < 2 ^ 32

take_all : (n : ℕ) (xs : Buffer) → n ≡ length xs → take n xs ≡ xs
take_all n xs e = subst (λ ys. take n ys ≡ xs) (append-nil xs) (take-append n xs [] e)

pub put_text-Appends :
    (room : ℕ) (s : List ℕ) → IsShort s → Appends room (λ o. put_text s (align 4 o)) (cdr_string s)
unfolding put_text cdr_string
put_text-Appends room s short body h =
    rw
      (
        mod-eq_of_lt short,
        put_u32-Appends room (length s + 1) body (le_trans (le_append _ (s ++ 0 ∷ [])) h),
        take_all (length s + 1) (s ++ 0 ∷ []) (omega (arith, length-append s (0 ∷ []))),
      )
      (put-at_body room (s ++ 0 ∷ []) (cdr_u32 (length s + 1) body) h)

abbrev pub AllShort : List (List ℕ) → Type 0
AllShort [] = Unit {0}
AllShort (s ∷ ss) = IsShort s × AllShort ss

pub put_names-Appends :
    (room : ℕ) (names : List (List ℕ))
    → AllShort names
    → Appends room (put_names (length names) names) (cdr_strings names)
unfolding put_names cdr_strings
put_names-Appends room [] short body h = refl
put_names-Appends room (s ∷ names) short body h =
    rw
      (put_text-Appends room s short.0 body (
        le_trans (Extends-le (cdr_strings names) (cdr_strings-Extends names) (cdr_string s body))
          h))
      (put_names-Appends room names short.1 (cdr_string s body) h)

-- The body behind the length and the gap in front of the doubles.
abbrev pub before_doubles : ℕ → Buffer → Buffer
before_doubles n body = pad 8 (cdr_u32 n body)

pub reserve-at_body :
    (room n : ℕ) (body : Buffer)
    → 8 * n < 2 ^ 32
    → length (before_doubles n body ++ zeros (8 * n)) ≤ room
    → reserve n (at_body room body)
      ≡ some (
        4 + length (before_doubles n body),
        at_body room (before_doubles n body ++ zeros (8 * n)),
      )
unfolding reserve
reserve-at_body room n body fits h =
    let framed = le_trans (le_append (before_doubles n body) (zeros (8 * n))) h in
    rw (put_u32-Appends room n body (le_trans (le_append (cdr_u32 n body) _) framed)) (
      ap reserved (align_8-at_body room (cdr_u32 n body) framed)
      ∙ ap (λ o. some (4 + length (before_doubles n body), o))
          (ap (λ (k : ℕ). skip k (at_body room (before_doubles n body))) (mod-eq_of_lt fits)
            ∙ skip-at_body room (8 * n) (before_doubles n body) h))
  where
    reserved : Out → Option (ℕ × Out)
    reserved o = some (o.cursor, skip (u32 (8 * n)) o)

-- The frame stands at an aligned place, so its length needs no gap.
abbrev pub or_empty : Option (List ℕ) → List ℕ
or_empty none = []
or_empty (some s) = s

pub put_optional_text-Appends :
    (room : ℕ) (s : Option (List ℕ))
    → IsShort (or_empty s)
    → Appends room (λ o. put_optional_text s (align 4 o)) (cdr_string (or_empty s))
unfolding put_optional_text cdr_string
put_optional_text-Appends room none short body h =
    rw (put_u32-Appends room 1 body (le_trans (le_append (cdr_u32 1 body) (0 ∷ [])) h))
      (put-at_body room (0 ∷ []) (cdr_u32 1 body) h)
put_optional_text-Appends room (some s) short body h = put_text-Appends room s short body h
