-- ===== src/Cdr/Extends.antt =====
-- The reference encoding appends, and what it appends depends on the body's length alone.
use zephyr_zenoh_integration.Prelude.{
  ℕ, zero, suc, ◌+◌, ◌-◌, ◌*◌, ◌%◌, ◌≤◌, ◌<◌, ◌≡◌, refl, sym, ap, ◌∙◌, List, [], ◌∷◌, ◌++◌, arith,
  length, length-append, length-replicate, replicate, replicate-append, append_assoc, append-nil,
}
use zephyr_zenoh_integration.Prelude.Bytes.{Buffer, zeros, le_bytes, length-le_bytes}
use zephyr_zenoh_integration.Cdr.Cursor.{doubles}
use zephyr_zenoh_integration.Cdr.Reference.{
  pad, cdr_u32, cdr_string, cdr_strings, cdr_string_seq, cdr_double, cdr_doubles, cdr_double_seq,
}

-- `f` appends bytes that depend on the length of the body.
abbrev pub Extends : (Buffer → Buffer) → Type 0
Extends f = (more : ℕ → Buffer) × ((b : Buffer) → f b ≡ b ++ more (length b))

pub Extends-le : (f : Buffer → Buffer) → Extends f → (b : Buffer) → length b ≤ length (f b)
Extends-le f e b = omega (arith, ap length (e.1 b), length-append b (e.0 (length b)))

pub Extends-append : (f : Buffer → Buffer) (c : Buffer) → Extends f → Extends (λ b. f b ++ c)
Extends-append f c e =
    (λ k. e.0 k ++ c, λ b. ap (λ x. x ++ c) (e.1 b) ∙ append_assoc b (e.0 (length b)) c)

pub Extends-compose : (f g : Buffer → Buffer) → Extends f → Extends g → Extends (λ b. g (f b))
Extends-compose f g e d = (λ k. e.0 k ++ d.0 (k + length (e.0 k)), appended)
  where
    appended :
        (b : Buffer) → g (f b) ≡ b ++ (e.0 (length b) ++ d.0 (length b + length (e.0 (length b))))
    appended b =
        d.1 (f b)
        ∙ ap (λ x. x ++ d.0 (length x)) (e.1 b)
        ∙ ap (λ (k : ℕ). (b ++ e.0 (length b)) ++ d.0 k) (length-append b (e.0 (length b)))
        ∙ append_assoc b (e.0 (length b)) (d.0 (length b + length (e.0 (length b))))

pub pad-Extends : (n : ℕ) → Extends (pad n)
pad-Extends n = (λ k. zeros ((n - k % n) % n), λ b. refl)

pub cdr_u32-Extends : (v : ℕ) → Extends (cdr_u32 v)
unfolding cdr_u32
cdr_u32-Extends v = Extends-append (pad 4) (le_bytes 4 v) (pad-Extends 4)

pub cdr_string-Extends : (s : List ℕ) → Extends (cdr_string s)
unfolding cdr_string
cdr_string-Extends s =
    Extends-append (cdr_u32 (length s + 1)) (s ++ 0 ∷ []) (cdr_u32-Extends (length s + 1))

pub cdr_strings-Extends : (ss : List (List ℕ)) → Extends (cdr_strings ss)
unfolding cdr_strings
cdr_strings-Extends [] = (λ k. [], λ b. sym (append-nil b))
cdr_strings-Extends (s ∷ ss) =
    Extends-compose (cdr_string s) (cdr_strings ss) (cdr_string-Extends s) (cdr_strings-Extends ss)

pub cdr_string_seq-Extends : (ss : List (List ℕ)) → Extends (cdr_string_seq ss)
unfolding cdr_string_seq
cdr_string_seq-Extends ss =
    Extends-compose (cdr_u32 (length ss)) (cdr_strings ss) (cdr_u32-Extends _)
      (cdr_strings-Extends ss)

pub length-doubles : (xs : List ℕ) → length (doubles xs) ≡ 8 * length xs
length-doubles [] = refl
length-doubles (x ∷ xs) =
    omega (arith, length-append (le_bytes 8 x) (doubles xs), length-le_bytes 8 x, length-doubles xs)

pub doubles-zero : (n : ℕ) → doubles (replicate n 0) ≡ zeros (8 * n)
doubles-zero zero = refl
doubles-zero (suc n) =
    ap (λ t. zeros 8 ++ t) (doubles-zero n)
    ∙ replicate-append 8 (8 * n) 0
    ∙ ap zeros {x = 8 + 8 * n} {y = 8 * suc n} (omega arith)

pub length-pad_8 : (b : Buffer) → length (pad 8 b) % 8 ≡ 0
length-pad_8 b = omega (
  arith,
  length-append b (zeros ((8 - length b % 8) % 8)),
  length-replicate {0} ((8 - length b % 8) % 8) zero,
)

-- Where the body is aligned, the doubles stand side by side.
cdr_doubles_aligned :
    (xs : List ℕ) (b : Buffer) → length b % 8 ≡ 0 → cdr_doubles xs b ≡ b ++ doubles xs
unfolding cdr_doubles cdr_double
cdr_doubles_aligned [] b h = sym (append-nil b)
cdr_doubles_aligned (x ∷ xs) b h =
    ap (λ c. cdr_doubles xs (c ++ le_bytes 8 x))
      (ap (λ (k : ℕ). b ++ zeros ((8 - k) % 8)) h ∙ append-nil b)
    ∙ cdr_doubles_aligned xs (b ++ le_bytes 8 x)
        (omega (arith, length-append b (le_bytes 8 x), length-le_bytes 8 x))
    ∙ append_assoc b (le_bytes 8 x) (doubles xs)

-- A sequence with at least one double: its length, the gap, the doubles.
pub cdr_double_seq_lem :
    (xs : List ℕ) (b : Buffer)
    → 0 < length xs
    → cdr_double_seq xs b ≡ pad 8 (cdr_u32 (length xs) b) ++ doubles xs
unfolding cdr_double_seq cdr_doubles cdr_double
cdr_double_seq_lem [] b h = absurd (omega arith)
cdr_double_seq_lem (x ∷ xs) b h =
    let c = pad 8 (cdr_u32 (length (x ∷ xs)) b) in
    cdr_doubles_aligned xs (c ++ le_bytes 8 x) (
      omega (
        arith,
        length-append c (le_bytes 8 x),
        length-le_bytes 8 x,
        length-pad_8 (cdr_u32 (length (x ∷ xs)) b),
      ))
    ∙ append_assoc c (le_bytes 8 x) (doubles xs)
