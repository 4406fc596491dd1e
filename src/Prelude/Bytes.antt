-- ===== src/Prelude/Bytes.antt =====
-- Memory as a list of bytes: little-endian words, and `memcpy` into and out of an array, where an
-- access past the end is a fault.
use mathlib.Core.Path.{ap₂}
use native.Mathlib.Nat.{pow-suc}
use zephyr_zenoh_integration.Prelude.{
  ℕ, zero, suc, ◌+◌, ◌*◌, ◌/◌, ◌%◌, ◌^◌, ◌≤◌, ◌<◌, ◌≡◌, refl, sym, ap, ◌∙◌, ◌⊎◌, inl, inr, List, [],
  ◌∷◌, ◌++◌, append_assoc, Option, none, some, arith, leb, if◌then◌else◌, length, take, drop,
  replicate, length-append, length-take, length-drop, take-append, drop-append, le→leb,
  lt→leb_false,
}

-- An array of bytes.
abbrev pub Buffer : Type 0
Buffer = List ℕ

abbrev pub zeros : ℕ → Buffer
zeros n = replicate n 0

-- The `w` bytes of an unsigned integer, least significant first.
abbrev pub le_bytes : ℕ → ℕ → Buffer
le_bytes zero x = []
le_bytes (suc w) x = (x % 256) ∷ le_bytes w (x / 256)

abbrev pub le_value : Buffer → ℕ
le_value [] = 0
le_value (b ∷ bs) = b + 256 * le_value bs

-- `memcpy(&buf[at], bytes, length bytes)`.
unfoldable pub store : ℕ → Buffer → Buffer → Option Buffer
store at bytes buf =
    if leb (at + length bytes) (length buf)
    then some (take at buf ++ (bytes ++ drop (at + length bytes) buf))
    else none

-- `memcpy(out, &buf[at], n)`.
unfoldable pub load : ℕ → ℕ → Buffer → Option Buffer
load at n buf = if leb (at + n) (length buf) then some (take n (drop at buf)) else none

pub length-le_bytes : (w x : ℕ) → length (le_bytes w x) ≡ w
length-le_bytes zero x = refl
length-le_bytes (suc w) x = ap suc (length-le_bytes w (x / 256))

pub le_bytes-zero : (w : ℕ) → le_bytes w 0 ≡ zeros w
le_bytes-zero zero = refl
le_bytes-zero (suc w) = ap (◌∷◌ 0) (le_bytes-zero w)

-- Reading back a word that fits its width.
div-lt : {x n : ℕ} → x < n * 256 → x / 256 < n
div-lt h = omega arith

pub le_value-le_bytes : (w x : ℕ) → x < 256 ^ w → le_value (le_bytes w x) ≡ x
le_value-le_bytes zero x h = omega arith
le_value-le_bytes (suc w) x h =
    omega (arith, le_value-le_bytes w (x / 256) (div-lt (rw pow-suc at h)))

pub store-fits :
    (at : ℕ) (bytes buf : Buffer)
    → at + length bytes ≤ length buf
    → store at bytes buf ≡ some (take at buf ++ (bytes ++ drop (at + length bytes) buf))
unfolding store
store-fits at bytes buf h = rw (le→leb _ _ h)

pub load-fits :
    (at n : ℕ) (buf : Buffer) → at + n ≤ length buf → load at n buf ≡ some (take n (drop at buf))
unfolding load
load-fits at n buf h = rw (le→leb _ _ h)

-- A write that succeeds was within the array, and this is what it left.
pub store-eq-some :
    (at : ℕ) (bytes buf : Buffer) {buf' : Buffer}
    → store at bytes buf ≡ some buf'
    → (at + length bytes ≤ length buf)
      × (buf' ≡ take at buf ++ (bytes ++ drop (at + length bytes) buf))
unfolding store
store-eq-some at bytes buf h = ground arith

pub store-past_end :
    (at : ℕ) (bytes buf : Buffer) → length buf < at + length bytes → store at bytes buf ≡ none
unfolding store
store-past_end at bytes buf h = rw (lt→leb_false _ _ h)

module _ (xs ys zs : Buffer) where
  length-append₃ : length (xs ++ (ys ++ zs)) ≡ length xs + (length ys + length zs)
  length-append₃ = omega (arith, length-append xs (ys ++ zs), length-append ys zs)

  -- A write over the middle part of an array.
  pub store-append :
      (at : ℕ) (bytes : Buffer)
      → at ≡ length xs
      → length bytes ≡ length ys
      → store at bytes (xs ++ (ys ++ zs)) ≡ some (xs ++ (bytes ++ zs))
  store-append at bytes e h =
      store-fits at bytes _ (omega (arith, length-append₃))
      ∙ ap some (rw (take-append at xs (ys ++ zs) e) (ap (λ t. xs ++ (bytes ++ t)) rest))
    where
      rest : drop (at + length bytes) (xs ++ (ys ++ zs)) ≡ zs
      rest =
          rw (← append_assoc xs ys zs)
            (drop-append (at + length bytes) (xs ++ ys) zs (omega (arith, length-append xs ys)))

  pub load-append :
      (at n : ℕ) → at ≡ length xs → n ≡ length ys → load at n (xs ++ (ys ++ zs)) ≡ some ys
  load-append at n e h =
      load-fits at n _ (omega (arith, length-append₃))
      ∙ ap some (rw (drop-append at xs (ys ++ zs) e) (take-append n ys zs h))

pub length-store :
    (at : ℕ) (bytes buf : Buffer) {buf' : Buffer}
    → store at bytes buf ≡ some buf'
    → length buf' ≡ length buf
length-store at bytes buf {buf'} h =
    let (fits, e) = store-eq-some at bytes buf h in
    omega (
      arith,
      ap length e,
      length-append₃ (take at buf) bytes (drop (at + length bytes) buf),
      length-take at buf,
      length-drop (at + length bytes) buf,
    )

-- Reading back what was written.
pub load-store_self :
    (at n : ℕ) (bytes buf : Buffer) {buf' : Buffer}
    → store at bytes buf ≡ some buf'
    → n ≡ length bytes
    → load at n buf' ≡ some bytes
load-store_self at n bytes buf h e =
    let (fits, p) = store-eq-some at bytes buf h in
    rw p (load-append (take at buf) bytes _ at n (omega (arith, length-take at buf)) e)

take-drop-append :
    (n p : ℕ) (xs ys : Buffer) → p + n ≤ length xs → take n (drop p (xs ++ ys)) ≡ take n (drop p xs)
take-drop-append zero zero xs ys h = refl
take-drop-append zero (suc p) [] ys h = refl
take-drop-append (suc n) zero [] ys h = absurd (omega arith)
take-drop-append (suc n) zero (x ∷ xs) ys h =
    ap (◌∷◌ x) (take-drop-append n zero xs ys (omega arith))
take-drop-append n (suc p) (x ∷ xs) ys h = take-drop-append n p xs ys (omega arith)
take-drop-append (suc n) (suc p) [] ys h = absurd (omega arith)

take-drop-take :
    (n p m : ℕ) (xs : Buffer) → p + n ≤ m → take n (drop p (take m xs)) ≡ take n (drop p xs)
take-drop-take zero p m xs h = refl
take-drop-take (suc n) p zero xs h = absurd (omega arith)
take-drop-take (suc n) zero (suc m) [] h = refl
take-drop-take (suc n) (suc p) (suc m) [] h = refl
take-drop-take (suc n) zero (suc m) (x ∷ xs) h =
    ap (◌∷◌ x) (take-drop-take n zero m xs (omega arith))
take-drop-take (suc n) (suc p) (suc m) (x ∷ xs) h = take-drop-take (suc n) p m xs (omega arith)

drop-append_after :
    (p k : ℕ) (xs ys zs : Buffer)
    → k ≡ length xs
    → k ≤ p
    → drop k ys ≡ zs
    → drop p (xs ++ zs) ≡ drop p ys
drop-append_after p zero [] ys zs e h r = ap (drop p) (sym r)
drop-append_after p (suc k) [] ys zs e h r = absurd (omega arith)
drop-append_after p zero (x ∷ xs) ys zs e h r = absurd (omega arith)
drop-append_after zero (suc k) (x ∷ xs) ys zs e h r = absurd (omega arith)
drop-append_after (suc p) (suc k) (x ∷ xs) [] zs e h r =
    drop-append_after p k xs [] zs (omega arith) (omega arith) (drop-nil k ∙ r) ∙ drop-nil p
  where
    drop-nil : (j : ℕ) → drop {A = ℕ} j [] ≡ []
    drop-nil zero = refl
    drop-nil (suc j) = refl
drop-append_after (suc p) (suc k) (x ∷ xs) (y ∷ ys) zs e h r =
    drop-append_after p k xs ys zs (omega arith) (omega arith) r

load-cong :
    (p n : ℕ) (xs ys : Buffer)
    → length xs ≡ length ys
    → take n (drop p xs) ≡ take n (drop p ys)
    → load p n xs ≡ load p n ys
unfolding load
load-cong p n xs ys e h = ap₂ sized e h
  where
    sized : ℕ → Buffer → Option Buffer
    sized k t = if leb (p + n) k then some t else none

module _ (at p n : ℕ) (bytes buf : Buffer) {buf' : Buffer}
    (h : store at bytes buf ≡ some buf') where
  written :
      (at + length bytes ≤ length buf)
      × (buf' ≡ take at buf ++ (bytes ++ drop (at + length bytes) buf))
  written = store-eq-some at bytes buf h

  -- A write leaves the bytes before and behind it alone.
  pub load-store_ne : (p + n ≤ at) ⊎ (at + length bytes ≤ p) → load p n buf' ≡ load p n buf
  load-store_ne (inl before) = load-cong p n buf' buf (length-store at bytes buf h) (
      rw written.1 (
        take-drop-append n p (take at buf) _ (omega (arith, length-take at buf, written.0))
        ∙ take-drop-take n p at buf before))
  load-store_ne (inr behind) =
      load-cong p n buf' buf (length-store at bytes buf h) (ap (take n) same)
    where
      same : drop p buf' ≡ drop p buf
      same =
          rw (written.1, ← append_assoc (take at buf) bytes (drop (at + length bytes) buf))
            (drop-append_after p (at + length bytes) (take at buf ++ bytes) buf _
              (omega (arith, length-append (take at buf) bytes, length-take at buf, written.0))
              behind refl)
