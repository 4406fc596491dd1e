-- ===== src/Prelude/Segments.antt =====
-- A buffer cut into consecutive segments: reading and replacing one of them.
use zephyr_zenoh_integration.Prelude.{
  ℕ, ◌+◌, ◌≡◌, refl, sym, ap, ◌∙◌, List, [], ◌∷◌, ◌++◌, some, length, length-append, append_assoc,
  append-nil, subst,
}
use zephyr_zenoh_integration.Prelude.Bytes.{Buffer, store, load, store-append, load-append}

abbrev pub concat : List Buffer → Buffer
concat [] = []
concat (s ∷ ss) = s ++ concat ss

pub concat-append : (ss ts : List Buffer) → concat (ss ++ ts) ≡ concat ss ++ concat ts
concat-append [] ts = refl
concat-append (s ∷ ss) ts =
    ap (λ t. s ++ t) (concat-append ss ts) ∙ sym (append_assoc s (concat ss) (concat ts))

abbrev pub total : List Buffer → ℕ
total [] = 0
total (s ∷ ss) = length s + total ss

pub length-concat : (ss : List Buffer) → length (concat ss) ≡ total ss
length-concat [] = refl
length-concat (s ∷ ss) =
    length-append s (concat ss) ∙ ap (λ (k : ℕ). length s + k) (length-concat ss)

module _ (before : List Buffer) (old : Buffer) (behind : List Buffer) (at : ℕ) where
  pub store-segment :
      (new : Buffer)
      → at ≡ total before
      → length new ≡ length old
      → store at new (concat (before ++ old ∷ behind)) ≡ some (concat (before ++ new ∷ behind))
  store-segment new e h =
      ap (store at new) (concat-append before (old ∷ behind))
      ∙ store-append (concat before) old (concat behind) at new (e ∙ sym (length-concat before)) h
      ∙ ap some (sym (concat-append before (new ∷ behind)))

  pub load-segment :
      (n : ℕ)
      → at ≡ total before
      → n ≡ length old
      → load at n (concat (before ++ old ∷ behind)) ≡ some old
  load-segment n e h =
      ap (load at n) (concat-append before (old ∷ behind))
      ∙ load-append (concat before) old (concat behind) at n (e ∙ sym (length-concat before)) h

-- The whole of a buffer.
pub load_all : (n : ℕ) (xs : Buffer) → n ≡ length xs → load 0 n xs ≡ some xs
load_all n xs e =
    subst (λ ys. load 0 n ys ≡ some xs) (append-nil xs) (load-append [] xs [] 0 n refl e)

-- The front of an array.
pub load-front : (n : ℕ) (xs ys : Buffer) → n ≡ length xs → load 0 n (xs ++ ys) ≡ some xs
load-front n xs ys e = load-append [] xs ys 0 n refl e
