-- ===== src/Cdr/Access.antt =====
-- zenbedded_transport/src/serialization.c: copying an array of doubles into one segment of a buffer,
-- and fetching a segment.
use zephyr_zenoh_integration.Prelude.{
  ℕ, ◌*◌, ◌^◌, ◌≤◌, ◌<◌, ◌≡◌, refl, sym, ap, ◌∙◌, List, ◌∷◌, ◌++◌, Option, none, some, map_option,
  arith, length, bind_step, drop,
}
use zephyr_zenoh_integration.Prelude.Bytes.{Buffer, store-fits}
use zephyr_zenoh_integration.Prelude.Segments.{concat, total, store-segment, load-segment, load_all}
use zephyr_zenoh_integration.Cdr.Cursor.{doubles, array_bytes, store_doubles, fetch}
use zephyr_zenoh_integration.Cdr.Extends.{length-doubles}

-- A null pointer leaves the old array.
abbrev pub or_old : Option (List ℕ) → List ℕ → List ℕ
or_old none old = old
or_old (some values) old = values

-- An array that is given has the length of the one it replaces.
abbrev pub Replaces : Option (List ℕ) → ℕ → Type 0
Replaces none n = Unit {0}
Replaces (some values) n = length values ≡ n

pub or_old-length :
    (o : Option (List ℕ)) (old : List ℕ) (n : ℕ)
    → Replaces o n
    → length old ≡ n
    → length (or_old o old) ≡ n
or_old-length none old n r h = h
or_old-length (some values) old n r h = r

module _ (n : ℕ) (small : 8 * n < 2 ^ 32) where
  pub array_bytes_lem : array_bytes n ≡ 8 * n
  array_bytes_lem = omega arith

  pub store_doubles-segment :
      (before : List Buffer) (old : List ℕ) (behind : List Buffer) (at : ℕ) (o : Option (List ℕ))
      → at ≡ total before
      → length old ≡ n
      → Replaces o n
      → store_doubles at (array_bytes n) o (concat (before ++ doubles old ∷ behind))
        ≡ some (concat (before ++ doubles (or_old o old) ∷ behind))
  unfolding store_doubles
  store_doubles-segment before old behind at none e h r = refl
  store_doubles-segment before old behind at (some values) e h r =
      bind_step _
        (load_all (array_bytes n) (doubles values)
          (array_bytes_lem ∙ ap (λ (k : ℕ). 8 * k) (sym r) ∙ sym (length-doubles values)))
        (store-segment before (doubles old) behind at (doubles values) e
          (length-doubles values ∙ ap (λ (k : ℕ). 8 * k) (r ∙ sym h) ∙ sym (length-doubles old)))

-- What a `memcpy` of `bytes` to the start of the target leaves, `none` for a null pointer.
abbrev pub over : Buffer → Option Buffer → Option Buffer
over bytes none = none
over bytes (some out) = some (bytes ++ drop (length bytes) out)

-- The target has room for `n` bytes.
abbrev pub HasRoom : ℕ → Option Buffer → Type 0
HasRoom n none = Unit {0}
HasRoom n (some out) = n ≤ length out

pub fetch-segment :
    (before : List Buffer) (bytes : Buffer) (behind : List Buffer) (at n : ℕ) (out : Option Buffer)
    → at ≡ total before
    → n ≡ length bytes
    → HasRoom n out
    → fetch at n (concat (before ++ bytes ∷ behind)) out ≡ some (over bytes out)
unfolding fetch
fetch-segment before bytes behind at n none e h room = refl
fetch-segment before bytes behind at n (some out) e h room =
    bind_step _ (load-segment before bytes behind at n e h) (
      ap (map_option some) (store-fits 0 bytes out (omega arith))
      ∙ ap (λ (k : ℕ). some (some (bytes ++ drop k out))) (omega arith))
