-- ===== src/Hardware/Plugin/Cycle.antt =====
-- zenbedded_hardware_interface/src/zenbedded_hardware.cpp: what read and write do in a ready plugin.
use mathlib.Core.Path.{ap₂}
use mathlib.Core.Option.{some-injective}
use zephyr_zenoh_integration.Prelude.{
  ℕ, zero, suc, ◌+◌, ◌≤◌, ◌<◌, ◌≡◌, ◌⊎◌, inl, inr, refl, sym, ap, ◌∙◌, List, [], ◌∷◌, ◌++◌, some,
  arith, get_elem?, length, map, bind_step, ==_iff, append-nil, append_assoc, length-append,
}
use zephyr_zenoh_integration.Prelude.Bytes.{Buffer}
use zephyr_zenoh_integration.Hardware.Schema.Types.{InterfaceSchema, FlatField}
use zephyr_zenoh_integration.Hardware.Schema.Fields.{read_state_field, read_command_field}
use zephyr_zenoh_integration.Hardware.Schema.Packing.{IsLaidOut}
use zephyr_zenoh_integration.Hardware.Schema.Access.{
  field_value, read_field-value, write_command_field-reads,
}
use zephyr_zenoh_integration.Hardware.Plugin.State.{Platform, set_elem?}
use zephyr_zenoh_integration.Hardware.Plugin.Loop.{read_fields, decode, write_fields}

-- An index within a list.
pub get_elem?-within :
    {A : Type 0} (xs : List A) (i : ℕ) → i < length xs → (x : A) × (get_elem? xs i ≡ some x)
get_elem?-within [] i h = absurd (omega arith)
get_elem?-within (x ∷ xs) zero h = (x, refl)
get_elem?-within (x ∷ xs) (suc i) h = get_elem?-within xs i (omega arith)

get_elem?-lt : {A : Type 0} (xs : List A) (i : ℕ) {x : A} → get_elem? xs i ≡ some x → i < length xs
get_elem?-lt [] i h = absurd (grind arith)
get_elem?-lt (x ∷ xs) zero h = omega arith
get_elem?-lt (x ∷ xs) (suc i) h = omega (arith, get_elem?-lt xs i h)

same_entry :
    {A : Type 0} (xs : List A) {i j : ℕ} {x y : A}
    → i ≡ j
    → get_elem? xs i ≡ some x
    → get_elem? xs j ≡ some y
    → x ≡ y
same_entry xs {i} {j} {x} {y} e p q = some-injective x y (sym p ∙ ap (get_elem? xs) e ∙ q)

get_elem?-append :
    {A : Type 0} (xs : List A) (y : A) (ys : List A) → get_elem? (xs ++ y ∷ ys) (length xs) ≡ some y
get_elem?-append [] y ys = refl
get_elem?-append (x ∷ xs) y ys = get_elem?-append xs y ys

set_elem?-append :
    {A : Type 0} (xs : List A) (y z : A) (ys : List A)
    → set_elem? (length xs) z (xs ++ y ∷ ys) ≡ some (xs ++ z ∷ ys)
set_elem?-append [] y z ys = refl
set_elem?-append (x ∷ xs) y z ys = bind_step _ (set_elem?-append xs y z ys) refl

pub length-map : {A B : Type 0} (g : A → B) (xs : List A) → length (map g xs) ≡ length xs
length-map g [] = refl
length-map g (x ∷ xs) = ap suc (length-map g xs)

map-snoc :
    {A B : Type 0} (g : A → B) (xs : List A) (x : A) (ys : List B)
    → map g xs ++ g x ∷ ys ≡ map g (xs ++ x ∷ []) ++ ys
map-snoc g [] x ys = refl
map-snoc g (w ∷ xs) x ys = ap (◌∷◌ (g w)) (map-snoc g xs x ys)

-- The values that a state payload holds, field by field.
abbrev pub decoded : Platform → InterfaceSchema → Buffer → List ℕ
decoded platform schema buffer =
    map (λ f. field_value platform.casts f buffer) schema.state_flat_fields

module _ (platform : Platform) (schema : InterfaceSchema) (laid : IsLaidOut schema) where
  module _ (buffer : Buffer) (size : length buffer ≡ schema.state_buffer_size) where
    abbrev value_of : FlatField → ℕ
    value_of f = field_value platform.casts f buffer

    -- The loop of `read` after the fields of `done`.
    read_fields-rest :
        (done todo : List FlatField) (old states : List ℕ) (i : ℕ)
        → schema.state_flat_fields ≡ done ++ todo
        → length old ≡ length todo
        → i ≡ length done
        → states ≡ map value_of done ++ old
        → read_fields platform schema buffer i (length todo) states
          ≡ some (decoded platform schema buffer)
    unfolding read_fields read_state_field
    read_fields-rest done [] [] states i all e k s =
        ap some (s ∙ append-nil _ ∙ ap (map value_of) (sym (all ∙ append-nil done)))
    read_fields-rest done [] (x ∷ old) states i all e k s = absurd (omega arith)
    read_fields-rest done (f ∷ todo) [] states i all e k s = absurd (omega arith)
    read_fields-rest done (f ∷ todo) (x ∷ old) states i all e k s = bind_step _ value (
        bind_step _ stored (
          read_fields-rest (done ++ f ∷ []) todo old _ (suc i)
            (all ∙ sym (append_assoc done (f ∷ []) todo)) (omega arith)
            (omega (arith, length-append done (f ∷ []))) (map-snoc value_of done f old)))
      where
        value : read_state_field platform.casts schema buffer i ≡ some (value_of f)
        value =
            read_field-value platform.casts schema.state_flat_fields schema.state_buffer_size i f
              buffer laid.states (rw (all, k) (get_elem?-append done f todo)) size

        stored : set_elem? i (value_of f) states ≡ some (map value_of done ++ value_of f ∷ old)
        stored =
            rw (s, k, ← length-map value_of done)
              (set_elem?-append (map value_of done) x (value_of f) old)

    pub decode-decoded :
        (states : List ℕ)
        → length states ≡ length schema.state_flat_fields
        → decode platform schema (some buffer) states ≡ some (decoded platform schema buffer)
    unfolding decode
    decode-decoded states e =
        rw ((==_iff _ _).1 size)
          (read_fields-rest [] schema.state_flat_fields states states 0 refl e refl refl)

  nat_eq_or_lt : (i j : ℕ) → i ≤ j → (i ≡ j) ⊎ (suc i ≤ j)
  nat_eq_or_lt i j h = ground arith

  -- The loop of `write` from index `i`.
  module _ (commands : List ℕ) (e : length commands ≡ length schema.command_flat_fields) where
    abbrev Writes : ℕ → Buffer → Buffer → Type 0
    Writes i before after =
        (length after ≡ length before)
        × ((j : ℕ)
            → j < i
            → read_command_field platform.casts schema after j
              ≡ read_command_field platform.casts schema before j)
        × ((j : ℕ) (f : FlatField) (v : ℕ)
            → i ≤ j
            → get_elem? schema.command_flat_fields j ≡ some f
            → get_elem? commands j ≡ some v
            → read_command_field platform.casts schema after j
              ≡ some (platform.casts.to_double f.type (platform.casts.from_double f.type v)))

    pub write_fields-Writes :
        (i n : ℕ) (buffer : Buffer)
        → i + n ≡ length schema.command_flat_fields
        → length buffer ≡ schema.command_buffer_size
        → (after : Buffer) × (write_fields platform schema commands i n buffer ≡ some after)
          × Writes i buffer after
    unfolding write_fields
    write_fields-Writes i zero buffer k size = (
      buffer,
      refl,
      (refl, λ j h. refl, λ j f v h p q. absurd (omega (arith, get_elem?-lt _ j p))),
    )
    write_fields-Writes i (suc n) buffer k size =
        let (f, p) = get_elem?-within schema.command_flat_fields i (omega arith) in
        let (v, q) = get_elem?-within commands i (omega arith) in
        let (written, w, same_length, self, others) =
          write_command_field-reads platform.casts schema laid i f p buffer size v in
        let (after, rest, (lengths, below, above)) =
          write_fields-Writes (suc i) n written (omega arith) (same_length ∙ size) in
        (
          after,
          bind_step _ q (bind_step _ w rest),
          (
            lengths ∙ same_length,
            λ j h. below j (omega arith) ∙ others j (λ s. absurd (omega arith)),
            λ j g u h a b. elim (nat_eq_or_lt i j h) [
              | inl s ↦
                  below j (omega arith)
                  ∙ ap (read_command_field platform.casts schema written) (sym s)
                  ∙ self
                  ∙ ap₂
                      (λ f v.
                        some
                          (platform.casts.to_double f.type (platform.casts.from_double f.type v)))
                      (same_entry schema.command_flat_fields s p a) (same_entry commands s q b)
              | inr s ↦ above j g u s a b
            ],
          ),
        )
