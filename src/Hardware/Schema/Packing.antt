-- ===== src/Hardware/Schema/Packing.antt =====
-- zenbedded_hardware_interface/src/interface_schema.cpp: every schema is packed, and the C header
-- lays its structs out as the schema does.
use Prim.Native.String.{String}
use zephyr_zenoh_integration.Prelude.{
  ℕ, zero, suc, ◌+◌, ◌≤◌, ◌≡◌, ◌≢◌, refl, sym, ap, ◌⊎◌, inl, inr, true, List, [], ◌∷◌, ◌++◌, subst,
  none, some, arith, get_elem?, Option-cases,
}
use zephyr_zenoh_integration.Hardware.Schema.Types.{
  FlatField, InterfaceSchema, empty_schema, field_byte_size,
}
use zephyr_zenoh_integration.Hardware.Schema.Parse.{
  Scalar, string, throws, ComponentNode, Document, malformed, root, parse_field_type, Ending,
  completed, failed, thrown, Progress, parse_component_fields, parse_component, go_on,
  parse_section, parse_sections, from_document, with_state, with_commands, close_section,
}

-- The fields follow one another without a gap, from `start` to `end`.
abbrev pub Packed : ℕ → List FlatField → ℕ → Type 0
Packed start [] end = start ≡ end
Packed start (f ∷ fs) end = (f.byte_offset ≡ start) × Packed (start + field_byte_size f.type) fs end

Packed-append :
    (start middle end : ℕ) (fs gs : List FlatField)
    → Packed start fs middle
    → Packed middle gs end
    → Packed start (fs ++ gs) end
Packed-append start middle end [] gs p q = subst (λ (k : ℕ). Packed k gs end) (sym p) q
Packed-append start middle end (f ∷ fs) gs p q =
    (p.0, Packed-append (start + field_byte_size f.type) middle end fs gs p.1 q)

abbrev IsPacked : Progress → Type 0
IsPacked p = Packed 0 p.fields p.size

parse_component_fields-IsPacked :
    (nodes : List (Scalar × Scalar)) (name : String) (fields : List FlatField) (size : ℕ)
    → Packed 0 fields size
    → IsPacked (parse_component_fields nodes name fields size)
unfolding parse_component_fields
parse_component_fields-IsPacked [] name fields size p = p
parse_component_fields-IsPacked ((throws what, type) ∷ rest) name fields size p = p
parse_component_fields-IsPacked ((string field, throws what) ∷ rest) name fields size p = p
parse_component_fields-IsPacked ((string field, string type) ∷ rest) name fields size p =
    elim (Option-cases (parse_field_type type)) [
      | inl e ↦ rw (e, parse_component_fields) p
      | inr (t, e) ↦
          rw (e, parse_component_fields)
            (parse_component_fields-IsPacked rest name
              (fields
                ++ record { component = name; field = field; type = t; byte_offset = size } ∷ [])
              (size + field_byte_size t)
              (Packed-append 0 size (size + field_byte_size t) fields _ p (refl, refl)))
    ]

-- Every way to go on keeps the fields packed.
abbrev Keeps : (List FlatField → ℕ → Progress) → Type 0
Keeps k = (fields : List FlatField) (size : ℕ) → Packed 0 fields size → IsPacked (k fields size)

go_on-IsPacked :
    (e : Ending) (p : Progress) (k : List FlatField → ℕ → Progress)
    → IsPacked p
    → Keeps k
    → IsPacked (go_on e p k)
go_on-IsPacked completed p k h keeps = keeps p.fields p.size h
go_on-IsPacked (failed e) p k h keeps = h
go_on-IsPacked (thrown what) p k h keeps = h

parse_component-IsPacked :
    (name : Scalar) (nodes : List (Scalar × Scalar)) (fields : List FlatField) (size : ℕ)
    (k : List FlatField → ℕ → Progress)
    → Packed 0 fields size
    → Keeps k
    → IsPacked (parse_component name nodes fields size k)
unfolding parse_component
parse_component-IsPacked (throws what) nodes fields size k p keeps = p
parse_component-IsPacked (string name) nodes fields size k p keeps =
    go_on-IsPacked _ _ k (parse_component_fields-IsPacked nodes name fields size p) keeps

parse_section-Keeps : (cs : List ComponentNode) → Keeps (parse_section cs)
unfolding parse_section
parse_section-Keeps [] fields size p = p
parse_section-Keeps (c ∷ cs) fields size p =
    parse_component-IsPacked c.name c.fields fields size (parse_section cs) p
      (parse_section-Keeps cs)

pub record IsLaidOut (schema : InterfaceSchema) : Type 0 where
  pub states : Packed 0 schema.state_flat_fields schema.state_buffer_size
  pub commands : Packed 0 schema.command_flat_fields schema.command_buffer_size

close_section-IsLaidOut :
    (e : Ending) (schema next : InterfaceSchema)
    → IsLaidOut schema
    → IsLaidOut next
    → IsLaidOut (close_section schema e next)
close_section-IsLaidOut completed schema next h k = k
close_section-IsLaidOut (failed e) schema next h k = record {
  states = h.states;
  commands = h.commands;
}
close_section-IsLaidOut (thrown what) schema next h k = record {
  states = h.states;
  commands = h.commands;
}

-- Whatever the document is, and also where parsing stops with an error: the fields of the schema lie
-- one behind the other from offset 0 without gap or overlap, and the buffer sizes are where they end.
pub from_document-IsLaidOut : (d : Document) → IsLaidOut (from_document d)
unfolding from_document parse_sections
from_document-IsLaidOut (malformed what) = record { states = refl; commands = refl }
from_document-IsLaidOut (root none commands) = record { states = refl; commands = refl }
from_document-IsLaidOut (root (some states) none) = record { states = refl; commands = refl }
from_document-IsLaidOut (root (some states) (some commands)) =
    let s = parse_section states [] 0 in
    let c = parse_section commands [] 0 in
    let with_s = with_state empty_schema s in
    let with_c = with_commands with_s c in
    let states_packed : Packed 0 s.fields s.size = parse_section-Keeps states [] 0 refl in
    let commands_packed : Packed 0 c.fields c.size = parse_section-Keeps commands [] 0 refl in
    close_section-IsLaidOut s.ending with_s
      (close_section with_c c.ending (record with_c { valid = true }))
      (record { states = states_packed; commands = refl })
      (close_section-IsLaidOut c.ending with_c (record with_c { valid = true })
        (record { states = states_packed; commands = commands_packed })
        (record { states = states_packed; commands = commands_packed }))

-- A field of packed fields lies within them.
pub Packed-within :
    (start end : ℕ) (fs : List FlatField) (i : ℕ) (f : FlatField)
    → Packed start fs end
    → get_elem? fs i ≡ some f
    → (start ≤ f.byte_offset) × (f.byte_offset + field_byte_size f.type ≤ end)
Packed-within start end [] i f p h = absurd (grind arith)
Packed-within start end (g ∷ fs) zero f p h =
    let e : g ≡ f = grind arith in
    let rest = Packed-rises (start + field_byte_size g.type) end fs p.1 in
    subst (λ f. (start ≤ f.byte_offset) × (f.byte_offset + field_byte_size f.type ≤ end)) e
      (omega (arith, p.0), omega (arith, p.0, rest))
  where
    Packed-rises : (start end : ℕ) (fs : List FlatField) → Packed start fs end → start ≤ end
    Packed-rises start end [] p = omega (arith, p)
    Packed-rises start end (f ∷ fs) p =
        omega (arith, Packed-rises (start + field_byte_size f.type) end fs p.1)
Packed-within start end (g ∷ fs) (suc i) f p h =
    let (low, high) = Packed-within (start + field_byte_size g.type) end fs i f p.1 h in
    (omega (arith, low), high)

abbrev pub Apart : FlatField → FlatField → Type 0
Apart f g =
    (f.byte_offset + field_byte_size f.type ≤ g.byte_offset)
    ⊎ (g.byte_offset + field_byte_size g.type ≤ f.byte_offset)

-- Two fields of packed fields do not overlap.
pub Packed-Apart :
    (start end : ℕ) (fs : List FlatField) (i j : ℕ) (f g : FlatField)
    → Packed start fs end
    → get_elem? fs i ≡ some f
    → get_elem? fs j ≡ some g
    → i ≢ j
    → Apart f g
Packed-Apart start end [] i j f g p h k ne = absurd (grind arith)
Packed-Apart start end (x ∷ fs) zero zero f g p h k ne = absurd (ne refl)
Packed-Apart start end (x ∷ fs) zero (suc j) f g p h k ne =
    let e : x ≡ f = grind arith in
    let (low, _) = Packed-within (start + field_byte_size x.type) end fs j g p.1 k in
    subst (λ f. Apart f g) e (inl (omega (arith, low, p.0)))
Packed-Apart start end (x ∷ fs) (suc i) zero f g p h k ne =
    let e : x ≡ g = grind arith in
    let (low, _) = Packed-within (start + field_byte_size x.type) end fs i f p.1 h in
    subst (λ g. Apart f g) e (inr (omega (arith, low, p.0)))
Packed-Apart start end (x ∷ fs) (suc i) (suc j) f g p h k ne =
    Packed-Apart (start + field_byte_size x.type) end fs i j f g p.1 h k (λ e. ne (ap suc e))
