-- ===== src/Hardware/Schema/Validity.antt =====
-- zenbedded_hardware_interface/src/interface_schema.cpp: when `from_yaml` gives a valid schema.
use zephyr_zenoh_integration.Prelude.{
  ◌≡◌, ◌≢◌, refl, ◌↔◌, Bool, true, false, [], Option, none, some, arith,
}
use zephyr_zenoh_integration.Hardware.Schema.Types.{InterfaceSchema, SchemaError, empty_schema}
use zephyr_zenoh_integration.Hardware.Schema.Parse.{
  Document, malformed, root, Ending, completed, failed, thrown, parse_section, parse_sections,
  from_document, with_state, with_commands, close_section,
}

abbrev IsSettled : InterfaceSchema → Type 0
IsSettled schema = (schema.valid ≡ true) ↔ (schema.error ≡ none)

refused :
    {valid : Bool} {error : Option SchemaError}
    → valid ≡ false
    → error ≢ none
    → (valid ≡ true) ↔ (error ≡ none)
refused h k = (λ v. absurd (grind arith), λ e. absurd (k e))

close_section-IsSettled :
    (schema : InterfaceSchema) (e : Ending) (next : InterfaceSchema)
    → schema.valid ≡ false
    → IsSettled next
    → IsSettled (close_section schema e next)
close_section-IsSettled schema completed next h k = k
close_section-IsSettled schema (failed e) next h k = refused h (λ q. grind arith)
close_section-IsSettled schema (thrown what) next h k = refused h (λ q. grind arith)

-- Whatever the document is, `from_yaml` gives a schema that is valid exactly if it holds no error:
-- each way to stop early leaves a message, and no other way sets one.
pub from_document-valid_iff :
    (d : Document) → ((from_document d).valid ≡ true) ↔ ((from_document d).error ≡ none)
unfolding from_document parse_sections
from_document-valid_iff (malformed what) = refused refl (λ q. grind arith)
from_document-valid_iff (root none commands) = refused refl (λ q. grind arith)
from_document-valid_iff (root (some states) none) = refused refl (λ q. grind arith)
from_document-valid_iff (root (some states) (some commands)) =
    let s = parse_section states [] 0 in
    let c = parse_section commands [] 0 in
    let with_s = with_state empty_schema s in
    let with_c = with_commands with_s c in
    close_section-IsSettled with_s s.ending _ refl (
      close_section-IsSettled with_c c.ending (record with_c { valid = true }) refl
        (λ v. refl, λ e. refl))
