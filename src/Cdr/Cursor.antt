-- ===== src/Cdr/Cursor.antt =====
-- zenbedded_transport/src/serialization.c: what the two `init` functions have in common, a cursor
-- that walks `out_buffer`. The target is little-endian, as the CDR header says. An access outside
-- the buffer is a fault, `none`.
use zephyr_zenoh_integration.Prelude.{
  ℕ, zero, suc, ◌+◌, ◌-◌, ◌*◌, ◌/◌, List, [], ◌∷◌, ◌++◌, Option, none, some, ◌>>=◌, map_option, u32,
  length, take,
}
use zephyr_zenoh_integration.Prelude.Bytes.{Buffer, le_bytes, store, load}

abbrev pub cdr_header_size : ℕ
cdr_header_size = 4

-- `& ~(alignment - 1)` rounds down to a multiple of the alignment, a power of 2.
abbrev pub align_up : ℕ → ℕ → ℕ
align_up offset alignment =
    cdr_header_size + (offset - cdr_header_size + (alignment - 1)) / alignment * alignment

-- The local `cursor`, and `out_buffer`.
pub record Out : Type 0 where
  pub cursor : ℕ
  pub buffer : Buffer

abbrev pub start : Buffer → Out
start out_buffer = record { cursor = 0; buffer = out_buffer }

-- `memcpy(&out_buffer[cursor], bytes, n); cursor += n;`
unfoldable pub put : Buffer → Out → Option Out
put bytes o = do
  written ← store o.cursor bytes o.buffer
  some (record { cursor = o.cursor + length bytes; buffer = written })

-- `cursor = ALIGN_UP(cursor, alignment);`
abbrev pub align : ℕ → Out → Out
align alignment o = record o { cursor = align_up o.cursor alignment }

-- `cursor += n;`
abbrev pub skip : ℕ → Out → Out
skip n o = record o { cursor = o.cursor + n }

unfoldable pub put_u32 : ℕ → Out → Option Out
put_u32 v = put (le_bytes 4 v)

-- Four single bytes: CDR, little-endian, no options.
unfoldable pub put_header : Out → Option Out
put_header o = do
  b0 ← store 0 (0x00 ∷ []) o.buffer
  b1 ← store 1 (0x01 ∷ []) b0
  b2 ← store 2 (0x00 ∷ []) b1
  b3 ← store 3 (0x00 ∷ []) b2
  some (record { cursor = o.cursor + 4; buffer = b3 })

-- `strlen(s) + 1`, as a `uint32_t`.
abbrev pub text_len : List ℕ → ℕ
text_len s = u32 (length s + 1)

-- The length of a text with its terminating zero, and the text.
unfoldable pub put_text : List ℕ → Out → Option Out
put_text s o = do o1 ← put_u32 (text_len s) o; put (take (text_len s) (s ++ 0 ∷ [])) o1

-- A null pointer is written as the empty text.
unfoldable pub put_optional_text : Option (List ℕ) → Out → Option Out
put_optional_text none o = do o1 ← put_u32 1 o; put (0 ∷ []) o1
put_optional_text (some s) o = put_text s o

-- `for (uint32_t i = 0; i < num_joints; i++)`: too few names is a read past the array.
unfoldable pub put_names : ℕ → List (List ℕ) → Out → Option Out
put_names zero names o = some o
put_names (suc n) [] o = none
put_names (suc n) (s ∷ names) o = do o1 ← put_text s (align 4 o); put_names n names o1

-- The length of a sequence of doubles, and room for them: the offset of the first and the cursor
-- behind the last.
unfoldable pub reserve : ℕ → Out → Option (ℕ × Out)
reserve num_joints o = do
  o1 ← put_u32 num_joints (align 4 o)
  let o2 = align 8 o1
  some (o2.cursor, skip (u32 (8 * num_joints)) o2)

-- The bytes of an array of doubles, each as its 64-bit pattern.
abbrev pub doubles : List ℕ → Buffer
doubles [] = []
doubles (x ∷ xs) = le_bytes 8 x ++ doubles xs

-- `num_joints * 8`, as a `uint32_t`.
abbrev pub array_bytes : ℕ → ℕ
array_bytes num_joints = u32 (num_joints * 8)

-- `if (values) { memcpy(&out_buffer[offset], values, array_bytes); }`
unfoldable pub store_doubles : ℕ → ℕ → Option (List ℕ) → Buffer → Option Buffer
store_doubles offset n none buffer = some buffer
store_doubles offset n (some values) buffer = do
  bytes ← load 0 n (doubles values)
  store offset bytes buffer

-- `if (out) { memcpy(out, &in_buffer[offset], n); }`
unfoldable pub fetch : ℕ → ℕ → Buffer → Option Buffer → Option (Option Buffer)
fetch offset n in_buffer none = some none
fetch offset n in_buffer (some out) = do
  bytes ← load offset n in_buffer
  map_option some (store 0 bytes out)
