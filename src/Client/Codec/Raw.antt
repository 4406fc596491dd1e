-- ===== src/Client/Codec/Raw.antt =====
-- zenbedded_rcl/include/zenbedded_rcl/codecs.hpp: `RawCodec`, for a type whose objects are `n` bytes.
use zephyr_zenoh_integration.Prelude.{
  ℕ, [], ◌+◌, ◌-◌, ◌≤◌, ◌≡◌, refl, sym, ap, ◌∙◌, Bool, true, false, ◌++◌, Option, some, ◌>>=◌,
  arith, length, ltb, if◌then◌else◌, length-replicate, replicate-append, bind_step,
}
use zephyr_zenoh_integration.Prelude.Bytes.{Buffer, zeros, store, load, store-append}
use zephyr_zenoh_integration.Prelude.Segments.{load_all}
use zephyr_zenoh_integration.Client.Codec.Contract.{
  StateCodec, CommandCodec, StateLaws, CommandLaws,
}

-- `if (size < sizeof(T)) return false; memcpy(&out, buf, sizeof(T));`
abbrev pub raw_read : ℕ → Buffer → ℕ → Buffer → Option (Bool × Buffer)
raw_read n buf size out =
    if ltb size n then some (false, out) else do bytes ← load 0 n buf; some (true, bytes)

abbrev pub raw_state_codec : ℕ → StateCodec
raw_state_codec n = record {
  Ctx = Unit {0};
  InitParams = Unit {0};
  Value = Buffer;
  default_ctx = tt;
  init = λ p buf. some (tt, buf);
  payload_size = λ ctx. n;
  write = λ ctx v buf. store 0 v buf;
}

abbrev pub raw_command_codec : ℕ → CommandCodec
raw_command_codec n = record {
  Ctx = Unit {0};
  InitParams = Unit {0};
  Value = Buffer;
  default_ctx = tt;
  init = λ p buf. some (tt, buf);
  payload_size = λ ctx. n;
  read = λ ctx buf size out. raw_read n buf size out;
}

pub raw_init_blank : (n size : ℕ) → n ≤ size → zeros size ≡ zeros n ++ zeros (size - n)
raw_init_blank n size h =
    ap zeros {x = size} {y = n + (size - n)} (omega arith) ∙ sym (replicate-append n (size - n) 0)

pub raw_write_message :
    (n : ℕ) (v m tail : Buffer)
    → length v ≡ n
    → length m ≡ n
    → store 0 v (m ++ tail) ≡ some (v ++ tail)
raw_write_message n v m tail e h = store-append [] m tail 0 v refl (e ∙ sym h)

abbrev pub raw_state_laws : (n : ℕ) → StateLaws (raw_state_codec n) tt
raw_state_laws n = record {
  Message = Buffer;
  ctx = tt;
  encode = λ m. m;
  IsShaped = λ m. length m ≡ n;
  Suits = λ v. length v ≡ n;
  blank = zeros n;
  update = λ v m. v;
  blank-IsShaped = length-replicate n 0;
  update-IsShaped = λ v m e h. e;
  length-encode = λ m h. h;
  init_blank = λ size h. ap (λ b. some (tt, b)) (raw_init_blank n size h);
  write_message = λ v m tail e h. raw_write_message n v m tail e h;
}

pub raw_read_message : (n : ℕ) (m out : Buffer) → length m ≡ n → raw_read n m n out ≡ some (true, m)
raw_read_message n m out h = rw (not_below n) (bind_step _ (load_all n m (sym h)) refl)
  where
    not_below : (n : ℕ) → ltb n n ≡ false
    not_below n = ground arith

abbrev pub raw_command_laws : (n : ℕ) → CommandLaws (raw_command_codec n) tt
raw_command_laws n = record {
  Message = Buffer;
  ctx = tt;
  encode = λ m. m;
  IsShaped = λ m. length m ≡ n;
  HasRoom = λ out. length out ≡ n;
  fill = λ m out. m;
  length-encode = λ m h. h;
  init_any = λ scratch h. (scratch, refl);
  read_message = λ m out h room. raw_read_message n m out h;
}
