-- ===== src/Cdr/Scratch.antt =====
-- zenbedded_transport/src/serialization.c: the context that `zcdr_init_joint_command` computes does not
-- depend on what stood in the buffer, so that it can run over uninitialised memory.
use mathlib.Core.Path.{ap₂}
use zephyr_zenoh_integration.Prelude.{
  ℕ, zero, suc, ◌+◌, ◌*◌, ◌≤◌, ◌<◌, ◌≡◌, refl, sym, ap, ◌∙◌, inl, inr, Bool-cases, List, [], ◌∷◌,
  Option, none, some, ◌>>=◌, arith, length, length-replicate, leb, leb→le, subst, u32,
}
use zephyr_zenoh_integration.Prelude.Bytes.{
  Buffer, zeros, le_bytes, store, store-fits, store-past_end, length-store,
}
use zephyr_zenoh_integration.Cdr.Cursor.{
  Out, start, align, align_up, put, put_u32, put_header, put_text, text_len, put_optional_text,
  put_names, reserve,
}
use zephyr_zenoh_integration.Cdr.JointCommand.{JointCommandCtx, zcdr_init_joint_command}
use zephyr_zenoh_integration.Cdr.Reference.{cdr_joint_command}
use zephyr_zenoh_integration.Cdr.CommandInit.{CommandFits, joint_command_ctx, blank_command}
use zephyr_zenoh_integration.Cdr.CommandAccess.{init_command-blank}

-- Both runs fault, or neither does and the results are related.
abbrev Related : {A : Type 0} → (A → A → Type 0) → Option A → Option A → Type 0
Related R none none = Unit {0}
Related R none (some b) = ⊥
Related R (some a) none = ⊥
Related R (some a) (some b) = R a b

Related-bind :
    {A B : Type 0} (R : A → A → Type 0) (S : B → B → Type 0) (m n : Option A) (f g : A → Option B)
    → Related R m n
    → ((a b : A) → R a b → Related S (f a) (g b))
    → Related S (m >>= f) (n >>= g)
Related-bind R S none none f g h k = h
Related-bind R S none (some b) f g h k = absurd h
Related-bind R S (some a) none f g h k = absurd h
Related-bind R S (some a) (some b) f g h k = k a b h

abbrev SameLength : Buffer → Buffer → Type 0
SameLength a b = length a ≡ length b

-- The same cursor in buffers of the same length.
abbrev Alike : Out → Out → Type 0
Alike a b = (a.cursor ≡ b.cursor) × SameLength a.buffer b.buffer

store-Related :
    (i j : ℕ) (bytes a b : Buffer)
    → i ≡ j
    → SameLength a b
    → Related SameLength (store i bytes a) (store j bytes b)
store-Related i j bytes a b e h = elim (Bool-cases (leb (i + length bytes) (length a))) [
  | inl fits ↦
      let within : i + length bytes ≤ length a = leb→le _ _ fits in
      let p = store-fits i bytes a within in
      let q = store-fits j bytes b (omega arith) in
      rw (p, q) (length-store i bytes a p ∙ h ∙ sym (length-store j bytes b q))
  | inr past ↦
      rw (store-past_end i bytes a (ground arith), store-past_end j bytes b (ground arith)) tt
]

abbrev Blind : (Out → Option Out) → Type 0
Blind f = (a b : Out) → Alike a b → Related Alike (f a) (f b)

put-Blind : (bytes : Buffer) → Blind (put bytes)
unfolding put
put-Blind bytes a b (c, l) =
    Related-bind SameLength Alike _ _ _ _ (store-Related _ _ bytes _ _ c l)
      (λ x y h. (ap (λ (k : ℕ). k + length bytes) c, h))

put_u32-Blind : (v : ℕ) → Blind (put_u32 v)
unfolding put_u32
put_u32-Blind v = put-Blind (le_bytes 4 v)

put_text-Blind : (s : List ℕ) → Blind (put_text s)
unfolding put_text
put_text-Blind s a b h =
    Related-bind Alike Alike _ _ _ _ (put_u32-Blind (text_len s) a b h) (put-Blind _)

put_optional_text-Blind : (s : Option (List ℕ)) → Blind (put_optional_text s)
unfolding put_optional_text
put_optional_text-Blind none a b h =
    Related-bind Alike Alike _ _ _ _ (put_u32-Blind 1 a b h) (put-Blind _)
put_optional_text-Blind (some s) a b h = put_text-Blind s a b h

align-Alike : (k : ℕ) (a b : Out) → Alike a b → Alike (align k a) (align k b)
align-Alike k a b (c, l) = (ap (λ (i : ℕ). align_up i k) c, l)

put_names-Blind : (n : ℕ) (names : List (List ℕ)) → Blind (put_names n names)
unfolding put_names
put_names-Blind zero names a b h = h
put_names-Blind (suc n) [] a b h = tt
put_names-Blind (suc n) (s ∷ names) a b h =
    Related-bind Alike Alike _ _ _ _ (put_text-Blind s _ _ (align-Alike 4 a b h))
      (put_names-Blind n names)

put_header-Blind : Blind put_header
unfolding put_header
put_header-Blind a b (c, l) =
    Related-bind SameLength Alike _ _ _ _ (store-Related 0 0 _ _ _ refl l) (λ x y h.
      Related-bind SameLength Alike _ _ _ _ (store-Related 1 1 _ _ _ refl h) (λ x y h.
        Related-bind SameLength Alike _ _ _ _ (store-Related 2 2 _ _ _ refl h) (λ x y h.
          Related-bind SameLength Alike _ _ _ _ (store-Related 3 3 _ _ _ refl h)
            (λ x y h. (ap (λ (k : ℕ). k + 4) c, h)))))

abbrev AlikeAt : ℕ × Out → ℕ × Out → Type 0
AlikeAt (i, a) (j, b) = (i ≡ j) × Alike a b

reserve-Related : (n : ℕ) (a b : Out) → Alike a b → Related AlikeAt (reserve n a) (reserve n b)
unfolding reserve
reserve-Related n a b h =
    Related-bind Alike AlikeAt _ _ _ _ (put_u32-Blind n _ _ (align-Alike 4 a b h))
      (λ x y h. let (c, l) = align-Alike 8 x y h in (c, (ap (λ (k : ℕ). k + u32 (8 * n)) c, l)))

abbrev SameCtx : JointCommandCtx × Buffer → JointCommandCtx × Buffer → Type 0
SameCtx (c, a) (d, b) = c ≡ d

abbrev context : ℕ → ℕ → ℕ × ℕ → JointCommandCtx
context n stamp (values, size) = record {
  num_joints = n;
  offset_timestamp = stamp;
  offset_values = values;
  payload_size = size;
}

init_command-Related :
    (frame_id : Option (List ℕ)) (names : List (List ℕ)) (n : ℕ) (interface_name : Option (List ℕ))
    (a b : Buffer)
    → SameLength a b
    → Related SameCtx
        (zcdr_init_joint_command frame_id names n interface_name a)
        (zcdr_init_joint_command frame_id names n interface_name b)
unfolding zcdr_init_joint_command
init_command-Related frame_id names n interface_name a b h =
    Related-bind Alike SameCtx _ _ _ _ (put_header-Blind (start a) (start b) (refl, h)) (λ s s' hs.
      Related-bind Alike SameCtx _ _ _ _
        (put_optional_text-Blind frame_id _ _ (ap (λ (k : ℕ). k + 8) hs.0, hs.1))
        (λ x y h.
          Related-bind Alike SameCtx _ _ _ _ (put_u32-Blind n _ _ (align-Alike 4 x y h)) (λ x y h.
            Related-bind Alike SameCtx _ _ _ _ (put_names-Blind n names x y h) (λ x y h.
              Related-bind Alike SameCtx _ _ _ _
                (put_optional_text-Blind interface_name _ _ (align-Alike 4 x y h))
                (λ x y h.
                  Related-bind AlikeAt SameCtx _ _ _ _ (reserve-Related n x y h) (λ (i, x) (j, y) h.
                    ap₂ (context n) hs.0 (ap₂ (λ (i c : ℕ). (i, c)) h.0 h.1.0)))))))

some_ctx :
    (r : Option (JointCommandCtx × Buffer)) (c : JointCommandCtx) (b : Buffer)
    → Related SameCtx r (some (c, b))
    → (left : Buffer) × (r ≡ some (c, left))
some_ctx none c b h = absurd h
some_ctx (some (d, left)) c b h = (left, ap (λ d. some (d, left)) h)

-- Over a scratch buffer of any content `init` gives the context that it gives over zeros.
pub init_command-scratch :
    (frame_id : Option (List ℕ)) (names : List (List ℕ)) (interface_name : Option (List ℕ))
    → CommandFits frame_id names interface_name
    → 0 < length names
    → (scratch : Buffer) (room : ℕ) → length scratch ≡ 4 + room
    → length (cdr_joint_command (blank_command frame_id names interface_name)) ≤ room
    → (left : Buffer) × (zcdr_init_joint_command frame_id names
          (length names)
          interface_name
          scratch
        ≡ some (joint_command_ctx frame_id names interface_name, left))
init_command-scratch frame_id names interface_name fits some_joint scratch room e h =
    some_ctx _ _ _ (
      subst
        (λ r.
          Related SameCtx
            (zcdr_init_joint_command frame_id names (length names) interface_name scratch) r)
        (init_command-blank frame_id names interface_name fits some_joint room h)
        (init_command-Related frame_id names (length names) interface_name scratch
          (zeros (4 + room)) (e ∙ sym (length-replicate (4 + room) 0))))
