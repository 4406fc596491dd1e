-- ===== src/Transport/Sequence.antt =====
-- zenbedded_transport/src/zenoh_transport.c: what publications in tier 1 carry, one after the other.
use zephyr_zenoh_integration.Prelude.{
  ℕ, zero, suc, ◌+◌, ◌*◌, ◌%◌, ◌^◌, ◌<◌, ◌≡◌, refl, ap, ◌∙◌, Bool, true, false, List, [], ◌∷◌, ◌++◌,
  Option, some, ◌>>=◌, bind_step, arith, length, get_elem?, if◌then◌else◌,
}
use zephyr_zenoh_integration.Prelude.Int.{ℤ, pos, int64_bits, to_int64, to_int64-small}
use zephyr_zenoh_integration.Prelude.Bytes.{Buffer}
use zephyr_zenoh_integration.Transport.Pool.{PoolSlot, update}
use zephyr_zenoh_integration.Transport.State.{
  tier_1, Printer, Attachment, PubBody, Call, put, Transport,
}
use zephyr_zenoh_integration.Transport.Endpoints.{zenbedded_transport_publish, publish_in, put_from}

-- One publication: the payload, the answer of the clock and that of zenoh.
pub record Publication : Type 0 where
  pub payload : Buffer
  pub tv : ℕ × ℕ
  pub puts : Bool

get_elem-update :
    {A : Type 0} (i : ℕ) (f : PoolSlot A → PoolSlot A) (ss : List (PoolSlot A)) {s : PoolSlot A}
    → get_elem? ss i ≡ some s
    → get_elem? (update i f ss) i ≡ some (f s)
get_elem-update i f [] e = absurd (grind arith)
get_elem-update zero f (s ∷ ss) e = ap (λ o. o >>= λ x. some (f x)) e
get_elem-update (suc i) f (s ∷ ss) e = get_elem-update i f ss e

-- The clock of a publication, in nanoseconds.
abbrev pub time_ns : Publication → ℕ
time_ns p = p.tv.0 * 1000000000 + p.tv.1

-- Clocks that an `int64_t` can hold in nanoseconds.
abbrev pub AllTimes : List Publication → Type 0
AllTimes [] = Unit
AllTimes (p ∷ ps) = (time_ns p < 2 ^ 63) × AllTimes ps

-- The calls of publications numbered from `n` on, with the times of their clocks.
abbrev pub numbered : ℕ → Attachment → ℕ → List Publication → List Call
numbered i a n [] = []
numbered i a n (p ∷ ps) =
    put i p.payload (some (record a { sequence_number = pos n; timestamp_ns = pos (time_ns p) }))
    ∷ numbered i a (n + 1) ps

-- The number and the time of the attachment before do not matter.
numbered-attachment :
    (i : ℕ) (a : Attachment) (x y : ℤ) (n : ℕ) (ps : List Publication)
    → numbered i (record a { sequence_number = x; timestamp_ns = y }) n ps ≡ numbered i a n ps
numbered-attachment i a x y n [] = refl
numbered-attachment i a x y n (p ∷ ps) =
    ap
      (◌∷◌ (
        put i p.payload
          (some (record a { sequence_number = pos n; timestamp_ns = pos (time_ns p) }))))
      (numbered-attachment i a x y (n + 1) ps)

put-numbers :
    (i : ℕ) (payload : Buffer) (a : Attachment) {x y x' y' : ℤ}
    → x ≡ x'
    → y ≡ y'
    → put i payload (some (record a { sequence_number = x; timestamp_ns = y }))
      ≡ put i payload (some (record a { sequence_number = x'; timestamp_ns = y' }))
put-numbers i payload a e f = rw e (rw f refl)

module _ (printer : Printer) (Callback : Type 0) where
  -- The results, and the calls.
  unfoldable pub publish_all :
      Option ℕ
      → List Publication
      → Transport Callback
      → Option (List Bool × Transport Callback × List Call)
  unfolding zenbedded_transport_publish
  publish_all pub_slot [] t = some ([], t, [])
  publish_all pub_slot (p ∷ ps) t = do
    (sent, t', calls) ←
        zenbedded_transport_publish tier_1 printer Callback pub_slot p.payload p.tv p.puts t
    (more_sent, t'', more) ← publish_all pub_slot ps t'
    some (sent ∷ more_sent, t'', calls ++ more)

  abbrev pub results : List Publication → List Bool
  results [] = []
  results (p ∷ ps) = p.puts ∷ results ps

  next_number :
      (x : ℤ) (n : ℕ)
      → x ≡ pos n
      → n + 1 < 2 ^ 63
      → to_int64 ((int64_bits x + 1) % 2 ^ 64) ≡ pos (n + 1)
  next_number x n e h =
      ap (λ x. to_int64 ((int64_bits x + 1) % 2 ^ 64)) e ∙ to_int64-small (n + 1) h

  -- In tier 1, through a publisher that is in use and whose sequence number `n` is not negative, with
  -- `n` and the number of publications together below 2 ^ 63, and clocks below 2 ^ 63 nanoseconds: the
  -- publications hand zenoh their payloads in order, numbered from n + 1 on without a gap, each with
  -- its clock in nanoseconds and with the same gid, and report what zenoh answers.
  pub publish_all-numbered :
      (i n : ℕ) (ps : List Publication) (s : PoolSlot PubBody) (t : Transport Callback)
      → get_elem? t.pub_pool i ≡ some s
      → s.in_use ≡ true
      → s.body.attachment.sequence_number ≡ pos n
      → n + length ps < 2 ^ 63
      → AllTimes ps
      → (t' : Transport Callback) × (publish_all (some i) ps t
          ≡ some (results ps, t', numbered i s.body.attachment (n + 1) ps))
  unfolding publish_all zenbedded_transport_publish
  publish_all-numbered i n [] s t e used known small times = (t, refl)
  publish_all-numbered i n (p ∷ ps) s t e used known small (time, times) =
      let x = to_int64 ((int64_bits s.body.attachment.sequence_number + 1) % 2 ^ 64) in
      let y = to_int64 (time_ns p % 2 ^ 64) in
      let next = next_number s.body.attachment.sequence_number n known (omega arith) in
      let (sent, t_1, calls) =
        put_from tier_1 printer Callback tier_1 i s p.payload p.tv p.puts t in
      let one =
        ap (λ o. publish_in tier_1 printer Callback o i p.payload p.tv p.puts t) e
        ∙ ap
            (λ (b : Bool). some (
              if b
              then put_from tier_1 printer Callback tier_1 i s p.payload p.tv p.puts t
              else (false, t, [])))
            used in
      let (t', rest) =
        publish_all-numbered i (n + 1) ps _ t_1 (get_elem-update i _ t.pub_pool e) used next
          (omega arith) times in
      (
        t',
        bind_step _ one (
            bind_step _ rest (
              ap
                (λ more. some (
                  p.puts ∷ results ps,
                  t',
                  put i p.payload (
                        some (record (s.body.attachment) { sequence_number = x; timestamp_ns = y }))
                      ∷ more,
                ))
                (numbered-attachment i s.body.attachment x y (n + 1 + 1) ps)
              ∙ ap
                  (λ first.
                    some (
                      p.puts ∷ results ps,
                      t',
                      first ∷ numbered i s.body.attachment (n + 1 + 1) ps,
                    ))
                  (put-numbers i p.payload s.body.attachment next
                    (to_int64-small (time_ns p) time)))),
      )
