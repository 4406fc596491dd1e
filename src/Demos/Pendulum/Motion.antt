-- ===== src/Demos/Pendulum/Motion.antt =====
-- demos/inverted_pendulum: what `set_stepper_angular_vel` makes of a velocity, the bounds and the
-- directions written out.
use zephyr_zenoh_integration.Prelude.{
  ℕ, ◌*◌, ◌%◌, ◌^◌, ◌≤◌, ◌≡◌, refl, sym, ap, subst, ◌⊎◌, inl, inr, Bool, true, false, Bool-cases,
  not, ◌||◌, List, [], ◌∷◌, arith, if◌then◌else◌,
}
use zephyr_zenoh_integration.Demos.Pendulum.Double.{Double, IsIeee}
use zephyr_zenoh_integration.Demos.Pendulum.Motor.{
  positive, negative, MotorCall, stepper_ctrl_stop, stepper_ctrl_set_microstep_interval,
  stepper_ctrl_run, interval_ns, moved, out_of_range, stands_still, set_stepper_angular_vel,
}

module _ (d : Double) (micro_step_res : ℕ) where
  -- The nanoseconds of a microstep, as a double: 1e9 over the microsteps of a second.
  abbrev pub microstep_ns : ℕ → ℕ
  microstep_ns v = d.divide (d.of_uint64 1000000000) (
      d.divide (d.times (d.fabs v) (d.of_int32 ((200 * micro_step_res) % 2 ^ 32)))
        (d.times (d.of_uint64 2) d.pi))

  -- The velocity and its interval allow a motion.
  pub record CanMove (v : ℕ) : Type 0 where
    pub finite : d.isfinite v ≡ true
    pub moving : d.eq v d.zero ≡ false
    pub finite_interval : d.isfinite (microstep_ns v) ≡ true
    pub not_below : d.lt (microstep_ns v) (d.of_uint64 20000) ≡ false
    pub not_above : d.lt (d.of_uint64 1000000000) (microstep_ns v) ≡ false

  -- The velocity or its interval forbids a motion.
  abbrev pub CannotMove : ℕ → Type 0
  CannotMove v =
      (d.isfinite v ≡ false)
      ⊎ ((d.eq v d.zero ≡ true)
          ⊎ ((d.isfinite (microstep_ns v) ≡ false)
              ⊎ ((d.lt (microstep_ns v) (d.of_uint64 20000) ≡ true)
                  ⊎ (d.lt (d.of_uint64 1000000000) (microstep_ns v) ≡ true))))

  -- The calls of a motion: the interval is the truncated one, in the bounds, and the stepper runs if
  -- the driver has accepted it.
  pub record IsMotion (accepts : Bool) (v : ℕ) (calls : List MotorCall) : Type 0 where
    pub interval : ℕ
    pub truncated : interval ≡ d.to_uint64 (microstep_ns v)
    pub low : 20000 ≤ interval
    pub high : interval ≤ 1000000000
    pub forwards :
        accepts ≡ true
        → d.lt d.zero v ≡ true
        → calls ≡ stepper_ctrl_set_microstep_interval interval ∷ stepper_ctrl_run positive ∷ []
    pub backwards :
        accepts ≡ true
        → d.lt d.zero v ≡ false
        → calls ≡ stepper_ctrl_set_microstep_interval interval ∷ stepper_ctrl_run negative ∷ []
    pub refused : accepts ≡ false → calls ≡ stepper_ctrl_set_microstep_interval interval ∷ []

  -- A stop with its reason, or a motion with its conditions.
  abbrev pub StopsOrMoves : Bool → ℕ → List MotorCall → Type 0
  StopsOrMoves accepts v calls =
      CannotMove v × (calls ≡ stepper_ctrl_stop ∷ []) ⊎ CanMove v × IsMotion accepts v calls

  not_finite : (a b : Bool) → a ≡ false → (not a || b) ≡ true
  not_finite a b e = ground arith

  at_zero : (a b : Bool) → b ≡ true → (not a || b) ≡ true
  at_zero a b e = ground arith

  turning : (a b : Bool) → a ≡ true → b ≡ false → (not a || b) ≡ false
  turning a b e f = ground arith

  infinite : (a b c : Bool) → a ≡ false → (not a || (b || c)) ≡ true
  infinite a b c e = ground arith

  below : (a b c : Bool) → b ≡ true → (not a || (b || c)) ≡ true
  below a b c e = ground arith

  above : (a b c : Bool) → c ≡ true → (not a || (b || c)) ≡ true
  above a b c e = ground arith

  inside : (a b c : Bool) → a ≡ true → b ≡ false → c ≡ false → (not a || (b || c)) ≡ false
  inside a b c e f g = ground arith

  moved-IsMotion :
      (accepts : Bool) (v : ℕ)
      → IsIeee d
      → CanMove v
      → IsMotion accepts v (moved d micro_step_res false accepts v)
  moved-IsMotion accepts v ieee can =
      let (low, high) =
        ieee.to_uint64-bounds (microstep_ns v) 20000 1000000000 (omega arith) (omega arith)
          can.finite_interval can.not_below can.not_above in
      record {
        interval = d.to_uint64 (microstep_ns v);
        truncated = refl;
        low = low;
        high = high;
        forwards = λ e f. rw e (rw f refl);
        backwards = λ e f. rw e (rw f refl);
        refused = λ e. rw e refl;
      }

  moved-StopsOrMoves :
      (accepts : Bool) (v : ℕ)
      → IsIeee d
      → d.isfinite v ≡ true
      → d.eq v d.zero ≡ false
      → StopsOrMoves accepts v (
          moved d micro_step_res
            (out_of_range d micro_step_res (interval_ns d micro_step_res v))
            accepts
            v)
  moved-StopsOrMoves accepts v ieee finite moving =
      by_range (Bool-cases (d.isfinite (microstep_ns v)))
        (Bool-cases (d.lt (microstep_ns v) (d.of_uint64 20000)))
        (Bool-cases (d.lt (d.of_uint64 1000000000) (microstep_ns v)))
    where
      by_range :
          (d.isfinite (microstep_ns v) ≡ true) ⊎ (d.isfinite (microstep_ns v) ≡ false)
          → (d.lt (microstep_ns v) (d.of_uint64 20000) ≡ true)
            ⊎ (d.lt (microstep_ns v) (d.of_uint64 20000) ≡ false)
          → (d.lt (d.of_uint64 1000000000) (microstep_ns v) ≡ true)
            ⊎ (d.lt (d.of_uint64 1000000000) (microstep_ns v) ≡ false)
          → StopsOrMoves accepts v (
              moved d micro_step_res
                (out_of_range d micro_step_res (interval_ns d micro_step_res v))
                accepts
                v)
      by_range (inr a) b c = inl (
        inr (inr (inl a)),
        ap (λ far. moved d micro_step_res far accepts v)
            (infinite (d.isfinite (microstep_ns v)) (d.lt (microstep_ns v) (d.of_uint64 20000))
              (d.lt (d.of_uint64 1000000000) (microstep_ns v)) a),
      )
      by_range (inl a) (inl b) c = inl (
        inr (inr (inr (inl b))),
        ap (λ far. moved d micro_step_res far accepts v)
            (below (d.isfinite (microstep_ns v)) (d.lt (microstep_ns v) (d.of_uint64 20000))
              (d.lt (d.of_uint64 1000000000) (microstep_ns v)) b),
      )
      by_range (inl a) (inr b) (inl c) = inl (
        inr (inr (inr (inr c))),
        ap (λ far. moved d micro_step_res far accepts v)
            (above (d.isfinite (microstep_ns v)) (d.lt (microstep_ns v) (d.of_uint64 20000))
              (d.lt (d.of_uint64 1000000000) (microstep_ns v)) c),
      )
      by_range (inl a) (inr b) (inr c) =
          let can : CanMove v = record {
            finite = finite;
            moving = moving;
            finite_interval = a;
            not_below = b;
            not_above = c;
          } in
          inr (
            can,
            subst (λ far. IsMotion accepts v (moved d micro_step_res far accepts v))
                (sym (
                  inside (d.isfinite (microstep_ns v)) (d.lt (microstep_ns v) (d.of_uint64 20000))
                    (d.lt (d.of_uint64 1000000000) (microstep_ns v)) a b c))
                (moved-IsMotion accepts v ieee can),
          )

  -- For operations on doubles with the laws of `IsIeee`, and whether or not the driver takes the
  -- interval: the stepper is stopped with one call, and the velocity is not finite or zero or its
  -- microstep interval not finite, below 20000 or above 1000000000 nanoseconds; or none of this
  -- holds, and the truncated interval is set, which lies in these bounds. If the driver has accepted
  -- it, the stepper then runs, in positive direction if the velocity is above zero and in negative
  -- direction if not, and if the driver has refused it, there is no further call.
  pub set_stepper_angular_vel-StopsOrMoves :
      (accepts : Bool) (rads_per_sec : ℕ)
      → IsIeee d
      → StopsOrMoves accepts rads_per_sec
          (set_stepper_angular_vel d micro_step_res accepts rads_per_sec)
  unfolding set_stepper_angular_vel
  set_stepper_angular_vel-StopsOrMoves accepts v ieee =
      by_velocity (Bool-cases (d.isfinite v)) (Bool-cases (d.eq v d.zero))
    where
      stopped :
          stands_still d micro_step_res v ≡ true
          → set_stepper_angular_vel d micro_step_res accepts v ≡ stepper_ctrl_stop ∷ []
      stopped e = rw e refl

      by_velocity :
          (d.isfinite v ≡ true) ⊎ (d.isfinite v ≡ false)
          → (d.eq v d.zero ≡ true) ⊎ (d.eq v d.zero ≡ false)
          → StopsOrMoves accepts v (set_stepper_angular_vel d micro_step_res accepts v)
      by_velocity (inr a) b = inl (inl a, stopped (not_finite (d.isfinite v) (d.eq v d.zero) a))
      by_velocity (inl a) (inl b) =
          inl (inr (inl b), stopped (at_zero (d.isfinite v) (d.eq v d.zero) b))
      by_velocity (inl a) (inr b) =
          subst
            (λ (still : Bool). StopsOrMoves accepts v (
              if still
              then stepper_ctrl_stop ∷ []
              else moved d micro_step_res
                  (out_of_range d micro_step_res (interval_ns d micro_step_res v)) accepts v))
            (sym (turning (d.isfinite v) (d.eq v d.zero) a b))
            (moved-StopsOrMoves accepts v ieee a b)
