-- ===== src/Waiter/Deadline.antt =====
-- When the waits end, and how.
use azure_shell.Prelude.{
  ℕ, zero, suc, ◌+◌, ◌≤◌, ◌<◌, ◌≡◌, refl, Bool, true, false, some, arith, ltb, if◌then◌else◌,
  Bool-cases, inl, inr, ◌⊎◌, ◌==◌, ==_iff, subst, some-inj,
}
use azure_shell.Errors.{ErrorKind, exception}
use azure_shell.Text.{text}
use azure_shell.Waiter.{
  check_if_cancelled, Outcome, result_of, raised, timed_out, wait_for_task, after_loop,
  timeout_loop, wait_for_task_with_timeout,
}

abbrev pub was_cancelled : Outcome
was_cancelled = raised (exception ErrorKind.cancellation_exception (text "Command was cancelled"))

module _ (done cancelled : ℕ → Bool) where
  wait_from :
      (fuel i m : ℕ)
      → i ≤ m
      → m < i + fuel
      → ((j : ℕ) → j < m → (done j ≡ false) × (cancelled j ≡ false))
      → (done m ≡ true) ⊎ (cancelled m ≡ true)
      → wait_for_task done cancelled fuel i ≡ some (if done m then result_of m else was_cancelled)
  unfolding wait_for_task check_if_cancelled
  wait_from zero i m le enough quiet stop = absurd (omega arith)
  wait_from (suc fuel) i m le enough quiet stop = elim (Bool-cases (ltb i m)) [
    | inl e ↦
        let q = quiet i (ground arith) in
        rw (q.0, q.1) (wait_from fuel (suc i) m (ground arith) (omega arith) quiet stop)
    | inr e ↦ let same : i ≡ m = ground arith in rw same (ground arith)
  ]

  -- Without a timeout the wait ends in the first round `m` that is done or cancelled, with the result
  -- if it is done and with the `CancellationException` if it is not.
  pub wait_for_task_lem :
      (m : ℕ)
      → ((j : ℕ) → j < m → (done j ≡ false) × (cancelled j ≡ false))
      → (done m ≡ true) ⊎ (cancelled m ≡ true)
      → wait_for_task done cancelled (suc m) 0
        ≡ some (if done m then result_of m else was_cancelled)
  wait_for_task_lem m quiet stop = wait_from (suc m) 0 m (omega arith) (omega arith) quiet stop

  module _ (now : ℕ → ℕ) (timeout : ℕ) where
    -- nothing has ended the wait in a round before `i`
    abbrev pub Waits : ℕ → Type 0
    Waits i = (j : ℕ) → j < i → (done j ≡ false) × (cancelled j ≡ false) × (now j < now 0 + timeout)

    -- The wait ends in round `i` in one of three ways: with a call of `result()`, as the task was done
    -- or the deadline reached, and then done or not past; by a timeout, past the deadline and not done;
    -- or cancelled, before the deadline and not done.
    abbrev pub EndsIn : Outcome → ℕ → Type 0
    EndsIn (result_of r) i =
        (r ≡ i)
        × ((done i ≡ true) ⊎ (now 0 + timeout ≤ now i))
        × ((done (suc i) ≡ true) ⊎ (now i ≤ now 0 + timeout))
    EndsIn (raised e) i =
        ((raised e ≡ timed_out)
          × (done i ≡ true ⊎ (now 0 + timeout ≤ now i))
          × (done (suc i) ≡ false)
          × (now 0 + timeout < now i))
        ⊎ ((raised e ≡ was_cancelled)
            × (done i ≡ false)
            × (cancelled i ≡ true)
            × (now i < now 0 + timeout))

    after_loop-EndsIn :
        (i : ℕ)
        → (done i ≡ true) ⊎ (now 0 + timeout ≤ now i)
        → EndsIn (after_loop done cancelled now (now 0 + timeout) i) i
    unfolding after_loop
    after_loop-EndsIn i stop = elim (Bool-cases (done (suc i))) [
      | inl e ↦ rw e (refl, stop, inl e)
      | inr e ↦ elim (Bool-cases (ltb (now 0 + timeout) (now i))) [
        | inl past ↦ rw (e, past) (inl (refl, stop, e, ground arith))
        | inr early ↦ rw (e, early) (refl, stop, inr (ground arith))
      ]
    ]

    Waits-suc :
        (i : ℕ)
        → Waits i
        → done i ≡ false
        → cancelled i ≡ false
        → now i < now 0 + timeout
        → Waits (suc i)
    Waits-suc i w d c n j lt = elim (Bool-cases (j == i)) [
      | inl e ↦ rw ((==_iff j i).0 e) (d, c, n)
      | inr e ↦ w j (ground arith)
    ]

    timeout_loop_lem :
        (fuel i : ℕ) (o : Outcome)
        → Waits i
        → timeout_loop done cancelled now (now 0 + timeout) fuel i ≡ some o
        → (m : ℕ) × Waits m × EndsIn o m
    unfolding timeout_loop check_if_cancelled
    timeout_loop_lem zero i o w h = cc
    timeout_loop_lem (suc fuel) i o w h = elim (Bool-cases (done i)) [
      | inl d ↦ (i, w, subst (λ x. EndsIn x i) (some-inj (rw d at h)) (after_loop-EndsIn i (inl d)))
      | inr d ↦ elim (Bool-cases (ltb (now i) (now 0 + timeout))) [
        | inr late ↦ (
          i,
          w,
          subst (λ x. EndsIn x i) (some-inj (rw (d, late) at h))
              (after_loop-EndsIn i (inr (ground arith))),
        )
        | inl early ↦ elim (Bool-cases (cancelled i)) [
          | inl c ↦ (
            i,
            w,
            subst (λ x. EndsIn x i) (some-inj (rw (d, early, c) at h))
                (inr (refl, d, c, ground arith)),
          )
          | inr c ↦
              timeout_loop_lem fuel (suc i) o (Waits-suc i w d c (ground arith))
                (rw (d, early, c) at h)
        ]
      ]
    ]

    -- The clock moves on in each round.
    abbrev pub Ticks : Type 0
    Ticks = (j : ℕ) → now j < now (suc j)

    timeout_loop_total :
        (fuel i : ℕ)
        → Ticks
        → now 0 + timeout < now i + fuel
        → 0 < fuel
        → (o : Outcome) × (timeout_loop done cancelled now (now 0 + timeout) fuel i ≡ some o)
    unfolding timeout_loop check_if_cancelled
    timeout_loop_total zero i ticks enough some_fuel = absurd (omega arith)
    timeout_loop_total (suc fuel) i ticks enough some_fuel = elim (Bool-cases (done i)) [
      | inl d ↦ (after_loop done cancelled now (now 0 + timeout) i, rw d)
      | inr d ↦ elim (Bool-cases (ltb (now i) (now 0 + timeout))) [
        | inr late ↦ (after_loop done cancelled now (now 0 + timeout) i, rw (d, late))
        | inl early ↦ elim (Bool-cases (cancelled i)) [
          | inl c ↦ (was_cancelled, rw (d, early, c))
          | inr c ↦
              let lt : now i < now 0 + timeout = ground arith in
              let tick = ticks i in
              rw (d, early, c) (timeout_loop_total fuel (suc i) ticks (omega arith) (omega arith))
        ]
      ]
    ]

    -- If the clock moves on in each round, a wait with a timeout ends, and there is a round in which
    -- it ends as `EndsIn` says, while nothing would have ended it in the rounds before.
    pub wait_for_task_with_timeout_lem :
        Ticks
        → (o : Outcome) × (wait_for_task_with_timeout done cancelled now timeout (suc timeout)
            ≡ some o)
          × ((m : ℕ) × Waits m × EndsIn o m)
    unfolding wait_for_task_with_timeout
    wait_for_task_with_timeout_lem ticks =
        let (o, e) = timeout_loop_total (suc timeout) 0 ticks (omega arith) (omega arith) in
        (o, e, timeout_loop_lem (suc timeout) 0 o (λ j lt. elim lt [ ]) e)

    no_timeout_from :
        (fuel i m : ℕ)
        → Waits m
        → now m ≡ now 0 + timeout
        → i ≤ m
        → m < i + fuel
        → timeout_loop done cancelled now (now 0 + timeout) fuel i ≡ some (result_of m)
    unfolding timeout_loop check_if_cancelled after_loop
    no_timeout_from zero i m w at_deadline le enough = absurd (omega arith)
    no_timeout_from (suc fuel) i m w at_deadline le enough = elim (Bool-cases (ltb i m)) [
      | inl lt ↦
          let q = w i (ground arith) in
          let early : ltb (now i) (now 0 + timeout) ≡ true = ground arith in
          rw (q.0, early, q.1)
            (no_timeout_from fuel (suc i) m w at_deadline (ground arith) (omega arith))
      | inr ge ↦ let same : i ≡ m = ground arith in rw same (ground arith)
    ]

    -- A task that is not done when a round reads the deadline to the instant has not timed out: the
    -- loop has ended, but the wait goes on in `result()`.
    pub no_timeout_at_deadline :
        (fuel m : ℕ)
        → Waits m
        → now m ≡ now 0 + timeout
        → m < fuel
        → wait_for_task_with_timeout done cancelled now timeout fuel ≡ some (result_of m)
    unfolding wait_for_task_with_timeout
    no_timeout_at_deadline fuel m w at_deadline enough =
        no_timeout_from fuel 0 m w at_deadline (omega arith) (omega arith)
