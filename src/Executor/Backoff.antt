-- ===== src/Executor/Backoff.antt =====
-- src/ttasks/_executor.py: `_sleep_retry_backoff`, the wait between two attempts. Times are whole
-- numbers of a unit, of which `slice` make 0.05 seconds. Parameters are whether the task has been
-- cancelled at the k-th test, and how much later than asked the k-th call of `time.sleep` returns.
use ttasks.Common.{
  ℕ, zero, suc, ◌+◌, ◌-◌, ◌*◌, ◌<◌, ◌≤◌, ◌≡◌, ◌⊎◌, refl, ap, ◌∙◌, Bool, true, false, Option, none,
  some, leb, Bool-cases, inl, inr, arith, if◌then◌else◌,
}

pub record Sleep : Type 0 where
  pub slice : ℕ
  pub cancelled : ℕ → Bool
  pub late : ℕ → ℕ

module _ (s : Sleep) where
  -- `min(remaining, 0.05)`
  abbrev pub nap : ℕ → ℕ
  nap remaining = if leb remaining s.slice then remaining else s.slice

  -- The `while` loop, by fuel, from the k-th test on: the time at which it ends. `none`: the fuel ran
  -- out.
  unfoldable pub sleep_until : (deadline fuel k now : ℕ) → Option ℕ
  sleep_until deadline zero k now = none
  sleep_until deadline (suc fuel) k now =
      let rest = sleep_until deadline fuel (suc k) (now + nap (deadline - now) + s.late k) in
      if s.cancelled k then some now else if leb deadline now then some now else rest

  -- _sleep_retry_backoff
  unfoldable pub sleep_retry_backoff : (start backoff fuel : ℕ) → Option ℕ
  unfolding sleep_until
  sleep_retry_backoff start backoff fuel =
      let watching = sleep_until (start + backoff) fuel 0 start in
      if leb backoff (10 * s.slice) then some (start + backoff + s.late 0) else watching

  -- The loop ends at `t` when it is at the k-th test at `now`.
  record Slept (deadline k now : ℕ) (o : Option ℕ) : Type 0 where
    pub time : ℕ
    pub ends : o ≡ some time
    pub waits : ((j : ℕ) × (s.cancelled j ≡ true)) ⊎ (deadline ≤ time)
    pub in_time : ((j : ℕ) → s.late j ≡ 0) → now ≤ deadline → time ≤ deadline
    pub notices :
        ((j : ℕ) → s.late j ≡ 0) → (m : ℕ) → s.cancelled (k + m) ≡ true → time ≤ now + m * s.slice

  nap_bounds :
      (remaining : ℕ)
      → 0 < s.slice
      → 0 < remaining
      → (nap remaining ≤ s.slice) × (nap remaining ≤ remaining) × (0 < nap remaining)
  nap_bounds remaining pos left = ground arith

  -- One round of the loop that sleeps
  sleep_more :
      (deadline k now : ℕ)
      → 0 < s.slice
      → now < deadline
      → s.cancelled k ≡ false
      → (o : Option ℕ) → Slept deadline (suc k) (now + nap (deadline - now) + s.late k) o
      → Slept deadline k now o
  sleep_more deadline k now pos before e o r =
      let b = nap_bounds (deadline - now) pos (omega arith) in
      record {
        time = r.time;
        ends = r.ends;
        waits = r.waits;
        in_time = λ h l. r.in_time h (omega (arith, h k, b.1));
        notices = seen;
      }
    where
      seen :
          ((j : ℕ) → s.late j ≡ 0)
          → (m : ℕ) → s.cancelled (k + m) ≡ true
          → r.time ≤ now + m * s.slice
      seen h zero c = let here : k + 0 ≡ k = omega arith in absurd (cc (ap s.cancelled here, c, e))
      seen h (suc m) c =
          let there : suc k + m ≡ k + suc m = omega arith in
          let b = nap_bounds (deadline - now) pos (omega arith) in
          let more : suc m * s.slice ≡ m * s.slice + s.slice = omega arith in
          omega (arith, r.notices h m (ap s.cancelled there ∙ c), b.0, h k, more)

  over :
      (deadline k now : ℕ) (o : Option ℕ)
      → o ≡ some now
      → ((j : ℕ) × (s.cancelled j ≡ true)) ⊎ (deadline ≤ now)
      → Slept deadline k now o
  over deadline k now o e w = record {
    time = now;
    ends = e;
    waits = w;
    in_time = λ h l. l;
    notices = λ h m c. omega arith;
  }

  sleep_until-Slept :
      (deadline fuel k now : ℕ)
      → 0 < s.slice
      → deadline ≤ now + fuel
      → Slept deadline k now (sleep_until deadline (suc fuel) k now)
  unfolding sleep_until
  sleep_until-Slept deadline zero k now pos enough = elim (Bool-cases (s.cancelled k)) [
    | inl e ↦ over deadline k now _ (rw e refl) (inl (k, e))
    | inr e ↦
        let past : leb deadline now ≡ true = ground arith in
        over deadline k now _ (rw (e, past) refl) (inr (omega arith))
  ]
  sleep_until-Slept deadline (suc fuel) k now pos enough = elim (Bool-cases (s.cancelled k)) [
    | inl e ↦ over deadline k now _ (rw e refl) (inl (k, e))
    | inr e ↦ elim (Bool-cases (leb deadline now)) [
      | inl past ↦ over deadline k now _ (rw (e, past) refl) (inr (ground arith))
      | inr before ↦
          let b : now < deadline = ground arith in
          let c = nap_bounds (deadline - now) pos (omega arith) in
          rw (e, before)
            (sleep_more deadline k now pos b e _
              (sleep_until-Slept deadline fuel (suc k) _ pos (omega (arith, c.2))))
    ]
  ]

  -- The wait ends, at the latest after as many tests as the wait has units of time and one more. It
  -- ends because the task has been cancelled, or not before its time. Where every call of
  -- `time.sleep` returns in time, so does the wait; and a wait of more than half a second ends within
  -- as many slices as tests have passed when the task has been cancelled.
  pub sleep_retry_backoff-Slept :
      (start backoff : ℕ)
      → 0 < s.slice
      → (t : ℕ) × (sleep_retry_backoff start backoff (suc backoff) ≡ some t)
        × (((j : ℕ) × (s.cancelled j ≡ true)) ⊎ (start + backoff ≤ t))
        × (((j : ℕ) → s.late j ≡ 0) → t ≤ start + backoff)
        × (((j : ℕ) → s.late j ≡ 0)
            → 10 * s.slice < backoff
            → (m : ℕ) → s.cancelled m ≡ true
            → t ≤ start + m * s.slice)
  unfolding sleep_retry_backoff
  sleep_retry_backoff-Slept start backoff pos = elim (Bool-cases (leb backoff (10 * s.slice))) [
    | inl short ↦ (
      start + backoff + s.late 0,
      rw short refl,
      inr (omega arith),
      λ h. omega (arith, h 0),
      λ h long. absurd (ground arith),
    )
    | inr long ↦
        let r = sleep_until-Slept (start + backoff) backoff 0 start pos (omega arith) in
        (
          r.time,
          rw long r.ends,
          r.waits,
          λ h. r.in_time h (omega arith),
          λ h l m c.
              let same_test : 0 + m ≡ m = omega arith in
              r.notices h m (ap s.cancelled same_test ∙ c),
        )
  ]
