-- ===== src/Scheduler/Session/Delay.antt =====
-- The delay between two attempts.
use tr069agent.Prelude.{
  ℕ, zero, suc, ◌+◌, ◌*◌, ◌^◌, ◌≤◌, true, false, ◌≡◌, refl, ap, ◌∙◌, if◌then◌else◌, leb, leb→le,
  arith, Bool-cases, inl, inr,
}
use tr069agent.Store.Struct.{Control}
use tr069agent.Scheduler.{Scheduler, completed, cancelled}
use tr069agent.Scheduler.Session.{
  next_retry_delay, end_session, retry_time, is_completed, initial_retry_delay,
}

-- Sessions that fail one after the other, while the agent runs.
abbrev pub fail : Scheduler → Control → Scheduler
fail s c = (end_session (record s { status = cancelled; alive = true }) c).0

abbrev pub fail_times : ℕ → Scheduler → Control → Scheduler
fail_times zero s c = s
fail_times (suc n) s c = fail (fail_times n s c) c

-- The delay after `n + 1` failures.
abbrev pub delay_after : ℕ → ℕ
delay_after n = if leb n 9 then 5 * 2 ^ n else 2560

delay-fail : (s : Scheduler) (c : Control) → (fail s c).retry_delay ≡ next_retry_delay s.retry_delay
unfolding end_session is_completed
delay-fail s c = refl

next_delay_small : (n : ℕ) → n ≤ 9 → next_retry_delay (delay_after n) ≡ delay_after (suc n)
unfolding next_retry_delay
next_delay_small zero h = refl
next_delay_small (suc zero) h = refl
next_delay_small (suc (suc zero)) h = refl
next_delay_small (suc (suc (suc zero))) h = refl
next_delay_small (suc (suc (suc (suc zero)))) h = refl
next_delay_small (suc (suc (suc (suc (suc zero))))) h = refl
next_delay_small (suc (suc (suc (suc (suc (suc zero)))))) h = refl
next_delay_small (suc (suc (suc (suc (suc (suc (suc zero))))))) h = refl
next_delay_small (suc (suc (suc (suc (suc (suc (suc (suc zero)))))))) h = refl
next_delay_small (suc (suc (suc (suc (suc (suc (suc (suc (suc zero))))))))) h = refl
next_delay_small (suc (suc (suc (suc (suc (suc (suc (suc (suc (suc n)))))))))) h =
    absurd (omega (arith, h))

next_delay_after : (n : ℕ) → next_retry_delay (delay_after n) ≡ delay_after (suc n)
unfolding next_retry_delay
next_delay_after n = elim (Bool-cases (leb n 9)) [
  | inl le ↦ next_delay_small n (leb→le n 9 le)
  | inr big ↦ let bigger : leb (suc n) 9 ≡ false = ground (arith, big) in rw (big, bigger) refl
]

-- After a session that was complete, the failure number n + 1 in a row sets the delay to 5 * 2 ^ n seconds,
-- up to the tenth one, and to 2560 from then on.
pub retry_delay-fail_times :
    (n : ℕ) (s : Scheduler) (c : Control)
    → (fail_times (suc n) (end_session (record s { status = completed }) c).0 c).retry_delay
      ≡ delay_after n
unfolding end_session is_completed
retry_delay-fail_times zero s c = refl
retry_delay-fail_times (suc n) s c =
    delay-fail (fail_times (suc n) (end_session (record s { status = completed }) c).0 c) c
    ∙ ap next_retry_delay (retry_delay-fail_times n s c)
    ∙ next_delay_after n

-- Another attempt is made after at least 5 seconds, and the delay bounds the wait from above.
retry_time_between :
    (now next delay : ℕ)
    → initial_retry_delay ≤ delay
    → (now + initial_retry_delay ≤ retry_time now next delay)
      × (retry_time now next delay ≤ now + delay)
unfolding retry_time
retry_time_between now next delay h = (ground (arith, h), ground (arith, h))
