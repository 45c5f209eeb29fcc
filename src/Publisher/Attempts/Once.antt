-- ===== src/Publisher/Attempts/Once.antt =====
-- publisher.go: a publish call sends its message once at most, and says whether it did.
use go_rabbitmq.Base.{
  ◌≡◌, refl, sym, ap, subst, ◌∙◌, ◌≤◌, ◌<◌, ◌⊎◌, inl, inr, ℕ, zero, suc, ◌+◌, Bool, true, false,
  not, ◌&&◌, ◌||◌, some, is_some, ltb, if_holds, arith,
}
use go_rabbitmq.Publisher.Attempts.{
  AttemptEnd, published, Attempts, after_attempt, ended_with, attempts_loop, publish_attempts,
}
use go_rabbitmq.Publisher.Attempts.Steps.{
  is_published, is_retried, stops, AreEnoughFrom, AllRefused, EndsWithin, after_attempt-EndsWithin,
  AllRefused-suc,
}

module _ (e : Attempts) where
  -- The error of the attempt before the `n`-th, if there was one.
  abbrev Follows : ℕ → AttemptEnd → Type 0
  Follows n last = (n ≡ 0) ⊎ (is_published last ≡ false)

  cap_reached :
      (n : ℕ)
      → AreEnoughFrom e 0 n
      → (0 < e.max_connection_retries) × (n ≡ suc e.max_connection_retries)
  cap_reached n (inl (p, h)) = (p, omega (arith, h))
  cap_reached n (inr (z, h)) = cc

  abbrev is_capped : ℕ → Bool
  is_capped n = ltb 0 e.max_connection_retries && ltb e.max_connection_retries n

  last_failed :
      (n : ℕ) (last : AttemptEnd)
      → n ≡ suc e.max_connection_retries
      → AllRefused e n
      → Follows n last
      → is_published last ≡ not (is_some (e.result e.max_connection_retries))
  last_failed n last h before (inl z) = absurd (omega (arith, h, z))
  last_failed n last h before (inr q) =
      q ∙ ap (λ o. not (is_some o)) (sym (before e.max_connection_retries (omega (arith, h))))

  loop_capped :
      (m n : ℕ) (last : AttemptEnd)
      → n ≤ m
      → (0 < e.max_connection_retries) × (n ≡ suc e.max_connection_retries)
      → AllRefused e n
      → Follows n last
      → EndsWithin e m (attempts_loop e 1 n last)
  unfolding attempts_loop
  loop_capped m n last b (p, h) before follows =
      if_holds (EndsWithin e m) (is_capped n) _ _ (ground (arith, p, h)) (
        e.max_connection_retries,
        last,
        ap (λ j. some (j, last)) h,
        omega (arith, b, h),
        λ i q. before i (omega (arith, q, h)),
        last_failed n last h before follows,
      )

  enough_next :
      (k n : ℕ) → AreEnoughFrom e (suc k) n → is_retried e n ≡ true → AreEnoughFrom e k (suc n)
  enough_next k n (inl (p, h)) r = inl (p, omega (arith, h))
  enough_next k n (inr (z, h)) r = inr (z, ap (λ b. not b || stops e k (suc n)) (sym r) ∙ h)

  not_capped :
      (k n : ℕ)
      → AreEnoughFrom e (suc k) n
      → (ltb 0 e.max_connection_retries && ltb e.max_connection_retries n) ≡ false
  not_capped k n (inl (p, h)) = ground (arith, p, h)
  not_capped k n (inr (z, h)) = ground (arith, z)

  attempts_loop-eq :
      (fuel n : ℕ) (last : AttemptEnd)
      → (ltb 0 e.max_connection_retries && ltb e.max_connection_retries n) ≡ false
      → attempts_loop e (suc fuel) n last
        ≡ after_attempt e n (e.result n) (attempts_loop e fuel (suc n) (ended_with e (e.result n)))
  unfolding attempts_loop
  attempts_loop-eq fuel n last h = rw (h) refl

  loop-EndsWithin :
      (m k n : ℕ) (last : AttemptEnd)
      → k + n ≤ m
      → AreEnoughFrom e k n
      → AllRefused e n
      → Follows n last
      → EndsWithin e m (attempts_loop e (suc k) n last)
  loop-EndsWithin m zero n last b enough before follows =
      loop_capped m n last (omega (arith, b)) (cap_reached n enough) before follows
  loop-EndsWithin m (suc k) n last b enough before follows =
      subst (EndsWithin e m) (sym (attempts_loop-eq (suc k) n last (not_capped k n enough))) (
        after_attempt-EndsWithin e m n (e.result n) _ (omega (arith, b)) before refl (λ r again.
          loop-EndsWithin m k (suc n) (ended_with e (e.result n)) (omega (arith, b))
            (enough_next k n enough again) (AllRefused-suc e n before r)
            (inr (ap (λ o. is_published (ended_with e o)) r))))

-- One publish call. Let `k` be one more than the cap on the retries or, where there is none, a number of
-- attempts that includes one after which there is no other. Then the call ends within `k` attempts. All
-- but the last met a closed channel, so that the message is sent once at most; and the call returns no
-- error if and only if the last attempt sent it.
pub publish_attempts_once :
    (e : Attempts) (k : ℕ) → AreEnoughFrom e k 0 → EndsWithin e k (publish_attempts e (suc k))
unfolding publish_attempts
publish_attempts_once e k enough =
    loop-EndsWithin e k k 0 published (omega arith) enough (λ i h. absurd (omega (arith, h)))
      (inl refl)
