-- ===== src/Publisher/Attempts/Steps.antt =====
-- publisher.go: one attempt of a publish call.
use go_rabbitmq.Base.{
  ◌≡◌, refl, sym, ap, subst, ◌∙◌, ◌<◌, ◌⊎◌, inl, inr, ℕ, zero, suc, ◌+◌, Bool, true, false, not,
  ◌&&◌, ◌||◌, Option, none, some, is_some, ltb, if◌then◌else◌, Bool-cases, arith,
}
use go_rabbitmq.Publisher.Attempts.{
  AttemptError, duplicate_id, channel, other, AttemptEnd, published, cancelled, failed, Attempts,
  after_channel_error, after_attempt,
}

abbrev pub is_published : AttemptEnd → Bool
is_published published = true
is_published _ = false

if_either :
    {A : Type 0} (P : A → Type 0) (b : Bool) (x y : A)
    → (b ≡ true → P x)
    → (b ≡ false → P y)
    → P (if b then x else y)
if_either P true x y h k = h refl
if_either P false x y h k = k refl

module _ (e : Attempts) where
  abbrev is_channel : Option AttemptError → Bool
  is_channel (some channel) = true
  is_channel _ = false

  -- Whether another attempt follows this one, as far as the cap allows.
  abbrev pub is_retried : ℕ → Bool
  is_retried n =
      is_channel (e.result n)
      && e.auto_reconnect
      && not (e.done n)
      && e.allows (suc n)
      && not (e.done_waiting n)

  abbrev pub stops : ℕ → ℕ → Bool
  stops zero n = false
  stops (suc k) n = not (is_retried n) || stops k (suc n)

  -- The attempts that are enough from `n` on: one more than the cap in all, or, without a cap, up to one
  -- after which there is no other.
  abbrev pub AreEnoughFrom : ℕ → ℕ → Type 0
  AreEnoughFrom k n =
      ((0 < e.max_connection_retries) × (k + n ≡ suc e.max_connection_retries))
      ⊎ ((e.max_connection_retries ≡ 0) × (stops k n ≡ true))

  abbrev pub AllRefused : ℕ → Type 0
  AllRefused n = (i : ℕ) → i < n → e.result i ≡ some channel

  -- Attempt `l` was the last and less than `m`; those before it met a closed channel; the call reports a
  -- publish if and only if the last attempt sent the message.
  abbrev pub EndsWithin : ℕ → Option (ℕ × AttemptEnd) → Type 0
  EndsWithin m o =
      (l : ℕ) × (end : AttemptEnd) × (o ≡ some (suc l, end))
      × (l < m)
      × AllRefused l
      × (is_published end ≡ not (is_some (e.result l)))

  pub ended-EndsWithin :
      (m n : ℕ) (end : AttemptEnd)
      → n < m
      → AllRefused n
      → e.result n ≡ some channel
      → is_published end ≡ false
      → EndsWithin m (some (suc n, end))
  ended-EndsWithin m n end h before r p =
      (n, end, refl, h, before, p ∙ ap (λ o. not (is_some o)) (sym r))

  retried :
      (n : ℕ)
      → e.result n ≡ some channel
      → not e.auto_reconnect ≡ false
      → e.done n ≡ false
      → not (e.allows (suc n)) ≡ false
      → e.done_waiting n ≡ false
      → is_retried n ≡ true
  retried n r a b c d = rw (r) (ground (arith, a, b, c, d))

  after_channel_error-EndsWithin :
      (m n : ℕ) (rest : Option (ℕ × AttemptEnd))
      → n < m
      → AllRefused n
      → e.result n ≡ some channel
      → (is_retried n ≡ true → EndsWithin m rest)
      → EndsWithin m (after_channel_error e n rest)
  after_channel_error-EndsWithin m n rest h before r next =
      let P = EndsWithin m in
      let refused = ended-EndsWithin m n (failed channel) h before r refl in
      let ended = ended-EndsWithin m n cancelled h before r refl in
      if_either P (not e.auto_reconnect) _ _ (λ _. refused)
        (λ a.
          if_either P (e.done n) _ _ (λ _. ended)
            (λ b.
              if_either P (not (e.allows (suc n))) _ _ (λ _. refused)
                (λ c.
                  if_either P (e.done_waiting n) _ _ (λ _. ended)
                    (λ d. next (retried n r a b c d)))))

  pub after_attempt-EndsWithin :
      (m n : ℕ) (o : Option AttemptError) (rest : Option (ℕ × AttemptEnd))
      → n < m
      → AllRefused n
      → e.result n ≡ o
      → (e.result n ≡ some channel → is_retried n ≡ true → EndsWithin m rest)
      → EndsWithin m (after_attempt e n o rest)
  after_attempt-EndsWithin m n none rest h before r next =
      (n, published, refl, h, before, ap (λ o. not (is_some o)) (sym r))
  after_attempt-EndsWithin m n (some duplicate_id) rest h before r next =
      (n, failed duplicate_id, refl, h, before, ap (λ o. not (is_some o)) (sym r))
  after_attempt-EndsWithin m n (some other) rest h before r next =
      (n, failed other, refl, h, before, ap (λ o. not (is_some o)) (sym r))
  after_attempt-EndsWithin m n (some channel) rest h before r next =
      after_channel_error-EndsWithin m n rest h before r (next r)

  pub AllRefused-suc : (n : ℕ) → AllRefused n → e.result n ≡ some channel → AllRefused (suc n)
  AllRefused-suc n before r i h = elim (Bool-cases (ltb i n)) [
    | inl p ↦ before i (ground (arith, p))
    | inr p ↦ subst (λ j. e.result j ≡ some channel) (ground (arith, p, h)) r
  ]
