-- ===== src/Client/Rounds.antt =====
-- client.go: the rounds of a reconnection.
use go_rabbitmq.Base.{
  ◌≡◌, refl, sym, subst, ◌≤◌, ◌<◌, ◌⊎◌, inl, inr, ℕ, zero, suc, ◌+◌, Bool, true, false, ◌&&◌, ◌||◌,
  Option, none, some, ltb, leb, is_some, if◌then◌else◌, if_holds, if_fails, Bool-cases, arith,
}
use go_rabbitmq.Client.State.{Client, mark_connected, record_connect_error, give_up}
use go_rabbitmq.Client.Reconnect.{
  Surroundings, ReconnectConfig, End, gave_up, reconnected, dial_first, dialled, connect,
  counted_reconnect, reconnect_loop,
}

-- What a successful loop leaves of a state.
pub record IsReconnected (c c' : Client) : Type 0 where
  pub connected : c'.state.connected ≡ true
  pub unblocked : c'.state.blocked ≡ false
  pub hopeful : c'.state.gave_up ≡ false
  pub counted : c'.state.reconnects ≡ suc c.state.reconnects
  pub left : (c'.state.reconnecting ≡ false) × (c'.in_loop ≡ false)

-- What a loop leaves that used up its attempts.
pub record HasGivenUp (c c' : Client) : Type 0 where
  pub connected : c'.state.connected ≡ c.state.connected
  pub hopeless : c'.state.gave_up ≡ true
  pub counted : c'.state.reconnects ≡ c.state.reconnects
  pub left : (c'.state.reconnecting ≡ false) × (c'.in_loop ≡ false)

module _ (e : Surroundings) (k : ReconnectConfig) where
  -- Whether an address answers at an attempt after `n` of the next `m`.
  abbrev pub answers : ℕ → ℕ → Bool
  answers zero n = false
  answers (suc m) n = is_some (dial_first e (suc n) k.urls) || answers m (suc n)

module _ (e : Surroundings) (k : ReconnectConfig) where
  -- The client is not closed meanwhile.
  abbrev pub StaysOpen : Type 0
  StaysOpen = (n : ℕ) → (e.closed_at_head n ≡ false) × (e.closed_while_waiting n ≡ false)

  -- One more attempt is allowed after `n`.
  abbrev IsAllowed : ℕ → Type 0
  IsAllowed n = (k.max_reconnect_attempts ≡ 0) ⊎ (n < k.max_reconnect_attempts)

  abbrev after_dial : ℕ → ℕ → Client → Option ℕ → Option (End × Client)
  after_dial fuel n c none =
      reconnect_loop e k fuel (suc n) (record_connect_error (e.failure (suc n)) c)
  after_dial fuel n c (some conn) =
      some (reconnected, counted_reconnect e (mark_connected (e.clock (suc n)) conn c))

  dialled-after :
      (fuel n : ℕ) (c : Client) (o : Option ℕ)
      → let (success, c') = dialled e (suc n) o c in
        (if success
          then some (reconnected, counted_reconnect e c')
          else reconnect_loop e k fuel (suc n) c')
        ≡ after_dial fuel n c o
  unfolding dialled
  dialled-after fuel n c none = refl
  dialled-after fuel n c (some conn) = refl

  cap_not_reached :
      (n : ℕ)
      → IsAllowed n
      → (ltb 0 k.max_reconnect_attempts && leb k.max_reconnect_attempts n) ≡ false
  cap_not_reached n h = ground arith

  -- A round that is allowed dials.
  round-eq :
      StaysOpen
      → (fuel n : ℕ) (c : Client) → IsAllowed n
      → reconnect_loop e k (suc fuel) n c ≡ after_dial fuel n c (dial_first e (suc n) k.urls)
  unfolding reconnect_loop connect
  round-eq open_ fuel n c h =
      rw ((open_ n).0, cap_not_reached n h, (open_ n).1)
        (dialled-after fuel n c (dial_first e (suc n) k.urls))

  -- What a loop that has success keeps and changes.
  abbrev pub Succeeds : Client → Option (End × Client) → Type 0
  Succeeds c o =
      (c' : Client) × (o ≡ some (reconnected, c'))
      × (c'.state.connected ≡ true)
      × (c'.state.blocked ≡ false)
      × (c'.state.gave_up ≡ false)
      × (c'.state.reconnects ≡ suc c.state.reconnects)

  abbrev pub GivesUp : Client → Option (End × Client) → Type 0
  GivesUp c o =
      (c' : Client) × (o ≡ some (gave_up, c'))
      × (c'.state.connected ≡ c.state.connected)
      × (c'.state.gave_up ≡ true)
      × (c'.state.reconnects ≡ c.state.reconnects)

  after_dial-Succeeds :
      (fuel n : ℕ) (c : Client) (o : Option ℕ) (b : Bool)
      → (is_some o || b) ≡ true
      → (b ≡ true → (d : Client) → Succeeds d (reconnect_loop e k fuel (suc n) d))
      → Succeeds c (after_dial fuel n c o)
  unfolding record_connect_error mark_connected
  after_dial-Succeeds fuel n c none b h rest = rest h (record_connect_error (e.failure (suc n)) c)
  after_dial-Succeeds fuel n c (some conn) b h rest =
      (counted_reconnect e (mark_connected (e.clock (suc n)) conn c), refl, refl, refl, refl, refl)

  after_dial-GivesUp :
      (fuel n : ℕ) (c : Client) (o : Option ℕ) (b : Bool)
      → (is_some o || b) ≡ false
      → (b ≡ false → (d : Client) → GivesUp d (reconnect_loop e k fuel (suc n) d))
      → GivesUp c (after_dial fuel n c o)
  unfolding record_connect_error
  after_dial-GivesUp fuel n c none b h rest = rest h (record_connect_error (e.failure (suc n)) c)
  after_dial-GivesUp fuel n c (some conn) b h rest = cc

  pub loop-Succeeds :
      StaysOpen
      → (m fuel n : ℕ) (c : Client) → m ≤ fuel
      → (k.max_reconnect_attempts ≡ 0) ⊎ (m + n ≤ k.max_reconnect_attempts)
      → answers e k m n ≡ true
      → Succeeds c (reconnect_loop e k fuel n c)
  loop-Succeeds open_ zero fuel n c l h a = cc
  loop-Succeeds open_ (suc m) zero n c l h a = absurd (omega (arith, l))
  loop-Succeeds open_ (suc m) (suc fuel) n c l h a =
      subst (Succeeds c) (sym (round-eq open_ fuel n c (ground (arith, h)))) (
        after_dial-Succeeds fuel n c (dial_first e (suc n) k.urls) (answers e k m (suc n)) a
          (λ b d. loop-Succeeds open_ m fuel (suc n) d (omega (arith, l)) (ground (arith, h)) b))

  give_up-GivesUp : (now : ℕ) (c : Client) → GivesUp c (some (gave_up, give_up now c))
  unfolding give_up
  give_up-GivesUp now c = elim (Bool-cases c.state.gave_up) [
    | inl h ↦
        if_holds (λ (d : Client). GivesUp c (some (gave_up, d))) c.state.gave_up _ _ h
          (c, refl, refl, h, refl)
    | inr h ↦
        if_fails (λ (d : Client). GivesUp c (some (gave_up, d))) c.state.gave_up _ _ h
          (
            record c { state = record c.state { gave_up = true; gave_up_at = now } },
            refl,
            refl,
            refl,
            refl,
          )
  ]

  cap_reached :
      (n : ℕ)
      → 0 < k.max_reconnect_attempts
      → n ≡ k.max_reconnect_attempts
      → (ltb 0 k.max_reconnect_attempts && leb k.max_reconnect_attempts n) ≡ true
  cap_reached n p h = ground arith

  pub loop-GivesUp :
      StaysOpen
      → (m n : ℕ) (c : Client) → 0 < k.max_reconnect_attempts
      → m + n ≡ k.max_reconnect_attempts
      → answers e k m n ≡ false
      → GivesUp c (reconnect_loop e k (suc m) n c)
  unfolding reconnect_loop
  loop-GivesUp open_ zero n c p h a =
      rw ((open_ n).0, cap_reached n p (omega (arith, h))) (give_up-GivesUp (e.clock n) c)
  loop-GivesUp open_ (suc m) n c p h a =
      subst (GivesUp c) (sym (round-eq open_ (suc m) n c (inr (omega (arith, h))))) (
        after_dial-GivesUp (suc m) n c (dial_first e (suc n) k.urls) (answers e k m (suc n)) a
          (λ b d. loop-GivesUp open_ m (suc n) d p (omega (arith, h)) b))
