-- ===== src/Client/Reconnect.antt =====
-- client.go: connect and handleReconnection. The policy's delays only pass time, which the clock has.
use go_rabbitmq.Base.{
  ℕ, zero, suc, String, Bool, true, false, ◌&&◌, ◌||◌, Option, none, some, List, [], ◌∷◌, ltb, leb,
  if◌then◌else◌,
}
use go_rabbitmq.Client.State.{
  Client, mark_connected, record_connect_error, set_reconnecting, give_up,
}

-- What an attempt meets: which address answers with a connection, what the last failure says, the time,
-- and whether the client is seen closed at the head of the loop or while it waits.
pub record Surroundings : Type 0 where
  pub dial : ℕ → String → Option ℕ
  pub failure : ℕ → String
  pub clock : ℕ → ℕ
  pub closed_at_head : ℕ → Bool
  pub closed_while_waiting : ℕ → Bool

pub record ReconnectConfig : Type 0 where
  pub urls : List String
  pub max_reconnect_attempts : ℕ

-- How the loop ends.
pub data End : Type 0 where
  stopped gave_up reconnected : End

module _ (e : Surroundings) where
  -- The addresses in order, up to the first that answers.
  unfoldable pub dial_first : ℕ → List String → Option ℕ
  dial_first n [] = none
  dial_first n (url ∷ urls) = elim (e.dial n url) [
    | none ↦ dial_first n urls
    | some conn ↦ some conn
  ]

  unfoldable pub dialled : ℕ → Option ℕ → Client → Bool × Client
  dialled n none c = (false, record_connect_error (e.failure n) c)
  dialled n (some conn) c = (true, mark_connected (e.clock n) conn c)

  unfoldable pub connect : ReconnectConfig → ℕ → Client → Bool × Client
  connect k n c = dialled n (dial_first n k.urls) c

  abbrev pub counted_reconnect : Client → Client
  counted_reconnect c = record c { state = record c.state { reconnects = suc c.state.reconnects } }

  -- The loop from the number of attempts made, with fuel for its rounds.
  unfoldable pub reconnect_loop : ReconnectConfig → ℕ → ℕ → Client → Option (End × Client)
  reconnect_loop k zero n c = none
  reconnect_loop k (suc fuel) n c =
      let (success, c') = connect k (suc n) c in
      let rest = reconnect_loop k fuel (suc n) c' in
      if e.closed_at_head n
      then some (stopped, c)
      else if ltb 0 k.max_reconnect_attempts && leb k.max_reconnect_attempts n
      then some (gave_up, give_up (e.clock n) c)
      else if e.closed_while_waiting n
      then some (stopped, c)
      else if success
      then some (reconnected, counted_reconnect c')
      else rest

  abbrev pub leave_loop : Option (End × Client) → Option Client
  leave_loop none = none
  leave_loop (some (_, c)) = some (record (set_reconnecting false c) { in_loop = false })

  unfoldable pub handle_reconnection : ReconnectConfig → ℕ → Client → Option Client
  handle_reconnection k fuel c =
      if c.in_loop || c.closed
      then some c
      else leave_loop
          (reconnect_loop k fuel 0 (record (set_reconnecting true c) { in_loop = true }))
