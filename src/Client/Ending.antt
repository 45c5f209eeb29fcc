-- ===== src/Client/Ending.antt =====
-- client.go: how a reconnection ends.
use go_rabbitmq.Base.{◌≡◌, ◌<◌, ◌⊎◌, ℕ, true, false}
use go_rabbitmq.Client.State.{Client, set_reconnecting}
use go_rabbitmq.Client.Reconnect.{Surroundings, ReconnectConfig}
use go_rabbitmq.Client.Rounds.{IsReconnected, HasGivenUp, answers}

-- What leaves the loop, by how it ended.
module _ (c : Client) where
  abbrev begun : Client
  begun = record (set_reconnecting true c) { in_loop = true }

-- How a loop ends that has `m` attempts.
abbrev pub HasEnded : Surroundings → ReconnectConfig → ℕ → Client → Client → Type 0
HasEnded e k m c c' =
    ((answers e k m 0 ≡ true) × IsReconnected c c') ⊎ ((answers e k m 0 ≡ false) × HasGivenUp c c')

-- The attempts that are enough: as many as the cap, or, without one, up to one at which an address answers.
abbrev pub AreEnough : Surroundings → ReconnectConfig → ℕ → Type 0
AreEnough e k m =
    ((0 < k.max_reconnect_attempts) × (m ≡ k.max_reconnect_attempts))
    ⊎ ((k.max_reconnect_attempts ≡ 0) × (answers e k m 0 ≡ true))
