-- ===== src/Client/Tests.antt =====
-- Runs of a reconnection.
use go_rabbitmq.Base.{◌≡◌, ◌+◌, refl, true, false, none, some, [], ◌∷◌, ◌==◌, if◌then◌else◌}
use go_rabbitmq.Client.State.{Client, mark_connected, note_closed}
use go_rabbitmq.Client.Reconnect.{Surroundings, ReconnectConfig, dial_first}
use go_rabbitmq.Client.Rounds.{answers}

-- Connection 5 was lost at time 90.
abbrev lost : Client
lost = record {
  state = record {
    connected = false;
    reconnecting = false;
    connected_at = 10;
    last_disconnect_at = 90;
    reconnects = 2;
    blocked = false;
    blocked_reason = "";
    blocked_at = 0;
    unblocked_at = 0;
    gave_up = false;
    gave_up_at = 0;
    last_error = "reset";
  };
  state_conn = some 5;
  in_loop = false;
  closed = false;
}

-- The second address answers at the second attempt.
abbrev surroundings : Surroundings
surroundings = record {
  dial = λ n url. if n == 2 then some 6 else none;
  failure = λ n. "refused";
  clock = λ n. 100 + n;
  closed_at_head = λ n. false;
  closed_while_waiting = λ n. false;
}

abbrev capped : ReconnectConfig
capped = record { urls = "amqp://a" ∷ "amqp://b" ∷ []; max_reconnect_attempts = 3 }

-- It answers within the cap.
in_time : answers surroundings capped 3 0 ≡ true
unfolding dial_first
in_time = refl

-- The end of a connection that was replaced changes nothing.
stale : note_closed 120 5 (some "gone") (mark_connected 110 6 lost) ≡ mark_connected 110 6 lost
unfolding note_closed mark_connected
stale = refl
