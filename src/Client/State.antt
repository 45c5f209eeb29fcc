-- ===== src/Client/State.antt =====
-- client.go: the connection state that Client.State returns, and what changes it.
use go_rabbitmq.Base.{ℕ, ◌==◌, String, Bool, true, false, Option, none, some, if◌then◌else◌}
use go_rabbitmq.Health.State.{ClientState}

-- A time of 0 is Go's zero time.
pub record ConnectionState : Type 0 where
  pub connected : Bool
  pub reconnecting : Bool
  pub connected_at : ℕ
  pub last_disconnect_at : ℕ
  pub reconnects : ℕ
  pub blocked : Bool
  pub blocked_reason : String
  pub blocked_at : ℕ
  pub unblocked_at : ℕ
  pub gave_up : Bool
  pub gave_up_at : ℕ
  pub last_error : String

-- A connection is known by a number. `state_conn` is the one that the state is about, and `in_loop` the
-- field `reconnecting` of the client, which keeps a second loop out.
pub record Client : Type 0 where
  pub state : ConnectionState
  pub state_conn : Option ℕ
  pub in_loop : Bool
  pub closed : Bool

-- The part of the state that verdicts read.
unfoldable pub verdict_state : Client → ClientState
verdict_state c = record {
  connected = c.state.connected;
  reconnecting = c.state.reconnecting;
  connected_at = c.state.connected_at;
  blocked = c.state.blocked;
  unblocked_at = c.state.unblocked_at;
  gave_up = c.state.gave_up;
}

unfoldable pub mark_connected : ℕ → ℕ → Client → Client
mark_connected now conn c = record c {
  state = record c.state {
    connected = true;
    connected_at = now;
    blocked = false;
    gave_up = false;
    gave_up_at = 0;
  };
  state_conn = some conn;
}

abbrev pub is_conn : ℕ → Option ℕ → Bool
is_conn n none = false
is_conn n (some m) = m == n

-- A notification `connection.blocked` or `connection.unblocked` of a connection.
unfoldable pub note_blocking : ℕ → ℕ → Bool → String → Client → Client
note_blocking now conn active reason c =
    if is_conn conn c.state_conn
    then record c {
      state =
          (if active
            then record c.state { blocked = true; blocked_reason = reason; blocked_at = now }
            else record c.state { blocked = false; unblocked_at = now });
    }
    else c

abbrev pub or_last : Option String → String → String
or_last none s = s
or_last (some e) s = e

-- The end of a connection, with the error that the broker gave, if any.
unfoldable pub note_closed : ℕ → ℕ → Option String → Client → Client
note_closed now conn error c =
    if is_conn conn c.state_conn
    then record c {
      state = record c.state {
        connected = false;
        blocked = false;
        last_disconnect_at = now;
        last_error = or_last error c.state.last_error;
      };
    }
    else c

unfoldable pub record_connect_error : String → Client → Client
record_connect_error error c = record c { state = record c.state { last_error = error } }

unfoldable pub set_reconnecting : Bool → Client → Client
set_reconnecting v c = record c { state = record c.state { reconnecting = v } }

-- The time is that of the first time only.
unfoldable pub give_up : ℕ → Client → Client
give_up now c =
    if c.state.gave_up
    then c
    else record c { state = record c.state { gave_up = true; gave_up_at = now } }
