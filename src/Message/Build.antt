-- ===== src/Message/Build.antt =====
-- types.go: making, changing, checking and cloning a message. The identifier that is drawn and the clock
-- are arguments. A method that returns its receiver is a function on messages.
use go_rabbitmq.Base.{
  ℕ, String, Bool, true, false, not, ◌&&◌, Option, none, some, List, [], ◌∷◌, if◌then◌else◌,
}
use go_rabbitmq.Base.Eq.{String_eq}
use go_rabbitmq.Base.Dict.{insert}
use go_rabbitmq.Message.{Value, Table, Message}

abbrev pub content_type_json : String
content_type_json = "application/json"

abbrev pub content_type_text : String
content_type_text = "text/plain"

unfoldable pub new_message_with_id : ℕ → List ℕ → String → Message
new_message_with_id now body id = record {
  body = body;
  content_type = content_type_json;
  headers = some [];
  exchange = "";
  routing_key = "";
  persistent = true;
  message_id = id;
  correlation_id = "";
  reply_to = "";
  type_name = "";
  app_id = "";
  user_id = "";
  timestamp = now;
  expiration = "";
  priority = 0;
}

-- `new_id` is the identifier that `generateMessageID` draws.
unfoldable pub new_message : ℕ → String → List ℕ → Message
new_message now new_id body = new_message_with_id now body new_id

unfoldable pub new_text_message : ℕ → String → List ℕ → Message
new_text_message now new_id body = record (new_message now new_id body) {
  content_type = content_type_text;
}

unfoldable pub with_correlation_id : String → Message → Message
with_correlation_id s m = record m { correlation_id = s }

unfoldable pub with_reply_to : String → Message → Message
with_reply_to s m = record m { reply_to = s }

unfoldable pub with_type : String → Message → Message
with_type s m = record m { type_name = s }

unfoldable pub with_app_id : String → Message → Message
with_app_id s m = record m { app_id = s }

unfoldable pub with_user_id : String → Message → Message
with_user_id s m = record m { user_id = s }

unfoldable pub with_priority : ℕ → Message → Message
with_priority n m = record m { priority = n }

abbrev pub entries_of : Table → List (String × Value)
entries_of none = []
entries_of (some t) = t

unfoldable pub with_header : String → Value → Message → Message
with_header k v m = record m { headers = some (insert k v (entries_of m.headers)) }

-- Keys do not repeat, so that the order of the copying, which Go leaves open, does not matter.
unfoldable pub copy_headers : List (String × Value) → List (String × Value) → List (String × Value)
copy_headers [] to = to
copy_headers ((k, v) ∷ from) to = insert k v (copy_headers from to)

unfoldable pub with_headers : Table → Message → Message
with_headers t m = record m { headers = some (copy_headers (entries_of t) (entries_of m.headers)) }

unfoldable pub with_content_type : String → Message → Message
with_content_type s m = record m { content_type = s }

unfoldable pub with_message_id : String → Message → Message
with_message_id s m = record m { message_id = s }

unfoldable pub with_timestamp : ℕ → Message → Message
with_timestamp seconds m = record m { timestamp = seconds }

unfoldable pub with_persistent : Message → Message
with_persistent m = record m { persistent = true }

unfoldable pub with_transient : Message → Message
with_transient m = record m { persistent = false }

pub data Invalid : Type 0 where
  empty_body empty_content_type bad_expiration : Invalid

abbrev pub is_empty : List ℕ → Bool
is_empty [] = true
is_empty (_ ∷ _) = false

-- `parses` says whether `time.ParseDuration` takes the text with "ms" after it.
unfoldable pub validate : (String → Bool) → Message → Option Invalid
validate parses m =
    if is_empty m.body
    then some empty_body
    else if String_eq.beq m.content_type ""
    then some empty_content_type
    else if not (String_eq.beq m.expiration "") && not (parses m.expiration)
    then some bad_expiration
    else none

-- The body and the headers are copied; a nil map becomes an empty one.
unfoldable pub clone : Message → Message
clone m = record m { headers = some (copy_headers (entries_of m.headers) []) }
