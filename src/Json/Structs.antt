-- ===== src/Json/Structs.antt =====
-- The structs of the program as JSON (the tags of pkg/models/models.go, internal/websocket/client.go
-- and internal/websocket/manager.go).
use pigeongram_chat.Base.{
  ℕ, Bool, true, false, Option, none, some, List, [], ◌∷◌, ◌==◌, nat_eq, list_eq, if◌then◌else◌,
}
use mathlib.Core.Option
use pigeongram_chat.Base.Text.{Text, bytes}
use pigeongram_chat.Models.{Message, User, Session}
use pigeongram_chat.Json.{
  Json, Items, Fields, null, bool, num, str, arr, obj, nil, cons, end, field,
}
use pigeongram_chat.Json.{into_string, into_uint, into_bool, names, into_fields, into_struct}

-- `var simpleString string` and `var dataStr string`
abbrev pub decode_string : Json → Option Text
decode_string j = into_string j []

-- `struct { Text string }`
unfoldable pub set_text : Text → Json → Text → Option Text
set_text key v old = if names (bytes "text") key then into_string v old else some old

unfoldable pub decode_text : Json → Option Text
unfolding set_text names into_fields
decode_text j = into_struct set_text j []

-- `struct { Type string; Data json.RawMessage }`; the data is missing until a field brings it.
pub record Typed : Type 0 where
  pub type : Text
  pub payload : Option Json

set_typed : Text → Json → Typed → Option Typed
set_typed key v s =
    if names (bytes "type") key
    then Option.map (λ t. record s { type = t }) (into_string v s.type)
    else if names (bytes "data") key
    then some (record s { payload = some v })
    else some s

unfoldable pub decode_typed : Json → Option Typed
unfolding set_typed names into_fields
decode_typed j = into_struct set_typed j (record { type = []; payload = none })

-- `struct { Username string; Text string }`
pub record Named : Type 0 where
  pub username : Text
  pub text : Text

unfoldable pub set_named : Text → Json → Named → Option Named
set_named key v s =
    if names (bytes "username") key
    then Option.map (λ t. record s { username = t }) (into_string v s.username)
    else if names (bytes "text") key
    then Option.map (λ t. record s { text = t }) (into_string v s.text)
    else some s

unfoldable pub decode_named : Json → Option Named
unfolding set_named names into_fields
decode_named j = into_struct set_named j (record { username = []; text = [] })

-- `EditRequest`
pub record EditRequest : Type 0 where
  pub message_id : ℕ
  pub new_text : Text
  pub username : Text

set_edit : Text → Json → EditRequest → Option EditRequest
set_edit key v s =
    if names (bytes "messageid") key
    then Option.map (λ n. record s { message_id = n }) (into_uint v s.message_id)
    else if names (bytes "newtext") key
    then Option.map (λ t. record s { new_text = t }) (into_string v s.new_text)
    else if names (bytes "username") key
    then Option.map (λ t. record s { username = t }) (into_string v s.username)
    else some s

unfoldable pub decode_edit : Json → Option EditRequest
unfolding set_edit names into_fields
decode_edit j = into_struct set_edit j (record { message_id = 0; new_text = []; username = [] })

-- The text of a time in a document (RFC 3339, by `time.Time`).
pub record TimeText : Type 0 where
  pub format_time : ℕ → Text
  pub parse_time : Text → Option ℕ

abbrev zero_message : Message
zero_message = record { id = 0; username = []; text = []; timestamp = 0; edited = false }

module _ (c : TimeText) where
  into_time : Json → ℕ → Option ℕ
  into_time null old = some old
  into_time (str t) old = c.parse_time t
  into_time _ old = none

  set_message : Text → Json → Message → Option Message
  unfolding into_time
  set_message key v m =
      if names (bytes "id") key
      then Option.map (λ n. record m { id = n }) (into_uint v m.id)
      else if names (bytes "username") key
      then Option.map (λ t. record m { username = t }) (into_string v m.username)
      else if names (bytes "text") key
      then Option.map (λ t. record m { text = t }) (into_string v m.text)
      else if names (bytes "timestamp") key
      then Option.map (λ t. record m { timestamp = t }) (into_time v m.timestamp)
      else if names (bytes "edited") key
      then Option.map (λ b. record m { edited = b }) (into_bool v m.edited)
      else some m

  unfoldable pub decode_message : Json → Option Message
  unfolding set_message names into_fields
  decode_message j = into_struct set_message j zero_message

  -- `omitempty` leaves out an id of 0 and an edit mark that is not set.
  abbrev edited_field : Bool → Fields
  edited_field true = field (bytes "edited") (bool true) end
  edited_field false = end

  unfoldable pub encode_message : Message → Json
  encode_message m =
      let rest = field (bytes "username") (str m.username) (
        field (bytes "text") (str m.text)
          (field (bytes "timestamp") (str (c.format_time m.timestamp)) (edited_field m.edited))) in
      obj (if m.id == 0 then rest else field (bytes "id") (num m.id) rest)

-- `[]models.Message`; `null` is the nil slice.
module _ (c : TimeText) where
  unfoldable pub decode_items : Items → Option (List Message)
  decode_items nil = some []
  decode_items (cons j js) = elim (decode_message c j) [
    | none ↦ none
    | some m ↦ Option.map (λ ms. m ∷ ms) (decode_items js)
  ]

  unfoldable pub decode_messages : Json → Option (Option (List Message))
  unfolding decode_items
  decode_messages null = some none
  decode_messages (arr js) = Option.map some (decode_items js)
  decode_messages _ = none

  unfoldable pub encode_items : List Message → Items
  encode_items [] = nil
  encode_items (m ∷ ms) = cons (encode_message c m) (encode_items ms)

-- `User` and `Session`: the password has the tag "-" and is neither written nor read.
set_username : Text → Json → Text → Option Text
set_username key v old = if names (bytes "username") key then into_string v old else some old

unfoldable pub encode_user : User → Json
encode_user u = obj (field (bytes "username") (str u.username) end)

unfoldable pub decode_user : Json → Option User
unfolding set_username names into_fields
decode_user j =
    Option.map (λ t. record { username = t; password = [] }) (into_struct set_username j [])

unfoldable pub encode_session : Session → Json
encode_session s = obj (field (bytes "username") (str s.username) end)

unfoldable pub decode_session : Json → Option Session
unfolding set_username names into_fields
decode_session j = Option.map (λ t. record { username = t }) (into_struct set_username j [])

-- The text of a document, as `Marshal` writes and `Unmarshal` reads it.
pub record JsonText : Type 0 where
  pub print : Json → Text
  pub parse : Text → Option Json
