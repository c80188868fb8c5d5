-- ===== src/Websocket/History.antt =====
-- The list that `sendMessageHistory` (internal/websocket/manager.go) sends to a new client: rows as
-- messages, the filter, and the exchange sort by time.
pub mod Order
use pigeongram_chat.Base.{
  ℕ, zero, suc, Bool, true, false, not, ◌&&◌, List, [], ◌∷◌, ◌==◌, nat_eq, list_eq, if◌then◌else◌,
  length, is_empty, map, select, ltb,
}
use pigeongram_chat.Base.Text.{Text, bytes}
use pigeongram_chat.Base.Time.{is_zero, after}
use pigeongram_chat.Models.{Message, MessageEntity}

-- A row of the table as the message that clients get.
unfoldable pub row_message : MessageEntity → Message
row_message msg = record {
  id = msg.id;
  username = msg.user.username;
  text = msg.content;
  timestamp = msg.timestamp;
  edited = msg.edited;
}

-- `msg.Text != "" && msg.Text != "null" && msg.Text != "undefined"`
unfoldable pub has_text : Message → Bool
has_text msg =
    not (is_empty msg.text) && not (msg.text == bytes "null") && not (msg.text == bytes "undefined")

-- The author "system" and the present time where they are missing.
unfoldable pub with_defaults : ℕ → Message → Message
with_defaults now msg = record msg {
  username = if is_empty msg.username then bytes "system" else msg.username;
  timestamp = if is_zero msg.timestamp then now else msg.timestamp;
}

unfoldable pub valid_messages : ℕ → List Message → List Message
valid_messages now [] = []
valid_messages now (msg ∷ messages) =
    let rest = valid_messages now messages in
    if has_text msg then with_defaults now msg ∷ rest else rest

-- The inner loop: the element at `i`, which changes places with each later one that is earlier in
-- time, and what stands behind it afterwards.
unfoldable pub exchange : Message → List Message → Message × List Message
exchange x [] = (x, [])
exchange x (y ∷ ys) =
    let (first, rest) = exchange (if after x.timestamp y.timestamp then y else x) ys in
    (first, (if after x.timestamp y.timestamp then x else y) ∷ rest)

-- The outer loop over the rounds that are left; as many as there are elements are enough.
unfoldable pub exchange_sort : ℕ → List Message → List Message
exchange_sort zero xs = xs
exchange_sort (suc rounds) [] = []
exchange_sort (suc rounds) (x ∷ xs) =
    let (first, rest) = exchange x xs in first ∷ exchange_sort rounds rest

unfoldable pub history_of : ℕ → List Message → List Message
history_of now messages =
    let valid = valid_messages now messages in exchange_sort (length valid) valid
