-- ===== src/Json/RoundTrip.antt =====
-- A message that is written as JSON is read back as it was.
use pigeongram_chat.Base.{
  ℕ, zero, suc, ◌<◌, ◌^◌, ◌≡◌, refl, Bool, true, false, some, List, [], ◌∷◌, nat_eq, list_eq,
  list_beq, arith, All,
}
use pigeongram_chat.Base.Text.{Text}
use pigeongram_chat.Models.{Message, User, Session}
use pigeongram_chat.Json.{Json}
use mathlib.Core.Option.{Option}
use pigeongram_chat.Json.Structs.{
  TimeText, decode_message, encode_message, decode_items, encode_items, decode_messages,
  decode_user, encode_user, decode_session, encode_session,
}

decode-encode_fields :
    (c : TimeText) (i : ℕ) (u t : Text) (w : ℕ) (e : Bool)
    → c.parse_time (c.format_time w) ≡ some w
    → i < 2 ^ 64
    → let m : Message = record { id = i; username = u; text = t; timestamp = w; edited = e } in
      decode_message c (encode_message c m) ≡ some m
unfolding decode_message encode_message list_beq
decode-encode_fields c zero u t w true r h = ground (arith, r)
decode-encode_fields c zero u t w false r h = ground (arith, r)
decode-encode_fields c (suc i) u t w true r h = ground (arith, r)
decode-encode_fields c (suc i) u t w false r h = ground (arith, r)

-- A message whose id fits a `uint`, and whose time is read back.
pub record IsReadable (c : TimeText) (m : Message) : Type 0 where
  pub id_fits : m.id < 2 ^ 64
  pub time_back : c.parse_time (c.format_time m.timestamp) ≡ some m.timestamp

-- It is read back from its document as it was.
decode-encode_message :
    (c : TimeText) (m : Message) → IsReadable c m → decode_message c (encode_message c m) ≡ some m
decode-encode_message c m h =
    decode-encode_fields c m.id m.username m.text m.timestamp m.edited h.time_back h.id_fits

-- A document that is a string is no message: the struct does not take it.
pub decode_message-str : (c : TimeText) (t : Text) → decode_message c (Json.str t) ≡ Option.none
unfolding decode_message
decode_message-str c t = refl

decode-encode_items :
    (c : TimeText) (ms : List Message)
    → All (IsReadable c) ms
    → decode_items c (encode_items c ms) ≡ some ms
unfolding decode_items encode_items
decode-encode_items c [] h = refl
decode-encode_items c (m ∷ ms) h =
    ground (arith, decode-encode_message c m h.0, decode-encode_items c ms h.1)

pub decode-encode_messages :
    (c : TimeText) (ms : List Message)
    → All (IsReadable c) ms
    → decode_messages c (Json.arr (encode_items c ms)) ≡ some (some ms)
unfolding decode_messages
decode-encode_messages c ms h = rw (decode-encode_items c ms h)

pub decode-encode_session : (s : Session) → decode_session (encode_session s) ≡ some s
unfolding decode_session encode_session list_beq
decode-encode_session s = refl

-- A user comes back without the password.
pub decode-encode_user :
    (u : User)
    → decode_user (encode_user u) ≡ some (record { username = u.username; password = [] })
unfolding decode_user encode_user list_beq
decode-encode_user u = refl
