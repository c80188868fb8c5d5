-- ===== src/Websocket/Client/Frames.antt =====
-- What `ReadPump` lets through (internal/websocket/client.go): whose name a message bears, and its
-- length.
use pigeongram_chat.Base.{
  ℕ, ◌+◌, ◌≤◌, ◌<◌, ◌≡◌, refl, false, Option, none, some, List, [], ◌∷◌, ◌++◌, nat_eq, list_eq,
  length, take, is_empty, All, arith, ap, ◌∙◌, length-take, length-append, inl, inr, Option-cases,
}
use pigeongram_chat.Base.Text.{Text, trim_space}
use pigeongram_chat.Models.{Message}
use pigeongram_chat.Json.{Json}
use pigeongram_chat.Json.Structs.{decode_named, EditRequest}
use pigeongram_chat.Json.Agree.{decode_text-decode_named}
use pigeongram_chat.Websocket.Channels.{length-offer, All-offer}
use pigeongram_chat.Websocket.Client.{
  Client, Frame, edit, bad_edit, blank, chat, Inbox, read_text, read_frame, post, read_pump,
  checked, cut, cut_mark, edit_frame,
}

-- The fourth format is never reached with a text: the second has read the same field.
read_text-author : (own : Text) (raw : Json) → (read_text own raw).1 ≡ own
unfolding read_text
read_text-author own raw = elim (Option-cases (decode_named raw)) [
  | inl e ↦ ground arith
  | inr (m, e) ↦ ground (arith, decode_text-decode_named raw m e)
]

-- The author that a frame names, or the given name if it names none.
abbrev pub author : Text → Frame → Text
author own (edit e) = e.username
author own bad_edit = own
author own blank = own
author own (chat username text) = username

checked-author : (own : Text) (r : Text × Text) → r.1 ≡ own → author own (checked r) ≡ own
unfolding checked
checked-author own (text, username) h = ground arith

edit_frame-author : (own : Text) (o : Option EditRequest) → author own (edit_frame own o) ≡ own
unfolding edit_frame
edit_frame-author own none = refl
edit_frame-author own (some e) = refl

-- Every chat message and every edit that `ReadPump` makes of a frame bears the name that the client
-- logged in with, whatever the frame says.
pub read_frame-author : (own : Text) (raw : Json) → author own (read_frame own raw) ≡ own
unfolding read_frame
read_frame-author own raw = ground (
  arith,
  checked-author own (read_text own raw) (read_text-author own raw),
  edit_frame-author own none,
)

-- The mark adds 22 bytes to a text that was cut.
abbrev pub IsSendable : Frame → Type 0
IsSendable (chat username text) = (0 < length text) × (length text ≤ 10022)
IsSendable _ = Unit {0}

length-cut :
    (limit : ℕ) (text : Text)
    → 0 < limit
    → is_empty text ≡ false
    → (0 < length (cut limit text)) × (length (cut limit text) ≤ limit + 22)
unfolding cut
length-cut limit [] l h = cc
length-cut limit (c ∷ text) l h =
    ground (arith, length-take limit (c ∷ text), length-append (take limit (c ∷ text)) cut_mark)

checked-IsSendable : (r : Text × Text) → IsSendable (checked r)
unfolding checked
checked-IsSendable (text, username) =
    ground (arith, length-cut 10000 (trim_space text) (omega arith))

edit_frame-IsSendable : (own : Text) (o : Option EditRequest) → IsSendable (edit_frame own o)
unfolding edit_frame
edit_frame-IsSendable own none = tt
edit_frame-IsSendable own (some e) = tt

pub read_frame-IsSendable : (own : Text) (raw : Json) → IsSendable (read_frame own raw)
unfolding read_frame
read_frame-IsSendable own raw =
    ground (arith, checked-IsSendable (read_text own raw), edit_frame-IsSendable own none)

-- What a client's messages and edits have in common.
abbrev pub IsFrom : Text → Message → Type 0
IsFrom own m = (m.username ≡ own) × (0 < length m.text) × (length m.text ≤ 10022)

abbrev pub IsEditFrom : Text → EditRequest → Type 0
IsEditFrom own e = e.username ≡ own

pub record IsInbox (own : Text) (i : Inbox) : Type 0 where
  pub messages : All (IsFrom own) i.broadcast
  pub edits : All (IsEditFrom own) i.edits
  pub messages_fit : length i.broadcast ≤ 100
  pub edits_fit : length i.edits ≤ 100

post-IsInbox :
    (own : Text) (now : ℕ) (f : Frame) (i : Inbox)
    → author own f ≡ own
    → IsSendable f
    → IsInbox own i
    → IsInbox own (post now f i)
unfolding post
post-IsInbox own now (edit e) i a s v = record {
  messages = v.messages;
  edits = All-offer (IsEditFrom own) 100 e i.edits v.edits a;
  messages_fit = v.messages_fit;
  edits_fit = length-offer 100 e i.edits v.edits_fit;
}
post-IsInbox own now bad_edit i a s v = v
post-IsInbox own now blank i a s v = v
post-IsInbox own now (chat username text) i a s v = record {
  messages = All-offer (IsFrom own) 100 _ i.broadcast v.messages (a, s.0, s.1);
  edits = v.edits;
  messages_fit = length-offer 100 _ i.broadcast v.messages_fit;
  edits_fit = v.edits_fit;
}

post-leaving : (now : ℕ) (f : Frame) (i : Inbox) → (post now f i).leaving ≡ i.leaving
unfolding post
post-leaving now (edit e) i = refl
post-leaving now _ i = refl

read_pump-IsInbox :
    (c : Client) (frames : List (ℕ × Json)) (i : Inbox)
    → IsInbox c.username i
    → IsInbox c.username (read_pump c frames i)
      × ((read_pump c frames i).leaving ≡ i.leaving ++ (c ∷ []))
unfolding read_pump
read_pump-IsInbox c [] i v = (
  record {
    messages = v.messages;
    edits = v.edits;
    messages_fit = v.messages_fit;
    edits_fit = v.edits_fit;
  },
  refl,
)
read_pump-IsInbox c ((now, raw) ∷ frames) i v =
    let p =
      post-IsInbox c.username now (read_frame c.username raw) i (read_frame-author c.username raw)
        (read_frame-IsSendable c.username raw) v in
    let rest = read_pump-IsInbox c frames (post now (read_frame c.username raw) i) p in
    (rest.0, rest.1 ∙ ap (λ l. l ++ (c ∷ [])) (post-leaving now (read_frame c.username raw) i))

abbrev pub empty_inbox : Inbox
empty_inbox = record { broadcast = []; edits = []; leaving = [] }

-- Whatever a client sends, its reader posts only messages and edits under the client's own name, each
-- message with a text of 1 to 10022 bytes, leaves both channels within their 100 places, and in the
-- end hands the client over to be unregistered once.
pub read_pump-posts :
    (c : Client) (frames : List (ℕ × Json))
    → IsInbox c.username (read_pump c frames empty_inbox)
      × ((read_pump c frames empty_inbox).leaving ≡ c ∷ [])
read_pump-posts c frames =
    read_pump-IsInbox c frames empty_inbox
      (record { messages = tt; edits = tt; messages_fit = omega arith; edits_fit = omega arith })
