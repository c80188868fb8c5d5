-- ===== src/Json/Agree.antt =====
-- Two structs of internal/websocket/client.go that read the same field `text` agree on it.
use pigeongram_chat.Base.{
  ◌≡◌, refl, true, false, some, nat_eq, list_eq, list_beq, list_beq_iff, arith, Option-cases, inl,
  inr,
}
use pigeongram_chat.Base.Text.{Text, bytes, fold_key}
use pigeongram_chat.Json.{Json, Fields, null, obj, end, field, into_fields, names}
use pigeongram_chat.Json.Structs.{Named, set_text, set_named, decode_text, decode_named}

-- One name of a document fits one field only.
names_one : (key a b : Text) → list_beq a b ≡ false → names a key ≡ true → names b key ≡ false
unfolding names
names_one key a b d h =
    ground (arith, list_beq_iff (fold_key key) a, list_beq_iff (fold_key key) b, list_beq_iff a b)

set_agree :
    (key : Text) (v : Json) (s t : Named)
    → set_named key v s ≡ some t
    → set_text key v s.text ≡ some t.text
unfolding set_text set_named list_beq
set_agree key v s t h = ground (arith, names_one key (bytes "username") (bytes "text") refl)

into_fields-agree :
    (fs : Fields) (s t : Named)
    → into_fields set_named fs s ≡ some t
    → into_fields set_text fs s.text ≡ some t.text
unfolding into_fields
into_fields-agree end s t h = ground arith
into_fields-agree (field k v fs) s t h = elim (Option-cases (set_named k v s)) [
  | inl e ↦ absurd (ground arith)
  | inr (s', e) ↦ ground (arith, set_agree k v s s' e, into_fields-agree fs s' t)
]

-- What reads as a name and a text reads as a text, and as the same one.
pub decode_text-decode_named :
    (j : Json) (m : Named) → decode_named j ≡ some m → decode_text j ≡ some m.text
unfolding decode_text decode_named
decode_text-decode_named null m h = ground arith
decode_text-decode_named (obj fs) m h = into_fields-agree fs _ m h
decode_text-decode_named _ m h = ground arith
