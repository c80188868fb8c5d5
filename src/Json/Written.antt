-- ===== src/Json/Written.antt =====
-- The documents that the program writes and reads, as far as `encoding/json` reads back what it wrote:
-- texts are valid UTF-8 (Go puts U+FFFD for what is not), documents are not nested deeply, numbers are
-- digits, and a time is one between 1970 and 9999.
use pigeongram_chat.Base.{
  ℕ, zero, suc, ◌*◌, ◌<◌, ◌^◌, ◌≡◌, refl, Bool, true, false, ◌&&◌, Option, none, some, List, [],
  ◌∷◌, leb, ltb, if◌then◌else◌, All, arith, ◌==◌, nat_eq,
}
use pigeongram_chat.Base.Text.{Text}
use pigeongram_chat.Base.Time.{second}
use pigeongram_chat.Models.{Message, User, Session}
use pigeongram_chat.Json.{
  Json, Items, Fields, null, bool, num, str, arr, obj, nil, cons, end, field,
}
use pigeongram_chat.Json.Structs.{
  TimeText, JsonText, encode_message, encode_items, encode_user, encode_session,
}

-- What follows a first byte in UTF-8: how many bytes, and the bounds of the next one.
abbrev after_first : ℕ → Option (ℕ × ℕ × ℕ)
after_first c =
    if ltb c 128
    then some (0, 128, 191)
    else if ltb c 194
    then none
    else if ltb c 224
    then some (1, 128, 191)
    else if ltb c 240
    then some (2, (if c == 224 then 160 else 128), (if c == 237 then 159 else 191))
    else if ltb c 245
    then some (3, (if c == 240 then 144 else 128), (if c == 244 then 143 else 191))
    else none

-- `utf8.Valid`, with the bytes that a character still needs and the bounds of the next.
unfoldable pub is_utf8_from : ℕ → ℕ → ℕ → Text → Bool
is_utf8_from zero low high [] = true
is_utf8_from (suc k) low high [] = false
is_utf8_from zero low high (c ∷ s) = elim (after_first c) [
  | none ↦ false
  | some (k, low', high') ↦ is_utf8_from k low' high' s
]
is_utf8_from (suc k) low high (c ∷ s) =
    let rest = is_utf8_from k 128 191 s in leb low c && leb c high && rest

abbrev pub is_utf8 : Text → Bool
is_utf8 t = is_utf8_from 0 128 191 t

abbrev is_scalar : Json → Bool
is_scalar null = true
is_scalar (bool b) = true
is_scalar (num n) = true
is_scalar (str t) = is_utf8 t
is_scalar j = false

abbrev is_flat : Fields → Bool
is_flat end = true
is_flat (field k v fs) = is_utf8 k && (is_scalar v && is_flat fs)

abbrev pub are_flat : Items → Bool
are_flat nil = true
are_flat (cons (obj fs) js) = is_flat fs && are_flat js
are_flat (cons j js) = false

-- An object of scalars, or a list of such objects.
abbrev pub is_written : Json → Bool
is_written (obj fs) = is_flat fs
is_written (arr js) = are_flat js
is_written j = false

-- From 1970-01-01 on, and before 9999-01-01.
abbrev pub is_usual : ℕ → Bool
is_usual t = leb (62135596800 * second) t && ltb t (315506361600 * second)

-- The text of a time is read back.
pub record Reads (c : TimeText) : Type 0 where
  pub back : (t : ℕ) → is_usual t ≡ true → c.parse_time (c.format_time t) ≡ some t
  pub plain : (t : ℕ) → is_usual t ≡ true → is_utf8 (c.format_time t) ≡ true

-- The text of a document is read back.
abbrev pub Parses : JsonText → Type 0
Parses t = (j : Json) → is_written j ≡ true → t.parse (t.print j) ≡ some j

-- A message that a document can hold as it is.
pub record IsPlain (m : Message) : Type 0 where
  pub id_fits : m.id < 2 ^ 64
  pub username_text : is_utf8 m.username ≡ true
  pub text_text : is_utf8 m.text ≡ true
  pub usual_time : is_usual m.timestamp ≡ true

encode_fields-flat :
    (c : TimeText) (i : ℕ) (u t : Text) (w : ℕ) (e : Bool) (js : Items)
    → is_utf8 u ≡ true
    → is_utf8 t ≡ true
    → is_utf8 (c.format_time w) ≡ true
    → are_flat js ≡ true
    → let m : Message = record { id = i; username = u; text = t; timestamp = w; edited = e } in
      are_flat (cons (encode_message c m) js) ≡ true
unfolding encode_message is_utf8_from
encode_fields-flat c zero u t w true js a b k h = ground (arith, a, b, k, h)
encode_fields-flat c zero u t w false js a b k h = ground (arith, a, b, k, h)
encode_fields-flat c (suc i) u t w true js a b k h = ground (arith, a, b, k, h)
encode_fields-flat c (suc i) u t w false js a b k h = ground (arith, a, b, k, h)

encode_message-flat :
    (c : TimeText) (m : Message) (js : Items)
    → Reads c
    → IsPlain m
    → are_flat js ≡ true
    → are_flat (cons (encode_message c m) js) ≡ true
encode_message-flat c m js reads p h =
    encode_fields-flat c m.id m.username m.text m.timestamp m.edited js p.username_text p.text_text
      (reads.plain m.timestamp p.usual_time) h

pub encode_items-are_flat :
    (c : TimeText) (ms : List Message)
    → Reads c
    → All IsPlain ms
    → are_flat (encode_items c ms) ≡ true
unfolding encode_items
encode_items-are_flat c [] reads a = refl
encode_items-are_flat c (m ∷ ms) reads a =
    encode_message-flat c m (encode_items c ms) reads a.0 (encode_items-are_flat c ms reads a.1)

pub encode_session-written :
    (s : Session) → is_utf8 s.username ≡ true → is_written (encode_session s) ≡ true
unfolding encode_session is_utf8_from
encode_session-written s h = ground (arith, h)

pub encode_user-written : (u : User) → is_utf8 u.username ≡ true → is_written (encode_user u) ≡ true
unfolding encode_user is_utf8_from
encode_user-written u h = ground (arith, h)
