-- ===== src/Storage/Names.antt =====
-- The user and the name of a file are read back out of its key.
use pigeongram_chat.Base.{
  ℕ, zero, suc, ◌+◌, ◌≡◌, refl, ◌∙◌, ap, Bool, true, false, ◌&&◌, some, [], ◌∷◌, ◌++◌, ◌==◌, nat_eq,
  list_eq, if◌then◌else◌, leb, ltb, ◌%◌, ◌/◌, ◌||◌, if-both, arith, any, all, is_empty, nat_beq_iff,
}
use pigeongram_chat.Base.Text.{Text, bytes}
use pigeongram_chat.Storage.{
  split, push_part, object_key, decimal, is_unsafe, safe_name, cut_dash, without_time, last_part,
  read_key,
}
use pigeongram_chat.Storage.Owner.{split-append}

abbrev is_digit : ℕ → Bool
is_digit c = leb b'0' c && leb c b'9'

is_digit-mod : (n : ℕ) → is_digit (b'0' + n % 10) ≡ true
is_digit-mod n = ground arith

decimal-digits :
    (fuel n : ℕ) (rest : Text)
    → all is_digit rest ≡ true
    → all is_digit (decimal fuel n rest) ≡ true
unfolding decimal all
decimal-digits zero n rest h = h
decimal-digits (suc fuel) n rest h =
    let more : all is_digit ((b'0' + n % 10) ∷ rest) ≡ true = ground (arith, is_digit-mod n, h) in
    if-both (λ (s : Text). all is_digit s ≡ true) (ltb n 10) more
      (decimal-digits fuel (n / 10) ((b'0' + n % 10) ∷ rest) more)

decimal-longer :
    (fuel n : ℕ) (rest : Text) → is_empty rest ≡ false → is_empty (decimal fuel n rest) ≡ false
unfolding decimal
decimal-longer zero n rest h = h
decimal-longer (suc fuel) n rest h =
    if-both (λ (s : Text). is_empty s ≡ false) (ltb n 10) refl
      (decimal-longer fuel (n / 10) ((b'0' + n % 10) ∷ rest) refl)

-- The digits of a time.
abbrev stamp : ℕ → Text
stamp t = decimal (suc t) t []

stamp-nonempty : (t : ℕ) → is_empty (stamp t) ≡ false
unfolding decimal
stamp-nonempty t =
    if-both (λ (s : Text). is_empty s ≡ false) (ltb t 10) refl
      (decimal-longer t (t / 10) ((b'0' + t % 10) ∷ []) refl)

stamp-digits : (t : ℕ) → all is_digit (stamp t) ≡ true
unfolding all
stamp-digits t = decimal-digits (suc t) t [] refl

digits-free :
    (c : ℕ) (s : Text) → is_digit c ≡ false → all is_digit s ≡ true → any (λ x. x == c) s ≡ false
unfolding all any
digits-free c [] out h = refl
digits-free c (x ∷ s) out h = ground (arith, digits-free c s, nat_beq_iff x c)

cut_dash-append :
    (before behind : Text)
    → any (λ c. c == b'-') before ≡ false
    → cut_dash (before ++ (b'-' ∷ behind)) ≡ some (before, behind)
unfolding cut_dash any
cut_dash-append [] behind free = ground arith
cut_dash-append (c ∷ before) behind free = ground (arith, cut_dash-append before behind)

split-free : (sep : ℕ) (s : Text) → any (λ c. c == sep) s ≡ false → split sep s ≡ s ∷ []
unfolding split push_part any
split-free sep [] free = refl
split-free sep (c ∷ s) free = ground (arith, split-free sep s)

any-append : (p : ℕ → Bool) (xs ys : Text) → any p (xs ++ ys) ≡ (any p xs || any p ys)
unfolding any
any-append p [] ys = refl
any-append p (x ∷ xs) ys = ground (arith, any-append p xs ys)

safe_name-free :
    (name : Text)
    → any (λ c. c == b'/') name ≡ false
    → any (λ c. c == b'/') (safe_name name) ≡ false
unfolding safe_name any
safe_name-free [] free = refl
safe_name-free (c ∷ name) free =
    let head : ((if is_unsafe c then b'_' else c) == b'/') ≡ false =
      if-both (λ (x : ℕ). (x == b'/') ≡ false) (is_unsafe c) refl (ground arith) in
    rw head (safe_name-free name (ground arith))

without_time-stamp : (t : ℕ) (name : Text) → without_time (stamp t ++ (b'-' ∷ name)) ≡ name
unfolding without_time
without_time-stamp t name =
    rw
      (
        cut_dash-append (stamp t) name (digits-free b'-' (stamp t) refl (stamp-digits t)),
        without_time,
      )
      (rw (stamp-nonempty t, stamp-digits t) refl)

-- `ListFiles` reads the uploader and the cleaned file name back out of the key that `GenerateUploadURL`
-- made, if neither the chat, the user nor the file name has a slash; dashes in the name do not matter.
pub read_key-object_key :
    (chat_id user_id : Text) (timestamp : ℕ) (base : Text)
    → any (λ c. c == b'/') chat_id ≡ false
    → any (λ c. c == b'/') user_id ≡ false
    → any (λ c. c == b'/') base ≡ false
    → read_key
        (object_key chat_id user_id timestamp base)
        (split b'/' (object_key chat_id user_id timestamp base))
      ≡ (user_id, safe_name base)
unfolding object_key any read_key last_part
read_key-object_key chat_id user_id timestamp base in_chat in_user in_name =
    let name_free : any (λ c. c == b'/') (stamp timestamp ++ (b'-' ∷ safe_name base)) ≡ false =
      any-append (λ c. c == b'/') (stamp timestamp) (b'-' ∷ safe_name base)
      ∙ rw (digits-free b'/' (stamp timestamp) refl (stamp-digits timestamp))
          (safe_name-free base in_name) in
    let parts : split b'/' (object_key chat_id user_id timestamp base)
        ≡ (bytes "chat-" ++ chat_id) ∷ user_id ∷ (stamp timestamp ++ (b'-' ∷ safe_name base)) ∷ [] =
      split-append b'/' (bytes "chat-" ++ chat_id) _ in_chat
      ∙ ap (λ l. (bytes "chat-" ++ chat_id) ∷ l)
          (split-append b'/' user_id _ in_user
            ∙ ap (λ l. user_id ∷ l) (split-free b'/' _ name_free)) in
    ap (read_key (object_key chat_id user_id timestamp base)) parts
    ∙ ap (λ n. (user_id, n)) (without_time-stamp timestamp (safe_name base))
