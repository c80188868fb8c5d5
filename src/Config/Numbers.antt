-- ===== src/Config/Numbers.antt =====
-- Numbers in the environment.
use pigeongram_chat.Base.{
  ℕ, zero, suc, ◌+◌, ◌*◌, ◌/◌, ◌%◌, ◌^◌, ◌≤◌, ◌<◌, ◌≡◌, refl, ◌∙◌, ap, Bool, true, false, Option,
  none, some, [], ◌∷◌, ◌==◌, nat_eq, list_eq, beq_refl, ltb, leb, if◌then◌else◌, is_empty, arith,
  tests, lt→ltb, ltb→lt, subst, Bool-cases, Option-cases, if-both, inl, inr,
}
use mathlib.Core.Option.{none-ne-some, some-injective}
use pigeongram_chat.Base.Text.{Text}
use pigeongram_chat.Base.Dict.{lookup, insert, lookup-insert}
use pigeongram_chat.Storage.{decimal}
use pigeongram_chat.Config.{
  ℤ, pos, negsuc, Env, getenv, digits_value, digits, in_range, parse_int, or_default,
  get_env_as_int, show_int,
}

le→leb : (a b : ℕ) → a ≤ b → leb a b ≡ true
le→leb a b h = ground arith

digit_read :
    (m d : ℕ) (s : Text) → d < 10 → digits_value m ((b'0' + d) ∷ s) ≡ digits_value (10 * m + d) s
unfolding digits_value
digit_read m d s h =
    rw (le→leb b'0' (b'0' + d) (omega (arith)), le→leb (b'0' + d) b'9' (omega (arith, h)))
      (ap (λ k. digits_value (10 * m + k) s) (omega arith))

-- The digits of a number are read back, if the fuel is more than the number.
digits_value-decimal :
    (fuel n : ℕ) (rest : Text)
    → n < fuel
    → digits_value 0 (decimal fuel n rest) ≡ digits_value n rest
unfolding decimal
digits_value-decimal zero n rest h = absurd (omega (arith, h))
digits_value-decimal (suc fuel) n rest h = elim (Bool-cases (ltb n 10)) [
  | inl small ↦ rw small (
      digit_read 0 (n % 10) rest (omega arith)
      ∙ ap (λ k. digits_value k rest) (omega (tests, small)))
  | inr large ↦ rw large (
      digits_value-decimal fuel (n / 10) ((b'0' + n % 10) ∷ rest) (omega (tests, h, large))
      ∙ digit_read (n / 10) (n % 10) rest (omega arith)
      ∙ ap (λ k. digits_value k rest) (omega arith))
]

-- A number in decimal begins with a digit.
decimal-head :
    (fuel n : ℕ) (rest : Text)
    → n < fuel
    → (c : ℕ) × (s : Text) × (decimal fuel n rest ≡ c ∷ s) × (b'0' ≤ c)
unfolding decimal
decimal-head zero n rest h = absurd (omega (arith, h))
decimal-head (suc fuel) n rest h = elim (Bool-cases (ltb n 10)) [
  | inl small ↦ (b'0' + n % 10, rest, rw small refl, omega arith)
  | inr large ↦
      let (c, s, e, digit) =
        decimal-head fuel (n / 10) ((b'0' + n % 10) ∷ rest) (omega (tests, h, large)) in
      (c, s, rw large e, digit)
]

-- The numbers that fit 64 bits.
abbrev pub Fits : ℤ → Type 0
Fits (pos n) = n < 2 ^ 63
Fits (negsuc n) = n < 2 ^ 63

digits_begun : (t : Text) (c : ℕ) (s : Text) → t ≡ c ∷ s → digits t ≡ digits_value 0 t
unfolding digits
digits_begun t c s e = rw (e, digits) refl

digits-decimal : (n : ℕ) → digits (decimal (suc n) n []) ≡ some n
unfolding digits_value
digits-decimal n =
    let (c, s, e, digit) = decimal-head (suc n) n [] (omega arith) in
    digits_begun _ c s e ∙ digits_value-decimal (suc n) n [] (omega arith)

no_sign : (c d : ℕ) → b'0' ≤ c → d < b'0' → (c == d) ≡ false
no_sign c d h k = ground arith

parse_int_unsigned :
    (t : Text) (c : ℕ) (s : Text) → t ≡ c ∷ s → b'0' ≤ c → parse_int t ≡ in_range false (digits t)
unfolding parse_int
parse_int_unsigned t c s e digit =
    rw (e, no_sign c b'-' digit (omega arith), no_sign c b'+' digit (omega arith)) refl

-- A signed number of 64 bits is read back from its text.
pub parse_int-show_int : (z : ℤ) → Fits z → parse_int (show_int z) ≡ some z
unfolding show_int parse_int in_range
parse_int-show_int (pos n) h =
    let (c, s, e, digit) = decimal-head (suc n) n [] (omega arith) in
    parse_int_unsigned _ c s e digit ∙ rw (digits-decimal n, in_range, lt→ltb n (2 ^ 63) h) refl
parse_int-show_int (negsuc n) h = rw (digits-decimal (suc n), in_range, lt→ltb n (2 ^ 63) h) refl

taken :
    (t : Text) (default z : ℤ)
    → parse_int t ≡ some z
    → (if is_empty t then default else or_default default (parse_int t)) ≡ z
unfolding parse_int or_default
taken [] default z e = absurd (none-ne-some _ e)
taken (c ∷ s) default z e = rw (e, or_default) refl

getenv-insert : (key v : Text) (env : Env) → getenv key (insert key v env) ≡ v
unfolding getenv
getenv-insert key v env = rw (found, getenv) refl
  where
    found : lookup key (insert key v env) ≡ some v
    found = lookup-insert key key v env ∙ rw (beq_refl key) refl

-- A number of 64 bits that is written in decimal to a variable of the environment, with its sign, is what
-- `GetEnvAsInt` and `GetEnvAsInt64` read there, whatever the default.
get_env_as_int-show_int :
    (key : Text) (default z : ℤ) (env : Env)
    → Fits z
    → get_env_as_int key default (insert key (show_int z) env) ≡ z
unfolding get_env_as_int
get_env_as_int-show_int key default z env h =
    rw (getenv-insert key (show_int z) env) (taken (show_int z) default z (parse_int-show_int z h))

in_range-Fits : (negative : Bool) (o : Option ℕ) (z : ℤ) → in_range negative o ≡ some z → Fits z
unfolding in_range
in_range-Fits negative none z e = absurd (none-ne-some _ e)
in_range-Fits false (some n) z e = elim (Bool-cases (ltb n (2 ^ 63))) [
  | inl h ↦ subst Fits (some-injective _ _ (rw (h, in_range) at e)) (ltb→lt n (2 ^ 63) h)
  | inr h ↦ absurd (none-ne-some _ (rw (h, in_range) at e))
]
in_range-Fits true (some zero) z e = subst Fits (some-injective _ _ e) (omega arith)
in_range-Fits true (some (suc n)) z e = elim (Bool-cases (ltb n (2 ^ 63))) [
  | inl h ↦ subst Fits (some-injective _ _ (rw (h, in_range) at e)) (ltb→lt n (2 ^ 63) h)
  | inr h ↦ absurd (none-ne-some _ (rw (h, in_range) at e))
]

parse_int-Fits : (t : Text) (z : ℤ) → parse_int t ≡ some z → Fits z
unfolding parse_int
parse_int-Fits [] z e = absurd (none-ne-some _ e)
parse_int-Fits (c ∷ s) z e = elim (Bool-cases (c == b'-')) [
  | inl minus ↦ in_range-Fits true (digits s) z (rw minus at e)
  | inr m ↦ elim (Bool-cases (c == b'+')) [
    | inl plus ↦ in_range-Fits false (digits s) z (rw (m, plus) at e)
    | inr p ↦ in_range-Fits false (digits (c ∷ s)) z (rw (m, p) at e)
  ]
]

-- What `GetEnvAsInt` yields fits 64 bits, if the default does.
pub get_env_as_int-Fits :
    (key : Text) (default : ℤ) (env : Env) → Fits default → Fits (get_env_as_int key default env)
unfolding get_env_as_int or_default
get_env_as_int-Fits key default env h =
    if-both Fits (is_empty (getenv key env)) h (elim (Option-cases (parse_int (getenv key env))) [
      | inl e ↦ rw (e, or_default) h
      | inr (z, e) ↦ rw (e, or_default) (parse_int-Fits (getenv key env) z e)
    ])
