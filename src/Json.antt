-- ===== src/Json.antt =====
-- JSON documents and what `encoding/json` makes of them for the program's structs: a field's name is
-- compared without case, `null` leaves a field as it is, unknown fields are passed over, a later
-- field overrides an earlier one, and a value of another kind is an error.
pub mod Structs
pub mod RoundTrip
pub mod Agree
pub mod Written
use pigeongram_chat.Base.{
  ℕ, ◌^◌, Bool, true, false, Option, none, some, List, [], ◌∷◌, ◌==◌, nat_eq, list_eq, ltb,
  if◌then◌else◌,
}
use pigeongram_chat.Base.Text.{Text, fold_key}

-- A number is its value if its literal is a run of digits.
mutual
  pub data Json : Type 0 where
    null : Json
    bool : Bool → Json
    num : ℕ → Json
    other_num : Text → Json
    str : Text → Json
    arr : Items → Json
    obj : Fields → Json

  pub data Items : Type 0 where
    nil : Items
    cons : Json → Items → Items

  pub data Fields : Type 0 where
    end : Fields
    field : Text → Json → Fields → Fields

-- `Unmarshal` into a field of Go type string, uint and bool that holds the second argument.
abbrev pub into_string : Json → Text → Option Text
into_string null old = some old
into_string (str t) old = some t
into_string _ old = none

abbrev pub into_uint : Json → ℕ → Option ℕ
into_uint null old = some old
into_uint (num n) old = if ltb n (2 ^ 64) then some n else none
into_uint _ old = none

abbrev pub into_bool : Json → Bool → Option Bool
into_bool null old = some old
into_bool (bool b) old = some b
into_bool _ old = none

-- The name of a struct's field, in lower case, against a name of the document.
unfoldable pub names : Text → Text → Bool
unfolding fold_key
names name key = fold_key key == name

-- `Unmarshal` into a struct: `set` says what a field of the document does to it.
unfoldable pub into_fields {ℓ} : {S : Type ℓ} → (Text → Json → S → Option S) → Fields → S → Option S
into_fields set end s = some s
into_fields set (field k v fs) s = elim (set k v s) [
  | none ↦ none
  | some s' ↦ into_fields set fs s'
]

abbrev pub into_struct {ℓ} : {S : Type ℓ} → (Text → Json → S → Option S) → Json → S → Option S
into_struct set null s = some s
into_struct set (obj fs) s = into_fields set fs s
into_struct set _ s = none
