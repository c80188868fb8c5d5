-- ===== src/Server/Mux.antt =====
-- Which handler a path comes to (cmd/server/main.go): what the code uses of `http.ServeMux`, for a path
-- that is clean already. A pattern that ends in "/" stands for what begins with it.
pub mod Routed
use pigeongram_chat.Base.{
  Bool, true, false, ◌&&◌, Option, none, some, List, [], ◌∷◌, ◌++◌, ◌==◌, nat_eq, list_eq,
  if◌then◌else◌, length, ltb,
}
use pigeongram_chat.Base.Text.{Text, has_prefix}
use pigeongram_chat.Base.Dict
use pigeongram_chat.Server.{Handler}

-- Where a path comes to.
pub data Target : Type 0 where
  serves : Handler → Target
  moves_to : Text → Target
  not_found : Target

unfoldable pub ends_in_slash : Text → Bool
ends_in_slash [] = false
ends_in_slash (c ∷ []) = c == b'/'
ends_in_slash (c ∷ d ∷ s) = ends_in_slash (d ∷ s)

abbrev is_longer : Text → Option (Text × Handler) → Bool
is_longer pattern none = true
is_longer pattern (some (other, h)) = ltb (length other) (length pattern)

-- The longest pattern with a slash at its end that the path begins with.
unfoldable pub longest : Text → List (Text × Handler) → Option (Text × Handler)
unfolding ends_in_slash has_prefix
longest path [] = none
longest path ((pattern, h) ∷ routes) =
    let best = longest path routes in
    if ends_in_slash pattern && has_prefix path pattern && is_longer pattern best
    then some (pattern, h)
    else best

unfoldable pub by_prefix : Option (Text × Handler) → Target
by_prefix none = not_found
by_prefix (some (pattern, h)) = serves h

-- An exact pattern comes first; "/x" is sent to "/x/" where only that is there.
unfoldable pub route : List (Text × Handler) → Text → Target
unfolding longest by_prefix Dict.lookup
route routes path = elim (Dict.lookup path routes) [
  | some h ↦ serves h
  | none ↦ elim (Dict.lookup (path ++ (b'/' ∷ [])) routes) [
    | some h ↦ moves_to (path ++ (b'/' ∷ []))
    | none ↦ by_prefix (longest path routes)
  ]
]
