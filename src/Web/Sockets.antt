-- ===== src/Web/Sockets.antt =====
-- How a user gets a connection: `generateSessionID` (web/handlers.go) and `WebSocketHandler`
-- (web/websocket.go). The draws of `rand.Intn` and the upgrade of the connection are given.
use pigeongram_chat.Base.{ℕ, zero, suc, Bool, Option, List, [], ◌∷◌, map, if◌then◌else◌, is_empty}
use pigeongram_chat.Base.Text.{Text, bytes}
use pigeongram_chat.Websocket.Manager.{Outside, Manager}
use pigeongram_chat.Websocket.Manager.Run.{connect}

abbrev pub letters : Text
letters = bytes "abcdefghijklmnopqrstuvwxyzABCDEFGHIJKLMNOPQRSTUVWXYZ0123456789"

-- `letters[i]`; the draws are below the length of the text.
unfoldable pub letter_at : ℕ → Text → ℕ
letter_at i [] = 0
letter_at zero (c ∷ s) = c
letter_at (suc i) (c ∷ s) = letter_at i s

-- `generateSessionID`, with its 32 draws
unfoldable pub generate_session_id : List ℕ → Text
unfolding letter_at
generate_session_id draws = map (λ i. letter_at i letters) draws

-- What becomes of a request for a websocket.
pub data Connected (A : Type 0) : Type 0 where
  unauthorized : Connected A
  not_upgraded : Connected A
  connected : A → Connected A

module _ {W : Outside} where
  -- `WebSocketHandler` for the user of the session: the address of the new client, the time, and whether
  -- the upgrade succeeds. `none` is a panic of the manager.
  unfoldable pub web_socket_handler :
      ℕ → ℕ → Text → Bool → Manager W → Connected (Option (Manager W))
  unfolding connect
  web_socket_handler r now username upgraded m =
      if is_empty username
      then unauthorized
      else if upgraded
      then connected (connect r now username m)
      else not_upgraded
