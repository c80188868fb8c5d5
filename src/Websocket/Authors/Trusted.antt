-- ===== src/Websocket/Authors/Trusted.antt =====
-- In whose name messages and edits wait for the manager.
use pigeongram_chat.Base.{ℕ, ◌≡◌, Bool, some, subst, sym, refl, [], nat_eq}
use pigeongram_chat.Base.Text.{Text}
use pigeongram_chat.Base.Dict.{lookup}
use pigeongram_chat.Models.{Message}
use pigeongram_chat.Json.{Json}
use pigeongram_chat.Json.Structs.{EditRequest}
use pigeongram_chat.Websocket.Channels.{All-offer}
use pigeongram_chat.Websocket.Client.{Client, Frame, edit, bad_edit, blank, chat, read_frame, post}
use pigeongram_chat.Websocket.Client.Frames.{author, read_frame-author}
use pigeongram_chat.Websocket.Talk.{reads}
use pigeongram_chat.Websocket.Authors.Cases.{same_queues}
use pigeongram_chat.Websocket.Manager.{Outside, Manager}
use pigeongram_chat.Websocket.Manager.Passing.{Passes}
use pigeongram_chat.Websocket.Manager.Run.{new_manager}
use pigeongram_chat.Websocket.Authors.{lookup-Owned, Named, Talks, here, does, hears}
use pigeongram_chat.Websocket.Authors.Steps.{step-Names}

module _ (N : Text → Type 0) {W : Outside} where
  -- What a frame of the given name posts bears that name.
  post-Named :
      (at : ℕ) (own : Text) (f : Frame) (m : Manager W)
      → author own f ≡ own
      → N own
      → Named N m
      → Named N (
          let i = post at f (record { broadcast = m.broadcast; edits = m.edits; leaving = [] }) in
          record m { broadcast = i.broadcast; edits = i.edits })
  unfolding post
  post-Named at own (edit e) m a n v = record {
    owned = v.owned;
    spoken = v.spoken;
    edited =
        All-offer (λ (k : EditRequest). N k.username) 100 e m.edits v.edited (subst N (sym a) n);
  }
  post-Named at own bad_edit m a n v = same_queues N m _ refl refl refl v
  post-Named at own blank m a n v = same_queues N m _ refl refl refl v
  post-Named at own (chat username text) m a n v = record {
    owned = v.owned;
    spoken =
        All-offer (λ (k : Message). N k.username) 100 _ m.broadcast v.spoken (subst N (sym a) n);
    edited = v.edited;
  }

  reads-Named :
      (at r : ℕ) (c : Client) (raw : Json) (m : Manager W)
      → lookup r m.heap ≡ some c
      → Named N m
      → Named N (reads at c raw m)
  unfolding reads
  reads-Named at r c raw m l v =
      post-Named at c.username (read_frame c.username raw) m (read_frame-author c.username raw)
        (lookup-Owned N r c m.heap v.owned l) v

  Talks-Named : {m l : Manager W} → Named N m → Talks N m l → Named N l
  Talks-Named v here = v
  Talks-Named v (does e path named done) =
      subst (Passes (Named N)) done (step-Names N e _ named (Talks-Named v path))
  Talks-Named v (hears at r c raw path found) = reads-Named at r c raw _ found (Talks-Named v path)

  new_manager-Named :
      (database : W.database.State) (cache : W.cache.State) (has_redis : Bool) (server_id : Text)
      → Named N (new_manager W database cache has_redis server_id)
  unfolding new_manager
  new_manager-Named database cache has_redis server_id = record {
    owned = tt;
    spoken = tt;
    edited = tt;
  }

-- Nobody speaks or edits in another's name. Take any property of names. If the names under which
-- connections are opened have it, and the names in what other goroutines post, then from the start of
-- the server, after any events of the manager and any frames that `ReadPump` reads for its clients, in any
-- order, every client and every message and edit that waits for the manager bears a name that has it,
-- whatever names the frames give.
pub talks-Named :
    {W : Outside} (N : Text → Type 0) (database : W.database.State) (cache : W.cache.State)
    (has_redis : Bool) (server_id : Text) (m : Manager W)
    → Talks N (new_manager W database cache has_redis server_id) m
    → Named N m
talks-Named N database cache has_redis server_id m path =
    Talks-Named N (new_manager-Named N database cache has_redis server_id) path
