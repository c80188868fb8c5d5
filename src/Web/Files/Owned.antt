-- ===== src/Web/Files/Owned.antt =====
-- Users delete what they have uploaded.
use pigeongram_chat.Base.{ℕ, ◌≡◌, refl, true, false, some, nat_eq, list_eq, beq_refl, is_empty}
use pigeongram_chat.Base.Text.{Text, has_prefix}
use pigeongram_chat.Base.Result.{ok}
use pigeongram_chat.Websocket.Channels.{offer}
use pigeongram_chat.Storage.{
  ObjectStore, Object, object_key, owner_of, chat_prefix, delete_file, remove_if,
}
use pigeongram_chat.Storage.Paths.{has_slash}
use pigeongram_chat.Storage.Owner.{owner_of-object_key, object_key-chat_prefix}
use pigeongram_chat.Web.Files.{
  Hub, body, FileRequest, decoded_key, delete_handler, delete_owned, answered, deleted_event,
}

module _ (S : ObjectStore) where
  delete_file-removes :
      (chat_id key username : Text) (s : S.State) (o : Object)
      → has_prefix key (chat_prefix chat_id) ≡ true
      → owner_of key ≡ some username
      → S.stat key s ≡ ok o
      → (S.remove key s).0 ≡ ok tt
      → delete_file S chat_id key username s ≡ (ok tt, (S.remove key s).1)
  unfolding delete_file remove_if
  delete_file-removes chat_id key username s o own owner found gone =
      rw (own, found, owner, beq_refl username, gone) refl

  -- A user who asks to delete a file by the key that `GenerateUploadURL` made for an upload of theirs in
  -- the chat, neither name with a slash, has it deleted, if the store has it and removes it without an
  -- error; an event tells of it, if the channel has room.
  pub delete_handler-deletes :
      (now timestamp : ℕ) (username base : Text) (r : FileRequest) (h : Hub S) (o : Object)
      → is_empty username ≡ false
      → is_empty r.chat_id ≡ false
      → is_empty r.key ≡ false
      → has_slash r.chat_id ≡ false
      → has_slash username ≡ false
      → decoded_key r.key ≡ object_key r.chat_id username timestamp base
      → S.stat (decoded_key r.key) h.objects ≡ ok o
      → (S.remove (decoded_key r.key) h.objects).0 ≡ ok tt
      → delete_handler S now username (some r) h ≡ (
        body tt,
        record {
          objects = (S.remove (decoded_key r.key) h.objects).1;
          events = offer 100 (deleted_event now r.chat_id (decoded_key r.key) username) h.events;
        },
      )
  unfolding delete_handler delete_owned answered
  delete_handler-deletes now timestamp username base r h o user chat key no_slash free made found
        gone =
      rw
        (
          user,
          chat,
          key,
          own,
          owner,
          beq_refl username,
          delete_file-removes r.chat_id (decoded_key r.key) username h.objects o own owner found
              gone,
        )
        refl
    where
      own : has_prefix (decoded_key r.key) (chat_prefix r.chat_id) ≡ true
      own = rw made (object_key-chat_prefix r.chat_id username timestamp base)

      owner : owner_of (decoded_key r.key) ≡ some username
      owner = rw made (owner_of-object_key r.chat_id username timestamp base no_slash free)
