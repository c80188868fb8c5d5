-- ===== src/Tests/Files.antt =====
-- The theorems on the store of files at concrete inputs.
use pigeongram_chat.Base.{ℕ, ◌≡◌, refl, some, List, [], ◌∷◌, any, list_beq}
use pigeongram_chat.Base.Text.{bytes}
use pigeongram_chat.Base.Result.{ok}
use pigeongram_chat.Storage.{
  Object, ObjectStore, owner_of, second, split, push_part, object_key, safe_name, is_unsafe,
  decimal, read_key,
}
use pigeongram_chat.Storage.Owner.{owner_of-object_key_forged}
use pigeongram_chat.Storage.Names.{read_key-object_key}
use pigeongram_chat.Web.Files.Owned.{delete_handler-deletes}
use pigeongram_chat.Web.Files.{
  Hub, FileRequest, body, unescape, deleted_event, status, decoded_key, delete_handler,
  delete_handler-refused,
}

owner_of-object_key_forged_example :
    owner_of (object_key (bytes "general/alice") (bytes "bob") 1700000000 (bytes "x"))
    ≡ some (bytes "alice")
unfolding any
owner_of-object_key_forged_example =
    owner_of-object_key_forged (bytes "general") (bytes "alice") (bytes "bob") 1700000000
      (bytes "x") refl refl

abbrev bucket : ObjectStore
bucket = record {
  State = List Object;
  stat = λ k s. ok (record { key = k; size = 1; last_modified = 1; content_type = [] });
  list = λ p s. ok s;
  remove = λ k s. (ok tt, []);
}

read_key-object_key_example :
    read_key
      (object_key (bytes "g") (bytes "alice") 17 (bytes "my-file"))
      (split b'/' (object_key (bytes "g") (bytes "alice") 17 (bytes "my-file")))
    ≡ (bytes "alice", safe_name (bytes "my-file"))
unfolding any
read_key-object_key_example =
    read_key-object_key (bytes "g") (bytes "alice") 17 (bytes "my-file") refl refl refl

abbrev hub : Hub bucket
hub = record { objects = []; events = [] }

delete_handler-refused_example :
    (n : ℕ) × (delete_handler bucket 5
        (bytes "bob")
        (some (record { chat_id = bytes "g"; key = bytes "chat-g%2Falice/1-x" }))
        hub
      ≡ (status n, hub))
unfolding decoded_key owner_of second split push_part list_beq
delete_handler-refused_example =
    delete_handler-refused bucket 5 (bytes "bob")
      (record { chat_id = bytes "g"; key = bytes "chat-g%2Falice/1-x" }) hub refl

abbrev own_file : FileRequest
own_file = record { chat_id = bytes "g"; key = bytes "chat-g%2Falice/17-a_b.txt" }

delete_handler-deletes_example : delete_handler bucket 5 (bytes "alice") (some own_file) hub ≡ (
  body tt,
  record {
    objects = [];
    events = deleted_event 5 (bytes "g") (bytes "chat-g/alice/17-a_b.txt") (bytes "alice") ∷ [];
  },
)
unfolding decoded_key unescape object_key safe_name is_unsafe decimal any
delete_handler-deletes_example =
    delete_handler-deletes bucket 5 17 (bytes "alice") (bytes "a b.txt") own_file hub
      (record {
        key = bytes "chat-g/alice/17-a_b.txt";
        size = 1;
        last_modified = 1;
        content_type = [];
      })
      refl refl refl refl refl refl refl refl
