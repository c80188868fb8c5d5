-- ===== src/Web/Uploads/Served.antt =====
-- The name under which `ProxyDownload` serves a file.
use pigeongram_chat.Base.{
  ℕ, ◌≡◌, refl, true, false, Option, some, List, [], ◌∷◌, is_empty, ap, sym, ◌∙◌, inl, inr,
}
use pigeongram_chat.Base.Text.{Text, has_prefix}
use pigeongram_chat.Base.Result.{Result, ok, err, Result-cases, ok-injective}
use pigeongram_chat.Websocket.Channels.{FileInfo}
use pigeongram_chat.Storage.{
  ObjectStore, get_file_info, split, last_part, read_key, shown, chat_prefix,
}
use pigeongram_chat.Storage.Paths.{base_name, last_name}
use pigeongram_chat.Web.Files.{Hub, FileRequest, body, unescape}
use pigeongram_chat.Web.Uploads.{proxy_name, proxy_key, proxy_download, served}

last_name-last_part :
    (p q : Text) (parts : List Text)
    → is_empty (last_part q parts) ≡ false
    → last_name p (q ∷ parts) ≡ last_part q parts
unfolding last_name last_part
last_name-last_part p q [] h = rw h refl
last_name-last_part p q (r ∷ parts) h = last_name-last_part _ r parts h

base_name-last_part :
    (key p user q : Text) (parts : List Text)
    → split b'/' key ≡ p ∷ user ∷ q ∷ parts
    → is_empty (last_part q parts) ≡ false
    → base_name key ≡ last_part q parts
unfolding base_name split
base_name-last_part [] p user q parts e h = cc
base_name-last_part (c ∷ s) p user q parts e h =
    rw (ap (last_name []) e ∙ last_name-last_part _ q parts h, h) refl

shown-proxy_name :
    (key p user q : Text) (parts : List Text)
    → split b'/' key ≡ p ∷ user ∷ q ∷ parts
    → is_empty (last_part q parts) ≡ false
    → (shown (split b'/' key) (read_key key (split b'/' key))).1 ≡ proxy_name key
unfolding proxy_name shown last_part read_key
shown-proxy_name key p user q parts e h = rw (e, base_name-last_part key p user q parts e h) refl

impossible : {A E B : Type 0} {a : A} {x : E} → Path (Result E A) (err x) (ok a) → B
impossible e = cc

get_file_info-name :
    (S : ObjectStore) (chat_id key : Text) (s : S.State) (f : FileInfo)
    → get_file_info S chat_id key s ≡ ok f
    → (shown (split b'/' key) (read_key key (split b'/' key))).1 ≡ f.name
unfolding get_file_info
get_file_info-name S chat_id key s f h = elim (Result-cases (S.stat key s)) [
  | inl (o, e) ↦ ap (λ (i : FileInfo). i.name) (ok-injective _ f (rw (e, get_file_info) at h))
  | inr (e, missing) ↦ impossible (rw (missing, get_file_info) at h)
]

module _ (S : ObjectStore) {O : Type 0} (get : Text → S.State → Result Text O)
    (size : O → Option ℕ) where
  -- A user who asks for an object with the prefix of the chat and with a key of at least three parts, the
  -- last of which is not empty, is served the object that the store has, under the name that
  -- `GetFileInfo` gives to the file.
  pub proxy_download-named :
      (username : Text) (r : FileRequest) (key p user q : Text) (parts : List Text) (h : Hub S)
      (f : FileInfo) (o : O)
      → is_empty username ≡ false
      → is_empty r.chat_id ≡ false
      → is_empty r.key ≡ false
      → unescape r.key ≡ some key
      → has_prefix key (chat_prefix r.chat_id) ≡ true
      → split b'/' key ≡ p ∷ user ∷ q ∷ parts
      → is_empty (last_part q parts) ≡ false
      → get key h.objects ≡ ok o
      → get_file_info S r.chat_id key h.objects ≡ ok f
      → proxy_download S get size username r h
        ≡ body (record { filename = f.name; content_length = size o; content = o })
  unfolding proxy_download proxy_key served
  proxy_download-named username r key p user q parts h f o a b c decoded own e last got known =
      rw (a, b, c, opened, own, got, named) refl
    where
      opened : proxy_key r.key ≡ key
      opened = rw (decoded, proxy_key) refl

      named : proxy_name key ≡ f.name
      named =
          sym (shown-proxy_name key p user q parts e last)
          ∙ get_file_info-name S r.chat_id key h.objects f known
