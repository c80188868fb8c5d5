-- ===== src/Web/Uploads/Signed.antt =====
-- What `RequestUpload` gets signed.
use pigeongram_chat.Base.{
  ℕ, ◌≡◌, true, false, none, some, Option, is_empty, subst, if-both, nat_eq, inl, inr, ◌||◌,
}
use pigeongram_chat.Base.Text.{Text, has_prefix}
use pigeongram_chat.Base.Result.{ok, Result-cases}
use pigeongram_chat.Storage.{owner_of, object_key, chat_prefix}
use pigeongram_chat.Storage.Owner.{owner_of-object_key, object_key-chat_prefix}
use pigeongram_chat.Storage.Paths.{has_slash, base_name}
use pigeongram_chat.Storage.Links.{Signer, MinioClient, upload_policy, generate_upload_url, unix}
use pigeongram_chat.Web.Files.{Answer, body}
use pigeongram_chat.Web.Uploads.{UploadForm, request_upload, with_name, offered, cleaned_name}

-- A form that was signed for a file of the user in the chat.
IsOwnForm : Signer → MinioClient → ℕ → Text → Text → UploadForm → Type 0
IsOwnForm g m later username chat_id r =
    (key : Text) × (g.sign_post (upload_policy m key later) ≡ ok r.form_data)
    × (owner_of key ≡ some username)
    × (has_prefix key (chat_prefix chat_id) ≡ true)

-- What a request may be answered.
abbrev Proper : Signer → MinioClient → ℕ → Text → Text → Option (Answer UploadForm) → Type 0
Proper g m later username chat_id (some (body r)) = IsOwnForm g m later username chat_id r
Proper g m later username chat_id _ = Unit

module _ (g : Signer) (m : MinioClient) (now later : ℕ) (username chat_id : Text)
    (no_slash : has_slash chat_id ≡ false) (free : has_slash username ≡ false) where
  offered-Proper :
      (name : Text)
      → Proper g m later username chat_id
          (some (offered name (generate_upload_url g m now later chat_id username name)))
  unfolding generate_upload_url offered IsOwnForm
  offered-Proper name =
      let key = object_key chat_id username (unix now) (base_name name) in
      elim (Result-cases (g.sign_post (upload_policy m key later))) [
        | inl (form, e) ↦
            rw (e, offered)
              (
                key,
                e,
                owner_of-object_key chat_id username (unix now) (base_name name) no_slash free,
                object_key-chat_prefix chat_id username (unix now) (base_name name),
              )
        | inr (e, h) ↦ rw (h, offered) tt
      ]

  with_name-Proper :
      (name : Option Text)
      → Proper g m later username chat_id (with_name g m now later username chat_id name)
  unfolding with_name
  with_name-Proper none = tt
  with_name-Proper (some name) = offered-Proper name

  request_upload-Proper :
      (filename : Text)
      → Proper g m later username chat_id (request_upload g m now later username chat_id filename)
  unfolding request_upload
  request_upload-Proper filename = if-both Good (is_empty username) tt (
      if-both Good (is_empty chat_id || is_empty filename) tt
        (with_name-Proper (cleaned_name filename)))
    where
      Good : Option (Answer UploadForm) → Type 0
      Good = Proper g m later username chat_id

-- If neither the name of the chat nor that of the user has a slash, a form for an upload that
-- `RequestUpload` answers with is signed for a key of the chat that names the user as the owner, and for
-- 1 byte up to the largest size.
pub request_upload-signs :
    (g : Signer) (m : MinioClient) (now later : ℕ) (username chat_id filename : Text)
    (r : UploadForm)
    → has_slash chat_id ≡ false
    → has_slash username ≡ false
    → request_upload g m now later username chat_id filename ≡ some (body r)
    → (key : Text) × (g.sign_post (upload_policy m key later) ≡ ok r.form_data)
      × (owner_of key ≡ some username)
      × (has_prefix key (chat_prefix chat_id) ≡ true)
unfolding IsOwnForm
request_upload-signs g m now later username chat_id filename r no_slash free h =
    subst (Proper g m later username chat_id) h
      (request_upload-Proper g m now later username chat_id no_slash free filename)
