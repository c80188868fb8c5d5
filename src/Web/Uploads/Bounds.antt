-- ===== src/Web/Uploads/Bounds.antt =====
-- The length of the file names that `RequestUpload` makes.
use pigeongram_chat.Base.{
  ℕ, ◌-◌, ◌≤◌, ◌<◌, ◌≡◌, refl, true, false, none, some, [], ◌∷◌, ◌++◌, ltb, leb, length, take,
  is_empty, any, arith, tests, length-append, length-take, Bool-cases, inl, inr, nat_eq,
}
use mathlib.Core.List.{append-nil}
use pigeongram_chat.Base.Text.{Text, bytes}
use pigeongram_chat.Storage.Paths.{
  extension, extension-append, extension-extension, extension-take, base_name, base_name-no_slash,
  has_slash,
}
use pigeongram_chat.Web.Uploads.{
  is_risky, shortened, cleaned_name, without_risky, request_upload, with_name,
}
use pigeongram_chat.Storage.Links.{Signer, MinioClient}

-- What `name` is shortened to: at most 200 bytes with the same extension.
IsShortOf : Text → Text → Type 0
IsShortOf name n = (shortened name ≡ some n) × (length n ≤ 200) × (extension n ≡ extension name)

is_empty-nil : (s : Text) → is_empty s ≡ true → s ≡ []
is_empty-nil [] h = refl
is_empty-nil (c ∷ s) h = ground (arith, h)

cut_extension :
    (k : ℕ) (name : Text)
    → has_slash name ≡ false
    → extension (take k name ++ extension name) ≡ extension name
cut_extension k name free = elim (Bool-cases (is_empty (extension name))) [
  | inl e ↦
      rw (is_empty-nil (extension name) e, append-nil (take k name))
        (is_empty-nil _ (extension-take k name free e))
  | inr e ↦
      rw (extension-append (take k name) (extension name) (rw (extension-extension name) e))
        (extension-extension name)
]

fitting :
    (k e : ℕ) (name : Text)
    → e ≤ 200
    → k ≡ 200 - e
    → (ext : Text) → length ext ≡ e
    → length (take k name ++ ext) ≤ 200
fitting k e name h same ext same_e =
    omega (arith, length-append (take k name) ext, length-take k name)

within : (n : ℕ) → n ≤ 200 → leb n 200 ≡ true
within n h = ground arith

shortened-IsShortOf :
    (name : Text)
    → has_slash name ≡ false
    → length (extension name) ≤ 200
    → (n : Text) × IsShortOf name n
unfolding shortened IsShortOf
shortened-IsShortOf name free h = elim (Bool-cases (ltb 200 (length name))) [
  | inl long ↦ (
    take (200 - length (extension name)) name ++ extension name,
    (
      rw (long, within _ h) refl,
      fitting _ _ name h refl (extension name) refl,
      cut_extension _ name free,
    ),
  )
  | inr short ↦ (name, (rw short refl, omega (tests, short), refl))
]

without_risky-no_slash : (s : Text) → has_slash s ≡ false → has_slash (without_risky s) ≡ false
unfolding without_risky is_risky any
without_risky-no_slash [] h = refl
without_risky-no_slash (c ∷ s) h = ground (arith, without_risky-no_slash s)

-- If the extension of the cleaned base name has at most 200 bytes, `RequestUpload` finds a file name
-- for the upload, which has at most 200 bytes too, and the same extension.
pub cleaned_name-fits :
    (filename : Text)
    → length (extension (without_risky (base_name filename))) ≤ 200
    → (n : Text) × (cleaned_name filename ≡ some n)
      × (length n ≤ 200)
      × (extension n ≡ extension (without_risky (base_name filename)))
unfolding cleaned_name IsShortOf shortened
cleaned_name-fits filename h = elim (base_name-no_slash filename) [
  | inl root ↦ (bytes "/", rw root refl, omega arith, rw root refl)
  | inr free ↦
      let (n, p) =
        shortened-IsShortOf (without_risky (base_name filename))
          (without_risky-no_slash (base_name filename) free) h in
      (n, p.0, p.1, p.2)
]

length-extension : (s : Text) → length (extension s) ≤ length s
unfolding extension
length-extension [] = omega arith
length-extension (c ∷ s) = ground (arith, length-extension s)

shortened-panics : (name : Text) → 200 < length (extension name) → shortened name ≡ none
unfolding shortened
shortened-panics name h = rw (long, beyond) refl
  where
    long : ltb 200 (length name) ≡ true
    long = ground (arith, length-extension name)

    beyond : leb (length (extension name)) 200 ≡ false
    beyond = ground arith

-- A request by a user, with a chat and a file name whose extension, once the name is cleaned, is
-- longer than 200 bytes, makes `RequestUpload` panic.
pub request_upload-panics :
    (g : Signer) (m : MinioClient) (now later : ℕ) (username chat_id filename : Text)
    → is_empty username ≡ false
    → is_empty chat_id ≡ false
    → is_empty filename ≡ false
    → 200 < length (extension (without_risky (base_name filename)))
    → request_upload g m now later username chat_id filename ≡ none
unfolding request_upload cleaned_name with_name
request_upload-panics g m now later username chat_id filename a b c h =
    rw (a, b, c, shortened-panics (without_risky (base_name filename)) h) refl
