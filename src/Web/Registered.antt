-- ===== src/Web/Registered.antt =====
-- Who registers can log in (web/handlers.go).
use pigeongram_chat.Base.{
  ℕ, ◌≡◌, refl, ◌∙◌, ap, Bool, true, false, not, ◌||◌, Option, none, some, ◌==◌, nat_eq, list_eq,
  if-both, if-unheld, if◌then◌else◌, is_empty, arith,
}
use pigeongram_chat.Base.Text.{Text, trim_space}
use pigeongram_chat.Base.Result.{Result, ok, err}
use pigeongram_chat.Models.{User, UserEntity}
use pigeongram_chat.Cache.{Cache}
use pigeongram_chat.Repository.{Database, DbError, UsersLawful, UsersApart}
use pigeongram_chat.Repository.Users
use pigeongram_chat.Repository.Users.{Bcrypt, Accepts}
use pigeongram_chat.Repository.Users.Accounts.{create-found, validate_found}
use pigeongram_chat.Repository.Sessions
use pigeongram_chat.Web.{
  Site, Reply, Form, holds, exists, remember, remember_user, welcomed, created, register, opened,
  found_user, validated, login,
}

-- The user is in the table, with a hash that accepts the password.
abbrev Stored : (D : Database) → Bcrypt → Text → Text → D.State → Type 0
Stored D b username password d =
    (row : UserEntity) × (D.first_user username d ≡ ok row)
    × (b.compare row.password password ≡ true)

-- What holds of a conditional, and not of its first branch, holds of the second.
if-passed :
    {A : Type 0} (P : A → Type 0) (b : Bool) {x y : A}
    → (P x → b ≡ false)
    → P (if b then x else y)
    → (b ≡ false) × P y
if-passed P false f p = (refl, p)
if-passed P true f p = absurd (ground (arith, f p))

module _ {D : Database} {C : Cache} where
  remember-database :
      (now : ℕ) (id username : Text) (s : Site D C)
      → (remember now id username s).database ≡ s.database
  unfolding remember
  remember-database now id username s =
      if-both (λ (t : Site D C). t.database ≡ s.database) s.has_cache refl refl

  remember_user-database :
      (now : ℕ) (username : Text) (user : User) (s : Site D C)
      → (remember_user now username user s).database ≡ s.database
  unfolding remember_user
  remember_user-database now username user s =
      if-both (λ (t : Site D C). t.database ≡ s.database) s.has_cache refl refl

  -- What registering does after the user is created leaves the user in the table.
  welcomed-keeps :
      (now : ℕ) (id username password name : Text) (r : Result DbError (Option UserEntity))
      (s : Site D C)
      → UsersApart D
      → D.first_user name (welcomed now id username password r s).database
        ≡ D.first_user name s.database
  unfolding welcomed Sessions.create_user_session Sessions.create
  welcomed-keeps now id username password name (ok (some user)) s apart =
      ap (D.first_user name)
        (remember-database now id username _ ∙ remember_user-database now username _ _)
      ∙ apart.kept name _ s.database
  welcomed-keeps now id username password name (ok none) s apart =
      ap (D.first_user name)
        (remember-database now id username _ ∙ remember_user-database now username _ _)
  welcomed-keeps now id username password name (err e) s apart =
      ap (D.first_user name)
        (remember-database now id username _ ∙ remember_user-database now username _ _)

  module _ (b : Bcrypt) (username password : Text) where
    created-Stored :
        (now : ℕ) (id given : Text) (r : Result DbError (Unit {0})) (s : Site D C)
        → UsersApart D
        → (r ≡ ok tt → Stored D b username password s.database)
        → (created now id username password r s).0.cookie ≡ holds given
        → Stored D b username password (created now id username password r s).1.database
    unfolding created
    created-Stored now id given (err e) s apart h held = cc
    created-Stored now id given (ok _) s apart h held =
        let (row, found, accepted) = h refl in
        (
          row,
          welcomed-keeps now id username password username
                (Users.get_by_username D username s.database) s apart
              ∙ found,
          accepted,
        )

    opened-holds :
        (now : ℕ) (id : Text) (r : Result DbError (Unit {0})) (s : Site D C)
        → r ≡ ok tt
        → (opened now id username r s).0.cookie ≡ holds id
    unfolding opened
    opened-holds now id (ok _) s e = refl
    opened-holds now id (err x) s e = cc

    found_user-holds :
        (now : ℕ) (id : Text) (r : Result DbError (Option UserEntity)) (row : UserEntity)
        (s : Site D C)
        → ((w : UserEntity)
            → r ≡ ok (some w)
            → (Sessions.create_user_session D now w.id id s.database).0 ≡ ok tt)
        → r ≡ ok (some row)
        → (found_user now id username r s).0.cookie ≡ holds id
    unfolding found_user
    found_user-holds now id (ok (some user)) row s opens e =
        opened-holds now id _ _ (opens user refl)
    found_user-holds now id (ok none) row s opens e = cc
    found_user-holds now id (err x) row s opens e = cc

    validated-opens :
        (now : ℕ) (id : Text) (r : Result DbError Bool) (row : UserEntity) (s : Site D C)
        → ((w : UserEntity)
            → Users.get_by_username D username s.database ≡ ok (some w)
            → (Sessions.create_user_session D now w.id id s.database).0 ≡ ok tt)
        → D.first_user username s.database ≡ ok row
        → r ≡ ok true
        → (validated now id username r s).0.cookie ≡ holds id
    unfolding validated Users.get_by_username
    validated-opens now id (ok true) row s opens found e =
        found_user-holds now id (Users.get_by_username D username s.database) row s opens
          (rw (found, Users.get_by_username) refl)
    validated-opens now id (ok false) row s opens found e = cc
    validated-opens now id (err x) row s opens found e = cc

  register-Stored :
      (b : Bcrypt) (salt now : ℕ) (id given : Text) (form : Form) (s : Site D C)
      → UsersLawful D
      → UsersApart D
      → Accepts b
      → (register b salt now id form s).0.cookie ≡ holds given
      → Stored D b
          (trim_space form.username)
          form.password
          (register b salt now id form s).1.database
  unfolding register
  register-Stored b salt now id given form s rows apart accepts held =
      let u = trim_space form.username in
      let P : Reply × Site D C → Type 0 =
        λ p. p.0.cookie ≡ holds given → Stored D b u form.password p.1.database in
      let user : User = record { username = u; password = form.password } in
      if-both P (not form.is_post) (λ h. cc)
        (if-both P (is_empty u || is_empty form.password || not (form.password == form.confirm))
          (λ h. cc)
          (if-both P (exists (Users.get_by_username D u s.database)) (λ h. cc)
            (created-Stored b u form.password now id given (Users.create D b salt user s.database).0
              (record s { database = (Users.create D b salt user s.database).1 }) apart
              (create-found D b salt user s.database rows accepts))))
        held

  -- A request that registers somebody is a POST with a name and a password.
  register-asked :
      (b : Bcrypt) (salt now : ℕ) (id given : Text) (form : Form) (s : Site D C)
      → (register b salt now id form s).0.cookie ≡ holds given
      → (not form.is_post ≡ false)
        × ((is_empty (trim_space form.username) || is_empty form.password) ≡ false)
  unfolding register
  register-asked b salt now id given form s held =
      let u = trim_space form.username in
      let P : Reply × Site D C → Type 0 = λ p. p.0.cookie ≡ holds given in
      let (post, filled) = if-passed P (not form.is_post) (λ h. cc) held in
      let (named, rest) =
        if-passed P (is_empty u || is_empty form.password || not (form.password == form.confirm))
          (λ h. cc) filled in
      (post, ground (arith, named))

  -- Who has registered can log in: when RegisterHandler sets the cookie for a name and a password, then
  -- LoginHandler, asked with the same form right after it, sets its own, if a stored user is found by
  -- name, the users are apart from the sessions, bcrypt accepts the password that a hash was made of,
  -- and the database as it then is stores the session that LoginHandler makes for the user.
  pub login-register :
      (b : Bcrypt) (salt now later : ℕ) (id id' : Text) (form : Form) (s : Site D C)
      → UsersLawful D
      → UsersApart D
      → Accepts b
      → ((w : UserEntity)
          → Users.get_by_username D
              (trim_space form.username)
              (register b salt now id form s).1.database
            ≡ ok (some w)
          → (Sessions.create_user_session D later w.id id'
              (register b salt now id form s).1.database).0
            ≡ ok tt)
      → (register b salt now id form s).0.cookie ≡ holds id
      → (login b later id' form (register b salt now id form s).1).0.cookie ≡ holds id'
  unfolding login
  login-register b salt now later id id' form s rows apart accepts opens held =
      let u = trim_space form.username in
      let t = (register b salt now id form s).1 in
      let P : Reply × Site D C → Type 0 = λ p. p.0.cookie ≡ holds id' in
      let (post, named) = register-asked b salt now id id form s held in
      let (row, found, accepted) =
        register-Stored b salt now id id form s rows apart accepts held in
      if-unheld P (not form.is_post) _ post (
        if-unheld P (is_empty u || is_empty form.password) _ named (
          validated-opens b u form.password later id'
            (Users.validate D b u form.password t.database) row t opens found
            (validate_found D b u form.password t.database row found ∙ ap ok accepted)))
