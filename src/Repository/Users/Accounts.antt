-- ===== src/Repository/Users/Accounts.antt =====
-- An account works with the password that it was made with.
use pigeongram_chat.Base.{ℕ, ◌≡◌, refl, sym, ◌∙◌, ap, true, none, inl, inr}
use pigeongram_chat.Base.Text.{Text}
use pigeongram_chat.Base.Result.{Result, ok, err, Result-cases}
use pigeongram_chat.Models.{User, UserEntity}
use pigeongram_chat.Repository.{Database, DbError, failed, UsersLawful}
use pigeongram_chat.Repository.Users.{
  Bcrypt, Accepts, hash_password, check_password_hash, get_by_username, create, validate,
}

err-ne-ok : {A E : Type 0} (e : E) (a : A) → ¬ Path (Result E A) (err e) (ok a)
err-ne-ok e a p = cc

module _ (D : Database) (b : Bcrypt) where
  -- The row that `Create` stores.
  abbrev stored : Text → Text → UserEntity
  stored username hashed = record {
    id = 0;
    username = username;
    password = hashed;
    last_seen = 0;
    created_at = 0;
    updated_at = 0;
    deleted_at = none;
  }

  create_hashed :
      (salt : ℕ) (user : User) (s : D.State) (h : Text)
      → b.generate salt user.password ≡ ok h
      → create D b salt user s ≡ D.create_user (stored user.username h) s
  unfolding create hash_password
  create_hashed salt user s h e = rw (e, create, hash_password) refl

  create_unhashed :
      (salt : ℕ) (user : User) (s : D.State) (e : Text)
      → b.generate salt user.password ≡ err e
      → create D b salt user s ≡ (err (failed e), s)
  unfolding create hash_password
  create_unhashed salt user s e refused = rw (refused, create, hash_password) refl

  pub validate_found :
      (username password : Text) (t : D.State) (row : UserEntity)
      → D.first_user username t ≡ ok row
      → validate D b username password t ≡ ok (b.compare row.password password)
  unfolding validate get_by_username check_password_hash
  validate_found username password t row e =
      rw (e, validate, get_by_username, check_password_hash) refl

  -- After `Create` succeeded, the user is found by name, with a hash that accepts the password.
  pub create-found :
      (salt : ℕ) (user : User) (s : D.State)
      → UsersLawful D
      → Accepts b
      → (create D b salt user s).0 ≡ ok tt
      → (row : UserEntity) × (D.first_user user.username (create D b salt user s).1 ≡ ok row)
        × (b.compare row.password user.password ≡ true)
  create-found salt user s rows accepts done = elim (Result-cases (b.generate salt user.password)) [
    | inr (e, refused) ↦
        let fails : Path (Result DbError (Unit {0})) (err (failed e)) (ok tt) =
          ap (λ p. p.0) (sym (create_unhashed salt user s e refused)) ∙ done in
        absurd (err-ne-ok (failed e) tt fails)
    | inl (h, hashed) ↦
        let made = create_hashed salt user s h hashed in
        let (row, found, same) =
          rows.created (stored user.username h) s (ap (λ p. p.0) (sym made) ∙ done) in
        (
          row,
          ap (λ p. D.first_user user.username p.1) made ∙ found,
          ap (λ k. b.compare k user.password) same ∙ accepts salt user.password h hashed,
        )
  ]

  -- After `Create` succeeded, `Validate` accepts the name with the password that was given, if a stored
  -- user is found by name and bcrypt accepts the password that a hash was made of.
  validate-create :
      (salt : ℕ) (user : User) (s : D.State)
      → UsersLawful D
      → Accepts b
      → (create D b salt user s).0 ≡ ok tt
      → validate D b user.username user.password (create D b salt user s).1 ≡ ok true
  validate-create salt user s rows accepts done =
      let (row, found, accepted) = create-found salt user s rows accepts done in
      validate_found user.username user.password _ row found ∙ ap ok accepted
