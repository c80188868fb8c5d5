-- ===== src/Tests/Pages.antt =====
-- The theorems on sessions at concrete inputs.
use pigeongram_chat.Base.{◌≡◌, refl, true, some, [], ◌==◌, nat_eq, list_eq, list_beq}
use pigeongram_chat.Base.Text.{bytes, trim_space}
use pigeongram_chat.Base.Result.{ok}
use pigeongram_chat.Repository.{SessionsLawful}
use pigeongram_chat.Repository.Users
use pigeongram_chat.Repository.Users.{Bcrypt}
use pigeongram_chat.Repository.Sessions
use pigeongram_chat.Cache.Memory.Lawful.{memory_cache, memory_cache-IsLawful}
use pigeongram_chat.Web.{
  Site, Form, login, validated, found_user, opened, logout, get_user_from_session,
}
use pigeongram_chat.Web.Access.{login-holds, login-recognised, logout-forgets}
use pigeongram_chat.Tests.World.{tables, cached}

abbrev pub plain : Bcrypt
plain = record { generate = λ salt p. ok p; compare = λ h p. h == p }

abbrev site : Site tables memory_cache
site = record { database = tt; has_cache = true; cache = cached }

abbrev pub form : Form
form = record { is_post = true; username = bytes "alice"; password = bytes "hash"; confirm = [] }

login-holds_example :
    Users.validate tables plain (trim_space (bytes "alice")) (bytes "hash") tt ≡ ok true
unfolding login validated found_user opened Users.validate Users.get_by_username trim_space list_beq
    Sessions.create_user_session
login-holds_example = login-holds plain 5 (bytes "s1") (bytes "s1") form site refl

login-recognised_example :
    (get_user_from_session 5 (some (bytes "s1")) (login plain 5 (bytes "s1") form site).1).0
    ≡ trim_space (bytes "alice")
unfolding login validated found_user opened Users.validate Users.get_by_username trim_space list_beq
    Sessions.create_user_session
login-recognised_example =
    login-recognised plain 5 (bytes "s1") form site memory_cache-IsLawful (λ t. refl) refl refl

tables-SessionsLawful : SessionsLawful tables
tables-SessionsLawful = record { deleted = λ id s e. refl }

logout-forgets_example :
    (get_user_from_session 5 (some (bytes "s1")) (logout (some (bytes "s1")) site).1).0 ≡ []
logout-forgets_example =
    logout-forgets 5 (bytes "s1") site memory_cache-IsLawful tables-SessionsLawful refl refl
