-- ===== src/Accounts.antt =====
-- backend/app/auth/service.py: accounts, sessions, API tokens and the setup code, with the policy of
-- backend/app/auth/passwords.py. A method is a function on the four tables; one that raises changes
-- nothing. Times are in microseconds. Random tokens, codes and identifiers are arguments, and so are
-- the hash of a token and the scrypt functions on passwords.
pub mod Sessions
pub mod SigningOut
pub mod Requests
pub mod Ending
pub mod Lifetimes
mod Samples
use cvedeck.Prelude.{
  ℕ, ◌+◌, ◌-◌, ◌*◌, Bool, true, false, not, ◌&&◌, ◌||◌, Option, none, some, List, [], ◌∷◌, map,
  select, length, is_some, is_none, leb, ltb, if◌then◌else◌,
}
use cvedeck.Prelude.Text.{Text, text_eq, strip, is_alpha, is_digit}
use cvedeck.Releases.Names.{upper_char}

abbrev pub one_day : ℕ
one_day = 86_400_000_000

-- `SESSION_ABSOLUTE`, `SESSION_IDLE`, `TOUCH_INTERVAL`, `SETUP_CODE_TTL`
abbrev pub session_absolute : ℕ
session_absolute = 30 * one_day

abbrev pub session_idle : ℕ
session_idle = 7 * one_day

abbrev pub touch_interval : ℕ
touch_interval = 300_000_000

abbrev pub setup_code_ttl : ℕ
setup_code_ttl = one_day

-- `AuthError`, by its messages; the first two are `WrongSecretError`
pub data AuthError : Type 0 where
  wrong_password wrong_setup_code : AuthError
  no_username username_too_long password_too_short password_too_long username_taken : AuthError
  unknown_account already_set_up no_token_name token_name_too_long : AuthError

pub data AuthResult (A : Type 0) : Type 0 where
  done : A → AuthResult A
  refused : AuthError → AuthResult A

infixl 5 ◌>>=◌
abbrev pub ◌>>=◌ : {A B : Type 0} → AuthResult A → (A → AuthResult B) → AuthResult B
refused e >>= f = refused e
done a >>= f = f a

-- `User`, `AuthSession`, `ApiToken` and `AuthSetup`, without the columns that no method here reads
pub record User : Type 0 where
  pub id : Text
  pub username : Text
  pub password_hash : Text

pub record AuthSession : Type 0 where
  pub token_hash : Text
  pub user_id : Text
  pub last_seen_at : ℕ
  pub expires_at : ℕ

pub record ApiToken : Type 0 where
  pub id : Text
  pub name : Text
  pub token_hash : Text
  pub revoked_at : Option ℕ
  pub last_used_at : Option ℕ

pub record AuthSetup : Type 0 where
  pub code_hash : Text
  pub expires_at : ℕ

pub record Tables : Type 0 where
  pub users : List User
  pub sessions : List AuthSession
  pub api_tokens : List ApiToken
  pub setup : Option AuthSetup

-- `Principal`
pub data Principal : Type 0 where
  session_principal : Text → Text → Principal
  token_principal : Text → Principal

-- `hash_token`, and the functions of passwords.py around `hashlib.scrypt`, the first with its salt
pub record Crypto : Type 0 where
  pub hash_token : Text → Text
  pub hash_password : Text → Text → Text
  pub verify_password : Text → Text → Bool
  pub needs_rehash : Text → Bool

abbrev pub require : Bool → AuthError → AuthResult Unit
require true e = done _
require false e = refused e

-- `_clean_username` and `check_policy`
unfoldable pub clean_username : Text → AuthResult Text
clean_username username = do
  let cleaned = strip username
  _ ← require (ltb 0 (length cleaned)) no_username
  _ ← require (leb (length cleaned) 64) username_too_long
  done cleaned

unfoldable pub check_policy : Text → AuthResult Unit
check_policy password = do
  _ ← require (leb 12 (length password)) password_too_short
  require (leb (length password) 1024) password_too_long

-- `normalise_setup_code`
abbrev pub is_alnum_char : ℕ → Bool
is_alnum_char c = is_alpha c || is_digit c

unfoldable pub normalise_setup_code : Text → Text
normalise_setup_code code = select is_alnum_char (map upper_char code)

unfoldable pub find_user : (User → Bool) → List User → Option User
find_user p [] = none
find_user p (u ∷ us) = let rest = find_user p us in if p u then some u else rest

unfoldable pub find_session : Text → List AuthSession → Option AuthSession
find_session h [] = none
find_session h (s ∷ ss) =
    let rest = find_session h ss in if text_eq s.token_hash h then some s else rest

unfoldable pub find_api_token : Text → List ApiToken → Option ApiToken
find_api_token h [] = none
find_api_token h (t ∷ ts) =
    let rest = find_api_token h ts in if text_eq t.token_hash h then some t else rest

-- `has_users` and `get_user`
abbrev pub has_users : Tables → Bool
has_users t = ltb 0 (length t.users)

unfoldable pub get_user : Text → Tables → Option User
get_user username t = find_user (λ u. text_eq u.username (strip username)) t.users

-- A change of the rows that pass a test
unfoldable pub update_users : (User → Bool) → (User → User) → List User → List User
update_users p f = map λ u. if p u then f u else u

abbrev pub has_id : Text → User → Bool
has_id id u = text_eq u.id id

-- `revoke_all_api_tokens`
abbrev pub revoke : ℕ → ApiToken → ApiToken
revoke now token = elim token.revoked_at [
  | none ↦ record token { revoked_at = some now }
  | some at ↦ token
]

unfoldable pub count_live : List ApiToken → ℕ
count_live tokens = length (select (λ token. is_none token.revoked_at) tokens)

unfoldable pub revoke_all_api_tokens : ℕ → Tables → Tables × ℕ
revoke_all_api_tokens now t =
    (record t { api_tokens = map (revoke now) t.api_tokens }, count_live t.api_tokens)

abbrev pub or_error : {A : Type 0} → AuthError → Option A → AuthResult A
or_error e none = refused e
or_error e (some a) = done a

-- The sessions that `_set_password` leaves
abbrev pub is_kept : Text → Option Text → AuthSession → Bool
is_kept user_id none s = not (text_eq s.user_id user_id)
is_kept user_id (some keep) s = not (text_eq s.user_id user_id && not (text_eq s.token_hash keep))

module _ (crypto : Crypto) where
  open crypto use {hash_token, hash_password, verify_password, needs_rehash}

  -- `create_user`
  unfoldable pub create_user : Text → Text → Text → Text → Tables → AuthResult (Tables × User)
  create_user id salt username password t = do
    name ← clean_username username
    _ ← check_policy password
    _ ← require (is_none (get_user name t)) username_taken
    let user : User = record {
      id = id;
      username = name;
      password_hash = hash_password salt password;
    }
    done (record t { users = user ∷ t.users }, user)

  abbrev pub with_password : Text → Text → User → User
  with_password salt password u = record u { password_hash = hash_password salt password }

  -- `authenticate`, but for the time that it takes
  abbrev pub checked_user : Text → Text → Option User → Tables → Option (Tables × User)
  checked_user salt password none t = none
  checked_user salt password (some u) t =
      if not (verify_password password u.password_hash)
      then none
      else some (
        (if needs_rehash u.password_hash
            then record t {
              users = update_users (has_id u.id) (with_password salt password) t.users;
            }
            else t),
        u,
      )

  unfoldable pub authenticate : Text → Text → Text → Tables → Option (Tables × User)
  authenticate salt username password t =
      checked_user salt password
        (if ltb 0 (length (strip username)) then get_user username t else none) t

  -- `_set_password`
  unfoldable pub set_password : Text → User → Text → Option Text → Tables → AuthResult Tables
  set_password salt user new keep t = do
    _ ← check_policy new
    done (record t {
      users = update_users (has_id user.id) (with_password salt new) t.users;
      sessions = select (is_kept user.id keep) t.sessions;
    })

  -- `change_password`
  unfoldable pub change_password :
      Text → Text → Text → Text → Option Text → Tables → AuthResult Tables
  change_password salt username current new keep t = do
    found ← or_error wrong_password (authenticate salt username current t)
    set_password salt found.1 new keep found.0

  -- `reset_password`
  unfoldable pub reset_password : ℕ → Text → Text → Text → Tables → AuthResult (Tables × ℕ)
  reset_password now salt username new t = do
    user ← or_error unknown_account (get_user username t)
    t' ← set_password salt user new none t
    done (revoke_all_api_tokens now t')
