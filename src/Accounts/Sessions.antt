-- ===== src/Accounts/Sessions.antt =====
-- The setup code, sessions and API tokens of `AuthService` in backend/app/auth/service.py.
use cvedeck.Prelude.{
  ℕ, ◌+◌, ◌-◌, Bool, true, false, not, ◌&&◌, ◌||◌, Option, none, some, List, [], ◌∷◌, map, select,
  length, leb, ltb, if◌then◌else◌,
}
use cvedeck.Prelude.Text.{Text, text_eq, strip}
use cvedeck.Accounts.{
  session_absolute, session_idle, touch_interval, setup_code_ttl, wrong_setup_code, already_set_up,
  no_token_name, token_name_too_long, AuthResult, done, ◌>>=◌, require, User, AuthSession, ApiToken,
  AuthSetup, Tables, Principal, session_principal, token_principal, Crypto, normalise_setup_code,
  find_user, find_session, find_api_token, has_users, has_id, create_user, revoke,
}

-- `none` is a variable that is not set
abbrev pub is_set : Option Text → Bool
is_set none = false
is_set (some t) = ltb 0 (length t)

abbrev pub or_blank : Option Text → Text
or_blank none = []
or_blank (some t) = t

abbrev pub without_session : Text → List AuthSession → List AuthSession
without_session h = select λ s. not (text_eq s.token_hash h)

-- Whether a session has ended, and what a request leaves of it
abbrev pub is_over : ℕ → AuthSession → Bool
is_over now s = leb s.expires_at now || leb (s.last_seen_at + session_idle) now

abbrev pub touch_session : ℕ → Text → AuthSession → AuthSession
touch_session now h s =
    if text_eq s.token_hash h && leb touch_interval (now - s.last_seen_at)
    then record s { last_seen_at = now }
    else s

abbrev pub for_user : ℕ → Text → Option User → Tables → Tables × Option Principal
for_user now h none t = (t, none)
for_user now h (some user) t = (
  record t { sessions = map (touch_session now h) t.sessions },
  some (session_principal user.username h),
)

abbrev pub for_session : ℕ → Text → Option AuthSession → Tables → Tables × Option Principal
for_session now h none t = (t, none)
for_session now h (some s) t =
    if is_over now s
    then (record t { sessions = without_session h t.sessions }, none)
    else for_user now h (find_user (has_id s.user_id) t.users) t

-- A request with an API token
abbrev pub is_due : ℕ → Option ℕ → Bool
is_due now none = true
is_due now (some at) = leb touch_interval (now - at)

abbrev pub touch_token : ℕ → Text → ApiToken → ApiToken
touch_token now h token =
    if text_eq token.token_hash h && is_due now token.last_used_at
    then record token { last_used_at = some now }
    else token

abbrev pub for_token : ℕ → Text → Option ApiToken → Tables → Tables × Option Principal
for_token now h none t = (t, none)
for_token now h (some token) t = elim token.revoked_at [
  | some at ↦ (t, none)
  | none ↦ (
    record t { api_tokens = map (touch_token now h) t.api_tokens },
    some (token_principal token.name),
  )
]

-- `revoke_api_token`: whether there is one with that identifier
unfoldable pub revoke_api_token : ℕ → Text → Tables → Tables
revoke_api_token now id t = record t {
  api_tokens = map (λ token. if text_eq token.id id then revoke now token else token) t.api_tokens;
}

module _ (crypto : Crypto) where
  open crypto use {hash_token}

  -- `bootstrap_from_env`
  unfoldable pub bootstrap_from_env :
      Text → Text → Option Text → Option Text → Tables → AuthResult (Tables × Bool)
  bootstrap_from_env id salt username password t =
      if not (is_set username) || (not (is_set password) || has_users t)
      then done (t, false)
      else (do
        made ← create_user crypto id salt (or_blank username) (or_blank password) t
        done (record made.0 { setup = none }, true))

  -- `issue_setup_code`
  unfoldable pub issue_setup_code : ℕ → Text → Tables → Tables × Option Text
  issue_setup_code now code t = if has_users t then (record t { setup = none }, none) else (
    record t {
      setup = some (record {
        code_hash = hash_token (normalise_setup_code code);
        expires_at = now + setup_code_ttl;
      });
    },
    some code,
  )

  -- `complete_setup`
  abbrev pub code_is_valid : ℕ → Text → Option AuthSetup → Bool
  code_is_valid now code none = false
  code_is_valid now code (some row) =
      ltb now row.expires_at && text_eq (hash_token (normalise_setup_code code)) row.code_hash

  unfoldable pub complete_setup :
      ℕ → Text → Text → Text → Text → Text → Tables → AuthResult (Tables × User)
  complete_setup now id salt code username password t = do
    _ ← require (not (has_users t)) already_set_up
    _ ← require (code_is_valid now code t.setup) wrong_setup_code
    made ← create_user crypto id salt username password t
    done (record made.0 { setup = none }, made.1)

  -- `start_session`, with the random token
  unfoldable pub start_session : ℕ → Text → User → Tables → Tables
  start_session now token user t = record t {
    sessions =
        record {
          token_hash = hash_token token;
          user_id = user.id;
          last_seen_at = now;
          expires_at = now + session_absolute;
        }
        ∷ t.sessions;
  }

  -- `end_session`
  unfoldable pub end_session : Text → Tables → Tables
  end_session token t = record t { sessions = without_session (hash_token token) t.sessions }

  -- `resolve_session`
  unfoldable pub resolve_session : ℕ → Text → Tables → Tables × Option Principal
  resolve_session now token t =
      for_session now (hash_token token) (find_session (hash_token token) t.sessions) t

  -- `create_api_token`, with the identifier and the random token
  unfoldable pub create_api_token : Text → Text → Text → Tables → AuthResult Tables
  create_api_token id token name t = do
    let cleaned = strip name
    _ ← require (ltb 0 (length cleaned)) no_token_name
    _ ← require (leb (length cleaned) 80) token_name_too_long
    done (record t {
      api_tokens =
          record {
            id = id;
            name = cleaned;
            token_hash = hash_token token;
            revoked_at = none;
            last_used_at = none;
          }
          ∷ t.api_tokens;
    })

  -- `resolve_api_token`
  unfoldable pub resolve_api_token : ℕ → Text → Tables → Tables × Option Principal
  resolve_api_token now token t =
      for_token now (hash_token token) (find_api_token (hash_token token) t.api_tokens) t
