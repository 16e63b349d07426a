-- ===== src/Accounts/Requests.antt =====
-- Any run of requests to `AuthService`, in any order and at any times.
use cvedeck.Prelude.{ℕ, Bool, true, not, Option, none, some, List, [], ◌∷◌}
use cvedeck.Prelude.Text.{Text, text_eq}
use cvedeck.Accounts.{
  AuthResult, done, refused, Tables, Crypto, authenticate, change_password, reset_password,
  revoke_all_api_tokens,
}
use cvedeck.Accounts.Sessions.{
  issue_setup_code, complete_setup, start_session, end_session, resolve_session, create_api_token,
  revoke_api_token, resolve_api_token,
}

-- The requests that the service answers, each with its time and what is random in it
pub data AuthRequest : Type 0 where
  signs_in : Text → Text → Text → Text → AuthRequest
  signs_out resolves uses_api_token : Text → AuthRequest
  changes_password : Text → Text → Text → Text → Option Text → AuthRequest
  resets_password : Text → Text → Text → AuthRequest
  issues_code : Text → AuthRequest
  completes_setup : Text → Text → Text → Text → Text → Text → AuthRequest
  makes_api_token : Text → Text → Text → AuthRequest
  revokes_api_token : Text → AuthRequest
  revokes_all : AuthRequest

abbrev pub or_same : {A : Type 0} → Tables → (A → Tables) → AuthResult A → Tables
or_same t f (refused why) = t
or_same t f (done a) = f a

abbrev pub or_unchanged : {A : Type 0} → Tables → (A → Tables) → Option A → Tables
or_unchanged t f none = t
or_unchanged t f (some a) = f a

module _ (crypto : Crypto) where
  open crypto use {hash_token}

  -- One request. `signs_in` and `completes_setup` are the routes `login` and `setup`, which start a
  -- session where the service lets the caller in.
  unfoldable pub handle : ℕ → AuthRequest → Tables → Tables
  handle now (signs_in token salt username password) t =
      or_unchanged t (λ found. start_session crypto now token found.1 found.0)
        (authenticate crypto salt username password t)
  handle now (signs_out token) t = end_session crypto token t
  handle now (resolves token) t = (resolve_session crypto now token t).0
  handle now (uses_api_token token) t = (resolve_api_token crypto now token t).0
  handle now (changes_password salt username current new keep) t =
      or_same t (λ t'. t') (change_password crypto salt username current new keep t)
  handle now (resets_password salt username new) t =
      or_same t (λ r. r.0) (reset_password crypto now salt username new t)
  handle now (issues_code code) t = (issue_setup_code crypto now code t).0
  handle now (completes_setup token id salt code username password) t =
      or_same t (λ r. start_session crypto now token r.1 r.0)
        (complete_setup crypto now id salt code username password t)
  handle now (makes_api_token id token name) t =
      or_same t (λ t'. t') (create_api_token crypto id token name t)
  handle now (revokes_api_token id) t = revoke_api_token now id t
  handle now revokes_all t = (revoke_all_api_tokens now t).0

  unfoldable pub handle_all : List (ℕ × AuthRequest) → Tables → Tables
  handle_all [] t = t
  handle_all ((now, r) ∷ rest) t = handle_all rest (handle now r t)

  -- The request does not start a session with that token hash.
  abbrev pub starts_no : Text → ℕ × AuthRequest → Bool
  starts_no h (now, signs_in token salt username password) = not (text_eq (hash_token token) h)
  starts_no h (now, completes_setup token id salt code username password) =
      not (text_eq (hash_token token) h)
  starts_no h _ = true
