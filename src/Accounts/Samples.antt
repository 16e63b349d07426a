-- ===== src/Accounts/Samples.antt =====
-- An account with a session that is watched while other requests come in.
use cvedeck.Prelude.{ℕ, ◌+◌, ◌≡◌, refl, false, ◌&&◌, none, select, List, [], ◌∷◌, arith}
use cvedeck.Prelude.Text.{Text, codes, text_eq, strip, lstrip}
use cvedeck.Accounts.{
  session_absolute, User, Tables, Crypto, find_user, find_session, check_policy, get_user,
  authenticate, change_password, reset_password, set_password, update_users, revoke_all_api_tokens,
  count_live,
}
use cvedeck.Accounts.Sessions.{resolve_session, start_session, end_session, resolve_api_token}
use cvedeck.Accounts.SigningOut.{is_owned_by, change_password-is_owned_by, reset_password-locks_out}
use cvedeck.Accounts.Requests.{AuthRequest, resolves, signs_out, handle_all}
use cvedeck.Accounts.Lifetimes.{session_lifetime, end_session_stays}

-- A hash that can be read
abbrev plain : Crypto
plain = record {
  hash_token = λ t. b'#' ∷ t;
  hash_password = λ salt p. p;
  verify_password = λ p stored. text_eq p stored;
  needs_rehash = λ stored. false;
}

abbrev ada : User
ada = record { id = codes "1"; username = codes "ada"; password_hash = codes "a long passphrase" }

abbrev empty : Tables
empty = record { users = ada ∷ []; sessions = []; api_tokens = []; setup = none }

abbrev two : Tables
unfolding start_session
two = start_session plain 1 (codes "x") ada (start_session plain 2 (codes "y") ada empty)

abbrev requests : List (ℕ × AuthRequest)
requests = (5, resolves (codes "x")) ∷ (6, signs_out (codes "y")) ∷ []

session_lifetime_example :
    (resolve_session plain
      (1 + session_absolute)
      (codes "x")
      (handle_all plain requests (start_session plain 1 (codes "x") ada empty))).1
    ≡ none
unfolding find_session
session_lifetime_example =
    session_lifetime plain (codes "x") empty requests refl 1 (1 + session_absolute) ada refl
      (omega arith)

end_session_stays_example :
    (resolve_session plain 9
      (codes "x")
      (handle_all plain requests (end_session plain (codes "x") two))).1
    ≡ none
end_session_stays_example = end_session_stays plain (codes "x") two requests refl 9

abbrev new_password : Text
new_password = codes "another passphrase"

abbrev changed : Tables
unfolding start_session
changed = record two {
  users = record ada { password_hash = new_password } ∷ [];
  sessions = (start_session plain 1 (codes "x") ada empty).sessions;
}

change_password-is_owned_by_example : is_owned_by (codes "1") (b'#' ∷ codes "y") changed ≡ (
    text_eq (b'#' ∷ codes "y") (b'#' ∷ codes "x") && is_owned_by (codes "1") (b'#' ∷ codes "y") two)
unfolding start_session authenticate change_password set_password check_policy get_user find_user
    update_users text_eq strip lstrip select
change_password-is_owned_by_example =
    change_password-is_owned_by plain [] (codes "ada") new_password two (codes "a long passphrase")
      (b'#' ∷ codes "x") two changed ada refl refl (b'#' ∷ codes "y")

abbrev after_reset : Tables
after_reset = record two { users = record ada { password_hash = new_password } ∷ []; sessions = [] }

reset_password-locks_out_example :
    (is_owned_by (codes "1") (b'#' ∷ codes "y") after_reset ≡ false)
    × ((resolve_api_token plain 4 (codes "y") after_reset).1 ≡ none)
unfolding start_session reset_password set_password check_policy get_user find_user update_users
    revoke_all_api_tokens count_live text_eq strip lstrip select
reset_password-locks_out_example =
    reset_password-locks_out plain [] (codes "ada") new_password two 3 ada (after_reset, 0) refl
      refl (codes "y") 4
