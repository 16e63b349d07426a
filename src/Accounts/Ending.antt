-- ===== src/Accounts/Ending.antt =====
-- When sessions end, kept by every request.
use cvedeck.Prelude.{
  ℕ, ◌≡◌, refl, sym, ap, ◌∙◌, Bool, true, not, is_none, ltb, leb, ◌&&◌, ◌||◌, Option, none, some,
  List, [], ◌∷◌, map, select, length, arith, Bool-cases, inl, inr, all,
}
use cvedeck.Prelude.Text.{strip, Text, text_eq}
use cvedeck.Accounts.{
  or_error, wrong_password, unknown_account, already_set_up, no_token_name, token_name_too_long,
  wrong_setup_code, username_taken, require, get_user, has_users, clean_username, check_policy,
  AuthResult, done, refused, User, AuthSession, Tables, Crypto, authenticate, ApiToken, find_user,
  find_session, has_id, is_kept, set_password, change_password, reset_password, create_user,
  revoke_all_api_tokens,
}
use cvedeck.Accounts.Sessions.{
  code_is_valid, issue_setup_code, complete_setup, start_session, end_session, is_over,
  touch_session, for_user, for_session, resolve_session, create_api_token, revoke_api_token,
  for_token, resolve_api_token,
}
use cvedeck.Accounts.Requests.{
  AuthRequest, signs_in, signs_out, resolves, uses_api_token, changes_password, resets_password,
  issues_code, completes_setup, makes_api_token, revokes_api_token, revokes_all, or_same,
  or_unchanged, handle, handle_all, starts_no,
}
use cvedeck.Accounts.SigningOut.{
  bind_done, done_injective, set_password-sessions, checked_user-sessions,
}

authenticate-sessions :
    (crypto : Crypto) (salt username password : Text) (t t₀ : Tables) (u : User)
    → authenticate crypto salt username password t ≡ some (t₀, u)
    → t₀.sessions ≡ t.sessions
unfolding authenticate
authenticate-sessions crypto salt username password t t₀ u e =
    checked_user-sessions crypto salt password _ t t₀ u e

or_error-sessions :
    (crypto : Crypto) (salt username password : Text) (t : Tables) (found : Tables × User)
    → or_error wrong_password (authenticate crypto salt username password t) ≡ done found
    → found.0.sessions ≡ t.sessions
or_error-sessions crypto salt username password t found e =
    given (authenticate crypto salt username password t) refl e
  where
    given :
        (o : Option (Tables × User))
        → authenticate crypto salt username password t ≡ o
        → or_error wrong_password o ≡ done found
        → found.0.sessions ≡ t.sessions
    given none a b = ground arith
    given (some (t₀, u)) a b =
        ap (λ x. x.0.sessions) (sym (done_injective _ found b))
        ∙ authenticate-sessions crypto salt username password t t₀ u a

create_user-sessions :
    (crypto : Crypto) (id salt username password : Text) (t : Tables) (made : Tables × User)
    → create_user crypto id salt username password t ≡ done made
    → made.0.sessions ≡ t.sessions
unfolding create_user
create_user-sessions crypto id salt username password t made e =
    let (name, _, rest) = bind_done (clean_username username) _ made e in
    let (_, _, rest') = bind_done (check_policy password) _ made rest in
    let (_, _, last) =
      bind_done (require (is_none (get_user name t)) username_taken) _ made rest' in
    ap (λ x. x.0.sessions) (sym (done_injective _ made last))

module _ (h : Text) (q : ℕ → Bool) where
  -- The sessions of that token hash end at times with `q`.
  unfoldable pub all_end : List AuthSession → Bool
  all_end [] = true
  all_end (s ∷ ss) = (not (text_eq s.token_hash h) || q s.expires_at) && all_end ss

  select-all_end :
      (p : AuthSession → Bool) (ss : List AuthSession)
      → all_end ss ≡ true
      → all_end (select p ss) ≡ true
  unfolding select all_end
  select-all_end p [] e = refl
  select-all_end p (s ∷ ss) e = ground (arith, select-all_end p ss)

  touch-all_end :
      (now : ℕ) (k : Text) (ss : List AuthSession)
      → all_end ss ≡ true
      → all_end (map (touch_session now k) ss) ≡ true
  unfolding all_end
  touch-all_end now k [] e = refl
  touch-all_end now k (s ∷ ss) e = ground (arith, touch-all_end now k ss)

  pub find-all_end :
      (ss : List AuthSession) (s : AuthSession)
      → all_end ss ≡ true
      → find_session h ss ≡ some s
      → q s.expires_at ≡ true
  unfolding find_session all_end
  find-all_end [] s e f = ground arith
  find-all_end (x ∷ ss) s e f = ground (arith, find-all_end ss s)

  abbrev pub SafeTables : Tables → Type 0
  SafeTables t = all_end t.sessions ≡ true

  resolve-SafeTables :
      (now : ℕ) (k : Text) (o : Option AuthSession) (t : Tables)
      → SafeTables t
      → SafeTables (for_session now k o t).0
  resolve-SafeTables now k none t e = e
  resolve-SafeTables now k (some s) t e = elim (Bool-cases (is_over now s)) [
    | inl over ↦ rw over (select-all_end (λ x. not (text_eq x.token_hash k)) t.sessions e)
    | inr open_still ↦ rw open_still (for_user-SafeTables (find_user (has_id s.user_id) t.users))
  ]
    where
      for_user-SafeTables : (o : Option User) → SafeTables (for_user now k o t).0
      for_user-SafeTables none = e
      for_user-SafeTables (some u) = touch-all_end now k t.sessions e

  token-sessions :
      (now : ℕ) (k : Text) (o : Option ApiToken) (t : Tables)
      → (for_token now k o t).0.sessions ≡ t.sessions
  token-sessions now k o t = ground arith

  same_sessions : (t t' : Tables) → t'.sessions ≡ t.sessions → SafeTables t → SafeTables t'
  same_sessions t t' e safe = ap all_end e ∙ safe

  module _ (crypto : Crypto) (t : Tables) (safe : SafeTables t) where
    open crypto use {hash_token}

    or_same-SafeTables :
        {A : Type 0} (f : A → Tables) (r : AuthResult A)
        → ((a : A) → r ≡ done a → SafeTables (f a))
        → SafeTables (or_same t f r)
    or_same-SafeTables f (refused why) k = safe
    or_same-SafeTables f (done a) k = k a refl

    set_password-SafeTables :
        (salt new : Text) (u : User) (keep : Option Text) (t₀ t' : Tables)
        → t₀.sessions ≡ t.sessions
        → set_password crypto salt u new keep t₀ ≡ done t'
        → SafeTables t'
    set_password-SafeTables salt new u keep t₀ t' same e =
        ap all_end (
          set_password-sessions crypto salt new u keep t₀ t' e
          ∙ ap (select (is_kept u.id keep)) same)
        ∙ select-all_end (is_kept u.id keep) t.sessions safe

    start-SafeTables :
        (now : ℕ) (token : Text) (u : User) (t₀ : Tables)
        → not (text_eq (hash_token token) h) ≡ true
        → t₀.sessions ≡ t.sessions
        → SafeTables (start_session crypto now token u t₀)
    unfolding start_session all_end
    start-SafeTables now token u t₀ other same = ground (arith, ap all_end same ∙ safe)

    -- Every request that starts no session with that token hash keeps the sessions as they end.
    handle-SafeTables :
        (now : ℕ) (r : AuthRequest)
        → starts_no crypto h (now, r) ≡ true
        → SafeTables (handle crypto now r t)
    unfolding handle end_session resolve_session resolve_api_token issue_setup_code create_api_token
        revoke_api_token revoke_all_api_tokens change_password reset_password complete_setup
    handle-SafeTables now (signs_in token salt username password) other =
        started (authenticate crypto salt username password t) refl
      where
        started :
            (o : Option (Tables × User))
            → authenticate crypto salt username password t ≡ o
            → SafeTables
                (or_unchanged t (λ found. start_session crypto now token found.1 found.0) o)
        started none e = safe
        started (some (t₀, u)) e =
            start-SafeTables now token u t₀ other
              (authenticate-sessions crypto salt username password t t₀ u e)
    handle-SafeTables now (signs_out token) other =
        select-all_end (λ x. not (text_eq x.token_hash (hash_token token))) t.sessions safe
    handle-SafeTables now (resolves token) other =
        resolve-SafeTables now (hash_token token) _ t safe
    handle-SafeTables now (uses_api_token token) other =
        same_sessions t (resolve_api_token crypto now token t).0
          (token-sessions now (hash_token token) _ t) safe
    handle-SafeTables now (changes_password salt username current new keep) other =
        or_same-SafeTables (λ t'. t') (change_password crypto salt username current new keep t)
          λ t' e.
            let (found, first, last) =
              bind_done (or_error wrong_password (authenticate crypto salt username current t)) _ t'
                e in
            set_password-SafeTables salt new found.1 keep found.0 t'
              (or_error-sessions crypto salt username current t found first) last
    handle-SafeTables now (resets_password salt username new) other =
        or_same-SafeTables (λ r. r.0) (reset_password crypto now salt username new t)
          λ r e.
            let (u, first, rest) =
              bind_done (or_error unknown_account (get_user username t)) _ r e in
            let (t', second, last) = bind_done (set_password crypto salt u new none t) _ r rest in
            same_sessions t' r.0 (ap (λ x. x.0.sessions) (sym (done_injective _ r last)))
              (set_password-SafeTables salt new u none t t' refl second)
    handle-SafeTables now (issues_code code) other = ground (arith, safe)
    handle-SafeTables now (completes_setup token id salt code username password) other =
        or_same-SafeTables (λ r. start_session crypto now token r.1 r.0)
          (complete_setup crypto now id salt code username password t)
          λ r e.
            let (_, _, rest) = bind_done (require (not (has_users t)) already_set_up) _ r e in
            let (_, _, rest') =
              bind_done (require (code_is_valid crypto now code t.setup) wrong_setup_code) _ r
                rest in
            let (made, third, last) =
              bind_done (create_user crypto id salt username password t) _ r rest' in
            start-SafeTables now token r.1 r.0 other (
              ap (λ x. x.0.sessions) (sym (done_injective _ r last))
              ∙ create_user-sessions crypto id salt username password t made third)
    handle-SafeTables now (makes_api_token id token name) other =
        or_same-SafeTables (λ t'. t') (create_api_token crypto id token name t)
          λ t' e.
            let (_, _, rest) =
              bind_done (require (ltb 0 (length (strip name))) no_token_name) _ t' e in
            let (_, _, last) =
              bind_done (require (leb (length (strip name)) 80) token_name_too_long) _ t' rest in
            same_sessions t t' (ap (λ x. x.sessions) (sym (done_injective _ t' last))) safe
    handle-SafeTables now (revokes_api_token id) other = safe
    handle-SafeTables now revokes_all other = safe

  pub handle_all-SafeTables :
      (crypto : Crypto) (rs : List (ℕ × AuthRequest)) (t : Tables)
      → SafeTables t
      → all (starts_no crypto h) rs ≡ true
      → SafeTables (handle_all crypto rs t)
  unfolding handle_all
  handle_all-SafeTables crypto [] t safe other = safe
  handle_all-SafeTables crypto ((now, r) ∷ rs) t safe other =
      handle_all-SafeTables crypto rs (handle crypto now r t)
        (handle-SafeTables crypto t safe now r (ground arith)) (ground arith)
