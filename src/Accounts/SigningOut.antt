-- ===== src/Accounts/SigningOut.antt =====
-- What a new password ends.
use cvedeck.Prelude.{
  ℕ, ◌≡◌, refl, sym, ap, ◌∙◌, Bool, true, false, ◌&&◌, Option, none, some, List, [], ◌∷◌, map,
  select, arith,
}
use cvedeck.Prelude.Text.{Text, text_eq, text_eq_iff}
use cvedeck.Accounts.{
  AuthResult, done, refused, ◌>>=◌, User, AuthSession, ApiToken, Tables, Crypto, find_session,
  find_api_token, get_user, authenticate, set_password, is_kept, change_password, revoke,
  revoke_all_api_tokens, reset_password, or_error, check_policy, checked_user, wrong_password,
  unknown_account,
}
use cvedeck.Accounts.Sessions.{for_token, resolve_api_token}

-- The session of that token hash is one of the account.
abbrev pub owns_session : Text → Option AuthSession → Bool
owns_session id none = false
owns_session id (some s) = text_eq s.user_id id

abbrev pub is_owned_by : Text → Text → Tables → Bool
is_owned_by id h t = owns_session id (find_session h t.sessions)

owned_none :
    (id h : Text) (ss : List AuthSession)
    → owns_session id (find_session h (select (is_kept id none) ss)) ≡ false
unfolding find_session select
owned_none id h [] = refl
owned_none id h (s ∷ ss) = ground (arith, owned_none id h ss)

eq_trans : (s h k : Text) → text_eq s h ≡ true → text_eq s k ≡ text_eq h k
eq_trans s h k e = ap (λ x. text_eq x k) ((text_eq_iff s h).0 e)

owned_but :
    (id h k : Text) (ss : List AuthSession)
    → owns_session id (find_session h (select (is_kept id (some k)) ss))
      ≡ (text_eq h k && owns_session id (find_session h ss))
unfolding find_session select
owned_but id h k [] = ground arith
owned_but id h k (s ∷ ss) = ground (arith, owned_but id h k ss, eq_trans s.token_hash h k)

revoked_none :
    (now later : ℕ) (h : Text) (ts : List ApiToken) (t : Tables)
    → (for_token later h (find_api_token h (map (revoke now) ts)) t).1 ≡ none
unfolding find_api_token
revoked_none now later h [] t = refl
revoked_none now later h (x ∷ xs) t = ground (arith, revoked_none now later h xs t)

-- A chain that is done has done its first step.
pub bind_done :
    {A B : Type 0} (r : AuthResult A) (f : A → AuthResult B) (y : B)
    → (r >>= f) ≡ done y
    → (a : A) × (r ≡ done a) × (f a ≡ done y)
bind_done (refused why) f y e = ground arith
bind_done (done a) f y e = (a, refl, e)

pub done_injective : {A : Type 0} (x y : A) → ◌≡◌ {A = AuthResult A} (done x) (done y) → x ≡ y
done_injective x y e = ground arith

module _ (crypto : Crypto) where
  pub set_password-sessions :
      (salt new : Text) (u : User) (keep : Option Text) (t t' : Tables)
      → set_password crypto salt u new keep t ≡ done t'
      → t'.sessions ≡ select (is_kept u.id keep) t.sessions
  unfolding set_password
  set_password-sessions salt new u keep t t' e =
      let (_, _, last) = bind_done (check_policy new) _ t' e in
      ap (λ x. x.sessions) (sym (done_injective _ t' last))

  pub checked_user-sessions :
      (salt password : Text) (o : Option User) (t t₀ : Tables) (u : User)
      → checked_user crypto salt password o t ≡ some (t₀, u)
      → t₀.sessions ≡ t.sessions
  checked_user-sessions salt password none t t₀ u e = ground arith
  checked_user-sessions salt password (some v) t t₀ u e = ground arith

module _ (crypto : Crypto) (salt username new : Text) (t : Tables) where
  open crypto use {hash_token}

  -- A password change signs out every other session of the account: afterwards a token is of a session of the account exactly where it is the token of the session that asked, and was one before.
  pub change_password-is_owned_by :
      (current k : Text) (t₀ t' : Tables) (u : User)
      → authenticate crypto salt username current t ≡ some (t₀, u)
      → change_password crypto salt username current new (some k) t ≡ done t'
      → (h : Text) → is_owned_by u.id h t' ≡ (text_eq h k && is_owned_by u.id h t)
  unfolding change_password authenticate
  change_password-is_owned_by current k t₀ t' u found e h =
      let (pair, first, last) =
        bind_done (or_error wrong_password (authenticate crypto salt username current t)) _ t' e in
      let same : pair ≡ (t₀, u) =
        done_injective pair (t₀, u) (sym first ∙ ap (or_error wrong_password) found) in
      let left =
        set_password-sessions crypto salt new u (some k) t₀ t'
          (ap (λ x. set_password crypto salt x.1 new (some k) x.0) (sym same) ∙ last) in
      rw (left, checked_user-sessions crypto salt current _ t t₀ u found)
        (owned_but u.id h k t.sessions)

  -- A password reset locks everyone out: afterwards no token is of a session of the account, and no API token of any kind is accepted, at any time.
  pub reset_password-locks_out :
      (now : ℕ) (u : User) (r : Tables × ℕ)
      → get_user username t ≡ some u
      → reset_password crypto now salt username new t ≡ done r
      → (token : Text) (later : ℕ)
      → (is_owned_by u.id (hash_token token) r.0 ≡ false)
        × ((resolve_api_token crypto later token r.0).1 ≡ none)
  unfolding reset_password revoke_all_api_tokens resolve_api_token
  reset_password-locks_out now u r found e token later =
      let (v, first, rest) = bind_done (or_error unknown_account (get_user username t)) _ r e in
      let (t', second, last) = bind_done (set_password crypto salt v new none t) _ r rest in
      let same : v ≡ u = done_injective v u (sym first ∙ ap (or_error unknown_account) found) in
      let left = set_password-sessions crypto salt new v none t t' second in
      let result = sym (done_injective _ r last) in
      let sessions =
        ap (λ x. x.0.sessions) result
        ∙ left
        ∙ ap (λ x. select (is_kept x.id none) t.sessions) same in
      (
        ap (λ ss. owns_session u.id (find_session (hash_token token) ss)) sessions
            ∙ owned_none u.id (hash_token token) t.sessions,
        ap (λ x. (resolve_api_token crypto later token x.0).1) result
            ∙ revoked_none now later (hash_token token) t'.api_tokens _,
      )
