-- ===== src/Accounts/Lifetimes.antt =====
-- How long a session lasts, whatever requests come in the meantime.
use cvedeck.Prelude.{
  ℕ, ◌+◌, ◌≤◌, ◌≡◌, refl, Bool, true, false, leb, Option, none, some, List, [], ◌∷◌, select, arith,
  all,
}
use cvedeck.Prelude.Text.{Text}
use cvedeck.Accounts.{session_absolute, User, AuthSession, Tables, Crypto, find_session}
use cvedeck.Accounts.Sessions.{
  start_session, without_session, end_session, is_over, for_session, resolve_session,
}
use cvedeck.Accounts.Requests.{AuthRequest, handle_all, starts_no}
use cvedeck.Accounts.Ending.{all_end, find-all_end, handle_all-SafeTables}

resolved_safe :
    (h : Text) (now : ℕ) (o : Option AuthSession) (t : Tables)
    → ((s : AuthSession) → o ≡ some s → is_over now s ≡ true)
    → (for_session now h o t).1 ≡ none
resolved_safe h now none t k = refl
resolved_safe h now (some s) t k = rw (k s refl) refl

no_session :
    (h : Text) (q : ℕ → Bool) (ss : List AuthSession)
    → find_session h ss ≡ none
    → all_end h q ss ≡ true
unfolding find_session all_end
no_session h q [] e = refl
no_session h q (s ∷ ss) e = ground (arith, no_session h q ss)

without-all_end :
    (h : Text) (q : ℕ → Bool) (ss : List AuthSession) → all_end h q (without_session h ss) ≡ true
unfolding all_end select
without-all_end h q [] = refl
without-all_end h q (s ∷ ss) = ground (arith, without-all_end h q ss)

abbrev is_by : ℕ → ℕ → Bool
is_by limit at = leb at limit

module _ (crypto : Crypto) (token : Text) (t : Tables) (rs : List (ℕ × AuthRequest))
    (other : all (starts_no crypto (crypto.hash_token token)) rs ≡ true) where
  open crypto use {hash_token}

  just_started :
      (start : ℕ) (u : User)
      → find_session (hash_token token) t.sessions ≡ none
      → all_end
          (hash_token token)
          (is_by (start + session_absolute))
          (start_session crypto start token u t).sessions
        ≡ true
  unfolding start_session all_end
  just_started start u fresh =
      ground
        (arith, no_session (hash_token token) (is_by (start + session_absolute)) t.sessions fresh)

  -- A session that is started with a token whose hash no session has is not accepted 30 days later or after that, whatever requests were answered in the meantime, at whatever times, as long as none starts another session with that token hash.
  pub session_lifetime :
      (start now : ℕ) (u : User)
      → find_session (hash_token token) t.sessions ≡ none
      → start + session_absolute ≤ now
      → (resolve_session crypto now token
          (handle_all crypto rs (start_session crypto start token u t))).1
        ≡ none
  unfolding resolve_session
  session_lifetime start now u fresh late =
      let after = handle_all crypto rs (start_session crypto start token u t) in
      let ends = is_by (start + session_absolute) in
      let safe =
        handle_all-SafeTables (hash_token token) ends crypto rs
          (start_session crypto start token u t) (just_started start u fresh) other in
      resolved_safe (hash_token token) now (find_session (hash_token token) after.sessions) after
        λ s e.
          let bound = find-all_end (hash_token token) ends after.sessions s safe e in ground arith

  -- A session that is signed out stays so: its token is not accepted, whatever requests were answered since, as long as none starts a session with that token hash.
  pub end_session_stays :
      (now : ℕ)
      → (resolve_session crypto now token (handle_all crypto rs (end_session crypto token t))).1
        ≡ none
  unfolding resolve_session end_session
  end_session_stays now =
      let ended = end_session crypto token t in
      let after = handle_all crypto rs ended in
      let safe =
        handle_all-SafeTables (hash_token token) (λ e. false) crypto rs ended
          (without-all_end (hash_token token) (λ e. false) t.sessions) other in
      resolved_safe (hash_token token) now (find_session (hash_token token) after.sessions) after
        λ s e.
          let bound = find-all_end (hash_token token) (λ e. false) after.sessions s safe e in
          ground arith
