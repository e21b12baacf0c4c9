-- ===== src/Auth/Calls.antt =====
-- Sequences of calls of the token store of concordia/auth.py.
use concordia_protocol.Prelude.{
  ℕ, String, ◌≡◌, refl, inl, inr, true, false, none, some, List, [], ◌∷◌, str_eq, Bool-cases,
  Option-cases,
}
use concordia_protocol.Auth.{
  AuthTokenStore, SessionKey, find_key, canonical_role, is_expired, drop_expired,
  persist_session_tokens, any_role_of, register_agent_token, revoke_agent_token,
  register_session_tokens, validate_session_token, get_any_session_role,
}

pub data Call : Type 0 where
  register_agent : String → String → Call
  revoke_agent : String → Call
  open_session : String → String → String → ℕ → Call
  check_session : String → String → String → ℕ → Call
  ask_role : String → String → ℕ → Call

unfoldable pub step : (String → String) → Call → AuthTokenStore → AuthTokenStore
step lower (register_agent agent_id token) s = register_agent_token agent_id token s
step lower (revoke_agent agent_id) s = revoke_agent_token agent_id s
step lower (open_session sid init_token resp_token now) s =
    register_session_tokens sid init_token resp_token now s
step lower (check_session sid role token now) s =
    (validate_session_token lower sid role token now s).1
step lower (ask_role sid token now) s = (get_any_session_role sid token now s).1

unfoldable pub run : (String → String) → List Call → AuthTokenStore → AuthTokenStore
run lower [] s = s
run lower (c ∷ cs) s = run lower cs (step lower c s)

-- The branches of `validate_session_token`, for the key that it looks at.
pub validate_unknown :
    (lower : String → String) (sid role token : String) (now : ℕ) (s : AuthTokenStore)
    → find_key s.session_tokens (sid, canonical_role lower role) ≡ none
    → validate_session_token lower sid role token now s ≡ (false, s)
unfolding validate_session_token
validate_unknown lower sid role token now s h = rw (h, validate_session_token) refl

pub validate_expired :
    (lower : String → String) (sid role token : String) (now : ℕ) (s : AuthTokenStore) {e : String}
    → find_key s.session_tokens (sid, canonical_role lower role) ≡ some e
    → is_expired (sid, canonical_role lower role) now s ≡ true
    → validate_session_token lower sid role token now s
      ≡ (false, persist_session_tokens (drop_expired (sid, canonical_role lower role) s))
unfolding validate_session_token
validate_expired lower sid role token now s h g = rw (h, g, validate_session_token) refl

pub validate_live :
    (lower : String → String) (sid role token : String) (now : ℕ) (s : AuthTokenStore) {e : String}
    → find_key s.session_tokens (sid, canonical_role lower role) ≡ some e
    → is_expired (sid, canonical_role lower role) now s ≡ false
    → validate_session_token lower sid role token now s ≡ (str_eq e token, s)
unfolding validate_session_token
validate_live lower sid role token now s h g = rw (h, g, validate_session_token) refl

-- A property of the store that dropping an expired entry keeps is kept by the two lookups.
module _ (P : AuthTokenStore → Type 0) (now : ℕ)
    (drop : (key : SessionKey) (s : AuthTokenStore)
      → is_expired key now s ≡ true
      → P s
      → P (drop_expired key s))
    (persist : (s : AuthTokenStore) → P s → P (persist_session_tokens s)) where
  pub validate_keeps :
      (lower : String → String) (sid role token : String) (s : AuthTokenStore)
      → P s
      → P (validate_session_token lower sid role token now s).1
  validate_keeps lower sid role token s p =
      elim (Option-cases (find_key s.session_tokens (sid, canonical_role lower role))) [
        | inl unknown ↦ rw (validate_unknown lower sid role token now s unknown) p
        | inr (e, known) ↦ elim (Bool-cases (is_expired (sid, canonical_role lower role) now s)) [
          | inl expired ↦ rw (validate_expired lower sid role token now s known expired) (
              persist (drop_expired (sid, canonical_role lower role) s)
                (drop (sid, canonical_role lower role) s expired p))
          | inr live ↦ rw (validate_live lower sid role token now s known live) p
        ]
      ]

  pub any_role_keeps :
      (roles : List String) (sid token : String) (s : AuthTokenStore)
      → P s
      → P (any_role_of roles sid token now s).1
  unfolding any_role_of
  any_role_keeps [] sid token s p = p
  any_role_keeps (role ∷ roles) sid token s p =
      elim (Option-cases (find_key s.session_tokens (sid, role))) [
        | inl unknown ↦ rw (unknown, any_role_of) (any_role_keeps roles sid token s p)
        | inr (e, known) ↦ elim (Bool-cases (is_expired (sid, role) now s)) [
          | inl expired ↦
              rw (known, expired, any_role_of)
                (any_role_keeps roles sid token (drop_expired (sid, role) s)
                  (drop (sid, role) s expired p))
          | inr live ↦ elim (Bool-cases (str_eq e token)) [
            | inl found ↦ rw (known, live, found, any_role_of) p
            | inr other ↦ rw (known, live, other, any_role_of) (any_role_keeps roles sid token s p)
          ]
        ]
      ]
