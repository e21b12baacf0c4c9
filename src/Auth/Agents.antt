-- ===== src/Auth/Agents.antt =====
-- The agent tokens of concordia/auth.py: the two dictionaries are inverse to each other, and a token
-- that was replaced or revoked is worth nothing.
use concordia_protocol.Prelude.{
  String, true, false, ◌≡◌, refl, ap, inl, inr, ◌↔◌, Option, none, some, inj_some, List, [], ◌∷◌,
  arith, eq_iff, if◌then◌else◌, Bool-cases,
}
use concordia_protocol.Prelude.Dict.{Dict, get, get-put, get-put_self, get-remove}
use concordia_protocol.Auth.Calls.{
  Call, register_agent, revoke_agent, open_session, check_session, ask_role, step, run,
  validate_keeps, any_role_keeps,
}
use concordia_protocol.Auth.{
  SessionKey, AuthTokenStore, pop_token, register_agent_token, revoke_agent_token, token_matches,
  validate_agent_token, get_agent_id_for_token, register_session_tokens, get_any_session_role,
  persist_session_tokens, drop_expired,
}

-- An agent has a token exactly when the token belongs to the agent.
abbrev pub InverseOf : Dict String → Dict String → Type 0
InverseOf agents tokens =
    (agent_id token : String)
    → (get agents agent_id ≡ some token) ↔ (get tokens token ≡ some agent_id)

abbrev pub Inverse : AuthTokenStore → Type 0
Inverse s = InverseOf s.agent_tokens s.token_to_agent

get-pop_token :
    (o : Option String) (d : Dict String) (t : String)
    → get (pop_token o d) t ≡ (if token_matches o t then none else get d t)
unfolding pop_token token_matches
get-pop_token none d t = refl
get-pop_token (some old) d t = get-remove d old t

token_matches_iff : (o : Option String) (t : String) → (token_matches o t ≡ true) ↔ (o ≡ some t)
unfolding token_matches
token_matches_iff none t = (λ h. absurd (ground (arith, h)), λ h. absurd (ground (arith, h)))
token_matches_iff (some s) t = (λ h. ap some ((eq_iff s t).0 h), λ h. (eq_iff s t).1 (inj_some h))

-- A new token for an agent; no agent has it.
pub register-Inverse :
    (agent_id token : String) (s : AuthTokenStore)
    → Inverse s
    → get s.token_to_agent token ≡ none
    → Inverse (register_agent_token agent_id token s)
unfolding register_agent_token
register-Inverse agent_id token s inv fresh a t = ground (
  arith,
  get-put s.agent_tokens agent_id a token,
  get-put (pop_token (get s.agent_tokens agent_id) s.token_to_agent) token t agent_id,
  get-pop_token (get s.agent_tokens agent_id) s.token_to_agent t,
  token_matches_iff (get s.agent_tokens agent_id) t,
  inv a t,
  inv agent_id t,
  inv a token,
  eq_iff agent_id a,
  eq_iff token t,
  fresh,
)

pub revoke-Inverse :
    (agent_id : String) (s : AuthTokenStore) → Inverse s → Inverse (revoke_agent_token agent_id s)
unfolding revoke_agent_token
revoke-Inverse agent_id s inv a t = ground (
  arith,
  get-remove s.agent_tokens agent_id a,
  get-pop_token (get s.agent_tokens agent_id) s.token_to_agent t,
  token_matches_iff (get s.agent_tokens agent_id) t,
  inv a t,
  inv agent_id t,
  eq_iff agent_id a,
)

persist-Inverse : (s : AuthTokenStore) → Inverse s → Inverse (persist_session_tokens s)
unfolding persist_session_tokens
persist-Inverse s inv = elim (Bool-cases s.writable) [ inl on ↦ rw on inv | inr off ↦ rw off inv ]

drop-Inverse : (key : SessionKey) (s : AuthTokenStore) → Inverse s → Inverse (drop_expired key s)
unfolding drop_expired
drop-Inverse key s inv = inv

-- Every token that a call issues belongs to nobody at that time.
abbrev pub Fresh : (String → String) → List Call → AuthTokenStore → Type 0
Fresh lower [] s = Unit
Fresh lower (register_agent agent_id token ∷ cs) s =
    (get s.token_to_agent token ≡ none)
    × Fresh lower cs (step lower (register_agent agent_id token) s)
Fresh lower (c ∷ cs) s = Fresh lower cs (step lower c s)

run-Fresh-Inverse :
    (lower : String → String) (cs : List Call) (s : AuthTokenStore)
    → Fresh lower cs s
    → Inverse s
    → Inverse (run lower cs s)
unfolding run step register_session_tokens get_any_session_role
run-Fresh-Inverse lower [] s f inv = inv
run-Fresh-Inverse lower (register_agent a t ∷ cs) s f inv =
    run-Fresh-Inverse lower cs _ f.1 (register-Inverse a t s inv f.0)
run-Fresh-Inverse lower (revoke_agent a ∷ cs) s f inv =
    run-Fresh-Inverse lower cs _ f (revoke-Inverse a s inv)
run-Fresh-Inverse lower (open_session sid i r now ∷ cs) s f inv =
    run-Fresh-Inverse lower cs _ f (persist-Inverse _ inv)
run-Fresh-Inverse lower (check_session sid role token now ∷ cs) s f inv =
    run-Fresh-Inverse lower cs _ f (
      validate_keeps Inverse now (λ key t _ p. drop-Inverse key t p) persist-Inverse lower sid role
        token s inv)
run-Fresh-Inverse lower (ask_role sid token now ∷ cs) s f inv = run-Fresh-Inverse lower cs _ f (
    any_role_keeps Inverse now (λ key t _ p. drop-Inverse key t p) persist-Inverse
      ("initiator" ∷ "responder" ∷ []) sid token s inv)

-- On a store whose two agent dictionaries are inverse, after any calls whose agent tokens are fresh
-- when they are issued, a token validates for exactly the agent that it is looked up to.
pub run-token_owner :
    (lower : String → String) (cs : List Call) (s : AuthTokenStore)
    → Fresh lower cs s
    → Inverse s
    → (agent_id token : String)
    → (validate_agent_token agent_id token (run lower cs s) ≡ true)
      ↔ (get_agent_id_for_token token (run lower cs s) ≡ some agent_id)
unfolding validate_agent_token get_agent_id_for_token
run-token_owner lower cs s f inv a t =
    let end = run lower cs s in
    let kept = run-Fresh-Inverse lower cs s f inv in
    (
      λ h. (kept a t).0 ((token_matches_iff (get end.agent_tokens a) t).0 h),
      λ h. (token_matches_iff (get end.agent_tokens a) t).1 ((kept a t).1 h),
    )

old_gone :
    (a token old : String) (s : AuthTokenStore)
    → Inverse s
    → get s.token_to_agent token ≡ none
    → get s.agent_tokens a ≡ some old
    → get (register_agent_token a token s).token_to_agent old ≡ none
unfolding register_agent_token
old_gone a token old s inv fresh held = ground (
  arith,
  get-put (pop_token (get s.agent_tokens a) s.token_to_agent) token old a,
  get-pop_token (get s.agent_tokens a) s.token_to_agent old,
  (token_matches_iff (get s.agent_tokens a) old).1 held,
  (inv a old).0 held,
  eq_iff token old,
  fresh,
)

-- When an agent gets a new token, the one it had validates for no agent, and belongs to none.
pub register-replaces :
    (agent_id token old : String) (s : AuthTokenStore)
    → Inverse s
    → get s.token_to_agent token ≡ none
    → validate_agent_token agent_id old s ≡ true
    → (validate_agent_token agent_id token (register_agent_token agent_id token s) ≡ true)
      × (get_agent_id_for_token old (register_agent_token agent_id token s) ≡ none)
      × ((b : String) → validate_agent_token b old (register_agent_token agent_id token s) ≡ false)
unfolding validate_agent_token get_agent_id_for_token register_agent_token
register-replaces a token old s inv fresh had =
    let after = register_agent_token a token s in
    let kept = register-Inverse a token s inv fresh in
    let held = (token_matches_iff (get s.agent_tokens a) old).0 had in
    let gone = old_gone a token old s inv fresh held in
    (
      (token_matches_iff (get after.agent_tokens a) token).1 (get-put_self s.agent_tokens a token),
      gone,
      λ b. elim (Bool-cases (token_matches (get after.agent_tokens b) old)) [
        | inr bad ↦ bad
        | inl good ↦
            let owner =
              (kept b old).0 ((token_matches_iff (get after.agent_tokens b) old).0 good) in
            absurd (cc)
      ],
    )
