-- ===== src/Auth/Sessions.antt =====
-- The session tokens of concordia/auth.py: a token validates until its time is over, and not longer.
use concordia_protocol.Prelude.{
  ℕ, ◌+◌, ◌≤◌, ◌<◌, String, Bool, true, false, ◌≡◌, refl, sym, ◌∙◌, ap, inl, inr, none, some, List,
  [], ◌∷◌, arith, str_eq, leb, if◌then◌else◌, Bool-cases,
}
use mathlib.Core.Path.{subst}
use concordia_protocol.Auth.{
  AuthTokenStore, SessionKey, Keyed, eq_key, find_key, set_key, drop_key, canonical_role,
  is_expired, drop_expired, persist_session_tokens, register_agent_token, revoke_agent_token,
  register_session_tokens, validate_session_token, get_any_session_role,
}
use concordia_protocol.Auth.Keys.{find-set, find-drop, eq_key_iff, eq_key_refl}
use concordia_protocol.Auth.Calls.{
  Call, register_agent, revoke_agent, open_session, check_session, ask_role, step, run,
  validate_expired, validate_live, validate_keeps, any_role_keeps,
}

-- The token stands under the key until that time.
abbrev pub Holds : SessionKey → String → ℕ → AuthTokenStore → Type 0
Holds key token expiry s =
    (find_key s.session_tokens key ≡ some token) × (find_key s.session_expiry key ≡ some expiry)

-- The call is made before that time, and does not open that session again.
abbrev pub Spares : String → ℕ → Call → Type 0
Spares sid expiry (register_agent _ _) = Unit
Spares sid expiry (revoke_agent _) = Unit
Spares sid expiry (open_session other _ _ now) = str_eq other sid ≡ false
Spares sid expiry (check_session _ _ _ now) = now < expiry
Spares sid expiry (ask_role _ _ now) = now < expiry

abbrev pub AllSpare : String → ℕ → List Call → Type 0
AllSpare sid expiry [] = Unit
AllSpare sid expiry (c ∷ cs) = Spares sid expiry c × AllSpare sid expiry cs

le_leb : (a b : ℕ) → a ≤ b → leb a b ≡ true
le_leb a b h = ground arith

true_then_false : {b : Bool} → b ≡ true → b ≡ false → ⊥
true_then_false h g = cc

leb-false : (a b : ℕ) → b < a → leb a b ≡ false
leb-false a b h = ground arith

pub live :
    (key : SessionKey) (expiry now : ℕ) (s : AuthTokenStore)
    → find_key s.session_expiry key ≡ some expiry
    → now < expiry
    → is_expired key now s ≡ false
unfolding is_expired
live key expiry now s e lt = rw (e, is_expired) (leb-false expiry now lt)

pub dead :
    (key : SessionKey) (expiry now : ℕ) (s : AuthTokenStore)
    → find_key s.session_expiry key ≡ some expiry
    → expiry ≤ now
    → is_expired key now s ≡ true
unfolding is_expired
dead key expiry now s e le = rw (e, is_expired) (le_leb expiry now le)

pub persisted_tokens :
    (s : AuthTokenStore) → (persist_session_tokens s).session_tokens ≡ s.session_tokens
unfolding persist_session_tokens
persisted_tokens s = ground arith

persisted_expiry :
    (s : AuthTokenStore) → (persist_session_tokens s).session_expiry ≡ s.session_expiry
unfolding persist_session_tokens
persisted_expiry s = ground arith

absent_after_drop :
    {V : Type 0} (d : Keyed V) (key j : SessionKey) → key ≡ j → find_key (drop_key d key) j ≡ none
absent_after_drop d key j same =
    find-drop d key j
    ∙ ap (λ b. if b then none else find_key d j) (ap (eq_key key) (sym same) ∙ eq_key_refl key)

dropped_expiry :
    (key j : SessionKey) (s : AuthTokenStore)
    → key ≡ j
    → find_key (drop_expired key s).session_expiry j ≡ none
unfolding drop_expired
dropped_expiry key j s same = absent_after_drop s.session_expiry key j same

dropped_key :
    (key j : SessionKey) (s : AuthTokenStore)
    → key ≡ j
    → find_key (drop_expired key s).session_tokens j ≡ none
unfolding drop_expired
dropped_key key j s same = absent_after_drop s.session_tokens key j same

-- The entries of another session are not those of this one.
other_session :
    {V : Type 0} (d : Keyed V) (other sid role : String) (v w : V)
    → str_eq other sid ≡ false
    → find_key (set_key (set_key d (other, "initiator") v) (other, "responder") w) (sid, role)
      ≡ find_key d (sid, role)
other_session d other sid role v w differs =
    rw
      (
        find-set (set_key d (other, "initiator") v) (other, "responder") (sid, role) w,
        find-set d (other, "initiator") (sid, role) v,
        differs,
      )
      refl

module _ (sid role token : String) (expiry : ℕ) where
  abbrev Kept : AuthTokenStore → Type 0
  Kept = Holds (sid, role) token expiry

  persist-Kept : (s : AuthTokenStore) → Kept s → Kept (persist_session_tokens s)
  unfolding persist_session_tokens
  persist-Kept s h = elim (Bool-cases s.writable) [ inl on ↦ rw on h | inr off ↦ rw off h ]

  -- An entry that has expired is another one.
  drop-Kept :
      (now : ℕ)
      → now < expiry
      → (key : SessionKey) (s : AuthTokenStore) → is_expired key now s ≡ true
      → Kept s
      → Kept (drop_expired key s)
  unfolding is_expired drop_expired
  drop-Kept now lt key s expired (t, e) = elim (Bool-cases (eq_key key (sid, role))) [
    | inl same ↦
        let here : is_expired (sid, role) now s ≡ true =
          subst (λ k. is_expired k now s ≡ true) (eq_key_iff key (sid, role) same) expired in
        absurd (true_then_false here (live (sid, role) expiry now s e lt))
    | inr other ↦ (
      rw (find-drop s.session_tokens key (sid, role), other) t,
      rw (find-drop s.session_expiry key (sid, role), other) e,
    )
  ]

  open-Kept :
      (other i r : String) (now : ℕ) (s : AuthTokenStore)
      → str_eq other sid ≡ false
      → Kept s
      → Kept (register_session_tokens other i r now s)
  unfolding register_session_tokens
  open-Kept other i r now s differs (t, e) = persist-Kept _ (
    other_session s.session_tokens other sid role i r differs ∙ t,
    other_session s.session_expiry other sid role (now + s.ttl_seconds) (now + s.ttl_seconds)
          differs
        ∙ e,
  )

  step-Kept :
      (lower : String → String) (c : Call) (s : AuthTokenStore)
      → Spares sid expiry c
      → Kept s
      → Kept (step lower c s)
  unfolding step register_agent_token revoke_agent_token get_any_session_role
  step-Kept lower (register_agent _ _) s sp h = h
  step-Kept lower (revoke_agent _) s sp h = h
  step-Kept lower (open_session other i r now) s sp h = open-Kept other i r now s sp h
  step-Kept lower (check_session sid' role' token' now) s sp h =
      validate_keeps Kept now (drop-Kept now sp) persist-Kept lower sid' role' token' s h
  step-Kept lower (ask_role sid' token' now) s sp h =
      any_role_keeps Kept now (drop-Kept now sp) persist-Kept ("initiator" ∷ "responder" ∷ []) sid'
        token' s h

  run-Kept :
      (lower : String → String) (cs : List Call) (s : AuthTokenStore)
      → AllSpare sid expiry cs
      → Kept s
      → Kept (run lower cs s)
  unfolding run
  run-Kept lower [] s sp h = h
  run-Kept lower (c ∷ cs) s sp h =
      run-Kept lower cs (step lower c s) sp.1 (step-Kept lower c s sp.0 h)

  -- A token that stands under a session and a role validates there before its expiry, whatever calls
  -- come between that are made before the expiry and do not open the session again; no other token
  -- does.
  pub run-validates :
      (lower : String → String) (cs : List Call) (s : AuthTokenStore) (as_role presented : String)
      (now : ℕ)
      → canonical_role lower as_role ≡ role
      → Holds (sid, role) token expiry s
      → AllSpare sid expiry cs
      → now < expiry
      → (validate_session_token lower sid as_role presented now (run lower cs s)).0
        ≡ str_eq token presented
  run-validates lower cs s as_role presented now canon h sp lt =
      let end = run lower cs s in
      let (t, e) = run-Kept lower cs s sp h in
      ap (λ (r : Bool × AuthTokenStore). r.0)
        (validate_live lower sid as_role presented now end
          (subst (λ r. find_key end.session_tokens (sid, r) ≡ some token) (sym canon) t)
          (subst (λ r. is_expired (sid, r) now end ≡ false) (sym canon)
            (live (sid, role) expiry now end e lt)))

  -- At its expiry a token is refused, and neither it nor its expiry is kept.
  pub validate_at_expiry :
      (lower : String → String) (s : AuthTokenStore) (as_role presented : String) (now : ℕ)
      → canonical_role lower as_role ≡ role
      → Holds (sid, role) token expiry s
      → expiry ≤ now
      → ((validate_session_token lower sid as_role presented now s).0 ≡ false)
        × (find_key
              (validate_session_token lower sid as_role presented now s).1.session_tokens
              (sid, role)
            ≡ none)
        × (find_key
              (validate_session_token lower sid as_role presented now s).1.session_expiry
              (sid, role)
            ≡ none)
  validate_at_expiry lower s as_role presented now canon (t, e) le =
      let key : SessionKey = (sid, canonical_role lower as_role) in
      let result =
        validate_expired lower sid as_role presented now s
          (subst (λ r. find_key s.session_tokens (sid, r) ≡ some token) (sym canon) t)
          (subst (λ r. is_expired (sid, r) now s ≡ true) (sym canon)
            (dead (sid, role) expiry now s e le)) in
      rw result (
        refl,
        ap (λ d. find_key d (sid, role)) (persisted_tokens (drop_expired key s))
            ∙ dropped_key key (sid, role) s (ap (λ r. (sid, r)) canon),
        ap (λ d. find_key d (sid, role)) (persisted_expiry (drop_expired key s))
            ∙ dropped_expiry key (sid, role) s (ap (λ r. (sid, r)) canon),
      )
