-- ===== src/Relay/Lifecycle.antt =====
-- How the sessions of concordia/relay.py may change: what holds between a session before and
-- after any calls.
pub mod Calls
pub mod Runs
use concordia_protocol.Prelude.{
  ℕ, ◌+◌, ◌≤◌, String, ◌≡◌, refl, sym, ap, ◌∙◌, inl, inr, Bool, true, false, not, ◌&&◌, Option,
  none, some, List, [], ◌∷◌, ◌++◌, arith, if◌then◌else◌, str_eq, eq_iff, Bool-cases, Option-cases,
}
use mathlib.Core.Path.{subst}
use concordia_protocol.Prelude.Dict.{Dict, get, put, get-put}
use concordia_protocol.Relay.{
  RelayState, pending, active, concluded, archived, timed_out, Participant, RelaySession, Relay,
  is_open, is_timed_out, update_participant, record_skip, conclude, time_out, settle,
}
use concordia_protocol.Relay.Sessions.{try_join, confirm, settle_all}

-- The order of the states in a session's life.
abbrev pub rank : RelayState → ℕ
rank pending = 0
rank active = 1
rank timed_out = 2
rank concluded = 3
rank archived = 4

-- From `s` to `t` no state comes again, the initiator, the creation and the TTL stay, and a
-- session that is closed gets no further message.
pub record Evolves (s t : RelaySession) : Type 0 where
  pub forward : rank s.state ≤ rank t.state
  pub closed : 2 ≤ rank s.state → t.transcript ≡ s.transcript
  pub initiator : t.initiator.agent_id ≡ s.initiator.agent_id
  pub created_at : t.created_at ≡ s.created_at
  pub session_ttl : t.session_ttl ≡ s.session_ttl

pub Evolves-refl : (s : RelaySession) → Evolves s s
Evolves-refl s = ground arith

pub Evolves-trans : {s t u : RelaySession} → Evolves s t → Evolves t u → Evolves s u
Evolves-trans a b = record {
  forward = omega arith;
  closed = λ h. b.closed (omega arith) ∙ a.closed h;
  initiator = b.initiator ∙ a.initiator;
  created_at = b.created_at ∙ a.created_at;
  session_ttl = b.session_ttl ∙ a.session_ttl;
}

-- Every session is still there, and has evolved.
abbrev pub AllEvolve : Dict RelaySession → Dict RelaySession → Type 0
AllEvolve d e =
    (id : String) (s : RelaySession)
    → get d id ≡ some s
    → (t : RelaySession) × (get e id ≡ some t) × Evolves s t

pub AllEvolve-refl : (d : Dict RelaySession) → AllEvolve d d
AllEvolve-refl d id s e = (s, e, Evolves-refl s)

pub AllEvolve-trans : (d e f : Dict RelaySession) → AllEvolve d e → AllEvolve e f → AllEvolve d f
AllEvolve-trans d e f a b id s h =
    let (t, ht, st) = a id s h in let (u, hu, tu) = b id t ht in (u, hu, Evolves-trans st tu)

pub AllEvolve-put :
    (d : Dict RelaySession) (id : String) (s t : RelaySession)
    → get d id ≡ some s
    → Evolves s t
    → AllEvolve d (put d id t)
AllEvolve-put d id s t h v j u g = elim (Bool-cases (str_eq id j)) [
  | inl same ↦
      let key : get d id ≡ get d j = ap (get d) ((eq_iff id j).0 same) in
      let found : some s ≡ some u = sym h ∙ key ∙ g in
      let one : s ≡ u = cc in (t, ground (arith, get-put d id j t), subst (λ z. Evolves z t) one v)
  | inr other ↦ (u, ground (arith, get-put d id j t), Evolves-refl u)
]

pub settle-Evolves : (now : ℕ) (s : RelaySession) → Evolves s (settle now s)
unfolding settle time_out record_skip is_open
settle-Evolves now s = ground arith

pub conclude-Evolves :
    (reason : String) (now : ℕ) (s : RelaySession)
    → rank s.state ≤ 2
    → Evolves s (conclude reason now s)
unfolding conclude record_skip
conclude-Evolves reason now s h = ground arith

pub settle_all-AllEvolve : (now : ℕ) (d : Dict RelaySession) → AllEvolve d (settle_all now d)
unfolding settle_all get
settle_all-AllEvolve now [] id s h = cc
settle_all-AllEvolve now ((j, t) ∷ d) id s h = elim (Bool-cases (str_eq j id)) [
  | inl same ↦
      let found : some t ≡ some s = rw same at h in
      let one : t ≡ s = cc in
      (settle now t, rw same refl, subst (λ z. Evolves z (settle now t)) one (settle-Evolves now t))
  | inr other ↦
      let (u, g, v) = settle_all-AllEvolve now d id s (rw other at h) in (u, rw other g, v)
]

pub update_participant-Evolves :
    (a : String) (f : Participant → Participant) (s : RelaySession)
    → ((p : Participant) → (f p).agent_id ≡ p.agent_id)
    → Evolves s (update_participant a f s)
unfolding update_participant
update_participant-Evolves a f s keeps = ground (arith, keeps s.initiator)

pub try_join-Evolves :
    (a : String) (endpoint : Option String) (now : ℕ) (s : RelaySession) {t : RelaySession}
    → try_join a endpoint now s ≡ some t
    → Evolves s t
unfolding try_join
try_join-Evolves a endpoint now s h = ground arith

pub AllEvolve-put_fresh :
    (d : Dict RelaySession) (id : String) (t : RelaySession)
    → get d id ≡ none
    → AllEvolve d (put d id t)
AllEvolve-put_fresh d id t fresh j u g = elim (Bool-cases (str_eq id j)) [
  | inl same ↦ absurd (cc (ap (get d) ((eq_iff id j).0 same)))
  | inr other ↦ (u, ground (arith, get-put d id j t), Evolves-refl u)
]

pub settle_all_missing :
    (now : ℕ) (d : Dict RelaySession) (id : String)
    → get d id ≡ none
    → get (settle_all now d) id ≡ none
unfolding settle_all get
settle_all_missing now [] id h = refl
settle_all_missing now ((j, s) ∷ d) id h = ground (arith, settle_all_missing now d id)

pub time_out-Evolves :
    (now : ℕ) (s : RelaySession) → is_open s.state ≡ true → Evolves s (time_out now s)
unfolding time_out record_skip is_open
time_out-Evolves now s h = ground arith

pub open_rank : (s : RelayState) → is_open s ≡ true → rank s ≤ 1
unfolding is_open
open_rank s h = ground arith
