-- ===== src/Session/Diagram.antt =====
-- The state diagram of a session: the rules of SPEC.md §5.2, and what the table in
-- concordia/session.py has besides.
use concordia_protocol.Prelude.{◌≡◌, refl, some, arith}
use concordia_protocol.Types.{
  SessionState, proposed, active, agreed, rejected, dormant, MessageType, msg_open, accept_session,
  decline_session, offer, counter, accept, reject, inquire, constrain, signal, withdraw,
  propose_mediator, resolve, commit,
}
use concordia_protocol.Session.{transitions}

-- The rules of §5.2 whose trigger is a message. The rules also say which party has to send it, and
-- AGREED there takes an accept from every party: the table knows nothing of the parties, so the
-- last column is left out here, and one accept is enough.
pub data Rule : SessionState → MessageType → SessionState → Type 0 where
  start : Rule proposed accept_session active
  decline : Rule proposed decline_session rejected
  bargain_offer : Rule active offer active
  bargain_counter : Rule active counter active
  tell : Rule active signal active
  ask : Rule active inquire active
  limit : Rule active constrain active
  agree : Rule active accept agreed
  refuse : Rule active reject rejected
  leave : Rule active withdraw rejected
  wake : Rule dormant offer active

-- The edges that §5.2 does not have: the message that opens the session, the two of mediation, and
-- the commit.
pub data Addition : SessionState → MessageType → SessionState → Type 0 where
  reopen : Addition proposed msg_open proposed
  mediate : Addition active propose_mediator active
  settle : Addition active resolve active
  bind : Addition active commit agreed

pub data Edge (s : SessionState) (t : MessageType) (u : SessionState) : Type 0 where
  by_rule : Rule s t u → Edge s t u
  by_addition : Addition s t u → Edge s t u

ruleset edges = (
  start, decline, bargain_offer, bargain_counter, tell, ask, limit, agree, refuse, leave, wake,
  reopen, mediate, settle, bind, by_rule, by_addition,
)

Rule-transitions :
    {s : SessionState} {t : MessageType} {u : SessionState} → Rule s t u → transitions s t ≡ some u
unfolding transitions
Rule-transitions start = refl
Rule-transitions _ = refl

Addition-transitions :
    {s : SessionState} {t : MessageType} {u : SessionState}
    → Addition s t u
    → transitions s t ≡ some u
unfolding transitions
Addition-transitions reopen = refl
Addition-transitions _ = refl

pub Edge-transitions :
    {s : SessionState} {t : MessageType} {u : SessionState} → Edge s t u → transitions s t ≡ some u
Edge-transitions (by_rule r) = Rule-transitions r
Edge-transitions (by_addition a) = Addition-transitions a

pub transitions-Edge :
    (s : SessionState) (t : MessageType) (u : SessionState) → transitions s t ≡ some u → Edge s t u
unfolding transitions
transitions-Edge s t u h = grind (arith, edges)
