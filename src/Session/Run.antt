-- ===== src/Session/Run.antt =====
-- The life of a session: the calls that the program makes on it, in any order.
use concordia_protocol.Prelude.{ℕ, String, Option, List, [], ◌∷◌}
use concordia_protocol.Types.{PartyRole}
use concordia_protocol.Message.{Host, Message}
use concordia_protocol.Session.{Session, add_party, apply_message, expire, make_dormant}

-- A call of a method of the session, with its arguments and the time.
pub data Call (H : Host) : Type 0 where
  deliver : Message H.Num → ℕ → Call H
  lapse : ℕ → Call H
  sleep : Call H
  join : String → PartyRole → Option H.Key → Call H

module _ (H : Host) (resolver : String → Option H.Key) where
  -- The session after a call; an exception goes to the caller.
  unfoldable pub step : Session H → Call H → Session H
  step s (deliver m now) = (apply_message H resolver m now s).1
  step s (lapse now) = (expire H now s).1
  step s sleep = (make_dormant H s).1
  step s (join agent_id role key) = add_party H agent_id role key s

  unfoldable pub run : Session H → List (Call H) → Session H
  run s [] = s
  run s (c ∷ cs) = run (step s c) cs

  -- What every call keeps, every run keeps.
  pub run_induction :
      (P : Session H → Type 0)
      → ((s : Session H) (c : Call H) → P s → P (step s c))
      → (s : Session H) (cs : List (Call H)) → P s
      → P (run s cs)
  unfolding run
  run_induction P keep s [] h = h
  run_induction P keep s (c ∷ cs) h = run_induction P keep (step s c) cs (keep s c h)
