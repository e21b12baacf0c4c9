-- ===== src/Auth/Tests.antt =====
-- A store with two agents and a session, and the theorems at it.
use concordia_protocol.Prelude.{
  String, ◌≡◌, refl, ◌↔◌, true, false, none, some, List, [], ◌∷◌, arith, str_eq, if◌then◌else◌,
  eq_iff,
}
use concordia_protocol.Prelude.Dict.{get, put, remove}
use concordia_protocol.Auth.{
  AuthTokenStore, find_key, set_key, drop_key, pop_token, register_agent_token, revoke_agent_token,
  token_matches, validate_agent_token, get_agent_id_for_token, canonical_role, or_zero,
  saved_tokens, persist_session_tokens, register_session_tokens, is_expired, drop_expired,
  validate_session_token, any_role_of, get_any_session_role, load_entries, load_file,
  load_session_tokens, new_store,
}
use concordia_protocol.Auth.Calls.{
  Call, register_agent, revoke_agent, open_session, check_session, ask_role, step, run,
}
use concordia_protocol.Auth.Agents.{Inverse, Fresh, run-token_owner, register-replaces}
use concordia_protocol.Auth.Sessions.{Holds, AllSpare, run-validates, validate_at_expiry}
use concordia_protocol.Auth.Reload.{Savable, new_store-persist}

program : Unit {0}
unfolding get put remove find_key set_key drop_key pop_token register_agent_token revoke_agent_token
    token_matches validate_agent_token get_agent_id_for_token canonical_role or_zero saved_tokens
    persist_session_tokens register_session_tokens is_expired drop_expired validate_session_token
    any_role_of get_any_session_role load_entries load_file load_session_tokens new_store step run
program = tt

abbrev lower : String → String
lower s = s

abbrev empty : AuthTokenStore
empty = new_store none true 100 true 5

abbrev setup : List Call
setup =
    register_agent "ann" "t1"
    ∷ register_agent "bob" "t2"
    ∷ open_session "ses" "i1" "r1" 10
    ∷ register_agent "ann" "t3"
    ∷ revoke_agent "bob"
    ∷ []

abbrev ready : AuthTokenStore
ready = run lower setup empty

empty-Inverse : Inverse empty
unfolding program
empty-Inverse a t = (λ h. absurd (ground (arith, h)), λ h. absurd (ground (arith, h)))

setup-Fresh : Fresh lower setup empty
unfolding program
setup-Fresh = (refl, (refl, (refl, tt)))

run-token_owner_example :
    (validate_agent_token "ann" "t3" ready ≡ true)
    ↔ (get_agent_id_for_token "t3" ready ≡ some "ann")
run-token_owner_example = run-token_owner lower setup empty setup-Fresh empty-Inverse "ann" "t3"

abbrev one_agent : AuthTokenStore
one_agent = register_agent_token "ann" "t1" empty

one_agent-Inverse : Inverse one_agent
unfolding program
one_agent-Inverse a t = ground (arith, eq_iff "ann" a, eq_iff "t1" t)

fresh_token : get one_agent.token_to_agent "t9" ≡ none
unfolding program
fresh_token = refl

first_token : validate_agent_token "ann" "t1" one_agent ≡ true
unfolding program
first_token = refl

register-replaces_example :
    (validate_agent_token "ann" "t9" (register_agent_token "ann" "t9" one_agent) ≡ true)
    × (get_agent_id_for_token "t1" (register_agent_token "ann" "t9" one_agent) ≡ none)
    × ((b : String)
        → validate_agent_token b "t1" (register_agent_token "ann" "t9" one_agent) ≡ false)
register-replaces_example =
    register-replaces "ann" "t9" "t1" one_agent one_agent-Inverse fresh_token first_token

ready-Holds : Holds ("ses", "responder") "r1" 110 ready
unfolding program
ready-Holds = (refl, refl)

buyer_role : canonical_role lower "buyer" ≡ "responder"
unfolding program
buyer_role = refl

abbrev between : List Call
between =
    check_session "ses" "seller" "wrong" 60
    ∷ ask_role "ses" "i1" 109
    ∷ open_session "next" "i2" "r2" 300
    ∷ []

between-AllSpare : AllSpare "ses" 110 between
between-AllSpare = (omega arith, (omega arith, (refl, tt)))

run-validates_example :
    (validate_session_token lower "ses" "buyer" "r1" 109 (run lower between ready)).0
    ≡ str_eq "r1" "r1"
run-validates_example =
    run-validates "ses" "responder" "r1" 110 lower between ready "buyer" "r1" 109 buyer_role
      ready-Holds between-AllSpare (omega arith)

validate_at_expiry_example :
    ((validate_session_token lower "ses" "buyer" "r1" 110 ready).0 ≡ false)
    × (find_key
          (validate_session_token lower "ses" "buyer" "r1" 110 ready).1.session_tokens
          ("ses", "responder")
        ≡ none)
    × (find_key
          (validate_session_token lower "ses" "buyer" "r1" 110 ready).1.session_expiry
          ("ses", "responder")
        ≡ none)
validate_at_expiry_example =
    validate_at_expiry "ses" "responder" "r1" 110 lower ready "buyer" "r1" 110 buyer_role
      ready-Holds (omega arith)

ready-Savable : Savable ready.session_tokens ready.session_expiry
unfolding program
ready-Savable = (refl, refl, (110, refl, omega arith), (refl, refl, (110, refl, omega arith), tt))

ready_writable : ready.writable ≡ true
unfolding program
ready_writable = refl

new_store-persist_example :
    find_key
      (new_store (persist_session_tokens ready).file true 50 true 60).session_tokens
      ("ses", "initiator")
    ≡ (if is_expired ("ses", "initiator") 60 ready
        then none
        else find_key ready.session_tokens ("ses", "initiator"))
new_store-persist_example =
    new_store-persist ready true 50 60 ("ses", "initiator") ready_writable ready-Savable
