-- ===== src/Auth.antt =====
-- concordia/auth.py: the store of bearer tokens. The tokens that `generate_token` makes and the
-- time of a call are arguments, times are seconds; `str.lower` is a parameter. The file of session
-- tokens is a part of the state: its entries, and whether the directory can be written. An entry
-- has its fields with their types, and a token is an ASCII text.
pub mod Keys
pub mod Agents
pub mod Calls
pub mod Sessions
pub mod Reload
mod Tests
use concordia_protocol.Prelude.{
  ℕ, ◌+◌, ◌*◌, String, Bool, true, false, not, ◌&&◌, Option, none, some, List, [], ◌∷◌, str_eq,
  str_truthy, leb, ◌==◌, if◌then◌else◌, mem_str,
}
use concordia_protocol.Prelude.Dict.{Dict, get, put, remove}

abbrev pub SessionKey : Type 0
SessionKey = String × String

abbrev pub eq_key : SessionKey → SessionKey → Bool
eq_key (a, b) (c, d) = str_eq a c && str_eq b d

-- A `dict` whose keys are a session and a role.
abbrev pub Keyed : Type 0 → Type 0
Keyed V = List (SessionKey × V)

unfoldable pub find_key : {V : Type 0} → Keyed V → SessionKey → Option V
find_key [] k = none
find_key ((j, v) ∷ d) k = let later = find_key d k in if eq_key j k then some v else later

unfoldable pub set_key : {V : Type 0} → Keyed V → SessionKey → V → Keyed V
set_key [] k v = (k, v) ∷ []
set_key ((j, w) ∷ d) k v =
    let later = set_key d k v in if eq_key j k then (j, v) ∷ d else (j, w) ∷ later

unfoldable pub drop_key : {V : Type 0} → Keyed V → SessionKey → Keyed V
drop_key [] k = []
drop_key ((j, w) ∷ d) k = let rest = drop_key d k in if eq_key j k then rest else (j, w) ∷ rest

-- One entry of the file.
pub record SavedToken : Type 0 where
  pub session_id : String
  pub role : String
  pub token : String
  pub expires_at : ℕ

pub record AuthTokenStore : Type 0 where
  pub agent_tokens : Dict String
  pub session_tokens : Keyed String
  pub session_expiry : Keyed ℕ
  pub token_to_agent : Dict String
  pub ttl_seconds : ℕ
  pub file : Option (List SavedToken)
  pub writable : Bool

abbrev pub session_token_ttl_seconds : ℕ
session_token_ttl_seconds = 24 * 60 * 60

unfoldable pub pop_token : Option String → Dict String → Dict String
pop_token none d = d
pop_token (some old) d = remove d old

unfoldable pub register_agent_token : String → String → AuthTokenStore → AuthTokenStore
register_agent_token agent_id token s = record s {
  agent_tokens = put s.agent_tokens agent_id token;
  token_to_agent = put (pop_token (get s.agent_tokens agent_id) s.token_to_agent) token agent_id;
}

unfoldable pub revoke_agent_token : String → AuthTokenStore → AuthTokenStore
revoke_agent_token agent_id s = record s {
  agent_tokens = remove s.agent_tokens agent_id;
  token_to_agent = pop_token (get s.agent_tokens agent_id) s.token_to_agent;
}

-- `hmac.compare_digest` on ASCII texts; on others it raises.
unfoldable pub token_matches : Option String → String → Bool
token_matches none token = false
token_matches (some expected) token = str_eq expected token

unfoldable pub validate_agent_token : String → String → AuthTokenStore → Bool
validate_agent_token agent_id token s = token_matches (get s.agent_tokens agent_id) token

unfoldable pub get_agent_id_for_token : String → AuthTokenStore → Option String
get_agent_id_for_token token s = get s.token_to_agent token

unfoldable pub canonical_role : (String → String) → String → String
canonical_role lower role =
    if mem_str (lower role) ("initiator" ∷ "seller" ∷ "proposer" ∷ [])
    then "initiator"
    else if mem_str (lower role) ("responder" ∷ "buyer" ∷ "receiver" ∷ [])
    then "responder"
    else lower role

unfoldable pub or_zero : Option ℕ → ℕ
or_zero none = 0
or_zero (some t) = t

unfoldable pub saved_tokens : Keyed String → Keyed ℕ → List SavedToken
saved_tokens [] expiry = []
saved_tokens (((sid, role), token) ∷ d) expiry =
    record {
      session_id = sid;
      role = role;
      token = token;
      expires_at = or_zero (find_key expiry (sid, role));
    }
    ∷ saved_tokens d expiry

-- `_persist_session_tokens`, which gives up where the file cannot be written.
unfoldable pub persist_session_tokens : AuthTokenStore → AuthTokenStore
persist_session_tokens s =
    if s.writable
    then record s { file = some (saved_tokens s.session_tokens s.session_expiry) }
    else s

unfoldable pub register_session_tokens :
    String → String → String → ℕ → AuthTokenStore → AuthTokenStore
register_session_tokens sid init_token resp_token now s = persist_session_tokens (record s {
  session_tokens =
      set_key (set_key s.session_tokens (sid, "initiator") init_token) (sid, "responder")
        resp_token;
  session_expiry =
      set_key (set_key s.session_expiry (sid, "initiator") (now + s.ttl_seconds)) (sid, "responder")
        (now + s.ttl_seconds);
})

unfoldable pub is_expired : SessionKey → ℕ → AuthTokenStore → Bool
is_expired key now s = elim (find_key s.session_expiry key) [
  | none ↦ false
  | some exp ↦ leb exp now
]

unfoldable pub drop_expired : SessionKey → AuthTokenStore → AuthTokenStore
drop_expired key s = record s {
  session_tokens = drop_key s.session_tokens key;
  session_expiry = drop_key s.session_expiry key;
}

unfoldable pub validate_session_token :
    (String → String) → String → String → String → ℕ → AuthTokenStore → Bool × AuthTokenStore
validate_session_token lower sid role token now s =
    let key : SessionKey = (sid, canonical_role lower role) in
    let dropped : Bool × AuthTokenStore = (false, persist_session_tokens (drop_expired key s)) in
    elim (find_key s.session_tokens key) [
      | none ↦ (false, s)
      | some expected ↦ if is_expired key now s then dropped else (str_eq expected token, s)
    ]

-- The loop of `get_any_session_role`.
unfoldable pub any_role_of :
    List String → String → String → ℕ → AuthTokenStore → Option String × AuthTokenStore
any_role_of [] sid token now s = (none, s)
any_role_of (role ∷ roles) sid token now s = elim (find_key s.session_tokens (sid, role)) [
  | none ↦ any_role_of roles sid token now s
  | some expected ↦
      if is_expired (sid, role) now s
      then any_role_of roles sid token now (drop_expired (sid, role) s)
      else if str_eq expected token
      then (some role, s)
      else any_role_of roles sid token now s
]

unfoldable pub get_any_session_role :
    String → String → ℕ → AuthTokenStore → Option String × AuthTokenStore
get_any_session_role sid token now s = any_role_of ("initiator" ∷ "responder" ∷ []) sid token now s

-- The loop of `_load_session_tokens`, with `changed`.
unfoldable pub load_entries : List SavedToken → ℕ → Bool → AuthTokenStore → Bool × AuthTokenStore
load_entries [] now changed s = (changed, s)
load_entries (e ∷ es) now changed s =
    if not (str_truthy e.session_id && str_truthy e.role && str_truthy e.token)
    then load_entries es now changed s
    else if not (e.expires_at == 0) && leb e.expires_at now
    then load_entries es now true s
    else load_entries es now changed (record s {
      session_tokens = set_key s.session_tokens (e.session_id, e.role) e.token;
      session_expiry =
          set_key s.session_expiry (e.session_id, e.role)
            (if e.expires_at == 0 then now + s.ttl_seconds else e.expires_at);
    })

unfoldable pub load_file : Option (List SavedToken) → ℕ → AuthTokenStore → AuthTokenStore
load_file none now s = s
load_file (some entries) now s =
    let (changed, loaded) = load_entries entries now false s in
    if changed then persist_session_tokens loaded else loaded

unfoldable pub load_session_tokens : ℕ → AuthTokenStore → AuthTokenStore
load_session_tokens now s = load_file s.file now s

-- `__init__`: an empty store on a file, loaded unless `autoload` is off.
unfoldable pub new_store : Option (List SavedToken) → Bool → ℕ → Bool → ℕ → AuthTokenStore
new_store file writable ttl_seconds autoload now =
    let blank : AuthTokenStore = record {
      agent_tokens = [];
      session_tokens = [];
      session_expiry = [];
      token_to_agent = [];
      ttl_seconds = ttl_seconds;
      file = file;
      writable = writable;
    } in
    if autoload then load_session_tokens now blank else blank
