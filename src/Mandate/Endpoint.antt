-- ===== src/Mandate/Endpoint.antt =====
-- The revocation check of concordia/mandate.py: the guard on the endpoint, and the answer.
use concordia_protocol.Prelude.{
  ℕ, zero, suc, ◌*◌, String, Bool, false, not, ◌||◌, Option, none, some, List, [], ◌∷◌, str_eq,
  str_truthy, ltb, if◌then◌else◌, Result, ok, err, ◌>>=◌, ◌>>◌, guard,
}
use concordia_protocol.Closure.{
  Value, text, object, array, Fields, no_fields, field, Items, no_items, item, get_field,
}

-- What Python's `ipaddress` says of an address.
pub record Flags : Type 0 where
  pub is_private : Bool
  pub is_loopback : Bool
  pub is_link_local : Bool
  pub is_multicast : Bool
  pub is_reserved : Bool
  pub is_unspecified : Bool

-- An address; one of version 6 with the addresses of version 4 that it may hold.
pub data IpAddress : Type 0 where
  v4 : Flags → IpAddress
  v6 : (ipv4_mapped sixtofour teredo : Option Flags) → Flags → IpAddress

-- `urlsplit`: the scheme, the host, and the port, whose reading raises where it is not a port.
pub record SplitUrl : Type 0 where
  pub scheme : String
  pub hostname : Option String
  pub port : Option (Option ℕ)

-- What the opener gives: a redirect that its handler refuses, an endpoint that is out of reach, an
-- exception that the code does not catch, or an answer with its size and, where it is JSON, its value.
pub data Fetched (Num : Type 0) : Type 0 where
  redirected unreachable broken : Fetched Num
  answered : ℕ → Option (Value Num) → Fetched Num

-- Python's URLs, addresses and names, and the network. `getaddrinfo` is the lookup of the guard; the
-- one that the opener makes when it connects is a part of `fetch`.
pub record Net (Num : Type 0) : Type 0 where
  pub urlsplit : String → Option SplitUrl
  pub rstrip_dots : String → String
  pub ip_address : String → Option IpAddress
  pub getaddrinfo : String → ℕ → Option (List String)
  pub fetch : String → Fetched Num
  pub is_substring : String → String → Bool

-- An exception that leaves the code.
pub data Raised : Type 0 where
  value_error type_error attribute_error other_error : Raised

pub data Refusal : Type 0 where
  endpoint_error : Refusal
  uncaught : Raised → Refusal

-- The URLs that a check opened, and its result: whether the mandate is not revoked, or an exception
-- that leaves the code.
pub record Checked : Type 0 where
  pub requests : List String
  pub not_revoked : Result Raised Bool

unfoldable pub first_some : Option Flags → Option Flags → Option Flags
first_some none later = later
first_some (some f) later = some f

unfoldable pub or_own : Option Flags → Flags → Flags
or_own none own = own
or_own (some f) own = f

unfoldable pub unwrapped : IpAddress → Flags
unwrapped (v4 f) = f
unwrapped (v6 ipv4_mapped sixtofour teredo own) =
    or_own (first_some (first_some ipv4_mapped sixtofour) teredo) own

unfoldable pub ip_is_disallowed : IpAddress → Bool
ip_is_disallowed ip =
    let f = unwrapped ip in
    f.is_private || f.is_loopback || f.is_link_local || f.is_multicast || f.is_reserved
    || f.is_unspecified

unfoldable pub max_revocation_response_bytes : ℕ
max_revocation_response_bytes = 5 * 1024 * 1024

unfoldable pub present_host : Option String → Result Refusal String
present_host none = err endpoint_error
present_host (some h) = if str_truthy h then ok h else err endpoint_error

-- `parsed.port or 443`.
unfoldable pub port_or_443 : Option (Option ℕ) → Result Refusal ℕ
port_or_443 none = err (uncaught value_error)
port_or_443 (some none) = ok 443
port_or_443 (some (some zero)) = ok 443
port_or_443 (some (some (suc p))) = ok (suc p)

unfoldable pub resolved_addresses : Option (List String) → Result Refusal (List String)
resolved_addresses none = err endpoint_error
resolved_addresses (some []) = err endpoint_error
resolved_addresses (some (a ∷ addrs)) = ok (a ∷ addrs)

module _ {Num : Type 0} (N : Net Num) where
  unfoldable pub check_address : String → Result Refusal (Unit {0})
  check_address addr = elim (N.ip_address addr) [
    | none ↦ err endpoint_error
    | some ip ↦ guard (not (ip_is_disallowed ip)) endpoint_error
  ]

  unfoldable pub check_addresses : List String → Result Refusal (Unit {0})
  check_addresses [] = ok tt
  check_addresses (a ∷ addrs) = check_address a >> check_addresses addrs

  unfoldable pub check_host : SplitUrl → String → Result Refusal (Unit {0})
  check_host url host = elim (N.ip_address host) [
    | some ip ↦ guard (not (ip_is_disallowed ip)) endpoint_error
    | none ↦ port_or_443 url.port >>= λ port.
        resolved_addresses (N.getaddrinfo host port) >>= λ addrs. check_addresses addrs
  ]

  unfoldable pub check_url : Option SplitUrl → Result Refusal (Unit {0})
  check_url none = err endpoint_error
  check_url (some url) =
      guard (str_eq url.scheme "https") endpoint_error >> present_host url.hostname >>= λ hostname.
      present_host (some (N.rstrip_dots hostname)) >>= λ host. check_host url host

  unfoldable pub validate_revocation_endpoint : String → Result Refusal (Unit {0})
  validate_revocation_endpoint endpoint = check_url (N.urlsplit endpoint)

  unfoldable pub among_items : String → Items Num → Bool
  among_items s no_items = false
  among_items s (item (text t) vs) = str_eq s t || among_items s vs
  among_items s (item v vs) = among_items s vs

  unfoldable pub among_keys : String → Fields Num → Bool
  among_keys s no_fields = false
  among_keys s (field k v fs) = str_eq s k || among_keys s fs

  -- `mandate_id in revoked_ids`.
  unfoldable pub in_value : String → Value Num → Result Raised Bool
  in_value s (array vs) = ok (among_items s vs)
  in_value s (object fs) = ok (among_keys s fs)
  in_value s (text t) = ok (N.is_substring s t)
  in_value s v = err type_error

  -- `data.get("revoked_ids", [])`.
  unfoldable pub revoked_ids : Value Num → Result Raised (Value Num)
  revoked_ids (object fs) = elim (get_field fs "revoked_ids") [
    | none ↦ ok (array no_items)
    | some v ↦ ok v
  ]
  revoked_ids v = err attribute_error

  unfoldable pub read_answer : String → Option (Value Num) → Result Raised Bool
  read_answer mandate_id none = ok false
  read_answer mandate_id (some v) =
      revoked_ids v >>= λ ids. in_value mandate_id ids >>= λ found. ok (not found)

  unfoldable pub read_fetched : String → Fetched Num → Result Raised Bool
  read_fetched mandate_id redirected = ok false
  read_fetched mandate_id unreachable = ok false
  read_fetched mandate_id broken = err other_error
  read_fetched mandate_id (answered size parsed) =
      let answer = read_answer mandate_id parsed in
      if ltb max_revocation_response_bytes size then ok false else answer

  -- A check that asks the network.
  unfoldable pub ask_endpoint : String → String → Checked
  ask_endpoint mandate_id endpoint = record {
    requests = endpoint ∷ [];
    not_revoked = read_fetched mandate_id (N.fetch endpoint);
  }

  -- What becomes of a refusal by the guard.
  unfoldable pub after_guard : Result Refusal (Unit {0}) → Checked → Checked
  after_guard (err endpoint_error) later = record { requests = []; not_revoked = ok false }
  after_guard (err (uncaught e)) later = record { requests = []; not_revoked = err e }
  after_guard (ok _) later = later

  unfoldable pub check_revocation : String → String → Bool → Checked
  check_revocation mandate_id endpoint allow_insecure_endpoint =
      if allow_insecure_endpoint
      then ask_endpoint mandate_id endpoint
      else after_guard (validate_revocation_endpoint endpoint) (ask_endpoint mandate_id endpoint)
