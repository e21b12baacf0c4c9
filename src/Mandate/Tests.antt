-- ===== src/Mandate/Tests.antt =====
-- A mandate that is passed on once and its verification, and the theorems at it.
use concordia_protocol.Prelude.{
  ℕ, String, Bool, true, false, ◌&&◌, ◌≡◌, refl, ◌↔◌, Option, none, some, List, [], ◌∷◌, arith,
  str_eq, leb, if◌then◌else◌, All, ok,
}
use concordia_protocol.Prelude.Dict.{Dict, get, put}
use concordia_protocol.Closure.{
  Value, text, number, object, array, Fields, no_fields, field, Items, no_items, item, get_field,
}
use concordia_protocol.Mandate.{
  Mandate, DelegationLink, ValidityWindow, active, status_value, mode_value, windowed, field_if,
  text_option, object_option, nonempty_object, nonempty_text, nonempty_array, number_option,
  link_to_dict, links_to_dicts, validity_to_dict, validity_option, mandate_to_dict, drop_field,
  json_schema_keywords, has_keyword, max_spend_schema, shorthand, schema_items, all_of,
  listed_schema, join_schemas, composed, scope_restriction_to_schema, restriction, compose_schemas,
  compose_effective_constraints,
}
use concordia_protocol.Mandate.Endpoint.{
  Flags, v4, Net, answered, first_some, or_own, unwrapped, ip_is_disallowed,
  max_revocation_response_bytes, present_host, port_or_443, resolved_addresses, check_address,
  check_addresses, check_host, check_url, validate_revocation_endpoint, among_items, among_keys,
  in_value, revoked_ids, read_answer, read_fetched, ask_endpoint, after_guard, check_revocation,
}
use concordia_protocol.Mandate.Verify.{
  Host, Context, aware, noted, because, finish_check, check, between_stamps, is_active,
  empty_fields, same_or_absent, true_or_absent, continues, error_if, no_errors, finished, in_window,
  in_mode, check_temporal_validity, permits, validate_constraints, signature_errors, link_errors,
  chain_errors, last_delegate, verify_delegation_chain, issuer_signature_valid, missing_context,
  check_window, check_validity, check_action, check_chain, check_endpoint, new_result, run_checks,
  verify_mandate,
}
use concordia_protocol.Mandate.Chain.{Leads, Signed, verify_delegation_chain_iff}
use concordia_protocol.Mandate.Granted.{is_valid}
use concordia_protocol.Mandate.Narrowing.{Allows, AllOf, LinkAllows, verify_mandate_narrows}
use concordia_protocol.Mandate.Fetches.{Guarded, check_revocation-Guarded}

program : Unit {0}
unfolding get put get_field status_value mode_value field_if text_option object_option
    nonempty_object nonempty_text nonempty_array number_option link_to_dict links_to_dicts
    validity_to_dict validity_option mandate_to_dict drop_field json_schema_keywords has_keyword
    max_spend_schema shorthand schema_items all_of listed_schema join_schemas composed
    scope_restriction_to_schema restriction compose_schemas compose_effective_constraints first_some
    or_own unwrapped ip_is_disallowed max_revocation_response_bytes present_host port_or_443
    resolved_addresses check_address check_addresses check_host check_url
    validate_revocation_endpoint among_items among_keys in_value revoked_ids read_answer
    read_fetched ask_endpoint after_guard check_revocation noted because finish_check check
    between_stamps is_active empty_fields same_or_absent true_or_absent continues error_if no_errors
    finished in_window in_mode check_temporal_validity permits validate_constraints signature_errors
    link_errors chain_errors last_delegate verify_delegation_chain issuer_signature_valid
    missing_context check_window check_validity check_action check_chain check_endpoint new_result
    run_checks verify_mandate
program = tt

-- JSON Schema with "allOf", and "maximum" as a bound on the amount of an action.
abbrev at_most : Value ℕ → Option (Value ℕ) → Bool
at_most (number n) (some (number a)) = leb a n
at_most v o = true

unfoldable mutual
  obeys : Fields ℕ → Fields ℕ → Bool
  obeys action no_fields = true
  obeys action (field k v fs) =
      (if str_eq k "allOf" then obeys_all action v else true)
      && (if str_eq k "maximum" then at_most v (get_field action "amount") else true)
      && obeys action fs

  obeys_all : Fields ℕ → Value ℕ → Bool
  obeys_all action (array vs) = obeys_items action vs
  obeys_all action v = true

  obeys_items : Fields ℕ → Items ℕ → Bool
  obeys_items action no_items = true
  obeys_items action (item (object s) vs) = obeys action s && obeys_items action vs
  obeys_items action (item v vs) = obeys_items action vs

abbrev open_address : Flags
open_address = record {
  is_private = false;
  is_loopback = false;
  is_link_local = false;
  is_multicast = false;
  is_reserved = false;
  is_unspecified = false;
}

abbrev net : Net ℕ
net = record {
  urlsplit =
      λ url. some (record { scheme = "https"; hostname = some "lists.example"; port = some none });
  rstrip_dots = λ s. s;
  ip_address = λ s. if str_eq s "93.1.1.1" then some (v4 open_address) else none;
  getaddrinfo = λ host port. some ("93.1.1.1" ∷ []);
  fetch = λ url.
      answered 40
        (some (object (field "revoked_ids" (array (item (text "m0") no_items)) no_fields)));
  is_substring = λ s t. false;
}

abbrev host : Host
host = record {
  Num = ℕ;
  PublicKey = String;
  read_stamp = λ s. if str_eq s "start" then some (aware 10) else some (aware 20);
  mandate_schema = λ d. true;
  check_schema = λ s. true;
  validates = obeys;
  verify_signature = λ d sig key alg. str_eq sig key;
  net = net;
}

abbrev window : ValidityWindow ℕ
window = record {
  mode = windowed;
  not_before = some "start";
  not_after = some "end";
  sequence_key = none;
  state_condition = none;
  max_uses = none;
}

abbrev passed_on : DelegationLink ℕ
passed_on = record {
  delegator = "ann";
  delegate = "bob";
  scope_restriction = some (field "maximum" (number 5) no_fields);
  delegated_at = "start";
  signature = "ann_key";
  algorithm = "EdDSA";
}

abbrev mandate : Mandate ℕ
mandate = record {
  mandate_id = "m1";
  issuer = "ann";
  subject = "bob";
  issued_at = "start";
  validity = some window;
  constraints = field "maximum" (number 8) no_fields;
  delegation_chain = passed_on ∷ [];
  revocation_endpoint = some "https://lists.example/";
  revoked_at = none;
  metadata = no_fields;
  signature = "ann_key";
  algorithm = "EdDSA";
  status = active;
}

abbrev spend : ℕ → Fields ℕ
spend n = field "amount" (number n) no_fields

abbrev asked : ℕ → Context host
asked n = record {
  issuer_public_key = "ann_key";
  now = 15;
  sequence_key = none;
  state_active = none;
  action = some (spend n);
  delegation_public_keys = ("ann", "ann_key") ∷ [];
  check_revocation_status = true;
  require_binding_context = true;
  allow_insecure_revocation_endpoint = false;
}

small_valid : is_valid (verify_mandate host mandate (asked 4)) ≡ true
unfolding program obeys obeys_all obeys_items
small_valid = refl

-- The mandate allows 8, and what was passed on of it 5.
large_invalid : is_valid (verify_mandate host mandate (asked 7)) ≡ false
unfolding program obeys obeys_all obeys_items
large_invalid = refl

abbrev known_keys : Dict String
known_keys = ("ann", "ann_key") ∷ []

verify_delegation_chain_iff_example :
    (no_errors (verify_delegation_chain host (passed_on ∷ []) "ann" "bob" known_keys) ≡ true)
    ↔ (Leads host "ann" (passed_on ∷ []) "bob" × All (Signed host known_keys) (passed_on ∷ []))
verify_delegation_chain_iff_example =
    verify_delegation_chain_iff host passed_on [] "ann" "bob" known_keys

both_true : (a b : Bool) → (a && b) ≡ true → (a ≡ true) × (b ≡ true)
both_true a b h = (ground (arith, h), ground (arith, h))

items_satisfied :
    (action : Fields ℕ) (ss : List (Fields ℕ))
    → obeys_items action (schema_items ss) ≡ true
    → All (Allows host action) ss
unfolding obeys_items schema_items
items_satisfied action [] h = tt
items_satisfied action (s ∷ ss) h =
    let (now, later) = both_true _ _ h in (now, items_satisfied action ss later)

host-AllOf : AllOf host
unfolding obeys obeys_all
host-AllOf action ss h = items_satisfied action ss (ground (arith, h))

verify_mandate_narrows_example :
    Allows host (spend 4) mandate.constraints
    × All (LinkAllows host (spend 4)) mandate.delegation_chain
verify_mandate_narrows_example =
    verify_mandate_narrows host host-AllOf (asked 4) mandate (spend 4) refl small_valid

not_listed : (check_revocation net "m1" "https://lists.example/" false).not_revoked ≡ ok true
unfolding program
not_listed = refl

listed_revoked : (check_revocation net "m0" "https://lists.example/" false).not_revoked ≡ ok false
unfolding program
listed_revoked = refl

-- The endpoint's name resolves to an address of a private network.
abbrev inside : Net ℕ
inside = record net {
  ip_address = λ s.
      if str_eq s "93.1.1.1" then some (v4 (record open_address { is_private = true })) else none;
}

inside_unasked : (check_revocation inside "m1" "https://lists.example/" false).requests ≡ []
unfolding program
inside_unasked = refl

check_revocation-Guarded_example :
    Guarded net "m1" "https://lists.example/"
      (check_revocation net "m1" "https://lists.example/" false)
check_revocation-Guarded_example = check_revocation-Guarded net "m1" "https://lists.example/"
