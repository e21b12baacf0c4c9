-- ===== src/Session/Tests.antt =====
-- A negotiation between two agents, run on the model, and the theorems at its states.
use Prim.Native.Nat.{◌/◌}
use concordia_protocol.Prelude.{
  ℕ, ◌+◌, ◌-◌, ◌*◌, String, ◌≡◌, refl, inr, true, Option, none, some, List, [], ◌∷◌, ◌++◌, ltb,
  ◌==◌, str_eq, if◌then◌else◌, ok, err,
}
use concordia_protocol.Prelude.Dict.{get, put}
use concordia_protocol.Types.{
  active, agreed, MessageType, offer, counter, accept, accept_session, initiator, TimingConfig,
  type_value, type_of_value,
}
use concordia_protocol.Message.{Host, Message, genesis_hash, num, validate_chain}
use concordia_protocol.Message.Chain.{validate_chain_unique}
use concordia_protocol.Session.{
  Session, new_session, apply_message, expire, make_dormant, max_rounds_exceeded, get_behavior,
  admit, authenticate, present, known, absent_or_eq, read_type, next_state, transitions, is_round,
  tip_hash, commit_message, record_terms, track_behavior, enter, is_conclusion, same_state,
  fire_terminal, can_expire, can_sleep, add_party,
}
use concordia_protocol.Session.Behavior.{track_agent}
use concordia_protocol.Session.Diagram.{by_rule, agree}
use concordia_protocol.Session.Admission.{IsCredible, IsAdmissible, apply_message_iff}
use concordia_protocol.Session.Chained.{run-validate_chain}
use concordia_protocol.Session.Endings.{SameDeal, agreed_final, active_can_conclude}
use concordia_protocol.Session.Run.{Call, deliver, join, step, run}

abbrev total : List ℕ → ℕ
total [] = 0
total (n ∷ ns) = n + total ns

abbrev party_key : String → Option String
party_key a = if str_eq a "ann" then some "key-a" else if str_eq a "bob" then some "key-b" else none

-- Numbers for floats, the payload for the hash, and the key itself for a signature.
abbrev host : Host
host = record {
  Num = ℕ;
  zero = 0;
  of_ℕ = λ n. n;
  of_bool = λ b. if b then 1 else 0;
  is_zero = λ n. n == 0;
  is_pos = λ n. ltb 0 n;
  abs = λ n. n;
  add = λ a b. a + b;
  sub = λ a b. (a - b) + (b - a);
  mul = λ a b. a * b;
  div = λ a b. a / b;
  sum = total;
  Key = String;
  compute_hash = λ m. m.payload;
  verify_signature = λ m signature key. str_eq signature key;
}

abbrev message : String → String → MessageType → ℕ → String → String → Message ℕ
message agent key type price prev payload = record {
  agent_id = some agent;
  signature = some key;
  session_id = some "ses_1";
  prev_hash = some prev;
  type = some (type_value type);
  terms = some (("price", some (num price)) ∷ []);
  reasoning = none;
  payload = payload;
}

abbrev short_timing : TimingConfig
short_timing = record { session_ttl = 86400; offer_ttl = 3600; max_rounds = 2 }

abbrev start : Session host
start = new_session host "ses_1" short_timing true 0

abbrev hello : Message ℕ
hello = message "bob" "key-b" accept_session 0 genesis_hash "h1"

abbrev first_offer : Message ℕ
first_offer = message "ann" "key-a" offer 100 "h1" "h2"

abbrev second_offer : Message ℕ
second_offer = message "ann" "key-a" counter 40 "h2" "h3"

abbrev third_offer : Message ℕ
third_offer = message "bob" "key-b" counter 50 "h3" "h4"

abbrev deal : Message ℕ
deal = message "bob" "key-b" accept 0 "h3" "h5"

abbrev bargaining : List (Call host)
bargaining =
    join "ann" initiator (some "key-a")
    ∷ deliver hello 1
    ∷ deliver first_offer 2
    ∷ deliver second_offer 3
    ∷ []

-- What a run of the program computes with.
program : Unit {0}
unfolding run step apply_message admit authenticate present known absent_or_eq read_type next_state
    transitions is_round tip_hash commit_message record_terms track_behavior enter is_conclusion
    same_state fire_terminal can_expire can_sleep add_party expire make_dormant new_session
    track_agent type_value type_of_value get put validate_chain get_behavior
program = tt

bargained : Session host
bargained = run host party_key start bargaining

bargaining_runs :
    (bargained.state ≡ active)
    × (bargained.round_count ≡ 2)
    × (validate_chain host bargained.transcript ≡ true)
    × ((get_behavior host "ann" bargained).concessions ≡ 0)
unfolding program bargained
bargaining_runs = (refl, refl, refl, refl)

third_offer_refused :
    (apply_message host party_key third_offer 4 bargained).0 ≡ err max_rounds_exceeded
unfolding program bargained
third_offer_refused = refl

deal_accepted : (apply_message host party_key deal 4 bargained).0 ≡ ok agreed
unfolding program bargained
deal_accepted = refl

third_offer-IsCredible : IsCredible host party_key bargained third_offer "bob" counter
unfolding program bargained
third_offer-IsCredible = record {
  sender = refl;
  sender_named = refl;
  signature = "key-b";
  signed = refl;
  signature_given = refl;
  key = "key-b";
  resolved = refl;
  verified = refl;
  bound = inr refl;
  chained = inr refl;
  typed = refl;
}

deal-IsCredible : IsCredible host party_key bargained deal "bob" accept
unfolding program bargained
deal-IsCredible = record {
  sender = refl;
  sender_named = refl;
  signature = "key-b";
  signed = refl;
  signature_given = refl;
  key = "key-b";
  resolved = refl;
  verified = refl;
  bound = inr refl;
  chained = inr refl;
  typed = refl;
}

abbrev unchained : Message ℕ
unchained = record first_offer { prev_hash = none }

abbrev opened : Session host
opened = run host party_key start (deliver hello 1 ∷ [])

unchained_accepted : (apply_message host party_key unchained 2 opened).0 ≡ ok active
unfolding program
unchained_accepted = refl

abbrev closing : List (Call host)
closing = bargaining ++ deliver deal 4 ∷ []

closing_agrees : (run host party_key start closing).state ≡ agreed
unfolding program
closing_agrees = refl

abbrev transcript : List (Message ℕ)
transcript = hello ∷ first_offer ∷ []

transcript_valid : validate_chain host transcript ≡ true
unfolding program
transcript_valid = refl

validate_chain_unique_example : ◌≡◌ {A = List (Message ℕ)} transcript transcript
validate_chain_unique_example =
    validate_chain_unique host transcript transcript refl transcript_valid transcript_valid
      (λ _. refl, (λ _. refl, tt)) first_offer first_offer refl refl refl

apply_message_iff_example :
    (agent_id : String) × (type : MessageType) × IsAdmissible host party_key bargained deal agent_id
      type agreed
apply_message_iff_example =
    (apply_message_iff host party_key bargained deal agreed 4).0 deal_accepted

run-validate_chain_example :
    validate_chain host (run host party_key start closing).transcript ≡ true
run-validate_chain_example =
    run-validate_chain host party_key "ses_1" short_timing true 0 closing
      (tt, (λ e. cc, (λ e. cc, (λ e. cc, (λ e. cc, tt)))))

agreed_final_example :
    SameDeal host
      (run host party_key start closing)
      (run host party_key (run host party_key start closing) bargaining)
agreed_final_example =
    agreed_final host party_key (run host party_key start closing) bargaining closing_agrees

active_can_conclude_example :
    ((apply_message host party_key deal 4 bargained).0 ≡ ok agreed)
    × ((apply_message host party_key deal 4 bargained).1.concluded_at ≡ some 4)
unfolding program bargained
active_can_conclude_example =
    active_can_conclude host party_key bargained deal 4 refl deal-IsCredible (by_rule agree) refl
