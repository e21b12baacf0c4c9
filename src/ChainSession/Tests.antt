-- ===== src/ChainSession/Tests.antt =====
-- A chain session between two participants, run on the model, and the theorems at its states.
use concordia_protocol.Prelude.{
  String, ◌≡◌, refl, inl, true, none, some, List, [], ◌∷◌, length, ok, err,
}
use concordia_protocol.ChainSession.{
  proposed, opened, activated, expired, same_state, before_deadline, legal_transitions, Digest,
  ChainSession, compute_hash, validate_preconditions, last_hash, stamp, new_record, move, checks,
  transition_to, expire_due_to_timeout, eq_option, verify_from, verify_transcript,
}
use concordia_protocol.ChainSession.Moves.{MayMove, transition_to_iff}
use concordia_protocol.ChainSession.Runs.{
  Act, go_to, amend, act, acts, IsFresh, History, acts-History,
}
use concordia_protocol.ChainSession.Seal.{SameEnd, ended_final, verify_transcript_unique}

abbrev digest : Digest
digest from to at evidence prev = elim to [ opened ↦ "hash-open" | _ ↦ "hash-end" ]

abbrev fresh : ChainSession
fresh = record {
  chain_session_id = "urn:chain:1";
  participants = "did:a" ∷ "did:b" ∷ [];
  closure_predicate_ref = "urn:predicate:1";
  state = proposed;
  created_at = 0;
  activation_deadline = 100;
  activated_at = none;
  dissolved_at = none;
  commitments = [];
  unwind_record_id = none;
  activation_proof_id = none;
  transitions = [];
}

abbrev both_committed : List String
both_committed = "urn:commitment:1" ∷ "urn:commitment:2" ∷ []

abbrev opening : List Act
opening =
    amend both_committed none none
    ∷ go_to opened none 10
    ∷ amend both_committed none (some "urn:proof:1")
    ∷ []

abbrev whole : List Act
whole =
    amend both_committed none none
    ∷ go_to opened none 10
    ∷ amend both_committed none (some "urn:proof:1")
    ∷ go_to activated none 20
    ∷ []

program : Unit {0}
unfolding act acts same_state legal_transitions validate_preconditions last_hash stamp new_record
    move checks transition_to expire_due_to_timeout eq_option verify_from verify_transcript
    compute_hash
program = tt

abbrev open_session : ChainSession
open_session = acts digest fresh opening

opening_runs :
    (open_session.state ≡ opened)
    × (verify_transcript digest open_session ≡ true)
    × (length open_session.transitions ≡ 1)
unfolding program
opening_runs = (refl, refl, refl)

activation_at_20 : (transition_to digest activated none 20 open_session).0 ≡ ok tt
unfolding program
activation_at_20 = refl

expiry_at_99 : (transition_to digest expired none 99 open_session).0 ≡ err before_deadline
unfolding program
expiry_at_99 = refl

whole_activates : (acts digest fresh whole).activated_at ≡ some 20
unfolding program
whole_activates = refl

fresh-IsFresh : IsFresh fresh
fresh-IsFresh = record {
  state = refl;
  activated_at = refl;
  dissolved_at = refl;
  transitions = refl;
}

transition_to_iff_example : MayMove open_session 20 open_session.state activated
transition_to_iff_example =
    (transition_to_iff digest open_session activated none 20).0 activation_at_20

acts-History_example : History digest (acts digest fresh whole)
acts-History_example = acts-History digest fresh whole fresh-IsFresh

ended_final_example :
    SameEnd (acts digest fresh whole) (acts digest (acts digest fresh whole) opening)
unfolding program
ended_final_example = ended_final digest (acts digest fresh whole) opening (inl refl)

verify_transcript_unique_example :
    (acts digest fresh whole).transitions ≡ (acts digest fresh whole).transitions
unfolding program
verify_transcript_unique_example =
    verify_transcript_unique digest (acts digest fresh whole) (acts digest fresh whole) refl refl
      refl (λ _. (refl, refl, refl, refl, refl), (λ _. (refl, refl, refl, refl, refl), tt)) refl
