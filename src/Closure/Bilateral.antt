-- ===== src/Closure/Bilateral.antt =====
-- concordia/cmpc/predicate.py: the bilateral profile `evaluate_bilateral_chain_closure_v1`, and
-- `evaluate_predicate`, which chooses the profile.
use concordia_protocol.Prelude.{
  ℕ, String, Bool, true, false, not, ◌&&◌, ◌||◌, Option, none, some, List, [], ◌∷◌, str_truthy, ltb,
  if◌then◌else◌, mem_str, Result, ok, err, ◌>>=◌, ◌>>◌, guard,
}
use concordia_protocol.Closure.{
  Value, text, number, boolean, null, object, array, Fields, no_fields, Items, no_items, item, Host,
  get_field, field_or_null, or_default,
}
use concordia_protocol.Closure.Comparands.{parse_iso_datetime}

-- Why a profile is not satisfied: its reason, or an exception that `evaluate_predicate` catches.
pub data Failure : Type 0 where
  malformed_parameters malformed_expected_participants missing_aggregate_quantity_required
        malformed_aggregate_quantity_required malformed_match_tolerance negative_match_tolerance
        malformed_activation_deadline malformed_mandate_check_required no_commitments
        malformed_commitment missing_committer_did duplicate_participant_commitment
        unexpected_participant missing_expected_participant malformed_commitment_terms
        non_numeric_quantity aggregate_quantity_mismatch past_activation_deadline
        missing_mandate_proof raised :
      Failure

-- A text that is not empty.
unfoldable pub named : {Num : Type 0} → Value Num → Option String
named (text s) = if str_truthy s then some s else none
named v = none

unfoldable pub read_names : {Num : Type 0} → Items Num → Result Failure (List String)
read_names no_items = ok []
read_names (item v vs) =
    let later = read_names vs in
    elim (named v) [
      | none ↦ err malformed_expected_participants
      | some s ↦ later >>= λ names. ok (s ∷ names)
    ]

unfoldable pub read_expected : {Num : Type 0} → Value Num → Result Failure (List String)
read_expected (array no_items) = err malformed_expected_participants
read_expected (array vs) = read_names vs
read_expected v = err malformed_expected_participants

-- The committers so far, and that of the next commitment.
unfoldable pub read_committer : {Num : Type 0} → List String → Value Num → Result Failure String
read_committer before (object fs) = elim (named (field_or_null fs "committer_did")) [
  | none ↦ err missing_committer_did
  | some did ↦ if mem_str did before then err duplicate_participant_commitment else ok did
]
read_committer before v = err malformed_commitment

unfoldable pub read_committers :
    {Num : Type 0} → List String → List (Value Num) → Result Failure (List String)
read_committers before [] = ok before
read_committers before (c ∷ cs) =
    read_committer before c >>= λ did. read_committers (did ∷ before) cs

unfoldable pub subset : List String → List String → Bool
subset [] ys = true
subset (x ∷ xs) ys = mem_str x ys && subset xs ys

unfoldable pub check_participants : List String → List String → Result Failure (Unit {0})
check_participants actual expected =
    guard (subset actual expected) unexpected_participant
    >> guard (subset expected actual) missing_expected_participant

unfoldable pub read_deadline : Option ℕ → Result Failure ℕ
read_deadline none = err malformed_activation_deadline
read_deadline (some t) = ok t

unfoldable pub read_flag : {Num : Type 0} → Value Num → Result Failure Bool
read_flag (boolean b) = ok b
read_flag v = err malformed_mandate_check_required

unfoldable pub floated : {Num : Type 0} → Option Num → Result Failure Num
floated none = err raised
floated (some x) = ok x

module _ (H : Host) where
  -- A finite number that is no boolean.
  unfoldable pub finite_number : Failure → Value H.Num → Result Failure H.Num
  finite_number why (number n) = if H.is_finite n then ok n else err why
  finite_number why v = err why

  unfoldable pub quantity_of : Value H.Num → Result Failure H.Num
  quantity_of (object terms) =
      finite_number non_numeric_quantity (field_or_null terms "quantity") >>= λ n.
      floated (H.to_float n)
  quantity_of v = err malformed_commitment_terms

  unfoldable pub read_quantity : Value H.Num → Result Failure H.Num
  read_quantity (object fs) = quantity_of (field_or_null fs "commitment_terms")
  read_quantity v = err raised

  unfoldable pub total_from : H.Num → List (Value H.Num) → Result Failure H.Num
  total_from acc [] = ok acc
  total_from acc (c ∷ cs) = read_quantity c >>= λ n. total_from (H.add acc n) cs

  -- `bool(value)`.
  unfoldable pub value_truthy : Value H.Num → Bool
  value_truthy (text s) = str_truthy s
  value_truthy (number n) = not (H.eq n H.zero)
  value_truthy (boolean b) = b
  value_truthy null = false
  value_truthy (object no_fields) = false
  value_truthy (array no_items) = false
  value_truthy v = true

  unfoldable pub has_proof : Value H.Num → Bool
  has_proof (object fs) = value_truthy (field_or_null fs "mandate_proof_id")
  has_proof v = false

  unfoldable pub all_proved : List (Value H.Num) → Bool
  all_proved [] = true
  all_proved (c ∷ cs) = has_proof c && all_proved cs

  -- The parameters of the profile.
  pub record Terms : Type 0 where
    pub expected : List String
    pub required_qty : H.Num
    pub tolerance : H.Num
    pub deadline : ℕ
    pub mandate_check : Bool

  unfoldable pub read_required : Option (Value H.Num) → Result Failure H.Num
  read_required none = err missing_aggregate_quantity_required
  read_required (some v) = finite_number malformed_aggregate_quantity_required v

  unfoldable pub read_terms : Fields H.Num → Result Failure Terms
  read_terms params = read_expected (field_or_null params "expected_participants") >>= λ expected.
      read_required (get_field params "aggregate_quantity_required") >>= λ required_qty.
      finite_number malformed_match_tolerance
        (or_default (get_field params "match_tolerance") (number H.zero))
      >>= λ tolerance.
          guard (not (H.lt tolerance H.zero)) negative_match_tolerance
          >> read_deadline (parse_iso_datetime H (field_or_null params "activation_deadline_iso"))
          >>= λ deadline.
              read_flag (or_default (get_field params "mandate_check_required") (boolean false))
              >>= λ mandate_check. ok (record {
                expected = expected;
                required_qty = required_qty;
                tolerance = tolerance;
                deadline = deadline;
                mandate_check = mandate_check;
              })

  unfoldable pub within_tolerance : Terms → H.Num → Result Failure (Unit {0})
  within_tolerance t total_qty = floated (H.to_float t.required_qty) >>= λ required.
      floated (H.to_float t.tolerance) >>= λ tolerance.
      guard (not (H.lt tolerance (H.abs (H.sub total_qty required)))) aggregate_quantity_mismatch

  unfoldable pub close_bilateral : Terms → List (Value H.Num) → ℕ → Result Failure (Unit {0})
  close_bilateral t [] now = err no_commitments
  close_bilateral t (c ∷ cs) now = read_committers [] (c ∷ cs) >>= λ actual.
      check_participants actual t.expected >> total_from H.zero (c ∷ cs) >>= λ total_qty.
      within_tolerance t total_qty
      >> guard (ltb now t.deadline) past_activation_deadline
      >> guard (not t.mandate_check || all_proved (c ∷ cs)) missing_mandate_proof

  unfoldable pub evaluate_bilateral_chain_closure_v1 :
      Value H.Num → List (Value H.Num) → ℕ → Result Failure (Unit {0})
  evaluate_bilateral_chain_closure_v1 (object params) commitments now =
      read_terms params >>= λ t. close_bilateral t commitments now
  evaluate_bilateral_chain_closure_v1 v commitments now = err malformed_parameters
