-- ===== src/Closure/Comparands.antt =====
-- concordia/cmpc/predicate.py: the comparands of the closure language, the fields of commitments
-- and their aggregation. An exception is `none`.
use concordia_protocol.Prelude.{
  ℕ, String, Bool, true, false, not, Option, none, some, List, [], ◌∷◌, str_eq, ◌==◌, if◌then◌else◌,
  length,
}
use concordia_protocol.Closure.{
  Value, text, number, moment, object, Fields, Host, get_field, then_try,
}

pub data Comparator : Type 0 where
  equals differs at_least at_most above below : Comparator

unfoldable pub read_comparator : String → Option Comparator
read_comparator op =
    if str_eq op "=="
    then some equals
    else if str_eq op "!="
    then some differs
    else if str_eq op ">="
    then some at_least
    else if str_eq op "<="
    then some at_most
    else if str_eq op ">"
    then some above
    else if str_eq op "<"
    then some below
    else none

-- `_TypedComparand`: the constructor is its `type_class`.
pub data Comparand (Num : Type 0) : Type 0 where
  number_class : Num → Comparand Num
  str_class : String → Comparand Num
  datetime_class : ℕ → Comparand Num

-- `f` of each item, where none of the calls raises.
unfoldable pub each : {A B : Type 0} → (A → Option B) → List A → Option (List B)
each f [] = some []
each f (x ∷ xs) = let rest = each f xs in then_try (f x) (λ y. then_try rest (λ ys. some (y ∷ ys)))

unfoldable pub same_class : {Num : Type 0} → Comparand Num → Comparand Num → Bool
same_class (number_class _) (number_class _) = true
same_class (str_class _) (str_class _) = true
same_class (datetime_class _) (datetime_class _) = true
same_class _ _ = false

-- The list, where it has an item.
unfoldable pub nonempty : {A : Type 0} → List A → Option (List A)
nonempty [] = none
nonempty (x ∷ xs) = some (x ∷ xs)

module _ (H : Host) where
  unfoldable pub typed_comparand : Value H.Num → Option (Comparand H.Num)
  typed_comparand (number n) = if H.is_finite n then some (number_class n) else none
  typed_comparand (text s) = some (str_class s)
  typed_comparand (moment t) = some (datetime_class t)
  typed_comparand v = none

  -- Whether two keys `(type_class, value)` are equal.
  unfoldable pub same_key : Comparand H.Num → Comparand H.Num → Bool
  same_key (number_class n) (number_class k) = H.eq n k
  same_key (str_class s) (str_class t) = str_eq s t
  same_key (datetime_class t) (datetime_class u) = t == u
  same_key _ _ = false

  unfoldable pub order : Comparator → H.Num → H.Num → Bool
  order equals n k = H.eq n k
  order differs n k = not (H.eq n k)
  order at_least n k = H.le k n
  order at_most n k = H.le n k
  order above n k = H.lt k n
  order below n k = H.lt n k

  unfoldable pub equality : Bool → Comparand H.Num → Comparand H.Num → Option Bool
  equality wanted actual expected =
      if same_class actual expected
      then some (if wanted then same_key actual expected else not (same_key actual expected))
      else none

  unfoldable pub ordering : Comparator → Comparand H.Num → Comparand H.Num → Option Bool
  ordering op (number_class n) (number_class k) = some (order op n k)
  ordering op _ _ = none

  -- `_typed_compare`.
  unfoldable pub typed_compare : Comparator → Comparand H.Num → Comparand H.Num → Option Bool
  typed_compare equals actual expected = equality true actual expected
  typed_compare differs actual expected = equality false actual expected
  typed_compare op actual expected = ordering op actual expected

  -- `all(_typed_compare(...) for ...)`: the comparisons after the first false one are not made.
  unfoldable pub compare_all : Comparator → Comparand H.Num → List (Comparand H.Num) → Option Bool
  compare_all op expected [] = some true
  compare_all op expected (c ∷ cs) =
      let later = compare_all op expected cs in
      then_try (typed_compare op c expected) (λ b. if b then later else some false)

  unfoldable pub walk_path : Value H.Num → List String → Option (Value H.Num)
  walk_path v [] = some v
  walk_path (object fs) (segment ∷ path) = then_try (get_field fs segment) (λ v. walk_path v path)
  walk_path v (segment ∷ path) = none

  -- `_resolve_field`, and with `_typed_comparand` after it `_get_field`.
  unfoldable pub resolve_field : String → Value H.Num → Option (Value H.Num)
  resolve_field path commitment = walk_path commitment (H.split path)

  unfoldable pub get_comparand : String → Value H.Num → Option (Comparand H.Num)
  get_comparand path commitment = then_try (resolve_field path commitment) typed_comparand

  unfoldable pub parse_iso_datetime : Value H.Num → Option ℕ
  parse_iso_datetime (moment t) = some t
  parse_iso_datetime (text s) = H.instant s
  parse_iso_datetime v = none

  unfoldable pub get_time : String → Value H.Num → Option ℕ
  get_time path commitment = then_try (resolve_field path commitment) parse_iso_datetime

  unfoldable pub as_object : Value H.Num → Option (Fields H.Num)
  as_object (object fs) = some fs
  as_object v = none

  -- `_require_commitment_records`.
  unfoldable pub require_commitment_records : List (Value H.Num) → Option (List (Fields H.Num))
  require_commitment_records commitments = then_try (nonempty commitments) (each as_object)

  -- An aggregand: a number, as a float.
  unfoldable pub aggregand : String → Fields H.Num → Option H.Num
  aggregand path commitment =
      then_try (get_comparand path (object commitment)) (λ c. elim c [
        | number_class n ↦ H.to_float n
        | str_class s ↦ none
        | datetime_class t ↦ none
      ])

  unfoldable pub sum_from : H.Num → List H.Num → H.Num
  sum_from acc [] = acc
  sum_from acc (n ∷ ns) = sum_from (H.add acc n) ns

  -- `min` and `max`, the first of equals.
  unfoldable pub least : H.Num → List H.Num → H.Num
  least best [] = best
  least best (n ∷ ns) = least (if H.lt n best then n else best) ns

  unfoldable pub greatest : H.Num → List H.Num → H.Num
  greatest best [] = best
  greatest best (n ∷ ns) = greatest (if H.lt best n then n else best) ns

  unfoldable pub fold_numbers : String → List H.Num → Option H.Num
  fold_numbers op [] = if str_eq op "sum" then some H.zero else none
  fold_numbers op (n ∷ ns) =
      if str_eq op "sum"
      then some (sum_from H.zero (n ∷ ns))
      else if str_eq op "min"
      then some (least n ns)
      else some (greatest n ns)

  unfoldable pub aggregate_field :
      String → Option (Value H.Num) → List (Fields H.Num) → Option H.Num
  aggregate_field op (some (text path)) records =
      then_try (each (aggregand path) records) (fold_numbers op)
  aggregate_field op path records = none

  -- `_evaluate_aggregation`.
  unfoldable pub evaluate_aggregation : String → Fields H.Num → List (Value H.Num) → Option H.Num
  evaluate_aggregation op node commitments =
      then_try (require_commitment_records commitments) (λ records.
        if str_eq op "count"
        then some (H.of_ℕ (length records))
        else aggregate_field op (get_field node "field") records)
