-- ===== src/Closure.antt =====
-- concordia/cmpc/predicate.py: the values that a closure predicate is evaluated over, and the
-- results of the evaluation.
pub mod Comparands
pub mod Language
pub mod Bilateral
pub mod Profiles
pub mod Closed
pub mod Malformed
pub mod Limit
pub mod Comparisons
pub mod Agreement
mod Tests
use concordia_protocol.Prelude.{ℕ, String, Bool, Option, none, some, List, str_eq, if◌then◌else◌}

-- A JSON value or a `datetime`, which is its time in seconds; `strange` is any other object.
mutual
  pub data Value (Num : Type 0) : Type 0 where
    text : String → Value Num
    number : Num → Value Num
    boolean : Bool → Value Num
    null : Value Num
    moment : ℕ → Value Num
    object : Fields Num → Value Num
    array : Items Num → Value Num
    strange : Value Num

  pub data Fields (Num : Type 0) : Type 0 where
    no_fields : Fields Num
    field : String → Value Num → Fields Num → Fields Num

  pub data Items (Num : Type 0) : Type 0 where
    no_items : Items Num
    item : Value Num → Items Num → Items Num

-- Python's numbers and their arithmetic, `float` of a number, which raises where that is too large,
-- `datetime.fromisoformat` on a text whose "Z" is made "+00:00", and `str.split(".")`.
pub record Host : Type 1 where
  pub Num : Type 0
  pub is_finite : Num → Bool
  pub eq : Num → Num → Bool
  pub lt : Num → Num → Bool
  pub le : Num → Num → Bool
  pub zero : Num
  pub of_ℕ : ℕ → Num
  pub to_float : Num → Option Num
  pub add : Num → Num → Num
  pub sub : Num → Num → Num
  pub abs : Num → Num
  pub instant : String → Option ℕ
  pub split : String → List String

unfoldable pub get_field : {Num : Type 0} → Fields Num → String → Option (Value Num)
get_field no_fields k = none
get_field (field j v fs) k = if str_eq j k then some v else get_field fs k

-- `params.get(k)` where a missing key and `None` mean the same.
unfoldable pub field_or_null : {Num : Type 0} → Fields Num → String → Value Num
field_or_null fs k = elim (get_field fs k) [ none ↦ null | some v ↦ v ]

unfoldable pub or_default : {Num : Type 0} → Option (Value Num) → Value Num → Value Num
or_default none d = d
or_default (some v) d = v

-- What a step of the evaluation gives where it does not raise an exception.
unfoldable pub then_try : {A B : Type 0} → Option A → (A → Option B) → Option B
then_try none f = none
then_try (some x) f = f x

pub record PredicateResult : Type 0 where
  pub satisfied : Bool
  pub reason : Option String
