-- ===== src/Prelude/Dict.antt =====
-- Python's `dict` with text keys, as a list of entries in insertion order: an assignment to a
-- key that is there keeps its place, and a new key goes to the end.
use mathlib.Core.Path.{◌≡◌, refl, subst₂}
use mathlib.Core.Logic.{inl, inr}
use mathlib.Core.Bool.{Bool, true, false}
use mathlib.Core.Option.{Option, none, some}
use mathlib.Core.List.{List, [], ◌∷◌}
use Prim.Native.Nat.{◌+◌, ◌≤◌}
use Prim.Native.String.{String}
use native.Mathlib.Omega.{arith}
use text.Mathlib.Text.{◌==◌ as str_eq}
use text.Mathlib.TextEquality.{eq_iff}
use text.Mathlib.TextPositions.{eq_refl}
use concordia_protocol.Prelude.Tests.{if◌then◌else◌, Bool-cases}
use concordia_protocol.Prelude.Lists.{length, All, count_if}

abbrev pub Dict {ℓ} : Type ℓ → Type ℓ
Dict V = List (String × V)

module _ {ℓ} {V : Type ℓ} where
  unfoldable pub get : Dict V → String → Option V
  get [] k = none
  get ((j, v) ∷ d) k = if str_eq j k then some v else get d k

  unfoldable pub put : Dict V → String → V → Dict V
  put [] k v = (k, v) ∷ []
  put ((j, w) ∷ d) k v = if str_eq j k then (k, v) ∷ d else (j, w) ∷ put d k v

  unfoldable pub remove : Dict V → String → Dict V
  remove [] k = []
  remove ((j, v) ∷ d) k = let rest = remove d k in if str_eq j k then rest else (j, v) ∷ rest

-- Every value of the dictionary has the property.
abbrev pub Values {ℓ κ} : {V : Type ℓ} → (V → Type κ) → Dict V → Type κ
Values P d = All (λ e. P e.1) d

module _ {ℓ} {V : Type ℓ} where
  pub get-put :
      (d : Dict V) (k j : String) (v : V)
      → get (put d k v) j ≡ (if str_eq k j then some v else get d j)
  unfolding get put
  get-put [] k j v = refl
  get-put ((i, w) ∷ d) k j v = ground (arith, eq_iff k j, eq_iff i k, eq_iff i j, get-put d k j v)

  pub get-put_self : (d : Dict V) (k : String) (v : V) → get (put d k v) k ≡ some v
  get-put_self d k v = rw (get-put d k k v, eq_refl)

  pub get-remove :
      (d : Dict V) (k j : String) → get (remove d k) j ≡ (if str_eq k j then none else get d j)
  unfolding get remove
  get-remove [] k j = ground arith
  get-remove ((i, w) ∷ d) k j = ground (arith, eq_iff k j, eq_iff i k, eq_iff i j, get-remove d k j)

  pub length-put-le : (d : Dict V) (k : String) (v : V) → length (put d k v) ≤ length d + 1
  unfolding put
  length-put-le [] k v = omega arith
  length-put-le ((j, w) ∷ d) k v = ground (arith, length-put-le d k v)

  pub length-put_old :
      (d : Dict V) (k : String) (v : V) {w : V} → get d k ≡ some w → length (put d k v) ≡ length d
  unfolding put get
  length-put_old [] k v h = cc
  length-put_old ((j, u) ∷ d) k v {w} h = ground (arith, length-put_old d k v {w = w})

  pub length-remove-le : (d : Dict V) (k : String) → length (remove d k) ≤ length d
  unfolding remove
  length-remove-le [] k = omega arith
  length-remove-le ((j, w) ∷ d) k = ground (arith, length-remove-le d k)

  -- A property of every value survives an assignment of a value that has it.
  pub All-put {κ} :
      (P : V → Type κ) (d : Dict V) (k : String) (v : V) → Values P d → P v → Values P (put d k v)
  unfolding put
  All-put P [] k v h p = (p, tt)
  All-put P ((j, w) ∷ d) k v h p =
      elim (str_eq j k) as (λ b. Values P (if b then (k, v) ∷ d else (j, w) ∷ put d k v)) [
        | true ↦ (p, h.1)
        | false ↦ (h.0, All-put P d k v h.1 p)
      ]

  pub get-All {κ} :
      (P : V → Type κ) (d : Dict V) (k : String) {v : V} → Values P d → get d k ≡ some v → P v
  unfolding get
  get-All P [] k h e = cc
  get-All P ((j, w) ∷ d) k {v} h e = ground (arith, get-All P d k {v = v} h.1)

  -- What holds of every entry holds of a key and the value found there.
  pub get-entry {κ} :
      (P : String → V → Type κ) (d : Dict V) (k : String) (v : V)
      → All (λ (e : String × V). P e.0 e.1) d
      → get d k ≡ some v
      → P k v
  unfolding get
  get-entry P [] k v h e = cc
  get-entry P ((j, w) ∷ d) k v h e = elim (Bool-cases (str_eq j k)) [
    | inl same ↦
        let found : some w ≡ some v = rw same at e in
        let value : w ≡ v = cc in subst₂ P ((eq_iff j k).0 same) value h.0
    | inr new ↦ get-entry P d k v h.1 (rw new at e)
  ]

  -- An assignment adds at most its own value to a count.
  pub count_if-put :
      (p : V → Bool) (d : Dict V) (k : String) (v : V)
      → count_if (λ (e : String × V). p e.1) (put d k v)
        ≤ count_if (λ (e : String × V). p e.1) d + (if p v then 1 else 0)
  unfolding put
  count_if-put p [] k v = omega arith
  count_if-put p ((j, w) ∷ d) k v = ground (arith, count_if-put p d k v)

-- No key stands twice.
abbrev pub Unique {ℓ} : {V : Type ℓ} → Dict V → Type ℓ
Unique [] = Unit
Unique ((k, _) ∷ d) = (get d k ≡ none) × Unique d

module _ {ℓ} {V : Type ℓ} where
  pub put-Unique : (d : Dict V) (k : String) (v : V) → Unique d → Unique (put d k v)
  unfolding get put
  put-Unique [] k v u = (refl, tt)
  put-Unique ((j, w) ∷ d) k v u = elim (Bool-cases (str_eq j k)) [
    | inl same ↦ rw same (ground (arith, eq_iff j k, same, u.0), u.1)
    | inr new ↦
        rw new
          (ground (arith, get-put d k j v, eq_iff j k, eq_iff k j, new, u.0), put-Unique d k v u.1)
  ]

  pub remove-Unique : (d : Dict V) (k : String) → Unique d → Unique (remove d k)
  unfolding get remove
  remove-Unique [] k u = tt
  remove-Unique ((j, w) ∷ d) k u = elim (Bool-cases (str_eq j k)) [
    | inl same ↦ rw same (remove-Unique d k u.1)
    | inr new ↦ rw new (ground (arith, get-remove d k j, u.0), remove-Unique d k u.1)
  ]

  pub All-remove {κ} :
      (P : String → V → Type κ) (d : Dict V) (k : String)
      → All (λ (e : String × V). P e.0 e.1) d
      → All (λ (e : String × V). P e.0 e.1) (remove d k)
  unfolding remove
  All-remove P [] k h = tt
  All-remove P ((j, w) ∷ d) k h = elim (Bool-cases (str_eq j k)) [
    | inl same ↦ rw same (All-remove P d k h.1)
    | inr new ↦ rw new (h.0, All-remove P d k h.1)
  ]

  -- As `All-put`, for a property of a value and its key.
  pub entries-put {κ} :
      (P : String → V → Type κ) (d : Dict V) (k : String) (v : V)
      → All (λ (e : String × V). P e.0 e.1) d
      → P k v
      → All (λ (e : String × V). P e.0 e.1) (put d k v)
  unfolding put
  entries-put P [] k v h p = (p, tt)
  entries-put P ((j, w) ∷ d) k v h p = elim (Bool-cases (str_eq j k)) [
    | inl same ↦ rw same (p, h.1)
    | inr new ↦ rw new (h.0, entries-put P d k v h.1 p)
  ]
