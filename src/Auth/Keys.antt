-- ===== src/Auth/Keys.antt =====
-- The dictionaries of concordia/auth.py whose keys are a session and a role.
use concordia_protocol.Prelude.{
  Bool, true, false, ◌≡◌, refl, sym, ◌∙◌, ap, ap₂, inl, inr, none, some, [], ◌∷◌, arith, eq_iff,
  if◌then◌else◌, Bool-cases,
}
use text.Mathlib.TextPositions.{eq_refl}
use concordia_protocol.Auth.{SessionKey, eq_key, Keyed, find_key, set_key, drop_key}

pub eq_key_iff : (j k : SessionKey) → eq_key j k ≡ true → j ≡ k
eq_key_iff (a, b) (c, d) h =
    ap₂ (λ x y. (x, y)) ((eq_iff a c).0 (ground (arith, h))) ((eq_iff b d).0 (ground (arith, h)))

pub eq_key_refl : (k : SessionKey) → eq_key k k ≡ true
eq_key_refl (a, b) = rw (eq_refl a, eq_refl b) refl

clash : (i k j : SessionKey) → eq_key i j ≡ true → eq_key k j ≡ true → eq_key i k ≡ true
clash i k j h g = ap (eq_key i) (eq_key_iff k j g ∙ sym (eq_key_iff i j h)) ∙ eq_key_refl i

-- Two entries before a key: which is found.
swap :
    {A : Type 0} (x y : A) (z : A) (b c : Bool)
    → (b ≡ true → c ≡ true → ⊥)
    → (if b then x else (if c then y else z)) ≡ (if c then y else (if b then x else z))
swap x y z true true h = absurd (h refl refl)
swap x y z true false h = refl
swap x y z false true h = refl
swap x y z false false h = refl

twice :
    {A : Type 0} (x y z : A) (b : Bool)
    → (if b then x else y) ≡ (if b then x else (if b then z else y))
twice x y z true = refl
twice x y z false = refl

true-false : (b : Bool) → b ≡ true → b ≡ false → ⊥
true-false b h g = cc

module _ {V : Type 0} where
  pub find-set :
      (d : Keyed V) (k j : SessionKey) (v : V)
      → find_key (set_key d k v) j ≡ (if eq_key k j then some v else find_key d j)
  unfolding find_key set_key
  find-set [] k j v = refl
  find-set ((i, w) ∷ d) k j v = elim (Bool-cases (eq_key i k)) [
    | inl same ↦
        let here : eq_key i j ≡ eq_key k j = ap (λ z. eq_key z j) (eq_key_iff i k same) in
        rw (same, here) (twice (some v) (find_key d j) (some w) (eq_key k j))
    | inr new ↦
        rw (new, find-set d k j v)
          (swap (some w) (some v) (find_key d j) (eq_key i j) (eq_key k j)
            (λ h g. true-false (eq_key i k) (clash i k j h g) new))
  ]

  pub find-drop :
      (d : Keyed V) (k j : SessionKey)
      → find_key (drop_key d k) j ≡ (if eq_key k j then none else find_key d j)
  unfolding find_key drop_key
  find-drop [] k j = ground arith
  find-drop ((i, w) ∷ d) k j = elim (Bool-cases (eq_key i k)) [
    | inl same ↦
        let here : eq_key i j ≡ eq_key k j = ap (λ z. eq_key z j) (eq_key_iff i k same) in
        rw (same, here, find-drop d k j) (twice none (find_key d j) (some w) (eq_key k j))
    | inr new ↦
        rw (new, find-drop d k j)
          (swap (some w) none (find_key d j) (eq_key i j) (eq_key k j)
            (λ h g. true-false (eq_key i k) (clash i k j h g) new))
  ]
