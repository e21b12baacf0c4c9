-- ===== src/Closure/Agreement.antt =====
-- When the bilateral profile of concordia/cmpc/predicate.py is satisfied.
use concordia_protocol.Prelude.{
  ℕ, ◌<◌, String, Bool, true, false, not, ◌||◌, ◌≡◌, ◌≢◌, refl, sym, ◌∙◌, ap, inl, inr, ◌↔◌, Option,
  none, some, List, [], ◌∷◌, arith, str_eq, eq_iff, str_truthy, ltb, lt→ltb, All, mem_str,
  Bool-cases, Option-cases, Result, ok, err, inj_ok, err_ok, ◌>>=◌, ◌>>◌, guard,
}
use mathlib.Core.Path.{subst}
use package.text.Mathlib.TextPositions.{eq_refl}
use concordia_protocol.Closure.{Value, text, number, object, Fields, Host, field_or_null}
use concordia_protocol.Closure.Comparands.{sum_from}
use concordia_protocol.Closure.Bilateral.{
  Failure, unexpected_participant, non_numeric_quantity, past_activation_deadline,
  missing_mandate_proof, named, read_committer, read_committers, subset, check_participants,
  floated, finite_number, quantity_of, read_quantity, total_from, has_proof, all_proved, Terms,
  read_terms, within_tolerance, close_bilateral, evaluate_bilateral_chain_closure_v1,
}

or_false : (t : Bool) → (t || false) ≡ t
or_false t = ground arith

not-true : (t : Bool) → not t ≡ true → t ≡ false
not-true t h = ground (arith, h)

bind_ok :
    {E A B : Type 0} (r : Result E A) (f : A → Result E B) (b : B)
    → r >>= f ≡ ok b
    → (a : A) × (r ≡ ok a) × (f a ≡ ok b)
bind_ok (err e) f b h = cc
bind_ok (ok a) f b h = (a, refl, h)

then_ok :
    {E A B : Type 0} (r : Result E A) (q : Result E B) (b : B)
    → r >> q ≡ ok b
    → (a : A) × (r ≡ ok a) × (q ≡ ok b)
then_ok (err e) q b h = cc
then_ok (ok a) q b h = (a, refl, h)

guard-true : {E : Type 0} (t : Bool) (e : E) → t ≡ true → guard t e ≡ ok tt
guard-true t e h = rw h refl

guard_ok : {E : Type 0} (t : Bool) (e : E) {u : Unit {0}} → guard t e ≡ ok u → t ≡ true
guard_ok true e h = refl
guard_ok false e h = cc

named-text :
    {Num : Type 0} (v : Value Num) (s : String)
    → named v ≡ some s
    → (v ≡ text s) × (str_truthy s ≡ true)
unfolding named
named-text (text t) s h = ground (arith, h)
named-text _ s h = absurd (ground (arith, h))

text-named :
    {Num : Type 0} (v : Value Num) (s : String)
    → v ≡ text s
    → str_truthy s ≡ true
    → named v ≡ some s
unfolding named
text-named v s is truthy = rw is (rw truthy refl)

-- No name comes twice, nor is among the names before.
abbrev pub Distinct : List String → List String → Type 0
Distinct before [] = Unit
Distinct before (n ∷ ns) = (mem_str n before ≡ false) × Distinct (n ∷ before) ns

abbrev onto : List String → List String → List String
onto [] before = before
onto (n ∷ ns) before = onto ns (n ∷ before)

mem-onto :
    (x : String) (ns before : List String)
    → mem_str x (onto ns before) ≡ (mem_str x ns || mem_str x before)
mem-onto x [] before = refl
mem-onto x (n ∷ ns) before = ground (arith, mem-onto x ns (n ∷ before))

subset_iff :
    (xs ys : List String)
    → (subset xs ys ≡ true) ↔ ((x : String) → mem_str x xs ≡ true → mem_str x ys ≡ true)
unfolding subset
subset_iff [] ys = (λ h x never. absurd (ground (arith, never)), λ h. refl)
subset_iff (y ∷ xs) ys = (
  λ h x among. elim (Bool-cases (str_eq y x)) [
    | inl here ↦ subst (λ z. mem_str z ys ≡ true) ((eq_iff y x).0 here) (ground (arith, h))
    | inr later ↦ (subset_iff xs ys).0 (ground (arith, h)) x (rw later at among)
  ],
  λ h. ground (
    arith,
    h y (rw (eq_refl y) refl),
    (subset_iff xs ys).1 (λ x among. h x (ground (arith, among))),
  ),
)

module _ {Num : Type 0} where
  -- The commitment is by that committer.
  abbrev pub Commits : Value Num → String → Type 0
  Commits c n =
      (fs : Fields Num) × (c ≡ object fs)
      × (field_or_null fs "committer_did" ≡ text n)
      × (str_truthy n ≡ true)

  abbrev pub Committers : List (Value Num) → List String → Type 0
  Committers [] [] = Unit
  Committers (c ∷ cs) (n ∷ ns) = Commits c n × Committers cs ns
  Committers _ _ = ⊥

  committer_read :
      (before : List String) (c : Value Num) (n : String)
      → read_committer before c ≡ ok n
      → Commits c n × (mem_str n before ≡ false)
  unfolding read_committer
  committer_read before (object fs) n h =
      elim (Option-cases (named (field_or_null fs "committer_did"))) [
        | inl nobody ↦ err_ok (rw (nobody, read_committer) at h)
        | inr (did, e) ↦
            let (there, truthy) = named-text (field_or_null fs "committer_did") did e in
            elim (Bool-cases (mem_str did before)) [
              | inl again ↦ err_ok (rw (e, again, read_committer) at h)
              | inr new ↦
                  let same : did ≡ n = inj_ok (rw (e, new, read_committer) at h) in
                  subst (λ z. Commits (object fs) z × (mem_str z before ≡ false)) same
                    ((fs, refl, there, truthy), new)
            ]
      ]
  committer_read before _ n h = err_ok h

  read-committer :
      (before : List String) (c : Value Num) (n : String)
      → Commits c n
      → mem_str n before ≡ false
      → read_committer before c ≡ ok n
  unfolding read_committer
  read-committer before c n (fs, is, there, truthy) new =
      rw is (
        rw (text-named (field_or_null fs "committer_did") n there truthy, new, read_committer) refl)

  Committers-read :
      (before : List String) (cs : List (Value Num)) (all : List String)
      → read_committers before cs ≡ ok all
      → (ns : List String) × Committers cs ns × Distinct before ns × (all ≡ onto ns before)
  unfolding read_committers
  Committers-read before [] all h = ([], tt, tt, sym (inj_ok h))
  Committers-read before (c ∷ cs) all h =
      let (n, e, rest) = bind_ok (read_committer before c) _ all h in
      let (ns, by, once, same) = Committers-read (n ∷ before) cs all rest in
      let (commits, new) = committer_read before c n e in (n ∷ ns, (commits, by), (new, once), same)

  read-Committers :
      (before : List String) (cs : List (Value Num)) (ns : List String)
      → Committers cs ns
      → Distinct before ns
      → read_committers before cs ≡ ok (onto ns before)
  unfolding read_committers
  read-Committers before [] [] by once = refl
  read-Committers before [] (n ∷ ns) by once = absurd by
  read-Committers before (c ∷ cs) [] by once = absurd by
  read-Committers before (c ∷ cs) (n ∷ ns) by once =
      rw (read-committer before c n by.0 once.0) (read-Committers (n ∷ before) cs ns by.1 once.1)

module _ (H : Host) where
  -- The commitment's quantity, as a float.
  abbrev pub Gives : Value H.Num → H.Num → Type 0
  Gives c q =
      (fs : Fields H.Num) × (terms : Fields H.Num) × (n : H.Num) × (c ≡ object fs)
      × (field_or_null fs "commitment_terms" ≡ object terms)
      × (field_or_null terms "quantity" ≡ number n)
      × (H.is_finite n ≡ true)
      × (H.to_float n ≡ some q)

  abbrev pub Quantities : List (Value H.Num) → List H.Num → Type 0
  Quantities [] [] = Unit
  Quantities (c ∷ cs) (q ∷ qs) = Gives c q × Quantities cs qs
  Quantities _ _ = ⊥

  finite-number :
      (why : Failure) (v : Value H.Num) (n : H.Num)
      → finite_number H why v ≡ ok n
      → (v ≡ number n) × (H.is_finite n ≡ true)
  unfolding finite_number
  finite-number why (number k) n h = elim (Bool-cases (H.is_finite k)) [
    | inl finite ↦
        let same : k ≡ n = inj_ok (rw finite at h) in
        subst (λ z. (number k ≡ number z) × (H.is_finite z ≡ true)) same (refl, finite)
    | inr infinite ↦ err_ok (rw infinite at h)
  ]
  finite-number why _ n h = err_ok h

  floated_ok : (o : Option H.Num) (q : H.Num) → floated o ≡ ok q → o ≡ some q
  unfolding floated
  floated_ok none q h = err_ok h
  floated_ok (some x) q h = ap some (inj_ok h)

  -- `commitment_terms` with a quantity.
  abbrev Offers : Value H.Num → H.Num → Type 0
  Offers v q =
      (terms : Fields H.Num) × (n : H.Num) × (v ≡ object terms)
      × (field_or_null terms "quantity" ≡ number n)
      × (H.is_finite n ≡ true)
      × (H.to_float n ≡ some q)

  offer_read : (v : Value H.Num) (q : H.Num) → quantity_of H v ≡ ok q → Offers v q
  unfolding quantity_of
  offer_read (object terms) q h =
      let (n, e, rest) =
        bind_ok (finite_number H non_numeric_quantity (field_or_null terms "quantity")) _ q h in
      let (there, finite) =
        finite-number non_numeric_quantity (field_or_null terms "quantity") n e in
      (terms, n, refl, there, finite, floated_ok (H.to_float n) q rest)
  offer_read _ q h = err_ok h

  quantity_read : (c : Value H.Num) (q : H.Num) → read_quantity H c ≡ ok q → Gives c q
  unfolding read_quantity
  quantity_read (object fs) q h =
      let (terms, n, is, there, finite, float) =
        offer_read (field_or_null fs "commitment_terms") q h in
      (fs, terms, n, refl, is, there, finite, float)
  quantity_read _ q h = err_ok h

  read-quantity : (c : Value H.Num) (q : H.Num) → Gives c q → read_quantity H c ≡ ok q
  unfolding read_quantity quantity_of finite_number floated
  read-quantity c q (fs, terms, n, is, holds, there, finite, float) =
      rw is (rw holds (rw (there, finite, float) refl))

  Quantities-read :
      (acc : H.Num) (cs : List (Value H.Num)) (t : H.Num)
      → total_from H acc cs ≡ ok t
      → (qs : List H.Num) × Quantities cs qs × (t ≡ sum_from H acc qs)
  unfolding total_from sum_from
  Quantities-read acc [] t h = ([], tt, sym (inj_ok h))
  Quantities-read acc (c ∷ cs) t h =
      let (q, e, rest) = bind_ok (read_quantity H c) _ t h in
      let (qs, give, same) = Quantities-read (H.add acc q) cs t rest in
      (q ∷ qs, (quantity_read c q e, give), same)

  read-Quantities :
      (acc : H.Num) (cs : List (Value H.Num)) (qs : List H.Num)
      → Quantities cs qs
      → total_from H acc cs ≡ ok (sum_from H acc qs)
  unfolding total_from sum_from
  read-Quantities acc [] [] give = refl
  read-Quantities acc [] (q ∷ qs) give = absurd give
  read-Quantities acc (c ∷ cs) [] give = absurd give
  read-Quantities acc (c ∷ cs) (q ∷ qs) give =
      rw (read-quantity c q give.0) (read-Quantities (H.add acc q) cs qs give.1)

  all_proved-All :
      (cs : List (Value H.Num)) → (all_proved H cs ≡ true) ↔ All (λ c. has_proof H c ≡ true) cs
  unfolding all_proved
  all_proved-All [] = (λ h. tt, λ h. refl)
  all_proved-All (c ∷ cs) = (
    λ h. (ground (arith, h), (all_proved-All cs).0 (ground (arith, h))),
    λ h. ground (arith, h.0, (all_proved-All cs).1 h.1),
  )

  -- What the profile asks of the commitments: each names its committer, no committer comes twice,
  -- the committers are the expected participants, the quantities add up to the required one within
  -- the tolerance, the deadline is not past, and each has a mandate proof if that is checked.
  pub record Agreed (t : Terms H) (cs : List (Value H.Num)) (now : ℕ) : Type 0 where
    pub names : List String
    pub committers : Committers cs names
    pub once : Distinct [] names
    pub none_missing : (x : String) → mem_str x t.expected ≡ true → mem_str x names ≡ true
    pub none_more : (x : String) → mem_str x names ≡ true → mem_str x t.expected ≡ true
    pub quantities : List H.Num
    pub given : Quantities cs quantities
    pub required : H.Num
    pub required_float : H.to_float t.required_qty ≡ some required
    pub tolerance : H.Num
    pub tolerance_float : H.to_float t.tolerance ≡ some tolerance
    pub near : H.lt tolerance (H.abs (H.sub (sum_from H H.zero quantities) required)) ≡ false
    pub in_time : now < t.deadline
    pub proved : t.mandate_check ≡ true → All (λ c. has_proof H c ≡ true) cs

  abbrev Near : Terms H → H.Num → H.Num → H.Num → Type 0
  Near t total_qty required tolerance =
      (H.to_float t.required_qty ≡ some required)
      × (H.to_float t.tolerance ≡ some tolerance)
      × (H.lt tolerance (H.abs (H.sub total_qty required)) ≡ false)

  within-Near :
      (t : Terms H) (total_qty : H.Num) (u : Unit {0})
      → within_tolerance H t total_qty ≡ ok u
      → (required : H.Num) × (tolerance : H.Num) × Near t total_qty required tolerance
  unfolding within_tolerance
  within-Near t total_qty u h =
      let (required, e, rest) = bind_ok (floated (H.to_float t.required_qty)) _ u h in
      let (tolerance, f, near) = bind_ok (floated (H.to_float t.tolerance)) _ u rest in
      (
        required,
        tolerance,
        (
          floated_ok (H.to_float t.required_qty) required e,
          floated_ok (H.to_float t.tolerance) tolerance f,
          not-true (H.lt tolerance (H.abs (H.sub total_qty required))) (guard_ok _ _ near),
        ),
      )

  close-Agreed :
      (t : Terms H) (c : Value H.Num) (cs : List (Value H.Num)) (now : ℕ)
      → close_bilateral H t (c ∷ cs) now ≡ ok tt
      → Agreed t (c ∷ cs) now
  unfolding close_bilateral check_participants
  close-Agreed t c cs now h =
      let (actual, read, h1) = bind_ok (read_committers [] (c ∷ cs)) _ tt h in
      let (total_qty, counted, h2) =
        bind_ok (check_participants actual t.expected >> total_from H H.zero (c ∷ cs)) _ tt h1 in
      let (u, participants, totalled) =
        then_ok (check_participants actual t.expected) (total_from H H.zero (c ∷ cs)) total_qty
          counted in
      let (_, more, missing) =
        then_ok (guard (subset actual t.expected) unexpected_participant) _ u participants in
      let (_, h3, proofs) =
        then_ok
          (within_tolerance H t total_qty >> guard (ltb now t.deadline) past_activation_deadline) _
          tt h2 in
      let (w, close, deadline) = then_ok (within_tolerance H t total_qty) _ _ h3 in
      let (names, by, once, is) = Committers-read [] (c ∷ cs) actual read in
      let (qs, give, sum) = Quantities-read H.zero (c ∷ cs) total_qty totalled in
      let (required, tolerance, (r, tol, near)) = within-Near t total_qty w close in
      let here : (x : String) → mem_str x actual ≡ mem_str x names =
        λ x. ap (mem_str x) is ∙ mem-onto x names [] ∙ or_false (mem_str x names) in
      record {
        names = names;
        committers = by;
        once = once;
        none_missing = λ x among.
            sym (here x) ∙ (subset_iff t.expected actual).0 (guard_ok _ _ missing) x among;
        none_more =
            λ x among. (subset_iff actual t.expected).0 (guard_ok _ _ more) x (here x ∙ among);
        quantities = qs;
        given = give;
        required = required;
        required_float = r;
        tolerance = tolerance;
        tolerance_float = tol;
        near = subst (λ z. H.lt tolerance (H.abs (H.sub z required)) ≡ false) sum near;
        in_time = ground (arith, guard_ok _ _ deadline);
        proved = λ on. (all_proved-All (c ∷ cs)).0 (ground (arith, on, guard_ok _ _ proofs));
      }

  Agreed-close :
      (t : Terms H) (c : Value H.Num) (cs : List (Value H.Num)) (now : ℕ)
      → Agreed t (c ∷ cs) now
      → close_bilateral H t (c ∷ cs) now ≡ ok tt
  unfolding close_bilateral check_participants within_tolerance floated
  Agreed-close t c cs now a =
      rw
        (
          read-Committers [] (c ∷ cs) a.names a.committers a.once,
          (subset_iff (onto a.names []) t.expected).1
              (λ x among. a.none_more x (ground (arith, mem-onto x a.names [], among))),
          (subset_iff t.expected (onto a.names [])).1
              (λ x among. ground (arith, mem-onto x a.names [], a.none_missing x among)),
          read-Quantities H.zero (c ∷ cs) a.quantities a.given,
          a.required_float,
          a.tolerance_float,
          a.near,
          lt→ltb now t.deadline a.in_time,
        )
        (guard-true (not t.mandate_check || all_proved H (c ∷ cs)) missing_mandate_proof
          (elim (Bool-cases t.mandate_check) [
            | inl on ↦ ground (arith, (all_proved-All (c ∷ cs)).1 (a.proved on))
            | inr off ↦ ground (arith, off)
          ]))

  closed-Agreed :
      (t : Terms H) (cs : List (Value H.Num)) (now : ℕ)
      → close_bilateral H t cs now ≡ ok tt
      → (cs ≢ []) × Agreed t cs now
  unfolding close_bilateral
  closed-Agreed t [] now h = err_ok h
  closed-Agreed t (c ∷ cs) now h = (λ e. absurd (cc), close-Agreed t c cs now h)

  Agreed-closed :
      (t : Terms H) (cs : List (Value H.Num)) (now : ℕ)
      → cs ≢ []
      → Agreed t cs now
      → close_bilateral H t cs now ≡ ok tt
  Agreed-closed t [] now there a = absurd (there refl)
  Agreed-closed t (c ∷ cs) now there a = Agreed-close t c cs now a

  -- The bilateral profile is satisfied exactly when its parameters are well formed, there is a
  -- commitment, and the commitments are what it asks for: one from each expected participant and
  -- from nobody else, quantities that add up to the required one within the tolerance, a deadline
  -- that is not past, and mandate proofs if they are checked.
  pub evaluate_bilateral_iff :
      (params : Fields H.Num) (cs : List (Value H.Num)) (now : ℕ)
      → (evaluate_bilateral_chain_closure_v1 H (object params) cs now ≡ ok tt)
        ↔ ((t : Terms H) × (read_terms H params ≡ ok t) × (cs ≢ []) × Agreed t cs now)
  unfolding evaluate_bilateral_chain_closure_v1
  evaluate_bilateral_iff params cs now = (
    λ h.
        let (t, read, closed) =
          bind_ok (read_terms H params) (λ t. close_bilateral H t cs now) tt h in
        let (there, agreed) = closed-Agreed t cs now closed in (t, read, there, agreed),
    λ (t, read, there, agreed). rw read (Agreed-closed t cs now there agreed),
  )
