-- ===== src/Revocation/Frontier.antt =====
-- The invariant of the loop of `cascade_revocation` (concordia/cmpc/revocation.py).
use concordia_protocol.Prelude.{
  ℕ, suc, ◌≤◌, ◌<◌, String, Bool, true, false, ◌≡◌, refl, sym, ◌∙◌, ap, ◌⊎◌, inl, inr, List, [],
  ◌∷◌, ◌++◌, arith, str_eq, eq_iff, mem_str, Among, Among-append, Among-last, Among-snoc,
  Bool-cases,
}
use mathlib.Core.Path.{subst}
use concordia_protocol.Revocation.{
  RevocationRecord, CandidateArtifact, CascadeDecisionRecord, InadmissibleArtifact, Host,
}
use concordia_protocol.Revocation.Cascade.{Visit, Search, child, enqueue, inadmissible_artifact}
use concordia_protocol.Revocation.Steps.{follows, recorded}
use concordia_protocol.Revocation.Walks.{Walk, Way, root_visit}

pub true-false : {t : Bool} → t ≡ true → t ≡ false → ⊥
true-false yes_t no_t = cc

-- The items stand in the order of their depths.
abbrev pub Sorted : List Visit → Type 0
Sorted [] = Unit
Sorted (v ∷ vs) = ((w : Visit) → Among w vs → v.depth ≤ w.depth) × Sorted vs

Sorted-append :
    (vs : List Visit) (v : Visit)
    → Sorted vs
    → ((w : Visit) → Among w vs → w.depth ≤ v.depth)
    → Sorted (vs ++ v ∷ [])
Sorted-append [] v s h = (λ w away. elim away [ ], tt)
Sorted-append (u ∷ vs) v s h = (
  λ w among. elim (Among-snoc w v vs among) [
    | inl old ↦ s.0 w old
    | inr new ↦ omega (arith, ap (λ (z : Visit). z.depth) new, h u (inl refl))
  ],
  Sorted-append vs v s.1 (λ w among. h w (inr among)),
)

-- The visit was made or stands in the frontier.
abbrev pub Queued : List Visit → Search → Visit → Type 0
Queued done s v = Among v done ⊎ Among v s.frontier

-- What an entry of the result is known to be, at any time of the search.
abbrev pub Recorded : (Visit → Type 0) → InadmissibleArtifact → Type 0
Recorded Q i = (v : Visit) → Q v → v.id ≡ i.artifact_id → i.cascade_depth ≤ v.depth

module _ (artifacts : List CandidateArtifact) (root : String) (m : ℕ) where
  -- `done` are the visits made; `Todo v c` holds where the visit `v` is being made and `c` is
  -- still to be looked at; `d` is the depth of the visits that the search is at.
  pub record Inv (d : ℕ) (Todo : Visit → CandidateArtifact → Type 0) (done : List Visit)
      (s : Search) : Type 0 where
    pub rooted : Queued done s (root_visit artifacts root)
    pub closed :
        (v : Visit)
        → Among v done
        → v.depth < m
        → (c : CandidateArtifact) → Among c artifacts
        → follows v c ≡ true
        → Queued done s (child v c) ⊎ Todo v c
    pub ways : (v : Visit) → Queued done s v → Way artifacts root v × (v.depth ≤ m)
    pub marked : (v : Visit) → Queued done s v → mem_str v.id s.seen ≡ true
    pub listed :
        (x : String)
        → mem_str x s.seen ≡ true
        → (i : InadmissibleArtifact) × Among i s.inadmissible × (i.artifact_id ≡ x)
    pub walked :
        (i : InadmissibleArtifact)
        → Among i s.inadmissible
        → Walk artifacts root i.artifact_id i.cascade_depth
          × (i.cascade_depth ≤ m)
          × (i.cascade_depth ≤ suc d)
    pub nearest : (i : InadmissibleArtifact) → Among i s.inadmissible → Recorded (Queued done s) i
    pub ordered : Sorted s.frontier
    pub above : (v : Visit) → Among v s.frontier → (d ≤ v.depth) × (v.depth ≤ suc d)

  -- A new item at the end of the frontier, whose artifact is in the result.
  pub Inv-enqueue :
      {d : ℕ} {Todo Todo' : Visit → CandidateArtifact → Type 0} {done : List Visit} {s : Search}
      → Inv d Todo done s
      → (w : Visit) → Way artifacts root w
      → w.depth ≤ m
      → w.depth ≡ suc d
      → mem_str w.id s.seen ≡ true
      → ((v : Visit) (c : CandidateArtifact)
          → follows v c ≡ true
          → Todo v c
          → (child v c ≡ w) ⊎ Todo' v c)
      → Inv d Todo' done (enqueue w s)
  unfolding enqueue
  Inv-enqueue {done = done} {s = s} inv w way le deep mark turn =
      let old : (v : Visit) → Queued done s v → Queued done (enqueue w s) v = λ v q. elim q [
        | inl before ↦ inl before
        | inr waits ↦ inr (Among-append v s.frontier (w ∷ []) waits)
      ] in
      let split : (v : Visit) → Queued done (enqueue w s) v → Queued done s v ⊎ (v ≡ w) = λ v q.
        elim q [
          | inl before ↦ inl (inl before)
          | inr waits ↦ elim (Among-snoc v w s.frontier waits) [
            | inl there ↦ inl (inr there)
            | inr new ↦ inr new
          ]
        ] in
      record {
        rooted = old (root_visit artifacts root) inv.rooted;
        closed = λ v among lt c of f. elim (inv.closed v among lt c of f) [
          | inl q ↦ inl (old (child v c) q)
          | inr todo ↦ elim (turn v c f todo) [
            | inl now ↦ inl (
                inr
                  (subst (λ z. Among z (s.frontier ++ w ∷ [])) (sym now) (Among-last w s.frontier)))
            | inr later ↦ inr later
          ]
        ];
        ways = λ v q. elim (split v q) [
          | inl before ↦ inv.ways v before
          | inr new ↦ subst (λ z. Way artifacts root z × (z.depth ≤ m)) (sym new) (way, le)
        ];
        marked = λ v q. elim (split v q) [
          | inl before ↦ inv.marked v before
          | inr new ↦ subst (λ z. mem_str z.id s.seen ≡ true) (sym new) mark
        ];
        listed = inv.listed;
        walked = inv.walked;
        nearest = λ i among v q same. elim (split v q) [
          | inl before ↦ inv.nearest i among v before same
          | inr new ↦ omega (arith, ap (λ (z : Visit). z.depth) new, (inv.walked i among).2, deep)
        ];
        ordered =
            Sorted-append s.frontier w inv.ordered
              (λ v among. omega (arith, inv.above v among, deep));
        above = λ v among. elim (Among-snoc v w s.frontier among) [
          | inl there ↦ inv.above v there
          | inr new ↦ omega (arith, ap (λ (z : Visit). z.depth) new, deep)
        ];
      }

  -- The entry for an artifact that no entry is for.
  pub Inv-recorded :
      (H : Host) (revocation : RevocationRecord) {d : ℕ} {Todo : Visit → CandidateArtifact → Type 0}
      {done : List Visit} {s : Search}
      → Inv d Todo done s
      → (id why : String) (new : List CascadeDecisionRecord) → Walk artifacts root id (suc d)
      → suc d ≤ m
      → mem_str id s.seen ≡ false
      → Inv d Todo done (recorded H revocation id (suc d) why new s)
  unfolding inadmissible_artifact
  Inv-recorded H revocation {d = d} {s = s} inv id why new walk le fresh =
      let i = inadmissible_artifact H revocation id (suc d) why in
      record {
        rooted = inv.rooted;
        closed = inv.closed;
        ways = inv.ways;
        marked = λ v q. ground (arith, inv.marked v q);
        listed = λ x seen. elim (Bool-cases (str_eq id x)) [
          | inl here ↦ (i, Among-last i s.inadmissible, (eq_iff id x).0 here)
          | inr before ↦
              let (j, among, same) = inv.listed x (rw before at seen) in
              (j, Among-append j s.inadmissible (i ∷ []) among, same)
        ];
        walked = λ j among. elim (Among-snoc j i s.inadmissible among) [
          | inl old ↦ inv.walked j old
          | inr latest ↦
              subst
                (λ z.
                  Walk artifacts root z.artifact_id z.cascade_depth
                  × (z.cascade_depth ≤ m)
                  × (z.cascade_depth ≤ suc d))
                (sym latest) (walk, le, omega arith)
        ];
        nearest = λ j among v q same. elim (Among-snoc j i s.inadmissible among) [
          | inl old ↦ inv.nearest j old v q same
          | inr latest ↦
              let at_id : v.id ≡ id =
                same ∙ ap (λ (z : InadmissibleArtifact). z.artifact_id) latest in
              absurd
                (true-false (subst (λ y. mem_str y s.seen ≡ true) at_id (inv.marked v q)) fresh)
        ];
        ordered = inv.ordered;
        above = inv.above;
      }

  -- The item at the head of the frontier is taken; all artifacts are still to be looked at for it.
  pub Inv-pop :
      {d : ℕ} {done : List Visit} {s : Search}
      → Inv d (λ _ _. ⊥) done s
      → (v : Visit) (rest : List Visit) → s.frontier ≡ v ∷ rest
      → Inv v.depth (λ u c. (u ≡ v) × Among c artifacts) (v ∷ done) (record s { frontier = rest })
  Inv-pop {d} {done} {s} inv v rest more =
      let popped = record s { frontier = rest } in
      let now : (w : Visit) → Among w s.frontier → Among w (v ∷ rest) = λ w. subst (Among w) more in
      let then_queued : (w : Visit) → Among w (v ∷ rest) → Among w s.frontier =
        λ w. subst (Among w) (sym more) in
      let shift : (w : Visit) → Queued done s w → Queued (v ∷ done) popped w = λ w q. elim q [
        | inl before ↦ inl (inr before)
        | inr waits ↦ elim (now w waits) [ inl head ↦ inl (inl head) | inr tail ↦ inr tail ]
      ] in
      let back : (w : Visit) → Queued (v ∷ done) popped w → Queued done s w = λ w q. elim q [
        | inl (inl head) ↦ inr (then_queued w (inl head))
        | inl (inr before) ↦ inl before
        | inr tail ↦ inr (then_queued w (inr tail))
      ] in
      let deep = inv.above v (then_queued v (inl refl)) in
      let order : Sorted (v ∷ rest) = subst Sorted more inv.ordered in
      record {
        rooted = shift (root_visit artifacts root) inv.rooted;
        closed = λ u among lt c of f. elim among [
          | inl head ↦ inr (head, of)
          | inr before ↦ elim (inv.closed u before lt c of f) [
            | inl q ↦ inl (shift (child u c) q)
            | inr never ↦ absurd never
          ]
        ];
        ways = λ w q. inv.ways w (back w q);
        marked = λ w q. inv.marked w (back w q);
        listed = inv.listed;
        walked = λ i among.
            let (walk, le, near) = inv.walked i among in (walk, le, omega (arith, near, deep));
        nearest = λ i among w q. inv.nearest i among w (back w q);
        ordered = order.1;
        above = λ w among.
            (order.0 w among, omega (arith, deep, inv.above w (then_queued w (inr among))));
      }
