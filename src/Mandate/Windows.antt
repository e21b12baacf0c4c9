-- ===== src/Mandate/Windows.antt =====
-- The validity window of a mandate (concordia/mandate.py): when the mandate is within it.
use concordia_protocol.Prelude.{
  ℕ, ◌≤◌, String, Bool, true, false, not, ◌&&◌, ◌≡◌, refl, sym, ap, ◌⊎◌, inl, inr, ◌↔◌, Option,
  none, some, inj_some, arith, eq_iff, is_some, if◌then◌else◌, Option-cases,
}
use mathlib.Core.Path.{subst}
use concordia_protocol.Mandate.{TemporalMode, sequence, windowed, state_bound, ValidityWindow}
use concordia_protocol.Mandate.Verify.{
  Host, Context, Stamp, aware, naive, between_stamps, same_or_absent, true_or_absent, in_window,
  in_mode, check_temporal_validity, missing_context,
}
use concordia_protocol.Mandate.Granted.{passed, valid_now}

module _ (H : Host) (c : Context H) where
  -- Now is between the two times, both of which have a zone.
  abbrev pub Within : Option String → Option String → Type 0
  Within not_before not_after =
      (a : String) × (b : String) × (from : ℕ) × (to : ℕ) × (not_before ≡ some a)
      × (not_after ≡ some b)
      × (H.read_stamp a ≡ some (aware from))
      × (H.read_stamp b ≡ some (aware to))
      × (from ≤ c.now)
      × (c.now ≤ to)

  abbrev pub InSequence : Option String → Type 0
  InSequence sequence_key =
      (key : String) × (sequence_key ≡ some key)
      × ((c.sequence_key ≡ some key)
          ⊎ ((c.sequence_key ≡ none) × (c.require_binding_context ≡ false)))

  abbrev pub InState : Option String → Type 0
  InState state_condition =
      (condition : String) × (state_condition ≡ some condition)
      × ((c.state_active ≡ some true)
          ⊎ ((c.state_active ≡ none) × (c.require_binding_context ≡ false)))

  abbrev pub InMode : TemporalMode → ValidityWindow H.Num → Type 0
  InMode windowed v = Within v.not_before v.not_after
  InMode sequence v = InSequence v.sequence_key
  InMode state_bound v = InState v.state_condition

  abbrev pub InTime : Option (ValidityWindow H.Num) → Type 0
  InTime none = Unit
  InTime (some v) = InMode v.mode v

  between_iff :
      (o p : Option Stamp)
      → (passed (between_stamps c.now o p) ≡ true) ↔ (
          (from : ℕ) × (to : ℕ) × (o ≡ some (aware from))
          × (p ≡ some (aware to))
          × (from ≤ c.now)
          × (c.now ≤ to))
  unfolding between_stamps
  between_iff none p =
      (λ h. absurd (ground (arith, h)), λ (a, b, e, f, r, s). absurd (ground (arith, e)))
  between_iff (some x) none =
      (λ h. absurd (ground (arith, h)), λ (a, b, e, f, r, s). absurd (ground (arith, f)))
  between_iff (some naive) (some y) =
      (λ h. absurd (ground (arith, h)), λ (a, b, e, f, r, s). absurd (ground (arith, e)))
  between_iff (some (aware from)) (some naive) =
      (λ h. absurd (ground (arith, h)), λ (a, b, e, f, r, s). absurd (ground (arith, f)))
  between_iff (some (aware from)) (some (aware to)) = (
    λ h. (from, to, refl, refl, ground (arith, h), ground (arith, h)),
    λ (a, b, e, f, r, s). ground (arith, e, f, r, s),
  )

  window_iff : (o p : Option String) → (passed (in_window H o p c.now) ≡ true) ↔ Within o p
  unfolding in_window
  window_iff none p = (
    λ h. absurd (ground (arith, h)),
    λ (a, b, x, y, e, f, g, i, r, s). absurd (ground (arith, e)),
  )
  window_iff (some a) none = (
    λ h. absurd (ground (arith, h)),
    λ (x, y, z, w, e, f, g, i, r, s). absurd (ground (arith, f)),
  )
  window_iff (some a) (some b) =
      let times = between_iff (H.read_stamp a) (H.read_stamp b) in
      (
        λ h. let (from, to, e, f, r, s) = times.0 h in (a, b, from, to, refl, refl, e, f, r, s),
        λ (x, y, from, to, e, f, g, h, r, s). times.1 (
          from,
          to,
          subst (λ z. H.read_stamp z ≡ some (aware from)) (sym (inj_some e)) g,
          subst (λ z. H.read_stamp z ≡ some (aware to)) (sym (inj_some f)) h,
          r,
          s,
        ),
      )

  key_iff :
      (key : String) (given : Option String) (required : Bool)
      → ((not (
              is_some {A = String}
                (if required && not (is_some given) then some "missing_sequence_context" else none))
            && same_or_absent given key)
          ≡ true)
        ↔ ((given ≡ some key) ⊎ ((given ≡ none) × (required ≡ false)))
  unfolding same_or_absent
  key_iff key none true = (λ h. absurd (ground (arith, h)), λ h. absurd (ground (arith, h)))
  key_iff key none false = (λ h. inr (refl, refl), λ h. refl)
  key_iff key (some given) required = (
    λ h. inl (ap some ((eq_iff given key).0 (ground (arith, h)))),
    λ h. ground (arith, h, eq_iff given key),
  )

  state_iff :
      (state_active : Option Bool) (required : Bool)
      → ((not (
              is_some {A = String} (
                if required && not (is_some state_active)
                then some "missing_state_context"
                else none))
            && true_or_absent state_active)
          ≡ true)
        ↔ ((state_active ≡ some true) ⊎ ((state_active ≡ none) × (required ≡ false)))
  unfolding true_or_absent
  state_iff none true = (λ h. absurd (ground (arith, h)), λ h. absurd (ground (arith, h)))
  state_iff none false = (λ h. inr (refl, refl), λ h. refl)
  state_iff (some true) required = (λ h. inl refl, λ h. ground arith)
  state_iff (some false) required =
      (λ h. absurd (ground (arith, h)), λ h. absurd (ground (arith, h)))

  mode_iff :
      (mode : TemporalMode) (v : ValidityWindow H.Num)
      → ((not (is_some (missing_context H mode c))
            && passed (in_mode H mode v c.now c.sequence_key c.state_active))
          ≡ true)
        ↔ InMode mode v
  unfolding missing_context in_mode
  mode_iff windowed v = window_iff v.not_before v.not_after
  mode_iff sequence v = elim (Option-cases v.sequence_key) [
    | inl missing ↦
        rw (missing, in_mode)
          (λ h. absurd (ground (arith, h)), λ (key, e, r). absurd (ground (arith, e)))
    | inr (key, known) ↦
        let given = key_iff key c.sequence_key c.require_binding_context in
        rw (known, in_mode)
          (
            λ h. (key, refl, given.0 h),
            λ (other, e, r). given.1 (
                subst
                  (λ z.
                    (c.sequence_key ≡ some z)
                    ⊎ ((c.sequence_key ≡ none) × (c.require_binding_context ≡ false)))
                  (sym (inj_some e)) r),
          )
  ]
  mode_iff state_bound v = elim (Option-cases v.state_condition) [
    | inl missing ↦
        rw (missing, in_mode)
          (λ h. absurd (ground (arith, h)), λ (key, e, r). absurd (ground (arith, e)))
    | inr (condition, known) ↦
        let given = state_iff c.state_active c.require_binding_context in
        rw (known, in_mode) (λ h. (condition, refl, given.0 h), λ (other, e, r). given.1 r)
  ]

  pub time_iff : (o : Option (ValidityWindow H.Num)) → (valid_now H c o ≡ true) ↔ InTime o
  unfolding check_temporal_validity
  time_iff none = (λ h. tt, λ h. refl)
  time_iff (some v) = mode_iff v.mode v
