-- ===== src/Revocation/Snapshot.antt =====
-- What `_materialize_plain` of concordia/cmpc/revocation.py lets through.
use concordia_protocol.Prelude.{
  ℕ, suc, ◌+◌, ◌≤◌, true, false, ◌≡◌, refl, sym, ◌∙◌, ap, ap₂, inl, inr, ◌↔◌, Option, none, some,
  inj_some, arith, ltb, Bool-cases, Option-cases, if◌then◌else◌,
}
use concordia_protocol.Revocation.{
  PyValue, text_value, int_value, negative_value, float_value, bool_value, none_value, dict_value,
  list_value, foreign_value, Entries, no_entries, entry, Items, no_items, item,
}
use concordia_protocol.Revocation.Decisions.{
  combine, materialize_plain, materialize_entries, materialize_items,
}

abbrev pub larger : ℕ → ℕ → ℕ
larger a b = if ltb a b then b else a

-- How many containers stand around the innermost value.
unfoldable mutual
  pub height : PyValue → ℕ
  height (dict_value exact es) = entries_height es
  height (list_value exact xs) = items_height xs
  height _ = 0

  pub entries_height : Entries → ℕ
  entries_height no_entries = 0
  entries_height (entry k v es) = larger (suc (height v)) (entries_height es)

  pub items_height : Items → ℕ
  items_height no_items = 0
  items_height (item v xs) = larger (suc (height v)) (items_height xs)

-- Every container is exactly a dict or a list, every key a text, and every other value of a JSON
-- type.
unfoldable mutual
  pub Plain : PyValue → Type 0
  Plain (dict_value true es) = PlainEntries es
  Plain (dict_value false es) = ⊥
  Plain (list_value true xs) = PlainItems xs
  Plain (list_value false xs) = ⊥
  Plain (foreign_value s) = ⊥
  Plain _ = Unit

  pub PlainEntries : Entries → Type 0
  PlainEntries no_entries = Unit
  PlainEntries (entry none v es) = ⊥
  PlainEntries (entry (some k) v es) = Plain v × PlainEntries es

  pub PlainItems : Items → Type 0
  PlainItems no_items = Unit
  PlainItems (item v xs) = Plain v × PlainItems xs

within_bound : (n : ℕ) → n ≤ 64 → ltb 64 n ≡ false
within_bound n h = ground arith

larger_fits : (a b d : ℕ) → d + larger (suc a) b ≤ 65 → (d + a ≤ 64) × (d + b ≤ 65)
larger_fits a b d h = ground arith

pub larger_least : (a b c : ℕ) → a ≤ c → b ≤ c → larger a b ≤ c
larger_least a b c h k = ground arith

combine-some :
    {A B C : Type 0} (f : A → B → C) (x : Option A) (y : Option B) (c : C)
    → combine f x y ≡ some c
    → (a : A) × (b : B) × (x ≡ some a) × (y ≡ some b) × (c ≡ f a b)
combine-some f none y c h = cc
combine-some f (some a) none c h = cc
combine-some f (some a) (some b) c h = (a, b, refl, refl, cc)

mutual
  unfolding materialize_plain height Plain

  Plain-copied :
      (v : PyValue) (depth : ℕ)
      → Plain v
      → depth + height v ≤ 64
      → materialize_plain v depth ≡ some v
  Plain-copied (text_value s) depth p h = ground arith
  Plain-copied (int_value n) depth p h = ground arith
  Plain-copied (negative_value n) depth p h = ground arith
  Plain-copied (float_value s) depth p h = ground arith
  Plain-copied (bool_value b) depth p h = ground arith
  Plain-copied none_value depth p h = ground arith
  Plain-copied (dict_value true es) depth p h =
      rw (within_bound depth (omega (arith, h)), entries_copied es (suc depth) p (omega (arith, h)))
        refl
  Plain-copied (dict_value false es) depth p h = absurd p
  Plain-copied (list_value true xs) depth p h =
      rw (within_bound depth (omega (arith, h)), items_copied xs (suc depth) p (omega (arith, h)))
        refl
  Plain-copied (list_value false xs) depth p h = absurd p
  Plain-copied (foreign_value s) depth p h = absurd p

  entries_copied :
      (es : Entries) (depth : ℕ)
      → PlainEntries es
      → depth + entries_height es ≤ 65
      → materialize_entries es depth ≡ some es
  entries_copied no_entries depth p h = refl
  entries_copied (entry none v es) depth p h = absurd p
  entries_copied (entry (some k) v es) depth p h =
      ap₂ (combine (entry (some k)))
        (Plain-copied v depth p.0 (larger_fits (height v) (entries_height es) depth h).0)
        (entries_copied es depth p.1 (larger_fits (height v) (entries_height es) depth h).1)

  items_copied :
      (xs : Items) (depth : ℕ)
      → PlainItems xs
      → depth + items_height xs ≤ 65
      → materialize_items xs depth ≡ some xs
  items_copied no_items depth p h = refl
  items_copied (item v xs) depth p h =
      ap₂ (combine item)
        (Plain-copied v depth p.0 (larger_fits (height v) (items_height xs) depth h).0)
        (items_copied xs depth p.1 (larger_fits (height v) (items_height xs) depth h).1)

mutual
  unfolding materialize_plain height Plain

  copied-Plain :
      (v w : PyValue) (depth : ℕ)
      → materialize_plain v depth ≡ some w
      → (w ≡ v) × Plain v × (depth + height v ≤ 64)
  copied-Plain (text_value s) w depth e = ground (arith, e)
  copied-Plain (int_value n) w depth e = ground (arith, e)
  copied-Plain (negative_value n) w depth e = ground (arith, e)
  copied-Plain (float_value s) w depth e = ground (arith, e)
  copied-Plain (bool_value b) w depth e = ground (arith, e)
  copied-Plain none_value w depth e = ground (arith, e)
  copied-Plain (dict_value true es) w depth e = elim (Bool-cases (ltb 64 depth)) [
    | inl deep ↦ absurd (ground (arith, e, deep))
    | inr within ↦ elim (Option-cases (materialize_entries es (suc depth))) [
      | inl stuck ↦ absurd (ground (arith, e, within, stuck))
      | inr (fs, copy) ↦
          let (same, plain, h) = copied_entries es fs (suc depth) (ground (arith, within)) copy in
          (
            sym (inj_some (rw (within, copy) at e)) ∙ ap (dict_value true) same,
            plain,
            omega (arith, h),
          )
    ]
  ]
  copied-Plain (dict_value false es) w depth e = absurd (ground (arith, e))
  copied-Plain (list_value true xs) w depth e = elim (Bool-cases (ltb 64 depth)) [
    | inl deep ↦ absurd (ground (arith, e, deep))
    | inr within ↦ elim (Option-cases (materialize_items xs (suc depth))) [
      | inl stuck ↦ absurd (ground (arith, e, within, stuck))
      | inr (ys, copy) ↦
          let (same, plain, h) = copied_items xs ys (suc depth) (ground (arith, within)) copy in
          (
            sym (inj_some (rw (within, copy) at e)) ∙ ap (list_value true) same,
            plain,
            omega (arith, h),
          )
    ]
  ]
  copied-Plain (list_value false xs) w depth e = absurd (ground (arith, e))
  copied-Plain (foreign_value s) w depth e = absurd (ground (arith, e))

  copied_entries :
      (es fs : Entries) (depth : ℕ)
      → depth ≤ 65
      → materialize_entries es depth ≡ some fs
      → (fs ≡ es) × PlainEntries es × (depth + entries_height es ≤ 65)
  copied_entries no_entries fs depth le e = ground (arith, e, le)
  copied_entries (entry none v es) fs depth le e = absurd (ground (arith, e))
  copied_entries (entry (some k) v es) fs depth le e =
      let (w, rest, of_v, of_rest, same) =
        combine-some (entry (some k)) (materialize_plain v depth) (materialize_entries es depth) fs
          e in
      let (v_same, v_plain, v_h) = copied-Plain v w depth of_v in
      let (es_same, es_plain, es_h) = copied_entries es rest depth le of_rest in
      (same ∙ ap₂ (entry (some k)) v_same es_same, (v_plain, es_plain), ground (arith, v_h, es_h))

  copied_items :
      (xs ys : Items) (depth : ℕ)
      → depth ≤ 65
      → materialize_items xs depth ≡ some ys
      → (ys ≡ xs) × PlainItems xs × (depth + items_height xs ≤ 65)
  copied_items no_items ys depth le e = ground (arith, e, le)
  copied_items (item v xs) ys depth le e =
      let (w, rest, of_v, of_rest, same) =
        combine-some item (materialize_plain v depth) (materialize_items xs depth) ys e in
      let (v_same, v_plain, v_h) = copied-Plain v w depth of_v in
      let (xs_same, xs_plain, xs_h) = copied_items xs rest depth le of_rest in
      (same ∙ ap₂ item v_same xs_same, (v_plain, xs_plain), ground (arith, v_h, xs_h))

-- The snapshot is a copy of the value, and it is made exactly of a value whose containers are all
-- plain dicts and lists with text keys, whose other parts are of JSON's types, and which has at
-- most 64 containers around a part.
pub materialize_plain_iff :
    (v w : PyValue) → (materialize_plain v 0 ≡ some w) ↔ ((w ≡ v) × Plain v × (height v ≤ 64))
materialize_plain_iff v w = (
  λ e. let (same, plain, h) = copied-Plain v w 0 e in (same, plain, omega (arith, h)),
  λ (same, plain, h). Plain-copied v 0 plain (omega (arith, h)) ∙ ap some (sym same),
)
