-- ===== src/Auth/Reload.antt =====
-- The file of session tokens of concordia/auth.py: what was written is read back.
use concordia_protocol.Prelude.{
  ℕ, ◌<◌, String, Bool, true, false, ◌&&◌, ◌≡◌, refl, sym, ◌∙◌, ap, inl, inr, Option, none, some,
  List, [], ◌∷◌, arith, str_truthy, leb, ◌==◌, if◌then◌else◌, Bool-cases, Option-cases,
}
use mathlib.Core.Path.{subst}
use concordia_protocol.Auth.{
  AuthTokenStore, SavedToken, SessionKey, Keyed, eq_key, find_key, set_key, is_expired, or_zero,
  saved_tokens, persist_session_tokens, load_entries, load_file, load_session_tokens, new_store,
}
use concordia_protocol.Auth.Sessions.{persisted_tokens}
use concordia_protocol.Auth.Keys.{find-set, eq_key_iff}

-- No key stands twice, and every entry has texts that are not empty and an expiry after 0.
abbrev pub Savable : Keyed String → Keyed ℕ → Type 0
Savable [] expiry = Unit
Savable (((sid, role), token) ∷ d) expiry =
    (find_key d (sid, role) ≡ none)
    × ((str_truthy sid && str_truthy role && str_truthy token) ≡ true)
    × ((x : ℕ) × (find_key expiry (sid, role) ≡ some x) × (0 < x))
    × Savable d expiry

-- What a load at `now` finds under a key, given the token and the expiry in the file and what there
-- was before.
abbrev kept : ℕ → Option String → Option ℕ → Option String → Option String
kept now none x before = before
kept now (some token) none before = some token
kept now (some token) (some x) before = if leb x now then before else some token

abbrev ends : ℕ → Option ℕ → Bool
ends now none = false
ends now (some x) = leb x now

nonzero : (x : ℕ) → 0 < x → (x == 0) ≡ false
nonzero x h = ground arith

module _ (now : ℕ) (changed : Bool) (s : AuthTokenStore) (saved : SavedToken)
    (more : List SavedToken) where
  abbrev Full : Type 0
  Full = (str_truthy saved.session_id && str_truthy saved.role && str_truthy saved.token) ≡ true

  load_past :
      Full
      → 0 < saved.expires_at
      → leb saved.expires_at now ≡ true
      → load_entries (saved ∷ more) now changed s ≡ load_entries more now true s
  unfolding load_entries
  load_past full pos past = rw (full, nonzero saved.expires_at pos, past) refl

  load_live :
      Full
      → 0 < saved.expires_at
      → leb saved.expires_at now ≡ false
      → load_entries (saved ∷ more) now changed s
        ≡ load_entries more now changed (record s {
          session_tokens = set_key s.session_tokens (saved.session_id, saved.role) saved.token;
          session_expiry = set_key s.session_expiry (saved.session_id, saved.role) saved.expires_at;
        })
  unfolding load_entries
  load_live full pos live = rw (full, nonzero saved.expires_at pos, live) refl

module _ (now : ℕ) (expiry : Keyed ℕ) where
  abbrev saved_as : SessionKey → String → SavedToken
  saved_as (sid, role) token = record {
    session_id = sid;
    role = role;
    token = token;
    expires_at = or_zero (find_key expiry (sid, role));
  }

  at_past :
      (key j : SessionKey) (token : String) (d : Keyed String) (x : ℕ) (before : Option String)
      → find_key d key ≡ none
      → find_key expiry key ≡ some x
      → leb x now ≡ true
      → kept now (find_key d j) (find_key expiry j) before
        ≡ kept now (find_key ((key, token) ∷ d) j) (find_key expiry j) before
  unfolding find_key
  at_past key j token d x before alone e past = elim (Bool-cases (eq_key key j)) [
    | inr other ↦ rw other refl
    | inl same ↦
        let here : key ≡ j = eq_key_iff key j same in
        let e_j : find_key expiry j ≡ some x = subst (λ k. find_key expiry k ≡ some x) here e in
        let alone_j : find_key d j ≡ none = subst (λ k. find_key d k ≡ none) here alone in
        rw (same, e_j, alone_j, past) refl
  ]

  at_live :
      (key j : SessionKey) (token : String) (d : Keyed String) (x : ℕ) (before : Keyed String)
      → find_key d key ≡ none
      → find_key expiry key ≡ some x
      → leb x now ≡ false
      → kept now (find_key d j) (find_key expiry j) (find_key (set_key before key token) j)
        ≡ kept now (find_key ((key, token) ∷ d) j) (find_key expiry j) (find_key before j)
  unfolding find_key
  at_live key j token d x before alone e live = elim (Bool-cases (eq_key key j)) [
    | inr other ↦ rw (find-set before key j token, other) refl
    | inl same ↦
        let here : key ≡ j = eq_key_iff key j same in
        let e_j : find_key expiry j ≡ some x = subst (λ k. find_key expiry k ≡ some x) here e in
        let alone_j : find_key d j ≡ none = subst (λ k. find_key d k ≡ none) here alone in
        rw (find-set before key j token, same, e_j, alone_j, live) refl
  ]

  loaded_nil :
      (changed : Bool) (s : AuthTokenStore) (j : SessionKey)
      → find_key (load_entries [] now changed s).1.session_tokens j
        ≡ kept now (find_key {V = String} [] j) (find_key expiry j) (find_key s.session_tokens j)
  unfolding load_entries find_key
  loaded_nil changed s j = refl

  or_zero_known : (o : Option ℕ) {x : ℕ} → o ≡ some x → or_zero o ≡ x
  unfolding or_zero
  or_zero_known o e = rw e refl

  loaded :
      (d : Keyed String) (changed : Bool) (s : AuthTokenStore) (j : SessionKey)
      → Savable d expiry
      → find_key (load_entries (saved_tokens d expiry) now changed s).1.session_tokens j
        ≡ kept now (find_key d j) (find_key expiry j) (find_key s.session_tokens j)
  unfolding saved_tokens
  loaded [] changed s j h = loaded_nil changed s j
  loaded (((sid, role), token) ∷ d) changed s j (alone, texts, (x, e, pos), rest) =
      let saved = saved_as (sid, role) token in
      let time : or_zero (find_key expiry (sid, role)) ≡ x =
        or_zero_known (find_key expiry (sid, role)) e in
      let later : 0 < saved.expires_at = omega (arith, time, pos) in
      elim (Bool-cases (leb x now)) [
        | inl past ↦
            rw
              (load_past now changed s saved (saved_tokens d expiry) texts later
                (ap (λ z. leb z now) time ∙ past))
              (loaded d true s j rest
                ∙ at_past (sid, role) j token d x (find_key s.session_tokens j) alone e past)
        | inr live ↦
            rw
              (load_live now changed s saved (saved_tokens d expiry) texts later
                (ap (λ z. leb z now) time ∙ live))
              (loaded d changed _ j rest
                ∙ at_live (sid, role) j token d x s.session_tokens alone e live)
      ]

kept-none :
    (now : ℕ) (o : Option String) (x : Option ℕ)
    → kept now o x none ≡ (if ends now x then none else o)
kept-none now none none = refl
kept-none now none (some x) = ground arith
kept-none now (some token) none = refl
kept-none now (some token) (some x) = refl

is_expired-ends :
    (key : SessionKey) (now : ℕ) (s : AuthTokenStore)
    → is_expired key now s ≡ ends now (find_key s.session_expiry key)
unfolding is_expired
is_expired-ends key now s = elim (Option-cases (find_key s.session_expiry key)) [
  | inl never ↦ rw (never, is_expired) refl
  | inr (x, e) ↦ rw (e, is_expired) refl
]

persisted_file :
    (s : AuthTokenStore)
    → s.writable ≡ true
    → (persist_session_tokens s).file ≡ some (saved_tokens s.session_tokens s.session_expiry)
unfolding persist_session_tokens
persisted_file s on = rw on refl

rewritten :
    (changed : Bool) (t : AuthTokenStore)
    → (if changed then persist_session_tokens t else t).session_tokens ≡ t.session_tokens
rewritten true t = persisted_tokens t
rewritten false t = refl

load_tokens :
    (entries : List SavedToken) (now : ℕ) (s : AuthTokenStore)
    → s.file ≡ some entries
    → (load_session_tokens now s).session_tokens
      ≡ (load_entries entries now false s).1.session_tokens
unfolding load_session_tokens load_file
load_tokens entries now s file =
    let (changed, after) = load_entries entries now false s in
    ap (λ f. (load_file f now s).session_tokens) file ∙ rewritten changed after

-- A store that is made from the file that another wrote has under each session and role the token
-- of the other, unless it has expired at the time of the loading; a file that can be written and
-- entries that are full and have an expiry taken for granted.
pub new_store-persist :
    (s : AuthTokenStore) (writable : Bool) (ttl_seconds now : ℕ) (key : SessionKey)
    → s.writable ≡ true
    → Savable s.session_tokens s.session_expiry
    → find_key
        (new_store (persist_session_tokens s).file writable ttl_seconds true now).session_tokens
        key
      ≡ (if is_expired key now s then none else find_key s.session_tokens key)
unfolding new_store find_key
new_store-persist s writable ttl_seconds now key on savable =
    let entries = saved_tokens s.session_tokens s.session_expiry in
    let blank : AuthTokenStore = record {
      agent_tokens = [];
      session_tokens = [];
      session_expiry = [];
      token_to_agent = [];
      ttl_seconds = ttl_seconds;
      file = (persist_session_tokens s).file;
      writable = writable;
    } in
    ap (λ d. find_key d key) (load_tokens entries now blank (persisted_file s on))
    ∙ loaded now s.session_expiry s.session_tokens false blank key savable
    ∙ kept-none now (find_key s.session_tokens key) (find_key s.session_expiry key)
    ∙ ap (λ b. if b then none else find_key s.session_tokens key) (sym (is_expired-ends key now s))
