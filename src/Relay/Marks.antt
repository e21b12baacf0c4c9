-- ===== src/Relay/Marks.antt =====
-- The tests of a poll of concordia/relay.py, and that its marks change no answer of them.
use concordia_protocol.Prelude.{
  ℕ, zero, suc, String, ◌≡◌, refl, ap, Bool, false, not, ◌&&◌, Option, none, some, List, [], ◌∷◌,
  arith, keep, get_elem?, modify_at,
}
use concordia_protocol.Relay.{RelayedMessage, Relay, put_session, is_expired}
use concordia_protocol.Relay.Messages.{count_received, is_filtered, mark_lapsed, mark_delivered}

-- What survives of a message once it is marked.
abbrev pub Same : (RelayedMessage → RelayedMessage) → Type 0
Same f =
    (m : RelayedMessage)
    → ((f m).session_id ≡ m.session_id) × ((f m).created_at ≡ m.created_at) × ((f m).ttl ≡ m.ttl)

-- The message is there and unexpired.
abbrev pub is_alive : List RelayedMessage → ℕ → ℕ → Bool
is_alive store now ref = elim (get_elem? store ref) [
  | none ↦ false
  | some m ↦ not (is_expired m now)
]

-- The message is there, unexpired, and of the session that the poll asks for.
abbrev pub is_due : List RelayedMessage → Option String → ℕ → ℕ → Bool
is_due store only now ref = elim (get_elem? store ref) [
  | none ↦ false
  | some m ↦ not (is_expired m now) && not (is_filtered only m)
]

is_filtered-Same :
    (f : RelayedMessage → RelayedMessage)
    → Same f
    → (only : Option String) (m : RelayedMessage) → is_filtered only (f m) ≡ is_filtered only m
unfolding is_filtered
is_filtered-Same f same none m = refl
is_filtered-Same f same (some id) m = rw (same m).0 refl

is_expired-Same :
    (f : RelayedMessage → RelayedMessage)
    → Same f
    → (m : RelayedMessage) (now : ℕ) → is_expired (f m) now ≡ is_expired m now
unfolding is_expired
is_expired-Same f same m now = rw ((same m).1, (same m).2) refl

module _ (f : RelayedMessage → RelayedMessage) (same : Same f) where
  pub is_alive-modify_at :
      (store : List RelayedMessage) (i now ref : ℕ)
      → is_alive (modify_at store i f) now ref ≡ is_alive store now ref
  is_alive-modify_at [] i now ref = refl
  is_alive-modify_at (m ∷ store) zero now zero = ap not (is_expired-Same f same m now)
  is_alive-modify_at (m ∷ store) zero now (suc ref) = refl
  is_alive-modify_at (m ∷ store) (suc i) now zero = refl
  is_alive-modify_at (m ∷ store) (suc i) now (suc ref) = is_alive-modify_at store i now ref

  pub is_due-modify_at :
      (store : List RelayedMessage) (only : Option String) (i now ref : ℕ)
      → is_due (modify_at store i f) only now ref ≡ is_due store only now ref
  is_due-modify_at [] only i now ref = refl
  is_due-modify_at (m ∷ store) only zero now zero =
      rw (is_expired-Same f same m now, is_filtered-Same f same only m) refl
  is_due-modify_at (m ∷ store) only zero now (suc ref) = refl
  is_due-modify_at (m ∷ store) only (suc i) now zero = refl
  is_due-modify_at (m ∷ store) only (suc i) now (suc ref) = is_due-modify_at store only i now ref

pub keep-cong :
    (p q : ℕ → Bool) → ((i : ℕ) → p i ≡ q i) → (refs : List ℕ) → keep p refs ≡ keep q refs
keep-cong p q h [] = refl
keep-cong p q h (ref ∷ refs) = ground (arith, h ref, keep-cong p q h refs)

pub lapsed-Same : Same mark_lapsed
unfolding mark_lapsed
lapsed-Same m = (refl, refl, refl)

pub delivered-Same : (now : ℕ) → Same (mark_delivered now)
unfolding mark_delivered
delivered-Same now m = (refl, refl, refl)

pub store-count_received :
    (id a : String) (now : ℕ) (r : Relay) → (count_received id a now r).store ≡ r.store
unfolding count_received put_session
store-count_received id a now r = ground arith
