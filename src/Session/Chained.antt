-- ===== src/Session/Chained.antt =====
-- The transcript of a session and its hash chain: what the check of `prev_hash` in
-- `apply_message` of concordia/session.py secures.
use concordia_protocol.Prelude.{
  ℕ, String, ◌≡◌, ◌≢◌, refl, Bool, true, false, ◌&&◌, Option, none, some, List, [], ◌∷◌, ◌++◌,
  arith, All, inl, inr, ◌⊎◌, eq_iff, Result, ok, err,
}
use concordia_protocol.Types.{SessionState, MessageType, TimingConfig}
use concordia_protocol.Message.{Host, Message, eq_hash, links, validate_chain}
use concordia_protocol.Session.{
  Session, SessionError, new_session, tip_hash, admit, fire_terminal, track_behavior, record_terms,
  enter, commit_message, apply_message, expire, make_dormant, add_party,
}
use concordia_protocol.Session.Admission.{admit-IsAdmissible}
use concordia_protocol.Session.Run.{Call, deliver, lapse, sleep, join, step, run}

linked_of :
    (o : Option String) (h : String) → o ≢ none → (o ≡ none) ⊎ (o ≡ some h) → eq_hash o h ≡ true
unfolding eq_hash
linked_of none h given e = absurd (given refl)
linked_of (some g) h given (inl e) = cc
linked_of (some g) h given (inr e) = (eq_iff g h).1 (cc)

module _ (H : Host) where
  links-append :
      (p : Message H.Num) (xs : List (Message H.Num)) (m : Message H.Num)
      → links H p (xs ++ m ∷ []) ≡ (links H p xs && eq_hash m.prev_hash (tip_hash H (p ∷ xs)))
  unfolding links tip_hash
  links-append p [] m = ground arith
  links-append p (x ∷ xs) m = ground (arith, links-append x xs m)

  -- A message extends a chain exactly when its "prev_hash" is the tip's hash.
  pub validate_chain-append :
      (xs : List (Message H.Num)) (m : Message H.Num)
      → validate_chain H (xs ++ m ∷ [])
        ≡ (validate_chain H xs && eq_hash m.prev_hash (tip_hash H xs))
  unfolding validate_chain tip_hash
  validate_chain-append [] m = ground (arith)
  validate_chain-append (x ∷ xs) m = ground (arith, links-append x xs m)

  pub transcript-commit_message :
      (a : String) (t : MessageType) (u : SessionState) (m : Message H.Num) (now : ℕ)
      (s : Session H)
      → (commit_message H a t u m now s).transcript ≡ s.transcript ++ m ∷ []
  unfolding commit_message enter fire_terminal track_behavior record_terms
  transcript-commit_message a t u m now s = ground arith

  -- The transcript grows by the message if it is accepted.
  pub transcript-apply_message :
      (resolver : String → Option H.Key) (m : Message H.Num) (now : ℕ) (s : Session H)
      {u : SessionState}
      → (apply_message H resolver m now s).0 ≡ ok u
      → (apply_message H resolver m now s).1.transcript ≡ s.transcript ++ m ∷ []
  unfolding apply_message
  transcript-apply_message resolver m now s h = go (admit H resolver s m) refl
    where
      go :
          (r : Result SessionError (String × MessageType × SessionState))
          → admit H resolver s m ≡ r
          → (apply_message H resolver m now s).1.transcript ≡ s.transcript ++ m ∷ []
      go (err e) p = ground arith
      go (ok (a, t, u)) p = rw (p, apply_message) (transcript-commit_message a t u m now s)

  -- An accepted message without a "prev_hash" breaks the chain of the transcript.
  pub unchained_breaks :
      (resolver : String → Option H.Key) (m : Message H.Num) (now : ℕ) (s : Session H)
      {u : SessionState}
      → m.prev_hash ≡ none
      → (apply_message H resolver m now s).0 ≡ ok u
      → validate_chain H (apply_message H resolver m now s).1.transcript ≡ false
  unfolding eq_hash
  unchained_breaks resolver m now s absent h =
      rw (transcript-apply_message resolver m now s h)
        (ground (arith, validate_chain-append s.transcript m))

  -- The call delivers a message with a "prev_hash", or no message.
  abbrev pub IsChained : Call H → Type 0
  IsChained (deliver m now) = m.prev_hash ≢ none
  IsChained _ = Unit

  abbrev IsValid : Session H → Type 0
  IsValid s = validate_chain H s.transcript ≡ true

  apply_message-IsValid :
      (resolver : String → Option H.Key) (m : Message H.Num) (now : ℕ) (s : Session H)
      → m.prev_hash ≢ none
      → IsValid s
      → IsValid (apply_message H resolver m now s).1
  unfolding apply_message
  apply_message-IsValid resolver m now s given v = go (admit H resolver s m) refl
    where
      go :
          (r : Result SessionError (String × MessageType × SessionState))
          → admit H resolver s m ≡ r
          → IsValid (apply_message H resolver m now s).1
      go (err e) p = rw (p, apply_message) v
      go (ok (a, t, u)) p =
          let linked =
            linked_of m.prev_hash _ given (admit-IsAdmissible H resolver s m a t u p).chained in
          rw (p, apply_message)
            (rw (transcript-commit_message a t u m now s)
              (rw (validate_chain-append s.transcript m) (ground arith)))

  step-IsValid :
      (resolver : String → Option H.Key) (s : Session H) (c : Call H)
      → IsChained c
      → IsValid s
      → IsValid (step H resolver s c)
  unfolding step expire make_dormant fire_terminal add_party
  step-IsValid resolver s (deliver m now) g v = apply_message-IsValid resolver m now s g v
  step-IsValid resolver s (lapse now) g v = ground arith
  step-IsValid resolver s sleep g v = ground arith
  step-IsValid resolver s (join a role key) g v = v

  run-IsValid :
      (resolver : String → Option H.Key) (s : Session H) (calls : List (Call H))
      → All IsChained calls
      → IsValid s
      → IsValid (run H resolver s calls)
  unfolding run
  run-IsValid resolver s [] g v = v
  run-IsValid resolver s (c ∷ cs) g v =
      run-IsValid resolver (step H resolver s c) cs g.1 (step-IsValid resolver s c g.0 v)

  -- If every message that is delivered has a "prev_hash", the transcript of a session is at all
  -- times a valid hash chain, whatever calls are made on the session.
  pub run-validate_chain :
      (resolver : String → Option H.Key) (id : String) (timing : TimingConfig) (callback : Bool)
      (now : ℕ) (calls : List (Call H))
      → All IsChained calls
      → validate_chain H (run H resolver (new_session H id timing callback now) calls).transcript
        ≡ true
  unfolding new_session validate_chain
  run-validate_chain resolver id timing callback now calls g =
      run-IsValid resolver (new_session H id timing callback now) calls g refl
