-- ===== src/Message/Chain.antt =====
-- What a valid hash chain guarantees (`validate_chain` of concordia/message.py).
use concordia_protocol.Prelude.{
  String, ◌≡◌, refl, sym, ◌∙◌, ap, ap₂, none, true, Option, some, List, [], ◌∷◌, arith, length,
  last?, eq_iff,
}
use concordia_protocol.Message.{Host, Message, eq_hash, links, validate_chain}

module _ (H : Host) where
  -- At no position do the transcripts hold different messages with one hash.
  abbrev pub NoCollision : List (Message H.Num) → List (Message H.Num) → Type 0
  NoCollision (x ∷ xs) (y ∷ ys) = (H.compute_hash x ≡ H.compute_hash y → x ≡ y) × NoCollision xs ys
  NoCollision _ _ = Unit

  eq_hash-some : (o : Option String) (h : String) → eq_hash o h ≡ true → o ≡ some h
  unfolding eq_hash
  eq_hash-some none h e = cc
  eq_hash-some (some g) h e = ap some ((eq_iff g h).0 e)

  -- From the last messages back: each pair is one message, so its predecessors have one hash.
  links_unique :
      (p q : Message H.Num) (xs ys : List (Message H.Num))
      → length xs ≡ length ys
      → links H p xs ≡ true
      → links H q ys ≡ true
      → NoCollision (p ∷ xs) (q ∷ ys)
      → (m n : Message H.Num) → last? (p ∷ xs) ≡ some m
      → last? (q ∷ ys) ≡ some n
      → H.compute_hash m ≡ H.compute_hash n
      → (p ≡ q) × (xs ≡ ys)
  unfolding links
  links_unique p q [] [] l a b free m n hm hn e = (free.0 (cc), refl)
  links_unique p q [] (y ∷ ys) l a b free m n hm hn e = absurd (omega arith)
  links_unique p q (x ∷ xs) [] l a b free m n hm hn e = absurd (omega arith)
  links_unique p q (x ∷ xs) (y ∷ ys) l a b free m n hm hn e =
      let (same, rest) =
        links_unique x y xs ys (omega arith) (ground arith) (ground arith) free.1 m n hm hn e in
      let from_x = eq_hash-some x.prev_hash (H.compute_hash p) (ground arith) in
      let from_y = eq_hash-some y.prev_hash (H.compute_hash q) (ground arith) in
      let one_hash : some (H.compute_hash p) ≡ some (H.compute_hash q) =
        sym from_x ∙ ap (λ (z : Message H.Num). z.prev_hash) same ∙ from_y in
      (free.0 (cc), ap₂ ◌∷◌ same rest)

  -- Two valid transcripts of one length whose last messages have one hash are the same
  -- transcript, if at no position they hold different messages with one hash.
  pub validate_chain_unique :
      (xs ys : List (Message H.Num))
      → length xs ≡ length ys
      → validate_chain H xs ≡ true
      → validate_chain H ys ≡ true
      → NoCollision xs ys
      → (m n : Message H.Num) → last? xs ≡ some m
      → last? ys ≡ some n
      → H.compute_hash m ≡ H.compute_hash n
      → xs ≡ ys
  unfolding validate_chain
  validate_chain_unique [] [] l a b free m n hm hn e = refl
  validate_chain_unique [] (y ∷ ys) l a b free m n hm hn e = cc
  validate_chain_unique (x ∷ xs) [] l a b free m n hm hn e = cc
  validate_chain_unique (x ∷ xs) (y ∷ ys) l a b free m n hm hn e =
      let (same, rest) =
        links_unique x y xs ys (omega arith) (ground arith) (ground arith) free m n hm hn e in
      ap₂ ◌∷◌ same rest
