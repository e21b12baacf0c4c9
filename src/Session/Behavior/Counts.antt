-- ===== src/Session/Behavior/Counts.antt =====
-- How `_track_behavior` moves the counters of the sender.
use concordia_protocol.Prelude.{ℕ, ◌+◌, ◌≤◌, String, ◌≡◌, Option, none, some, [], ◌∷◌, arith}
use concordia_protocol.Prelude.Dict.{Dict, get, put, Values}
use concordia_protocol.Types.{MessageType, offer, counter, BehaviorRecord, new_behavior}
use concordia_protocol.Message.{Host, Message, Terms}
use concordia_protocol.Session.Behavior.{
  track_agent, count_type, after_offer, concede, current_terms, or_new,
}

abbrev pub round_step : MessageType → ℕ
round_step offer = 1
round_step counter = 1
round_step _ = 0

-- Every agent's concessions are among its offers.
abbrev pub Conceded : {N : Type 0} → BehaviorRecord N → Type 0
Conceded b = b.concessions ≤ b.offers_made

-- The offers that all the agents have made.
unfoldable pub offers_total : {N : Type 0} → Dict (BehaviorRecord N) → ℕ
offers_total [] = 0
offers_total ((_, b) ∷ d) = b.offers_made + offers_total d

module _ (H : Host) where
  after_offer-counts :
      (prev : Option (Terms H.Num)) (curr : Terms H.Num) (b : BehaviorRecord H.Num)
      → ((after_offer H prev curr b).offers_made ≡ b.offers_made)
        × ((after_offer H prev curr b).concessions ≤ b.concessions + 1)
  unfolding after_offer concede
  after_offer-counts prev [] b = ground arith
  after_offer-counts none (t ∷ ts) b = ground arith
  after_offer-counts (some p) (t ∷ ts) b = ground arith

  count_type-counts :
      (t : MessageType) (prev : Option (Terms H.Num)) (curr : Terms H.Num)
      (b : BehaviorRecord H.Num)
      → ((count_type H t prev curr b).offers_made ≡ b.offers_made + round_step t)
        × (Conceded b → Conceded (count_type H t prev curr b))
  unfolding count_type
  count_type-counts offer prev curr b =
      let (o, c) = after_offer-counts prev curr (record b { offers_made = b.offers_made + 1 }) in
      (omega arith, λ h. omega arith)
  count_type-counts counter prev curr b =
      let (o, c) = after_offer-counts prev curr (record b { offers_made = b.offers_made + 1 }) in
      (omega arith, λ h. omega arith)
  count_type-counts _ prev curr b = (omega arith, λ h. h)

  module _ (a : String) (t : MessageType) (m : Message H.Num) (bs : Dict (BehaviorRecord H.Num))
      (os : Dict (Terms H.Num)) where
    pub track_agent-offers :
        (track_agent H a t m bs os).0.offers_made ≡ (or_new H (get bs a)).offers_made + round_step t
    unfolding track_agent
    track_agent-offers =
        ground
          (arith, count_type-counts t (get os a) (current_terms H m.terms) (or_new H (get bs a)))

    pub track_agent-Conceded :
        Conceded (or_new H (get bs a)) → Conceded (track_agent H a t m bs os).0
    unfolding track_agent
    track_agent-Conceded h = ground (
      arith,
      (count_type-counts t (get os a) (current_terms H m.terms) (or_new H (get bs a))).1 h,
    )

  pub offers_total-put :
      (d : Dict (BehaviorRecord H.Num)) (k : String) (b : BehaviorRecord H.Num)
      → offers_total (put d k b) + (or_new H (get d k)).offers_made ≡ offers_total d + b.offers_made
  unfolding offers_total put get new_behavior
  offers_total-put [] k b = omega arith
  offers_total-put ((j, c) ∷ d) k b = ground (arith, offers_total-put d k b)

  pub or_new-Conceded :
      (d : Dict (BehaviorRecord H.Num)) (k : String)
      → Values Conceded d
      → Conceded (or_new H (get d k))
  unfolding get new_behavior
  or_new-Conceded [] k h = omega arith
  or_new-Conceded ((j, c) ∷ d) k h = ground (arith, or_new-Conceded d k h.1)
