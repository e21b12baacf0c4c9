-- ===== src/Session/Behavior.antt =====
-- `_track_behavior` and `_compute_concession` of concordia/session.py: an agent's record.
pub mod Counts
use concordia_protocol.Prelude.{
  ◌+◌, ◌-◌, String, true, Option, none, some, List, [], ◌∷◌, if◌then◌else◌, length, truthy,
}
use concordia_protocol.Prelude.Dict.{Dict, get, put}
use concordia_protocol.Types.{
  MessageType, offer, counter, signal, constrain, withdraw, BehaviorRecord, new_behavior,
}
use concordia_protocol.Message.{Host, Message, Terms, TermValue, num, flag}

module _ (H : Host) where
  open H use {Num, of_ℕ, of_bool, is_zero, is_pos, abs, add, sub, mul, div, sum}

  -- `isinstance(v, (int, float))`, which a `bool` passes.
  unfoldable pub as_number : Option (TermValue Num) → Option Num
  as_number (some (num n)) = some n
  as_number (some (flag b)) = some (of_bool b)
  as_number _ = none

  unfoldable pub movement : Option Num → Option Num → List Num → List Num
  movement (some p) (some c) rest = if is_zero p then rest else div (abs (sub c p)) (abs p) ∷ rest
  movement _ _ rest = rest

  unfoldable pub movements : Terms Num → Terms Num → List Num
  unfolding as_number movement get
  movements [] curr = []
  movements ((term_id, prev) ∷ terms) curr =
      let rest = movements terms curr in
      elim (get curr term_id) [
        | none ↦ rest
        | some value ↦ movement (as_number prev) (as_number value) rest
      ]

  unfoldable pub mean : List Num → Num
  mean [] = H.zero
  mean (m ∷ ms) = div (sum (m ∷ ms)) (of_ℕ (length (m ∷ ms)))

  unfoldable pub compute_concession : Terms Num → Terms Num → Num
  unfolding movements mean
  compute_concession prev curr = mean (movements prev curr)

  -- A concession above 0 is counted, and moves the running average.
  unfoldable pub concede : Num → BehaviorRecord Num → BehaviorRecord Num
  concede c b =
      let n = b.concessions + 1 in
      if is_pos c
      then record b {
        concessions = n;
        concession_magnitude = div (add (mul b.concession_magnitude (of_ℕ (n - 1))) c) (of_ℕ n);
      }
      else b

  unfoldable pub after_offer :
      Option (Terms Num) → Terms Num → BehaviorRecord Num → BehaviorRecord Num
  unfolding concede compute_concession
  after_offer _ [] b = b
  after_offer none (t ∷ ts) b = b
  after_offer (some prev) (t ∷ ts) b = concede (compute_concession prev (t ∷ ts)) b

  unfoldable pub count_type :
      MessageType → Option (Terms Num) → Terms Num → BehaviorRecord Num → BehaviorRecord Num
  unfolding after_offer
  count_type offer prev curr b =
      after_offer prev curr (record b { offers_made = b.offers_made + 1 })
  count_type counter prev curr b =
      after_offer prev curr (record b { offers_made = b.offers_made + 1 })
  count_type signal prev curr b = record b { signals_shared = b.signals_shared + 1 }
  count_type constrain prev curr b = record b { constraints_declared = b.constraints_declared + 1 }
  count_type withdraw prev curr b = record b { withdrawal = true }
  count_type _ prev curr b = b

  -- `_last_offers[agent_id] = current_terms`, for an offer with terms.
  unfoldable pub remember : MessageType → String → Terms Num → Dict (Terms Num) → Dict (Terms Num)
  unfolding put
  remember offer agent_id (t ∷ ts) offers = put offers agent_id (t ∷ ts)
  remember counter agent_id (t ∷ ts) offers = put offers agent_id (t ∷ ts)
  remember _ agent_id _ offers = offers

  abbrev pub current_terms : Option (Terms Num) → Terms Num
  current_terms none = []
  current_terms (some terms) = terms

  abbrev pub or_new : Option (BehaviorRecord Num) → BehaviorRecord Num
  unfolding new_behavior
  or_new none = new_behavior H.zero
  or_new (some b) = b

  -- The record of `agent_id` after the message, and the last offers.
  unfoldable pub track_agent :
      String
      → MessageType
      → Message Num
      → Dict (BehaviorRecord Num)
      → Dict (Terms Num)
      → BehaviorRecord Num × Dict (Terms Num)
  unfolding count_type remember get new_behavior
  track_agent agent_id type m behaviors offers =
      let curr = current_terms m.terms in
      let b = count_type type (get offers agent_id) curr (or_new (get behaviors agent_id)) in
      (
        if truthy m.reasoning then record b { reasoning_provided = true } else b,
        remember type agent_id curr offers,
      )
