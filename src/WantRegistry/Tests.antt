-- ===== src/WantRegistry/Tests.antt =====
-- A want and a have of cameras, matched on the model with tenths as numbers, and the theorems.

use Prim.Native.Nat.{◌/◌}
use concordia_protocol.Prelude.{
  ◌↔◌, ℕ, ◌+◌, ◌-◌, ◌*◌, String, ◌≡◌, refl, Bool, true, false, none, some, List, [], ◌∷◌, ltb, leb,
  ◌==◌, str_eq, if◌then◌else◌, All, ok,
}
use concordia_protocol.Prelude.Dict.{get, put}
use concordia_protocol.WantRegistry.{
  Numbers, Value, num, str_value, number, Term, fields, Want, Have, range, Match, is_past,
  categories_compatible,
}
use concordia_protocol.WantRegistry.Terms.{
  ranks, condition_rank, get_or, is_truthy, currency, price_score, price, ranked, condition,
  is_fuzzy, loose, enumerated, compare_fields, score_term, shared_terms, unmatched,
  compute_term_overlap,
}
use concordia_protocol.WantRegistry.Places.{locations_compatible}
use concordia_protocol.WantRegistry.Matching.{new_match, match_located, compute_match}
use concordia_protocol.WantRegistry.Sound.{Matches, compute_match_iff}
use concordia_protocol.WantRegistry.Prices.{Affords, compute_match-Affords}
use concordia_protocol.Prelude.{length}
use concordia_protocol.WantRegistry.Places.{validate_location}
use concordia_protocol.WantRegistry.Store.{
  discard, add_id, remove_post, remove_posts, past_ids, expire_posts, ids_of, is_live, active_posts,
  add_post, all_posts,
}
use concordia_protocol.WantRegistry.Posting.{
  have_kind, WantRegistry, empty_registry, insert_best, best_first, keep_match, match_all,
  have_candidates, want_candidates, sorted, new_want, new_have, post_want, post_have,
}
use concordia_protocol.WantRegistry.Caps.{Call, want_posted, have_posted, step, run}
use concordia_protocol.WantRegistry.Posted.{Found, post_want-Found}

abbrev total : List ℕ → ℕ
total [] = 0
total (n ∷ ns) = n + total ns

abbrev tenths_of : Numbers
tenths_of = record {
  Num = ℕ;
  of_ℕ = λ n. n * 10;
  tenths = λ n. n;
  is_zero = λ n. n == 0;
  is_pos = λ n. ltb 0 n;
  leb_num = leb;
  min_num = λ m n. if leb m n then m else n;
  max_num = λ m n. if leb m n then n else m;
  add = λ m n. m + n;
  sub = λ m n. m - n;
  mul = λ m n. m * n / 10;
  div = λ m n. m * 10 / n;
  sum = total;
  round_2 = λ n. n;
  radians = λ n. n;
  sin = λ n. n;
  cos = λ n. n;
  asin = λ n. n;
  sqrt = λ n. n;
  lower = λ s. s;
}

abbrev same_value : Value ℕ → Value ℕ → Bool
same_value (num m) (num n) = m == n
same_value (str_value s) (str_value t) = str_eq s t
same_value _ _ = false

abbrev want : String → Value ℕ → Want ℕ
want bound n = record {
  id = "want_1";
  agent_id = "buyer";
  category = "electronics";
  terms = ("price", fields ((bound, n) ∷ [])) ∷ [];
  location = none;
  ttl = 100;
  notify = true;
  metadata = [];
  created_at = 0;
  expires_at = 100;
}

abbrev have : Have ℕ
have = record {
  id = "have_1";
  agent_id = "seller";
  category = "electronics.cameras";
  terms = ("price", fields (("min", num 400) ∷ ("value", num 500) ∷ [])) ∷ [];
  location = none;
  ttl = 100;
  metadata = [];
  created_at = 0;
  expires_at = 100;
}

program : Unit {0}
unfolding get put number is_past categories_compatible ranks condition_rank get_or is_truthy
    currency price_score price ranked condition is_fuzzy loose enumerated compare_fields score_term
    shared_terms unmatched compute_term_overlap locations_compatible new_match match_located
    compute_match
program = tt

too_dear : compute_match tenths_of same_value "match_1" 10 (want "max" (num 300)) have ≡ ok none
unfolding program
too_dear = refl

abbrev matched : Match ℕ
matched = record {
  match_id = "match_1";
  want_id = "want_1";
  have_id = "have_1";
  want_agent_id = "buyer";
  have_agent_id = "seller";
  overlap = ("price", range 400 500 none) ∷ [];
  score = 9;
}

one_matches :
    compute_match tenths_of same_value "match_1" 10 (want "max" (num 500)) have ≡ ok (some matched)
unfolding program
one_matches = refl

abbrev broad : String
broad = "electronics"

abbrev narrow : String
narrow = "electronics.cameras"

compute_match_iff_example :
    ((m : Match ℕ) × (compute_match tenths_of same_value "match_1" 10 (want "max" (num 500)) have
        ≡ ok (some m)))
    ↔ Matches tenths_of same_value 10 (want "max" (num 500)) have
compute_match_iff_example =
    compute_match_iff tenths_of same_value "match_1" 10 (want "max" (num 500)) have

compute_match-Affords_example :
    All
      (λ (e : String × Term ℕ). Affords tenths_of same_value have.terms e.0 e.1)
      (want "max" (num 500)).terms
compute_match-Affords_example =
    compute_match-Affords tenths_of same_value "match_1" 10 (want "max" (num 500)) have
      {m = matched} refl one_matches

abbrev calls : List (Call tenths_of same_value)
calls =
    have_posted (λ id. id) 0 have
    ∷ want_posted (λ id. id) 10 (want "max" (num 500))
    ∷ want_posted (λ id. id) 20 (want "min" (num 5))
    ∷ []

abbrev start : WantRegistry tenths_of same_value
start =
    run tenths_of same_value (empty_registry tenths_of same_value)
      (have_posted (λ id. id) 0 have ∷ [])

operations : Unit {0}
unfolding program validate_location discard add_id remove_post remove_posts past_ids expire_posts
    ids_of is_live active_posts add_post all_posts insert_best best_first keep_match match_all
    have_candidates want_candidates sorted new_want new_have post_want post_have empty_registry step
    run
operations = tt

both_kept :
    length (run tenths_of same_value (empty_registry tenths_of same_value) calls).matches ≡ 1
unfolding operations
both_kept = refl

abbrev posted : Want ℕ × List (Match ℕ)
posted = (
  record (want "max" (num 500)) { created_at = 10; expires_at = 110 },
  record matched { match_id = "have_1" } ∷ [],
)

post_want-Found_example :
    All
      (Found tenths_of same_value 10
        (new_want tenths_of same_value 10 (want "max" (num 500)))
        (all_posts (have_kind tenths_of same_value) start.haves.posts))
      posted.1
unfolding operations
post_want-Found_example =
    post_want-Found tenths_of same_value (λ id. id) 10 (want "max" (num 500)) start {p = posted}
      refl
