-- ===== src/Backfill/Run/Tests.antt =====
-- A backfill of two bookings whose amounts are natural numbers: of their costs, and of their refunds.
use nitroso_tin.Base.{
  ℕ, String, Bool, true, false, none, some, List, [], ◌∷◌, ◌≡◌, ◌⊎◌, refl, arith, Result, ok, ltb,
  Distinct, drop, take, codes, trim_space,
}
use nitroso_tin.Ktmb.{KtmbError, GenericRes}
use nitroso_tin.Zinc.{answered}
use nitroso_tin.Terminator.{RefundPolicy, refund_amount}
use nitroso_tin.Backfill.Raw.{
  Json, number, text, array, object, end, item, done, field, refund_from_raw,
}
use nitroso_tin.Backfill.Raw.Sound.{
  Within, StatesOwn, States, ticket_numbers, refund_from_raw_sound,
}
use nitroso_tin.Backfill.World.{Work, BookedTrip, Booked, Options, Env}
use nitroso_tin.Backfill.Listing.{list_missing}
use nitroso_tin.Backfill.Listing.Bounds.{Listed, list_missing-Listed}
use nitroso_tin.Backfill.Item.{
  refund_from_policy, process_cost, process_refund, process_with_session_retry,
}
use nitroso_tin.Backfill.Item.Agrees.{refund_from_policy-refund_amount}
use nitroso_tin.Backfill.Item.Posts.{posted_ids}
use nitroso_tin.Backfill.Item.Justified.{process_cost-CostPosted}
use nitroso_tin.Backfill.Item.Justified
use nitroso_tin.Backfill.Item.Refunded.{process_refund-RefundPosted}
use nitroso_tin.Backfill.Item.Refunded
use nitroso_tin.Backfill.Run.{run, bad_settings, defaulted}
use nitroso_tin.Backfill.Run.Once.{run-Distinct}
use nitroso_tin.Backfill.Run.Dry.{posted_ids-run}
use nitroso_tin.Backfill.Run.Counts.{Balanced, run-Balanced}

abbrev positive : ℕ → Bool
positive n = ltb 0 n

abbrev work : String → Work
work id = record { id = id; booking_no = "B1"; ticket_no = "T1" }

abbrev works : List Work
works = work "w1" ∷ work "w1" ∷ work "w2" ∷ []

abbrev trip : BookedTrip
trip = record { tickets = record { ticket_no = "T1"; ticket_data = "data" } ∷ [] }

abbrev booked : Booked ℕ
booked = record {
  booking_no = "B1";
  booking_data = "booking";
  currency_code = " sgd";
  total_amount = 7;
  trips = trip ∷ [];
}

-- {"bookings": [{"ticketNo": "T1", "refundAmount": 5}]}
abbrev raw : Json ℕ
raw = object (
    field "bookings"
      (array (
        item (object (field "ticketNo" (text "T1") (field "refundAmount" (number (some 5)) done)))
          end))
      done)

abbrev policy : RefundPolicy ℕ
policy = record {
  booking_data = "booking";
  currency_code = "MYR";
  total_refund_amount = 6;
  trips =
      record {
        tickets =
            record { ticket_no = "T1"; ticket_data = "data"; refund_amount = 0; currency_code = "" }
            ∷ [];
      }
      ∷ [];
}

abbrev answer_of : {A : Type 0} → A → Result KtmbError (GenericRes A)
answer_of a = ok (record { status = true; messages = []; content = a })

abbrev options : Bool → Bool → Options
options dry_run refund = record {
  dry_run = dry_run;
  refund = refund;
  status = 0;
  max = 3;
  page_size = 2;
  sleeps = false;
}

abbrev world : Bool → Bool → Env ℕ
world dry_run refund = record {
  options = options dry_run refund;
  on_cost_page = λ h status limit skip. answered 200 (some (take limit (drop skip works)));
  on_refund_page = λ h limit. answered 200 (some works);
  on_login = λ h. some "session";
  on_invalidate = λ h user. true;
  on_ticket = λ h user booking ticket. answer_of (booked ∷ []);
  on_raw =
      λ h user booking ticket. answer_of (record { root = some raw; typed = some (booked ∷ []) });
  on_policy = λ h user booking ticket. answer_of policy;
  on_post_cost = λ h id amount currency. answered 200 none;
  on_post_refund = λ h id amount currency. answered 200 none;
  on_sleep = λ h. true;
}

raw_refund : refund_from_raw positive (some raw) "T1" ≡ some (5, codes "MYR")
unfolding refund_from_raw trim_space
raw_refund = refl

refund_from_raw_sound_example :
    Within (StatesOwn positive "T1" (5, codes "MYR")) raw
    ⊎ (((ticket_numbers raw ≡ []) ⊎ (ticket_numbers raw ≡ "T1" ∷ []))
        × Within (States positive "T1" (5, codes "MYR")) raw)
refund_from_raw_sound_example = refund_from_raw_sound positive "T1" (5, codes "MYR") raw raw_refund

refund_from_policy-refund_amount_example :
    refund_from_policy positive policy "T1" ≡ refund_amount positive policy "T1"
refund_from_policy-refund_amount_example = refund_from_policy-refund_amount positive policy "T1"

list_missing-Listed_example : Listed (options false false) (list_missing (world false false) []).0
list_missing-Listed_example = list_missing-Listed (world false false) [] (omega arith)

process_cost-CostPosted_example :
    Justified.Ends positive
      (world false false)
      "session"
      (work "w1")
      []
      (process_cost positive (world false false) "session" (work "w1") [])
process_cost-CostPosted_example =
    process_cost-CostPosted positive (world false false) "session" (work "w1") []

process_refund-RefundPosted_example :
    Refunded.Ends positive
      (world false true)
      "session"
      (work "w1")
      []
      (process_refund positive (world false true) "session" (work "w1") [])
process_refund-RefundPosted_example =
    process_refund-RefundPosted positive (world false true) "session" (work "w1") []

run-Distinct_example : Distinct (posted_ids (run positive (world false false) []).1)
run-Distinct_example = run-Distinct positive (world false false) refl

posted_ids-run_example :
    posted_ids (run positive (world true true) []).1 ≡ posted_ids {Amount = ℕ} []
posted_ids-run_example = posted_ids-run positive (world true true) refl []

run-Balanced_example : Balanced 3 (run positive (world false true) []).0
run-Balanced_example = run-Balanced positive (world false true) []

-- Both bookings are posted, each once.
ran : posted_ids (run positive (world false false) []).1 ≡ "w2" ∷ "w1" ∷ []
unfolding run bad_settings defaulted process_with_session_retry
ran = refl
