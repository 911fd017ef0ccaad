-- ===== src/Backfill/Item/Agrees.antt =====
-- The refund of a policy, against the terminator's.
use nitroso_tin.Base.{
  String, Bool, Option, none, some, List, [], ◌∷◌, map, ◌≡◌, refl, inl, inr, arith, length, codes,
  is_empty, Bool-cases,
}
use nitroso_tin.Currency.{currency_or_default, normalized}
use nitroso_tin.Terminator.{
  PolicyTicket, RefundPolicy, all_tickets, matched, refund_amount, own_amount, total_amount,
  total_applies,
}
use nitroso_tin.Backfill.Raw.{normalize_currency}
use nitroso_tin.Backfill.Item.{sole_total, amount_of, refund_from_policy}

currency_or_default-normalize_currency :
    (vs : List String) → currency_or_default vs ≡ normalize_currency (map codes vs)
unfolding currency_or_default normalize_currency
currency_or_default-normalize_currency [] = refl
currency_or_default-normalize_currency (v ∷ vs) =
    let rest = currency_or_default-normalize_currency vs in
    elim (Bool-cases (is_empty (normalized v))) [
      | inl blank ↦ ground (arith, blank, rest)
      | inr full ↦ ground (arith, full)
    ]

-- The backfill and the terminator read the same refund, amount and currency, out of a policy.
pub refund_from_policy-refund_amount :
    {Amount : Type 0} (positive : Amount → Bool) (policy : RefundPolicy Amount) (ticket_no : String)
    → refund_from_policy positive policy ticket_no ≡ refund_amount positive policy ticket_no
unfolding refund_from_policy refund_amount amount_of own_amount sole_total total_amount
    total_applies
refund_from_policy-refund_amount positive policy ticket_no =
    by_match (matched ticket_no (all_tickets policy.trips))
  where
    one :
        currency_or_default (policy.currency_code ∷ [])
        ≡ normalize_currency (codes policy.currency_code ∷ [])
    one = currency_or_default-normalize_currency (policy.currency_code ∷ [])

    by_match :
        (m : Option (PolicyTicket _))
        → amount_of positive policy (length (all_tickets policy.trips)) m
          ≡ own_amount positive policy m
    by_match none = ground (arith, one)
    by_match (some t) =
        let two =
          currency_or_default-normalize_currency (t.currency_code ∷ policy.currency_code ∷ []) in
        ground (arith, one, two)
