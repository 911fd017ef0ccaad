-- ===== src/Backfill/Raw.antt =====
-- KTMB's raw ticket answer as a JSON document, and the refund that it states (lib/ktmbcost/client.go).
pub mod Sound
use nitroso_tin.Base.{
  ℕ, zero, suc, ◌+◌, String, Bool, true, false, ◌&&◌, ◌||◌, not, Option, none, some, List, [], ◌∷◌,
  map, is_empty, ltb, if◌then◌else◌, str_eq, codes, upper_code, trim_space,
}

-- A number is its value as a 32-bit float, or `none` where `Float64` fails; `scalar` is null or a
-- Boolean. The fields of an object are in the order of the iteration over the map, no key twice.
mutual
  pub data Json (Amount : Type 0) : Type 0 where
    scalar : Json Amount
    number : Option Amount → Json Amount
    text : String → Json Amount
    array : Items Amount → Json Amount
    object : Fields Amount → Json Amount

  pub data Items (Amount : Type 0) : Type 0 where
    end : Items Amount
    item : Json Amount → Items Amount → Items Amount

  pub data Fields (Amount : Type 0) : Type 0 where
    done : Fields Amount
    field : String → Json Amount → Fields Amount → Fields Amount

-- An amount and its currency.
abbrev pub Refund : Type 0 → Type 0
Refund Amount = Amount × List ℕ

abbrev pub first_some : {A : Type 0} → Option A → Option A → Option A
first_some (some a) o = some a
first_some none o = o

-- The first candidate that is not blank, trimmed and in capitals, or MYR.
unfoldable pub normalize_currency : List (List ℕ) → List ℕ
normalize_currency [] = codes "MYR"
normalize_currency (c ∷ cs) =
    let currency = map upper_code (trim_space c) in
    let rest = normalize_currency cs in if is_empty currency then rest else currency

module _ {Amount : Type 0} where
  unfoldable pub lookup : String → Fields Amount → Option (Json Amount)
  lookup key done = none
  lookup key (field k v fs) = if str_eq k key then some v else lookup key fs

  unfoldable pub text_of : Option (Json Amount) → String
  text_of (some (text s)) = s
  text_of _ = ""

  unfoldable pub string_field : String → Fields Amount → String
  unfolding lookup text_of
  string_field key fs = text_of (lookup key fs)

  unfoldable pub number_of : Option (Json Amount) → Option Amount
  number_of (some (number n)) = n
  number_of _ = none

  unfoldable pub number_field : String → Fields Amount → Option Amount
  unfolding lookup number_of
  number_field key fs = number_of (lookup key fs)

  unfoldable pub has_field : String → Fields Amount → Bool
  unfolding lookup
  has_field key fs = elim (lookup key fs) [ some v ↦ true | none ↦ false ]

  -- The number of ticket nodes, and whether one has the number.
  unfoldable mutual
    unfolding has_field string_field

    pub ticket_node_stats : Json Amount → String → ℕ × Bool
    ticket_node_stats scalar ticket_no = (0, false)
    ticket_node_stats (number n) ticket_no = (0, false)
    ticket_node_stats (text s) ticket_no = (0, false)
    ticket_node_stats (array items) ticket_no = stats_of_items items ticket_no
    ticket_node_stats (object fs) ticket_no =
        let inner = stats_of_fields fs ticket_no in
        if has_field "ticketNo" fs
        then (suc inner.0, str_eq (string_field "ticketNo" fs) ticket_no || inner.1)
        else inner

    pub stats_of_items : Items Amount → String → ℕ × Bool
    stats_of_items end ticket_no = (0, false)
    stats_of_items (item v rest) ticket_no =
        let one = ticket_node_stats v ticket_no in
        let more = stats_of_items rest ticket_no in (one.0 + more.0, one.1 || more.1)

    pub stats_of_fields : Fields Amount → String → ℕ × Bool
    stats_of_fields done ticket_no = (0, false)
    stats_of_fields (field k v rest) ticket_no =
        let one = ticket_node_stats v ticket_no in
        let more = stats_of_fields rest ticket_no in (one.0 + more.0, one.1 || more.1)

-- The document numbers no other ticket: the test after which a refund anywhere in it is taken.
unfoldable pub alone : ℕ × Bool → Bool
alone stats = not (ltb 1 stats.0 || (ltb 0 stats.0 && not stats.1))

module _ {Amount : Type 0} (positive : Amount → Bool) where
  unfoldable pub positive_field : String → Fields Amount → Option Amount
  unfolding number_field
  positive_field key fs = elim (number_field key fs) [
    | none ↦ none
    | some a ↦ if positive a then some a else none
  ]

  -- The fields are tried in this order.
  unfoldable pub exact_refund_in_map : Fields Amount → Option (Refund Amount)
  unfolding positive_field string_field normalize_currency
  exact_refund_in_map fs =
      let currency =
        normalize_currency (
          codes (string_field "refundCurrency" fs) ∷ codes (string_field "currencyCode" fs) ∷ []) in
      elim (first_some (positive_field "refundAmount" fs)
        (first_some (positive_field "refundedAmount" fs) (positive_field "totalRefundAmount" fs))) [
          | none ↦ none
          | some a ↦ some (a, currency)
        ]

  unfoldable mutual
    unfolding exact_refund_in_map

    pub refund_in_ticket_node : Json Amount → String → Option (Refund Amount)
    refund_in_ticket_node scalar ticket_no = none
    refund_in_ticket_node (number n) ticket_no = none
    refund_in_ticket_node (text s) ticket_no = none
    refund_in_ticket_node (array items) ticket_no = refund_in_items items ticket_no
    refund_in_ticket_node (object fs) ticket_no =
        let inner = refund_in_fields fs ticket_no in
        if str_eq (string_field "ticketNo" fs) ticket_no
        then first_some (exact_refund_in_map fs) inner
        else inner

    pub refund_in_items : Items Amount → String → Option (Refund Amount)
    refund_in_items end ticket_no = none
    refund_in_items (item v rest) ticket_no =
        first_some (refund_in_ticket_node v ticket_no) (refund_in_items rest ticket_no)

    pub refund_in_fields : Fields Amount → String → Option (Refund Amount)
    refund_in_fields done ticket_no = none
    refund_in_fields (field k v rest) ticket_no =
        first_some (refund_in_ticket_node v ticket_no) (refund_in_fields rest ticket_no)

  unfoldable mutual
    unfolding exact_refund_in_map

    pub exact_refund_in_node : Json Amount → Option (Refund Amount)
    exact_refund_in_node scalar = none
    exact_refund_in_node (number n) = none
    exact_refund_in_node (text s) = none
    exact_refund_in_node (array items) = exact_refund_in_items items
    exact_refund_in_node (object fs) =
        first_some (exact_refund_in_map fs) (exact_refund_in_fields fs)

    pub exact_refund_in_items : Items Amount → Option (Refund Amount)
    exact_refund_in_items end = none
    exact_refund_in_items (item v rest) =
        first_some (exact_refund_in_node v) (exact_refund_in_items rest)

    pub exact_refund_in_fields : Fields Amount → Option (Refund Amount)
    exact_refund_in_fields done = none
    exact_refund_in_fields (field k v rest) =
        first_some (exact_refund_in_node v) (exact_refund_in_fields rest)

  -- The ticket's own refund, or the document's where it holds no other ticket.
  unfoldable pub refund_from_root : Json Amount → String → Option (Refund Amount)
  unfolding refund_in_ticket_node ticket_node_stats exact_refund_in_node alone
  refund_from_root root ticket_no =
      first_some (refund_in_ticket_node root ticket_no)
        (if alone (ticket_node_stats root ticket_no) then exact_refund_in_node root else none)

  -- `none` is an answer that is not JSON.
  unfoldable pub refund_from_raw : Option (Json Amount) → String → Option (Refund Amount)
  unfolding refund_from_root
  refund_from_raw none ticket_no = none
  refund_from_raw (some root) ticket_no = refund_from_root root ticket_no
