-- ===== src/Backfill/Item/Tickets.antt =====
-- Which booking and which ticket of a KTMB answer the backfill takes.
use nitroso_tin.Base.{
  String, none, some, List, [], ◌∷◌, ◌≡◌, ◌≢◌, ◌⊎◌, ◌&&◌, not, ◌∙◌, inl, inr, arith, Bool-cases,
  Option-cases, str_eq, eq_iff, Any, All,
}
use nitroso_tin.Backfill.World.{BookedTicket, BookedTrip, Booked}
use nitroso_tin.Backfill.Item.{data_in, booking_from, ticket_data_from}

-- The ticket has the number, and data.
abbrev pub IsTicket : String → String → BookedTicket → Type 0
IsTicket ticket_no d t = (t.ticket_no ≡ ticket_no) × (t.ticket_data ≡ d) × (d ≢ "")

abbrev pub NoTicket : String → BookedTicket → Type 0
NoTicket ticket_no t = (t.ticket_no ≢ ticket_no) ⊎ (t.ticket_data ≡ "")

data_in-some :
    (n : String) (ts : List BookedTicket) (d : String)
    → data_in n ts ≡ some d
    → Any (IsTicket n d) ts
unfolding data_in
data_in-some n [] d h = absurd (ground (arith, h))
data_in-some n (t ∷ ts) d h =
    elim (Bool-cases (str_eq t.ticket_no n && not (str_eq t.ticket_data ""))) [
      | inl this ↦
          let is : t.ticket_data ≡ d = ground arith in
          let filled : d ≢ "" = λ e. ground (arith, this, (eq_iff t.ticket_data "").1 (is ∙ e)) in
          inl ((eq_iff t.ticket_no n).0 (ground (arith, this)), is, filled)
      | inr other ↦ inr (data_in-some n ts d (ground arith))
    ]

data_in-none : (n : String) (ts : List BookedTicket) → data_in n ts ≡ none → All (NoTicket n) ts
unfolding data_in
data_in-none n [] h = tt
data_in-none n (t ∷ ts) h =
    elim (Bool-cases (str_eq t.ticket_no n && not (str_eq t.ticket_data ""))) [
      | inl this ↦ absurd (ground arith)
      | inr other ↦ (
        elim (Bool-cases (str_eq t.ticket_data "")) [
          | inl blank ↦ inr ((eq_iff t.ticket_data "").0 blank)
          | inr filled ↦ inl (λ e. ground (arith, other, filled, (eq_iff t.ticket_no n).1 e))
        ],
        data_in-none n ts (ground arith),
      )
    ]

pub ticket_data_from-some :
    (n : String) (ts : List BookedTrip) (d : String)
    → ticket_data_from n ts ≡ some d
    → Any (λ trip. Any (IsTicket n d) trip.tickets) ts
unfolding ticket_data_from
ticket_data_from-some n [] d h = absurd (ground (arith, h))
ticket_data_from-some n (t ∷ ts) d h = elim (Option-cases (data_in n t.tickets)) [
  | inl missing ↦ inr (ticket_data_from-some n ts d (ground arith))
  | inr (d', has) ↦ inl (data_in-some n t.tickets d (ground arith))
]

pub ticket_data_from-none :
    (n : String) (ts : List BookedTrip)
    → ticket_data_from n ts ≡ none
    → All (λ trip. All (NoTicket n) trip.tickets) ts
unfolding ticket_data_from
ticket_data_from-none n [] h = tt
ticket_data_from-none n (t ∷ ts) h = elim (Option-cases (data_in n t.tickets)) [
  | inl missing ↦ (data_in-none n t.tickets missing, ticket_data_from-none n ts (ground arith))
  | inr (d', has) ↦ absurd (ground arith)
]

pub booking_from-none :
    {Amount : Type 0} (n : String) (bs : List (Booked Amount))
    → booking_from n bs ≡ none
    → All (λ b. b.booking_no ≢ n) bs
unfolding booking_from
booking_from-none n [] h = tt
booking_from-none n (b ∷ bs) h = elim (Bool-cases (str_eq b.booking_no n)) [
  | inl this ↦ absurd (ground arith)
  | inr other ↦ (
    (λ e. ground (arith, other, (eq_iff b.booking_no n).1 e)),
    booking_from-none n bs (ground arith),
  )
]
