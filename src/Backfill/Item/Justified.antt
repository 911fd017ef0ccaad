-- ===== src/Backfill/Item/Justified.antt =====
-- Where the cost comes from that is posted for a booking.
use nitroso_tin.Base.{
  String, Bool, true, Option, none, some, List, [], ◌∷◌, Any, ◌≡◌, ◌⊎◌, refl, sym, subst, ap, ◌∙◌,
  inl, inr, arith, Result, ok, err, or_else, bind_result_cases, Bool-cases, codes, str_eq, eq_iff,
}
use nitroso_tin.Ktmb.{KtmbError, GenericRes}
use nitroso_tin.Backfill.Raw.{normalize_currency}
use nitroso_tin.Backfill.World.{
  Work, Booked, Error, no_amount, no_booking, Call, get_ticket, post_cost, Env, M,
}
use nitroso_tin.Backfill.Item.{
  accepted, is_invalid_session, unless_dry, send_cost, ask_ticket, booking_from, post_total,
  process_cost,
}
use nitroso_tin.Backfill.Item.Posts.{posted_ids}

pub accepted_sound :
    {A : Type 0} (answer : Result KtmbError (GenericRes A)) (a : A)
    → accepted answer ≡ ok a
    → (r : GenericRes A) × (answer ≡ ok r) × (r.status ≡ true) × (r.content ≡ a)
unfolding accepted
accepted_sound (err e) a h = cc
accepted_sound (ok r) a h = elim (Bool-cases r.status) [
  | inl said ↦ (r, refl, said, ground (arith, said))
  | inr refused ↦ elim (Bool-cases (is_invalid_session r.messages)) [
    | inl ended ↦ absurd (ground (arith, refused, ended))
    | inr other ↦ absurd (ground (arith, refused, other))
  ]
]

pub booking_from_sound :
    {Amount : Type 0} (booking_no : String) (bs : List (Booked Amount)) (b : Booked Amount)
    → booking_from booking_no bs ≡ some b
    → Any (λ x. x ≡ b) bs × (b.booking_no ≡ booking_no)
unfolding booking_from
booking_from_sound booking_no [] b h = cc
booking_from_sound booking_no (x ∷ xs) b h = elim (Bool-cases (str_eq x.booking_no booking_no)) [
  | inl same ↦
      let is : x ≡ b = ground (arith, same) in
      (inl is, sym (ap (λ y. y.booking_no) is) ∙ (eq_iff x.booking_no booking_no).0 same)
  | inr other ↦
      let rest = booking_from_sound booking_no xs b (ground (arith, other)) in (inr rest.0, rest.1)
]

pub or_else-ok : {E A : Type 0} (o : Option A) (e : E) (a : A) → or_else o e ≡ ok a → o ≡ some a
or_else-ok none e a h = cc
or_else-ok (some x) e a h = cc

module _ {Amount : Type 0} (positive : Amount → Bool) (env : Env Amount) (user : String)
    (work : Work) where
  -- KTMB's ticket holds the booking, with an amount above 0, and that amount is posted last.
  abbrev pub CostPosted : List (Call Amount) → List (Call Amount) → Type 0
  CostPosted h h' =
      (r : GenericRes (List (Booked Amount))) × (b : Booked Amount) × (env.on_ticket h user
          work.booking_no work.ticket_no
        ≡ ok r)
      × (r.status ≡ true)
      × Any (λ x. x ≡ b) r.content
      × (b.booking_no ≡ work.booking_no)
      × (positive b.total_amount ≡ true)
      × (h'
          ≡ post_cost work.id b.total_amount (normalize_currency (codes b.currency_code ∷ []))
            ∷ get_ticket work.booking_no work.ticket_no
            ∷ h)

  pub unless_dry-cases :
      (post : M Amount (Unit {0})) (h : List (Call Amount))
      → (unless_dry positive env post h ≡ (ok tt, h)) ⊎ (unless_dry positive env post h ≡ post h)
  unfolding unless_dry
  unless_dry-cases post h = elim (Bool-cases env.options.dry_run) [
    | inl dry ↦ inl (rw (unless_dry, dry))
    | inr live ↦ inr (rw (unless_dry, live))
  ]

  post_total-cases :
      (b : Booked Amount) (h : List (Call Amount))
      → ((post_total positive env work b h).1 ≡ h)
        ⊎ ((positive b.total_amount ≡ true)
            × ((post_total positive env work b h).1
                ≡ post_cost work.id b.total_amount (normalize_currency (codes b.currency_code ∷ []))
                  ∷ h))
  unfolding post_total send_cost
  post_total-cases b h =
      let currency = normalize_currency (codes b.currency_code ∷ []) in
      let post = send_cost positive env work.id b.total_amount currency in
      elim (Bool-cases (positive b.total_amount)) [
        | inr zero_amount ↦
            let same : post_total positive env work b h ≡ (err no_amount, h) =
              rw (post_total, zero_amount) in
            inl (ap (λ q. q.1) same)
        | inl above ↦
            let same : post_total positive env work b h ≡ unless_dry positive env post h =
              rw (post_total, above) in
            elim (unless_dry-cases post h) [
              | inl dry ↦ inl (ap (λ q. q.1) (same ∙ dry))
              | inr sent ↦ inr (above, ap (λ q. q.1) (same ∙ sent))
            ]
      ]

  -- The history ends as it was posted to, or with the amount of a booking of KTMB's answer.
  abbrev pub Ends : List (Call Amount) → Result Error (Unit {0}) × List (Call Amount) → Type 0
  Ends h q = (posted_ids q.1 ≡ posted_ids h) ⊎ CostPosted h q.1

  -- Working on the cost of a booking posts
  -- nothing, or its last request posts, for that booking, the total of a booking with its number, above
  -- 0, out of an answer of KTMB that reports success, with that booking's currency normalised.
  pub process_cost-CostPosted :
      (h : List (Call Amount)) → Ends h (process_cost positive env user work h)
  unfolding process_cost ask_ticket
  process_cost-CostPosted h =
      bind_result_cases (Ends h) (ask_ticket positive env user work h) _ (λ e w is. inl (cc))
        (λ bs w is.
          let answer = env.on_ticket h user work.booking_no work.ticket_no in
          let sent : w ≡ get_ticket work.booking_no work.ticket_no ∷ h = sym (ap (λ q. q.1) is) in
          let (r, got, said, content) = accepted_sound answer bs (ap (λ q. q.0) is) in
          bind_result_cases (Ends h) (or_else (booking_from work.booking_no bs) no_booking, w) _
            (λ e w' is'. inl (ap posted_ids (sym (ap (λ q. q.1) is') ∙ sent)))
            (λ b w' is'.
              let sent' : w' ≡ get_ticket work.booking_no work.ticket_no ∷ h =
                sym (ap (λ q. q.1) is') ∙ sent in
              let found =
                booking_from_sound work.booking_no bs b (or_else-ok _ _ b (ap (λ q. q.0) is')) in
              elim (post_total-cases b w') [
                | inl quiet ↦ inl (ap posted_ids (quiet ∙ sent'))
                | inr (above, posts) ↦ inr (
                  r,
                  b,
                  got,
                  said,
                  subst (Any (λ x. x ≡ b)) (sym content) found.0,
                  found.1,
                  above,
                  posts
                      ∙ ap
                          (λ k.
                            post_cost work.id b.total_amount
                              (normalize_currency (codes b.currency_code ∷ []))
                            ∷ k)
                          sent',
                )
              ]))
