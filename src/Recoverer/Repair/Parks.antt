-- ===== src/Recoverer/Repair/Parks.antt =====
-- What the repair sweep writes to zinc for one booking, and why.
use nitroso_tin.Base.{
  ℕ, String, Bool, true, false, ◌||◌, List, ◌∷◌, ◌≡◌, ◌≢◌, ◌⊎◌, inl, inr, refl, arith, any, Any,
  Any-map, any-Any, str_eq, eq_iff, Result, ok, err, Bool-cases, sym, ap, ◌∙◌, subst,
}
use nitroso_tin.Ktmb.{KtmbError, transport, http_status, rejected, cancelled}
use nitroso_tin.Zinc.{Principal, deref}
use nitroso_tin.Buyer.{matches_pattern}
use nitroso_tin.Buyer.Conflict.{Recognised, matches_pattern-Recognised}
use nitroso_tin.Recoverer.World.{
  Call, mark_recovering, mark_duplicate, mark_manual, recover_revert, complete, print_ticket,
  attach_ticket, History, Env,
}
use nitroso_tin.Recoverer.Process.{set_manual}
use nitroso_tin.Recoverer.Repair.{
  is_rejection, matches_not_found, upload_ticket, after_print, repair_one, download,
}

-- The request changes a booking in zinc.
abbrev pub writes : Call → Bool
writes (mark_recovering id) = true
writes (mark_duplicate id) = true
writes (mark_manual id) = true
writes (recover_revert id) = true
writes (complete id b t pdf) = true
writes (attach_ticket id b t pdf) = true
writes _ = false

-- KTMB refused the request's content and named one of the patterns in the body.
abbrev pub Definitive : List String → KtmbError → Type 0
Definitive patterns e =
    (status : ℕ) × (body : String) × (e ≡ http_status status body)
    × ((status ≡ 400) ⊎ ((status ≡ 404) ⊎ (status ≡ 410)))
    × Any (Recognised body) patterns

matches_not_found-Definitive :
    (patterns : List String) (e : KtmbError)
    → matches_not_found patterns e ≡ true
    → Definitive patterns e
unfolding matches_not_found is_rejection
matches_not_found-Definitive patterns transport h = cc
matches_not_found-Definitive patterns (rejected ms) h = cc
matches_not_found-Definitive patterns cancelled h = cc
matches_not_found-Definitive patterns (http_status status body) h = (
  status,
  body,
  refl,
  unfold is_rejection in ground arith,
  Any-map patterns (λ p at. matches_pattern-Recognised body p at)
      (any-Any (matches_pattern body) patterns (unfold is_rejection in ground arith)),
)

module _ (env : Env) (patterns : List String) (user_data : String) (b : Principal) where
  set_manual_wrote :
      (h : History)
      → any writes h ≡ false
      → any writes (set_manual env b.id h).1 ≡ true
      → (set_manual env b.id h).1 ≡ mark_manual b.id ∷ h
  unfolding set_manual
  set_manual_wrote h clean r = ground arith

  -- The request that a repair of a Completed booking ends with.
  abbrev pub Repairs : History → History → Type 0
  Repairs h h' =
      (deref b.status ≡ "Completed")
      × ((((deref b.booking_no ≡ "") ⊎ (deref b.ticket_no ≡ "")) × (h' ≡ mark_manual b.id ∷ h))
          ⊎ ((deref b.booking_no ≢ "")
              × (deref b.ticket_no ≢ "")
              × (((e : KtmbError) × (env.on_print h user_data (deref b.booking_no)
                        (deref b.ticket_no)
                      ≡ err e)
                    × Definitive patterns e
                    × (h'
                        ≡ mark_manual b.id
                          ∷ print_ticket (deref b.booking_no) (deref b.ticket_no)
                          ∷ h))
                  ⊎ ((pdf : String) × (env.on_print h user_data (deref b.booking_no)
                          (deref b.ticket_no)
                        ≡ ok pdf)
                      × (pdf ≢ "")
                      × (h'
                          ≡ attach_ticket b.id (deref b.booking_no) (deref b.ticket_no) pdf
                            ∷ print_ticket (deref b.booking_no) (deref b.ticket_no)
                            ∷ h)))))

  printed-Repairs :
      (h : History) (printed : Result KtmbError String)
      → env.on_print h user_data (deref b.booking_no) (deref b.ticket_no) ≡ printed
      → any writes h ≡ false
      → deref b.status ≡ "Completed"
      → deref b.booking_no ≢ ""
      → deref b.ticket_no ≢ ""
      → any writes (
          after_print env patterns b.id
            (deref b.booking_no)
            (deref b.ticket_no)
            printed
            (print_ticket (deref b.booking_no) (deref b.ticket_no) ∷ h))
        ≡ true
      → Repairs h (
          after_print env patterns b.id
            (deref b.booking_no)
            (deref b.ticket_no)
            printed
            (print_ticket (deref b.booking_no) (deref b.ticket_no) ∷ h))
  unfolding after_print
  printed-Repairs h (err e) is clean completed bn tn r =
      elim (Bool-cases (matches_not_found patterns e)) [
        | inr vague ↦ absurd (ground arith)
        | inl definite ↦
            let k : History = print_ticket (deref b.booking_no) (deref b.ticket_no) ∷ h in
            let same : after_print env patterns b.id (deref b.booking_no) (deref b.ticket_no)
                  (err e) k
                ≡ (set_manual env b.id k).1 =
              rw (after_print, definite) in
            (
              completed,
              inr (
                bn,
                tn,
                inl (
                  e,
                  is,
                  matches_not_found-Definitive patterns e definite,
                  same ∙ set_manual_wrote k clean (sym (ap (any writes) same) ∙ r),
                ),
              ),
            )
      ]
  printed-Repairs h (ok pdf) is clean completed bn tn r = elim (Bool-cases (str_eq pdf "")) [
    | inl blank ↦ absurd (ground arith)
    | inr filled ↦ (
      completed,
      inr (
        bn,
        tn,
        inr (pdf, is, ground (arith, eq_iff pdf ""), unfold upload_ticket in ground arith),
      ),
    )
  ]

  -- A repair of one booking that changes anything in zinc is of a Completed booking, and it makes one
  -- such request: it parks the booking for a human, because one of its KTMB numbers is missing or
  -- because KTMB refused the download with 400, 404 or 410 and a body that contains one of the
  -- patterns that are not empty; or it attaches the ticket that it has just downloaded under the
  -- booking's own numbers, which is not empty.
  pub repair_one-Repairs :
      (h : History)
      → any writes h ≡ false
      → any writes (repair_one env patterns (download env patterns user_data) b h) ≡ true
      → Repairs h (repair_one env patterns (download env patterns user_data) b h)
  unfolding repair_one download
  repair_one-Repairs h clean r = elim (Bool-cases (str_eq (deref b.status) "Completed")) [
    | inr other ↦ absurd (ground arith)
    | inl completed ↦
        elim (Bool-cases (str_eq (deref b.booking_no) "" || str_eq (deref b.ticket_no) "")) [
          | inl blank ↦
              let same : repair_one env patterns (download env patterns user_data) b h
                  ≡ (set_manual env b.id h).1 =
                rw (repair_one, completed, blank) in
              (
                (eq_iff _ _).0 completed,
                inl (
                  ground (arith, eq_iff (deref b.booking_no) "", eq_iff (deref b.ticket_no) ""),
                  same ∙ set_manual_wrote h clean (sym (ap (any writes) same) ∙ r),
                ),
              )
          | inr numbered ↦
              let same : repair_one env patterns (download env patterns user_data) b h
                  ≡ after_print env patterns b.id (deref b.booking_no) (deref b.ticket_no)
                      (env.on_print h user_data (deref b.booking_no) (deref b.ticket_no))
                      (print_ticket (deref b.booking_no) (deref b.ticket_no) ∷ h) =
                rw (repair_one, completed, numbered) in
              subst (Repairs h) (sym same) (
                printed-Repairs h
                  (env.on_print h user_data (deref b.booking_no) (deref b.ticket_no)) refl clean
                  ((eq_iff _ _).0 completed) (ground (arith, eq_iff (deref b.booking_no) ""))
                  (ground (arith, eq_iff (deref b.ticket_no) "")) (sym (ap (any writes) same) ∙ r))
        ]
  ]
