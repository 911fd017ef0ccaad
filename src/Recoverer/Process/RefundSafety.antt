-- ===== src/Recoverer/Process/RefundSafety.antt =====
-- The conditions under which a whole run of `ProcessItem` refunds a booking.
use nitroso_tin.Base.{
  String, true, false, arith, str_eq, eq_iff, some, List, [], ◌∷◌, ◌≡◌, ◌≢◌, inl, inr, refl, sym,
  ap, ◌∙◌, any, Any, Any-map,
}
use nitroso_tin.Zinc.{answered, Principal, RecoverDto, deref}
use nitroso_tin.Recoverer.World.{get_booking, mark_recovering, History, Env}
use nitroso_tin.Recoverer.Process.{process_item}
use nitroso_tin.Recoverer.Process.Outcome.{Parked, process_item-Parked}
use nitroso_tin.Recoverer.Process.Refunds.{refunds, Resolved, resolve-Refund}

-- Nobody else completes the booking during the run: if a search of the Completed bookings lists it,
-- the run had read it as Completed.
abbrev pub Undisturbed : Env → RecoverDto → Type 0
Undisturbed env dto =
    (b : Principal) (h : History) (bs : List Principal)
    → env.on_booking [] dto.booking_id ≡ answered 200 (some b)
    → env.on_search h dto.passport_number dto.date dto.time dto.direction ≡ answered 200 (some bs)
    → Any (λ c. c.id ≡ dto.booking_id) bs
    → deref b.status ≡ "Completed"

never_completed : (status : String) → str_eq status "Completed" ≡ false → status ≡ "Completed" → ⊥
never_completed status other is = ground (arith, other, (eq_iff status "Completed").1 is)

module _ (env : Env) (dto : RecoverDto) where
  abbrev pub IsOther : Principal → Type 0
  IsOther c = c.id ≢ dto.booking_id

  Resolved-IsOther :
      (h h' : History)
      → ((k : History) (bs : List Principal)
          → env.on_search k dto.passport_number dto.date dto.time dto.direction
            ≡ answered 200 (some bs)
          → Any (λ c. c.id ≡ dto.booking_id) bs
          → ⊥)
      → Resolved env (λ c. Unit {0}) dto h h'
      → Resolved env IsOther dto h h'
  Resolved-IsOther h h' apart (numbers, target, at, ahead, inl absent) =
      (numbers, target, at, ahead, inl absent)
  Resolved-IsOther h h' apart
        (
          numbers,
          target,
          at,
          ahead,
          inr (h₁, f, scanned, (c, _, (bs, said, listed, records)), shape),
        ) =
      (
        numbers,
        target,
        at,
        ahead,
        inr (
          h₁,
          f,
          scanned,
          (
            c,
            (λ own. apart h₁ bs said (Any-map bs (λ x is. ap (λ y. y.id) is ∙ own) listed)),
            (bs, said, listed, records),
          ),
          shape,
        ),
      )

-- If nobody else completes the booking during the run: a run that refunds the booking (marks it
-- duplicate) has read the booking from zinc as Recovering, or as Buying and moved it to Recovering,
-- with no KTMB booking number recorded; the item lacks the booking number or the ticket number, and
-- its departure has not passed; and then either the scan of our account ended with no ticket, and
-- zinc refused a recycle with 409 right before, or the scan found a ticket whose booking number
-- another booking records, which zinc's search of Completed bookings lists. The requests from the
-- scan on are exactly those.
pub process_item-refunds :
    (env : Env) (dto : RecoverDto)
    → Undisturbed env dto
    → any refunds (process_item env dto []).1 ≡ true
    → (b : Principal) × (env.on_booking [] dto.booking_id ≡ answered 200 (some b))
      × Parked env dto
          (Resolved env (IsOther env dto) dto)
          b
          (get_booking dto.booking_id ∷ [])
          (process_item env dto []).1
process_item-refunds env dto undisturbed refunded =
    let (b, read, (free, parked)) =
      process_item-Parked env dto refunds (Resolved env (λ c. Unit {0}) dto) (λ id. refl)
        (λ id. refl) (λ id. refl) (resolve-Refund env dto) refunded in
    let h = get_booking dto.booking_id ∷ [] in
    let h' = (process_item env dto []).1 in
    (
      b,
      read,
      (
        free,
        elim parked [
          | inl (recovering, why) ↦ inl (
            recovering,
            Resolved-IsOther env dto h h'
                (λ k bs said own.
                  never_completed "Recovering" refl
                    (sym recovering ∙ undisturbed b k bs read said own))
                why,
          )
          | inr (buying, moved, why) ↦ inr (
            buying,
            moved,
            Resolved-IsOther env dto (mark_recovering dto.booking_id ∷ h) h'
                (λ k bs said own.
                  never_completed "Buying" refl (sym buying ∙ undisturbed b k bs read said own))
                why,
          )
        ],
      ),
    )
