-- ===== src/Recoverer/Process/Outcome.antt =====
-- What a run of `ProcessItem` has read before the resolution that made a flagged request.
use nitroso_tin.Base.{
  String, Bool, true, false, Option, none, some, [], ◌∷◌, ◌≡◌, ◌⊎◌, inl, inr, refl, arith, any,
  eq_iff, sym, ap, ◌∙◌, subst, ok, err, bind_result_cases, str_eq, Bool-cases,
}
use nitroso_tin.Zinc.{Reply, unreached, answered, Principal, RecoverDto, deref}
use nitroso_tin.Recoverer.World.{
  Call, get_booking, mark_recovering, mark_manual, History, Error, Env, wants_ok,
}
use nitroso_tin.Recoverer.Process.{
  is_captured, is_terminal, fetch_booking, set_recovering, set_manual, resolve, transition_first,
  triage, or_drop, process_item,
}

module _ (env : Env) (dto : RecoverDto) (R : History → History → Type 0) where
  -- What the run has learnt of the booking, and where its resolution began.
  abbrev pub Parked : Principal → History → History → Type 0
  Parked b h h' =
      (is_captured b.booking_no ≡ false)
      × (((deref b.status ≡ "Recovering") × R h h')
          ⊎ ((deref b.status ≡ "Buying")
              × (wants_ok "recovering" (env.on_recovering h dto.booking_id) ≡ ok tt)
              × R (mark_recovering dto.booking_id ∷ h) h'))

-- `flag` marks requests that none of the steps before the resolution makes, and `R` is what a
-- resolution from one history to another gives when it makes one.
module _ (env : Env) (dto : RecoverDto) (flag : Call → Bool) (R : History → History → Type 0)
    (at_read : (id : String) → flag (get_booking id) ≡ false)
    (at_transition : (id : String) → flag (mark_recovering id) ≡ false)
    (at_park : (id : String) → flag (mark_manual id) ≡ false)
    (resolve-R : (h : History)
      → any flag h ≡ false
      → any flag (resolve env dto h).1 ≡ true
      → R h (resolve env dto h).1) where
  transition_first-R :
      (h : History)
      → any flag h ≡ false
      → any flag (transition_first env dto h).1 ≡ true
      → (wants_ok "recovering" (env.on_recovering h dto.booking_id) ≡ ok tt)
        × R (mark_recovering dto.booking_id ∷ h) (transition_first env dto h).1
  unfolding transition_first
  transition_first-R h clean =
      bind_result_cases
        (λ q.
          any flag q.1 ≡ true
          → (wants_ok "recovering" (env.on_recovering h dto.booking_id) ≡ ok tt)
            × R (mark_recovering dto.booking_id ∷ h) q.1)
        (set_recovering env dto.booking_id h) _ on_err on_ok
    where
      on_err :
          (x : Error) (h₁ : History)
          → set_recovering env dto.booking_id h ≡ (err x, h₁)
          → any flag h₁ ≡ true
          → (wants_ok "recovering" (env.on_recovering h dto.booking_id) ≡ ok tt)
            × R (mark_recovering dto.booking_id ∷ h) h₁
      on_err x h₁ e r =
          absurd (unfold set_recovering in ground (arith, at_transition dto.booking_id))

      on_ok :
          (u : Unit {0}) (h₁ : History)
          → set_recovering env dto.booking_id h ≡ (ok u, h₁)
          → any flag (resolve env dto h₁).1 ≡ true
          → (wants_ok "recovering" (env.on_recovering h dto.booking_id) ≡ ok tt)
            × R (mark_recovering dto.booking_id ∷ h) (resolve env dto h₁).1
      on_ok u h₁ e r =
          let h₁_is : h₁ ≡ mark_recovering dto.booking_id ∷ h =
            unfold set_recovering in ground arith in
          let said : wants_ok "recovering" (env.on_recovering h dto.booking_id) ≡ ok tt =
            unfold set_recovering in ground arith in
          (
            said,
            subst (λ k. R k (resolve env dto h₁).1) h₁_is
                (resolve-R h₁ (ground (arith, at_transition dto.booking_id)) r),
          )

  triage-R :
      (b : Principal) (h : History)
      → any flag h ≡ false
      → any flag (triage env dto b h).1 ≡ true
      → Parked env dto R b h (triage env dto b h).1
  unfolding triage
  triage-R b h clean r = elim (Bool-cases (is_terminal (deref b.status))) [
    | inl done ↦ absurd (ground arith)
    | inr live ↦ elim (Bool-cases (is_captured b.booking_no)) [
      | inl taken ↦ absurd (unfold set_manual in ground (arith, at_park dto.booking_id))
      | inr free ↦ elim (Bool-cases (str_eq (deref b.status) "Buying")) [
        | inl buying ↦
            let same : triage env dto b h ≡ transition_first env dto h =
              rw (triage, live, free, buying) in
            let (said, resolved) =
              transition_first-R h clean (sym (ap (λ q. any flag q.1) same) ∙ r) in
            (
              free,
              inr (
                (eq_iff _ _).0 buying,
                said,
                subst (λ q. R (mark_recovering dto.booking_id ∷ h) q.1) (sym same) resolved,
              ),
            )
        | inr other ↦ elim (Bool-cases (str_eq (deref b.status) "Recovering")) [
          | inl recovering ↦
              let same : triage env dto b h ≡ resolve env dto h =
                rw (triage, live, free, other, recovering) in
              (
                free,
                inl (
                  (eq_iff _ _).0 recovering,
                  subst (λ q. R h q.1) (sym same)
                      (resolve-R h clean (sym (ap (λ q. any flag q.1) same) ∙ r)),
                ),
              )
          | inr neither ↦ absurd (unfold set_manual in ground (arith, at_park dto.booking_id))
        ]
      ]
    ]
  ]

  -- A flagged request of a run is a resolution's, after the booking was read as parked.
  pub process_item-Parked :
      any flag (process_item env dto []).1 ≡ true
      → (b : Principal) × (env.on_booking [] dto.booking_id ≡ answered 200 (some b))
        × Parked env dto R b (get_booking dto.booking_id ∷ []) (process_item env dto []).1
  unfolding process_item
  process_item-Parked =
      bind_result_cases
        (λ q.
          any flag q.1 ≡ true
          → (b : Principal) × (env.on_booking [] dto.booking_id ≡ answered 200 (some b))
            × Parked env dto R b (get_booking dto.booking_id ∷ []) q.1)
        (fetch_booking env dto.booking_id []) _ on_err on_ok
    where
      on_err :
          (x : Error) (h₁ : History)
          → fetch_booking env dto.booking_id [] ≡ (err x, h₁)
          → any flag h₁ ≡ true
          → (b : Principal) × (env.on_booking [] dto.booking_id ≡ answered 200 (some b))
            × Parked env dto R b (get_booking dto.booking_id ∷ []) h₁
      on_err x h₁ e r = absurd (unfold fetch_booking in ground (arith, at_read dto.booking_id))

      read :
          (b : Principal) (h₁ : History)
          → fetch_booking env dto.booking_id [] ≡ (ok (some b), h₁)
          → (reply : Reply Principal) → env.on_booking [] dto.booking_id ≡ reply
          → (env.on_booking [] dto.booking_id ≡ answered 200 (some b))
            × (h₁ ≡ get_booking dto.booking_id ∷ [])
      read b h₁ e unreached a =
          absurd (unfold fetch_booking in ground (arith, at_read dto.booking_id))
      read b h₁ e (answered status none) a =
          absurd (unfold fetch_booking in ground (arith, at_read dto.booking_id))
      read b h₁ e (answered status (some c)) a =
          (unfold fetch_booking in ground arith, unfold fetch_booking in ground arith)

      on_ok :
          (found : Option Principal) (h₁ : History)
          → fetch_booking env dto.booking_id [] ≡ (ok found, h₁)
          → any flag (or_drop env dto found h₁).1 ≡ true
          → (b : Principal) × (env.on_booking [] dto.booking_id ≡ answered 200 (some b))
            × Parked env dto R b (get_booking dto.booking_id ∷ []) (or_drop env dto found h₁).1
      on_ok none h₁ e r = absurd (unfold fetch_booking in ground (arith, at_read dto.booking_id))
      on_ok (some b) h₁ e r =
          let (answer, h₁_is) = read b h₁ e (env.on_booking [] dto.booking_id) refl in
          (
            b,
            answer,
            subst (λ k. Parked env dto R b k (or_drop env dto (some b) h₁).1) h₁_is
                (triage-R b h₁ (ground (arith, at_read dto.booking_id)) r),
          )
