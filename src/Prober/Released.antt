-- ===== src/Prober/Released.antt =====
-- When a stored hold is removed from the store.
use nitroso_tin.Base.{
  ℕ, zero, suc, String, Bool, true, false, Option, none, some, List, [], ◌∷◌, ◌≡◌, ◌⊎◌, inl, inr,
  refl, arith, if◌then◌else◌, Result, Bool-cases, Option-cases, sym, subst, ◌==◌,
}
use nitroso_tin.Ktmb.{KtmbError, GenericRes}
use nitroso_tin.Buyer.Client.{ReserveDto}
use nitroso_tin.Prober.{
  Call, cancel, remove_release, Env, cancel_error, is_final, session_rejected, Fate, stays, goes,
  ends, fate, user_for, remove_then, by_fate, drain_entry, drain_entries, drain_listed,
  drain_releases,
}
use nitroso_tin.Prober.Held.{confirmed, cancel_error-confirmed}

module _ (env : Env) where
  -- After the requests `k` the entry may go: it cannot be read, or the last request cancels its hold
  -- and KTMB confirmed that, or refused it for good without rejecting the session.
  abbrev pub Removable : String → List Call → Type 0
  Removable v k =
      (env.decrypt v ≡ none)
      ⊎ ((dto : ReserveDto) × (user : String) × (h : List Call) × (env.decrypt v ≡ some dto)
          × (k ≡ cancel user dto.booking_data ∷ h)
          × ((confirmed (env.on_cancel h user dto.booking_data) ≡ true)
              ⊎ ((is_final env (env.on_cancel h user dto.booking_data) ≡ true)
                  × (session_rejected env (env.on_cancel h user dto.booking_data) ≡ false))))

  -- Every removal of the history had its reason.
  abbrev pub Justified : List Call → Type 0
  Justified [] = Unit
  Justified (remove_release v ∷ k) = Removable v k × Justified k
  Justified (c ∷ k) = Justified k

  remove_then-Justified :
      (v : String) (next : List Call → Bool × List Call) (h : List Call)
      → Removable v h
      → Justified h
      → ((k : List Call) → Justified k → Justified (next k).1)
      → Justified (remove_then env v next h).1
  unfolding remove_then
  remove_then-Justified v next h why just go = elim (Bool-cases (env.on_remove h v)) [
    | inl gone ↦
        let same : remove_then env v next h ≡ next (remove_release v ∷ h) =
          rw (remove_then, gone) in
        subst (λ q. Justified q.1) (sym same) (go (remove_release v ∷ h) (why, just))
    | inr kept ↦
        let same : remove_then env v next h ≡ (false, remove_release v ∷ h) =
          rw (remove_then, kept) in
        subst (λ q. Justified q.1) (sym same) (why, just)
  ]

  fate-goes :
      (answer : Result KtmbError (GenericRes (Unit {0})))
      → fate env answer ≡ goes
      → (confirmed answer ≡ true)
        ⊎ ((is_final env answer ≡ true) × (session_rejected env answer ≡ false))
  unfolding fate
  fate-goes answer h = elim (Option-cases (cancel_error answer)) [
    | inl fine ↦ inl (cancel_error-confirmed answer fine)
    | inr (e, bad) ↦ elim (Bool-cases (session_rejected env answer)) [
      | inl dead ↦ absurd (ground arith)
      | inr alive ↦ elim (Bool-cases (is_final env answer)) [
        | inl final ↦ inr (final, alive)
        | inr open' ↦ absurd (ground arith)
      ]
    ]
  ]

  drain_entry-Justified :
      (current v : String) (entry : Option ReserveDto) (next : List Call → Bool × List Call)
      (h : List Call)
      → env.decrypt v ≡ entry
      → Justified h
      → ((k : List Call) → Justified k → Justified (next k).1)
      → Justified (drain_entry env current v entry next h).1
  unfolding drain_entry
  drain_entry-Justified current v none next h is just go =
      remove_then-Justified v next h (inl is) just go
  drain_entry-Justified current v (some dto) next h is just go =
      by_end (fate env (env.on_cancel h (user_for env current dto) dto.booking_data)) refl
    where
      user : String
      user = user_for env current dto

      by_end :
          (f : Fate)
          → fate env (env.on_cancel h user dto.booking_data) ≡ f
          → Justified (by_fate env f user v next (cancel user dto.booking_data ∷ h)).1
      by_end stays e = unfold by_fate in go (cancel user dto.booking_data ∷ h) just
      by_end ends e = unfold by_fate in just
      by_end goes e =
          unfold by_fate in
          remove_then-Justified v next (cancel user dto.booking_data ∷ h)
            (inr (dto, user, h, is, refl, fate-goes (env.on_cancel h user dto.booking_data) e)) just
            go

  drain_entries-Justified :
      (current : String) (left : ℕ) (vs : List String) (h : List Call)
      → Justified h
      → Justified (drain_entries env current left vs h).1
  unfolding drain_entries
  drain_entries-Justified current zero vs h just = just
  drain_entries-Justified current (suc left) [] h just = just
  drain_entries-Justified current (suc left) (v ∷ vs) h just =
      let rest = drain_entries-Justified current left vs in
      elim (Bool-cases (env.expired_at h)) [
        | inl late ↦
            let same : drain_entries env current (suc left) (v ∷ vs) h ≡ (true, h) =
              rw (drain_entries, late) in
            subst (λ q. Justified q.1) (sym same) just
        | inr soon ↦
            let same : drain_entries env current (suc left) (v ∷ vs) h
                ≡ drain_entry env current v (env.decrypt v) (drain_entries env current left vs) h =
              rw (drain_entries, soon) in
            subst (λ q. Justified q.1) (sym same)
              (drain_entry-Justified current v (env.decrypt v) (drain_entries env current left vs) h
                refl just rest)
      ]

  -- A stored hold that the drain removes from the store is one that cannot be read, or one whose
  -- cancellation, the request right before, KTMB confirmed, or refused with a terminal message that
  -- does not reject the session.
  pub drain_releases-Justified :
      (setting : ℕ) (current : String) → Justified (drain_releases env setting current []).1
  unfolding drain_releases
  drain_releases-Justified setting current =
      let limit = if setting == 0 then 10 else setting in by_list limit (env.on_list [] limit)
    where
      by_list :
          (limit : ℕ) (vs : Option (List String))
          → Justified (drain_listed env current limit vs []).1
      by_list limit none = unfold drain_listed in tt
      by_list limit (some vs) =
          unfold drain_listed in drain_entries-Justified current limit vs [] tt
