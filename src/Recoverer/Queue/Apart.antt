-- ===== src/Recoverer/Queue/Apart.antt =====
-- The drain and the sweep of one cycle do not act on the same booking.
use nitroso_tin.Base.{
  ℕ, zero, suc, String, Bool, true, false, Option, none, some, List, [], ◌∷◌, ◌≡◌, ◌⊎◌, ◌≢◌, inl,
  inr, refl, ◌||◌, arith, ap, any, str_eq, Bool-cases, eq_iff,
}
use nitroso_tin.Zinc.{Principal, RecoverDto}
use nitroso_tin.Recoverer.World.{pop_recover, History, Env}
use nitroso_tin.Recoverer.Process.Own.{asked}
use nitroso_tin.Recoverer.Check.{reconstruct_dto}
use nitroso_tin.Recoverer.Queue.{
  Popped, pop_failed, nothing, unreadable, popped, Queue, handle_item, drain_items, drain,
  queued_booking_ids, listed_in, sweep_bookings, sweep_listed, sweep,
}
use nitroso_tin.Recoverer.Queue.Own.{handle_item_own}

module _ (env : Env) (queue : Queue) (id : String) where
  -- The list names the booking.
  abbrev names : List String → Bool
  names ids = any (str_eq id) ids

  names-here : (x : String) (ids : List String) → str_eq x id ≡ true → names (x ∷ ids) ≡ true
  names-here x ids same = ground (arith, eq_iff x id, eq_iff id x)

  apart : (x : String) (ids : List String) → names ids ≡ true → names (x ∷ ids) ≡ true
  apart x ids found = ground arith

  -- What is handled stays among what the drain reports.
  drain_items_keeps :
      (left : ℕ) (handled : List String) (h : History)
      → names handled ≡ true
      → names (drain_items env queue left handled h).0.1 ≡ true
  unfolding drain_items
  drain_items_keeps zero handled h found = found
  drain_items_keeps (suc left) handled h found =
      by_pop (drain_items_keeps left) (queue.on_pop h) refl
    where
      by_pop :
          ((now : List String) (k : History)
            → names now ≡ true
            → names (drain_items env queue left now k).0.1 ≡ true)
          → (p : Popped) → queue.on_pop h ≡ p
          → names (drain_items env queue (suc left) handled h).0.1 ≡ true
      by_pop rec pop_failed e = ground arith
      by_pop rec nothing e = ground arith
      by_pop rec unreadable e = ground (arith, rec handled (pop_recover ∷ h) found)
      by_pop rec (popped dto) e = ground (
        arith,
        rec (dto.booking_id ∷ handled) (handle_item env queue dto (pop_recover ∷ h))
            (apart dto.booking_id handled found),
      )

  -- The drain asks only about what it reports.
  drain_items_own :
      (left : ℕ) (handled : List String) (h : History)
      → names (drain_items env queue left handled h).0.1 ≡ false
      → asked id (drain_items env queue left handled h).1 ≡ asked id h
  unfolding drain_items
  drain_items_own zero handled h absent = refl
  drain_items_own (suc left) handled h absent = by_pop (drain_items_own left) (queue.on_pop h) refl
    where
      by_pop :
          ((now : List String) (k : History)
            → names (drain_items env queue left now k).0.1 ≡ false
            → asked id (drain_items env queue left now k).1 ≡ asked id k)
          → (p : Popped) → queue.on_pop h ≡ p
          → asked id (drain_items env queue (suc left) handled h).1 ≡ asked id h
      by_pop rec pop_failed e = ground arith
      by_pop rec nothing e = ground arith
      by_pop rec unreadable e = ground (arith, rec handled (pop_recover ∷ h))
      by_pop rec (popped dto) e =
          let after : History = handle_item env queue dto (pop_recover ∷ h) in
          elim (Bool-cases (str_eq dto.booking_id id)) [
            | inl own ↦ absurd (
                ground (
                  arith,
                  drain_items_keeps left (dto.booking_id ∷ handled) after
                      (names-here dto.booking_id handled own),
                ))
            | inr other ↦ ground (
              arith,
              rec (dto.booking_id ∷ handled) after,
              handle_item_own env queue id dto (pop_recover ∷ h) other,
            )
          ]

  drain_own :
      (h : History)
      → names (drain env queue h).0.1 ≡ false
      → asked id (drain env queue h).1 ≡ asked id h
  unfolding drain
  drain_own h absent = by_length (queue.on_length h) refl
    where
      by_length :
          (l : Option ℕ) → queue.on_length h ≡ l → asked id (drain env queue h).1 ≡ asked id h
      by_length none e = ground arith
      by_length (some l) e = ground (arith, drain_items_own l [] h)

  sweep_bookings_own :
      (skip queued : List String) (bs : List Principal) (h : History)
      → (names skip ≡ true) ⊎ (names queued ≡ true)
      → asked id (sweep_bookings env queue skip queued bs h) ≡ asked id h
  unfolding sweep_bookings listed_in
  sweep_bookings_own skip queued [] h known = refl
  sweep_bookings_own skip queued (b ∷ bs) h known =
      let dto = reconstruct_dto b in
      elim (Bool-cases (str_eq dto.booking_id id)) [
        | inl own ↦
            let is : dto.booking_id ≡ id = ground (arith, eq_iff dto.booking_id id) in
            let listed : any (str_eq dto.booking_id) skip || any (str_eq dto.booking_id) queued
                ≡ true =
              ground
                (arith, ap (λ x. any (str_eq x) skip) is, ap (λ x. any (str_eq x) queued) is) in
            ground (arith, sweep_bookings_own skip queued bs h known)
        | inr other ↦ ground (
          arith,
          handle_item_own env queue id dto h other,
          sweep_bookings_own skip queued bs h known,
          sweep_bookings_own skip queued bs (handle_item env queue dto h) known,
        )
      ]

  sweep_own :
      (skip : List String) (h : History)
      → (names skip ≡ true)
        ⊎ ((entries : List (Option RecoverDto)) × (queue.on_queued h ≡ some entries)
            × (names (queued_booking_ids entries) ≡ true))
      → asked id (sweep env queue skip h).1 ≡ asked id h
  unfolding sweep
  sweep_own skip h known = by_list (queue.on_recovering_list h) refl
    where
      by_queue :
          (b : Principal) (bs : List Principal)
          → (q : Option (List (Option RecoverDto))) → queue.on_queued h ≡ q
          → asked id (sweep_listed env queue skip (b ∷ bs) h).1 ≡ asked id h
      by_queue b bs none e = unfold sweep_listed in ground arith
      by_queue b bs (some entries) e =
          let reported : (names skip ≡ true) ⊎ (names (queued_booking_ids entries) ≡ true) =
            elim known [
              | inl skipped ↦ inl skipped
              | inr (ids, given, listed) ↦ inr (ground arith)
            ] in
          unfold sweep_listed in
          ground (arith, sweep_bookings_own skip (queued_booking_ids entries) (b ∷ bs) h reported)

      by_list :
          (l : Option (List Principal))
          → queue.on_recovering_list h ≡ l
          → asked id (sweep env queue skip h).1 ≡ asked id h
      by_list none e = ground arith
      by_list (some []) e = unfold sweep_listed in ground arith
      by_list (some (b ∷ bs)) e = ground (arith, by_queue b bs (queue.on_queued h) refl)

  -- A sweep that follows a drain and is told what that has handled sends no request that names a
  -- booking which the drain's requests name, nor one that names a booking which the queue holds when
  -- the sweep reads it, whatever zinc, KTMB and redis answer and wherever the drain stopped.
  pub sweep-drain_apart :
      (h : History)
      → (asked id (drain env queue h).1 ≢ asked id h)
        ⊎ ((entries : List (Option RecoverDto)) × (queue.on_queued (drain env queue h).1
              ≡ some entries)
            × (any (str_eq id) (queued_booking_ids entries) ≡ true))
      → asked id (sweep env queue (drain env queue h).0.1 (drain env queue h).1).1
        ≡ asked id (drain env queue h).1
  sweep-drain_apart h known = sweep_own (drain env queue h).0.1 (drain env queue h).1 (elim known [
    | inr listed ↦ inr listed
    | inl acted ↦ elim (Bool-cases (names (drain env queue h).0.1)) [
      | inl reported ↦ inl reported
      | inr absent ↦ absurd (acted (drain_own h absent))
    ]
  ])
