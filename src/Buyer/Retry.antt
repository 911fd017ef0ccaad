-- ===== src/Buyer/Retry.antt =====
-- `retryBackoff` (lib/buyer/client.go), less the waits between the attempts.
use nitroso_tin.Base.{ℕ, zero, suc, ◌+◌, ◌-◌, ◌≡◌, ◌⊎◌, inl, inr, Result, ok, err, Prog}

module _ {W E : Type 0} where
  pub on_failure : Result E (Unit {0}) × W → Prog W E (Unit {0}) → Result E (Unit {0}) × W
  on_failure (ok a, w) next = (ok a, w)
  on_failure (err e, w) next = next w

  -- `left` attempts follow this one while none succeeds.
  pub retry_from : ℕ → ℕ → (ℕ → Prog W E (Unit {0})) → Prog W E (Unit {0})
  unfolding on_failure
  retry_from zero attempt op w = op attempt w
  retry_from (suc left) attempt op w = on_failure (op attempt w) (retry_from left (attempt + 1) op)

  unfoldable pub retry_backoff : ℕ → (ℕ → Prog W E (Unit {0})) → Prog W E (Unit {0})
  unfolding retry_from
  retry_backoff retries op = retry_from (retries - 1) 0 op

  on_failure_keeps :
      (P : W → Type 0) (p : Result E (Unit {0}) × W) (next : Prog W E (Unit {0}))
      → P p.1
      → ((w : W) → P w → P (next w).1)
      → P (on_failure p next).1
  unfolding on_failure
  on_failure_keeps P (ok a, w) next h k = h
  on_failure_keeps P (err e, w) next h k = k w h

  retry_from_keeps :
      (P : W → Type 0) (op : ℕ → Prog W E (Unit {0}))
      → ((attempt : ℕ) (w : W) → P w → P (op attempt w).1)
      → (left attempt : ℕ) (w : W) → P w
      → P (retry_from left attempt op w).1
  unfolding retry_from
  retry_from_keeps P op keeps zero attempt w h = keeps attempt w h
  retry_from_keeps P op keeps (suc left) attempt w h =
      on_failure_keeps P (op attempt w) (retry_from left (attempt + 1) op) (keeps attempt w h)
        (retry_from_keeps P op keeps left (attempt + 1))

  -- What every attempt keeps of the world, the retries keep.
  pub retry_backoff_keeps :
      (P : W → Type 0) (op : ℕ → Prog W E (Unit {0})) (retries : ℕ)
      → ((attempt : ℕ) (w : W) → P w → P (op attempt w).1)
      → (w : W) → P w
      → P (retry_backoff retries op w).1
  unfolding retry_backoff
  retry_backoff_keeps P op retries keeps w h = retry_from_keeps P op keeps (retries - 1) 0 w h

  on_failure-ok :
      (p : Result E (Unit {0}) × W) (next : Prog W E (Unit {0})) (w' : W)
      → on_failure p next ≡ (ok tt, w')
      → (p ≡ (ok tt, w')) ⊎ ((w : W) × (next w ≡ (ok tt, w')))
  unfolding on_failure
  on_failure-ok (ok a, w) next w' h = inl h
  on_failure-ok (err e, w) next w' h = inr (w, h)

  retry_from-ok :
      (op : ℕ → Prog W E (Unit {0})) (left attempt : ℕ) (w w' : W)
      → retry_from left attempt op w ≡ (ok tt, w')
      → (n : ℕ) × (w₁ : W) × (op n w₁ ≡ (ok tt, w'))
  unfolding retry_from
  retry_from-ok op zero attempt w w' h = (attempt, w, h)
  retry_from-ok op (suc left) attempt w w' h =
      elim (on_failure-ok (op attempt w) (retry_from left (attempt + 1) op) w' h) [
        | inl now ↦ (attempt, w, now)
        | inr (w₁, later) ↦ retry_from-ok op left (attempt + 1) w₁ w' later
      ]

  -- Retries that succeed end with an attempt that succeeded.
  pub retry_backoff-ok :
      (op : ℕ → Prog W E (Unit {0})) (retries : ℕ) (w w' : W)
      → retry_backoff retries op w ≡ (ok tt, w')
      → (attempt : ℕ) × (w₁ : W) × (op attempt w₁ ≡ (ok tt, w'))
  unfolding retry_backoff
  retry_backoff-ok op retries w w' h = retry_from-ok op (retries - 1) 0 w w' h
