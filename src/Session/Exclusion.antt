-- ===== src/Session/Exclusion.antt =====
-- The lock excludes: no two calls of `Login` are at KTMB within the life of their locks.
use nitroso_tin.Base.{
  ℕ, ◌+◌, ◌<◌, ◌≤◌, ltb, String, Bool, true, false, Option, none, some, ◌≡◌, refl, sym, subst, ap,
  ◌∙◌, inl, inr, arith, if◌then◌else◌, str_eq, eq_iff, Bool-cases,
}
use nitroso_tin.Session.{
  Redis, Stage, starting, trying, waiting, holding, logging, storing, releasing, finished, Cipher,
  Answer, Cached, failed, missing, found, lock_seconds, held, is_trying, cached, after_look,
  try_lock, store, delete_if, delete_lock, release_lock, step, delete_cached, System, advance,
  Reached, begun, advanced, invalidated, passed,
}

-- The call has taken the lock, and has not released it.
abbrev pub has_lock : Stage → Bool
has_lock holding = true
has_lock logging = true
has_lock (storing token) = true
has_lock (releasing result) = true
has_lock _ = false

-- The lock that the owner took at the instant.
abbrev taken : String → ℕ → Option (String × ℕ)
taken owner at = some (owner, at + lock_seconds)

held-taken : (o : String) (at now : ℕ) → now < at + lock_seconds → held now (taken o at) ≡ some o
unfolding held
held-taken o at now live = ground (arith, live)

module _ (cipher : Cipher) where
  -- Who has taken the lock, and lately, is written in it.
  abbrev Owned : System → Type 0
  Owned s =
      (o : String)
      → has_lock (s.stage_of o) ≡ true
      → s.now < s.tried_at o + lock_seconds
      → s.redis.lock ≡ taken o (s.tried_at o)

  after_look-finished :
      (c : Cached) (next : Stage)
      → has_lock next ≡ false
      → has_lock (after_look cipher c finished next) ≡ false
  unfolding after_look
  after_look-finished failed next h = refl
  after_look-finished missing next h = h
  after_look-finished (found token) next h = refl

  -- The lock and the stage after a step, where the call comes to have the lock or keeps it.
  abbrev Own : String → ℕ → Stage × Redis → Type 0
  Own o at q = has_lock q.0 ≡ true → q.1.lock ≡ taken o at

  try_lock-Own :
      (o : String) (now : ℕ) (lock : Option String) (redis : Redis)
      → Own o now (try_lock cipher o now lock redis)
  unfolding try_lock
  try_lock-Own o now none redis has = refl
  try_lock-Own o now (some other) redis has = absurd (ground (arith, has))

  lock-store :
      (answers : Bool) (token : String) (encrypted : Option String) (redis : Redis)
      → (store cipher answers token encrypted redis).1.lock ≡ redis.lock
  unfolding store
  lock-store answers token none redis = refl
  lock-store true token (some e) redis = refl
  lock-store false token (some e) redis = refl

  if_trying : (b : Bool) → has_lock (if b then trying else finished none) ≡ false
  if_trying true = refl
  if_trying false = refl

  -- `at` is when the call last asked for the lock, the step included.
  step-Own :
      (a : Answer) (now : ℕ) (o : String) (stage : Stage) (redis : Redis) (at : ℕ)
      → (is_trying stage ≡ true → at ≡ now)
      → Own o at (stage, redis)
      → Own o at (step cipher a now o stage redis)
  unfolding step is_trying
  step-Own a now o starting redis at tried own has =
      absurd (ground (arith, has, after_look-finished (cached cipher a redis.cache) trying refl))
  step-Own a now o trying redis at tried own has = elim (Bool-cases a.redis_answers) [
    | inl up ↦
        let same : step cipher a now o trying redis
            ≡ try_lock cipher o now (held now redis.lock) redis =
          rw (step, up) in
        subst (λ i. Own o i (step cipher a now o trying redis)) (sym (tried refl))
          (subst (Own o now) (sym same) (try_lock-Own o now (held now redis.lock) redis)) has
    | inr down ↦
        let same : step cipher a now o trying redis ≡ (finished none, redis) = rw (step, down) in
        absurd (ground (arith, has, ap (λ q. has_lock q.0) same))
  ]
  step-Own a now o waiting redis at tried own has = absurd (
      ground (
        arith,
        has,
        after_look-finished (cached cipher a redis.cache) (if a.live then trying else finished none)
            (if_trying a.live),
      ))
  step-Own a now o holding redis at tried own has = own refl
  step-Own a now o logging redis at tried own has = own refl
  step-Own a now o (storing token) redis at tried own has =
      lock-store a.redis_answers token (cipher.encrypt token) redis ∙ own refl
  step-Own a now o (releasing result) redis at tried own has = absurd (ground (arith, has))
  step-Own a now o (finished result) redis at tried own has = absurd (ground (arith, has))

  -- The live lock of another call stays.
  module _ (now : ℕ) (o x : String) (at : ℕ) (other : str_eq x o ≡ false)
      (live : now < at + lock_seconds) where
    abbrev Kept : Redis → Type 0
    Kept redis = redis.lock ≡ taken x at

    Kept-held : (redis : Redis) → Kept redis → held now redis.lock ≡ some x
    Kept-held redis kept = ap (held now) kept ∙ held-taken x at now live

    try_lock-Kept :
        (lock : Option String) (redis : Redis)
        → lock ≡ some x
        → Kept redis
        → Kept (try_lock cipher o now lock redis).1
    unfolding try_lock
    try_lock-Kept none redis is kept = absurd (ground (arith, is))
    try_lock-Kept (some y) redis is kept = kept

    delete_lock-Kept :
        (lock : Option (String × ℕ)) → held now lock ≡ some x → delete_lock cipher now o lock ≡ lock
    unfolding delete_lock delete_if
    delete_lock-Kept lock is = ground (arith, is, other)

    release_lock-Kept :
        (answers : Bool) (redis : Redis)
        → Kept redis
        → Kept (release_lock cipher answers now o redis)
    unfolding release_lock
    release_lock-Kept true redis kept = delete_lock-Kept redis.lock (Kept-held redis kept) ∙ kept
    release_lock-Kept false redis kept = kept

    step-Kept :
        (a : Answer) (stage : Stage) (redis : Redis)
        → Kept redis
        → Kept (step cipher a now o stage redis).1
    unfolding step
    step-Kept a starting redis kept = kept
    step-Kept a trying redis kept = elim (Bool-cases a.redis_answers) [
      | inl up ↦
          let same : step cipher a now o trying redis
              ≡ try_lock cipher o now (held now redis.lock) redis =
            rw (step, up) in
          subst (λ q. Kept q.1) (sym same)
            (try_lock-Kept (held now redis.lock) redis (Kept-held redis kept) kept)
      | inr down ↦
          let same : step cipher a now o trying redis ≡ (finished none, redis) = rw (step, down) in
          subst (λ q. Kept q.1) (sym same) kept
    ]
    step-Kept a waiting redis kept = kept
    step-Kept a holding redis kept = kept
    step-Kept a logging redis kept = kept
    step-Kept a (storing token) redis kept =
        lock-store a.redis_answers token (cipher.encrypt token) redis ∙ kept
    step-Kept a (releasing result) redis kept = release_lock-Kept a.redis_answers redis kept
    step-Kept a (finished result) redis kept = kept

  lock-delete_cached :
      (read : Option String) (redis : Redis) → (delete_cached cipher read redis).lock ≡ redis.lock
  unfolding delete_cached
  lock-delete_cached none redis = refl
  lock-delete_cached (some e) redis = refl

  has_lock-is_trying : (stage : Stage) → has_lock stage ≡ true → is_trying stage ≡ false
  unfolding is_trying
  has_lock-is_trying trying h = absurd (ground (arith, h))
  has_lock-is_trying starting h = refl
  has_lock-is_trying waiting h = refl
  has_lock-is_trying holding h = refl
  has_lock-is_trying logging h = refl
  has_lock-is_trying (storing token) h = refl
  has_lock-is_trying (releasing result) h = refl
  has_lock-is_trying (finished result) h = refl

  -- What `Owned` says of one call.
  abbrev OwnedBy : System → String → Type 0
  OwnedBy s o =
      has_lock (s.stage_of o) ≡ true
      → s.now < s.tried_at o + lock_seconds
      → s.redis.lock ≡ taken o (s.tried_at o)

  advance-OwnedBy :
      (s : System) (a : Answer) (owner : String)
      → OwnedBy s owner
      → str_eq owner owner ≡ true
      → OwnedBy (advance cipher a owner s) owner
  unfolding advance
  advance-OwnedBy s a owner owned this has live =
      let stage = s.stage_of owner in
      let at : ℕ = (advance cipher a owner s).tried_at owner in
      let at_is : (is_trying stage ≡ false) → at ≡ s.tried_at owner =
        λ calm. ground (arith, calm) in
      step-Own a s.now owner stage s.redis at (λ tries. ground (arith, this, tries))
        (λ mine.
          let same = at_is (has_lock-is_trying stage mine) in
          owned mine (subst (λ i. s.now < i + lock_seconds) same live)
          ∙ ap (taken owner) (sym same))
        (ground (arith, has, this))

  advance-Owned :
      (s : System) (a : Answer) (owner : String) → Owned s → Owned (advance cipher a owner s)
  unfolding advance
  advance-Owned s a owner owned o = elim (Bool-cases (str_eq o owner)) [
    | inl this ↦ subst (OwnedBy (advance cipher a owner s)) (sym ((eq_iff o owner).0 this)) (
        advance-OwnedBy s a owner (owned owner)
          (subst (λ x. str_eq x owner ≡ true) ((eq_iff o owner).0 this) this))
    | inr other ↦ λ has live.
        let still : (advance cipher a owner s).tried_at o ≡ s.tried_at o = ground (arith, other) in
        let late : s.now < s.tried_at o + lock_seconds =
          subst (λ i. s.now < i + lock_seconds) still live in
        step-Kept s.now owner o (s.tried_at o) other late a (s.stage_of owner) s.redis
          (owned o (ground (arith, has, other)) late)
        ∙ ap (taken o) (sym still)
  ]

  Reached-Owned : (s : System) → Reached cipher s → Owned s
  Reached-Owned _ (begun cache now) o has live = absurd (ground (arith, has))
  Reached-Owned _ (advanced s a owner r) o has live =
      advance-Owned s a owner (Reached-Owned s r) o has live
  Reached-Owned _ (invalidated s read r) o has live =
      lock-delete_cached read s.redis ∙ Reached-Owned s r o has live
  Reached-Owned _ (passed s seconds r) o has live = Reached-Owned s r o has (omega (arith, live))

  -- However the calls of `Login`, the deletions of `Invalidate` and the time between their steps
  -- interleave, and whatever redis and KTMB answer: if two calls have both taken the lock and not
  -- released it, so that both may be at KTMB, and one of them took it less than 90 seconds ago, then
  -- the other took it 90 seconds ago or more, and has lost it by its expiry.
  pub Reached-exclusive :
      (s : System) (o o' : String)
      → Reached cipher s
      → str_eq o o' ≡ false
      → has_lock (s.stage_of o) ≡ true
      → has_lock (s.stage_of o') ≡ true
      → s.now < s.tried_at o + 90
      → s.tried_at o' + 90 ≤ s.now
  Reached-exclusive s o o' r apart one two live =
      elim (Bool-cases (ltb s.now (s.tried_at o' + 90))) [
        | inr late ↦ ground arith
        | inl soon ↦
            let first = Reached-Owned s r o one live in
            let second = Reached-Owned s r o' two (ground arith) in
            let same : o ≡ o' = ground (arith, first, second) in
            absurd (ground (arith, apart, (eq_iff o o').1 same))
      ]
