-- ===== src/Session.antt =====
-- The shared session (lib/session/client.go): `Login` by several modules at once over one redis, with
-- its cached token and its lock, and `Invalidate`.
pub mod Exclusion
mod Tests
use nitroso_tin.Base.{
  ℕ, ◌+◌, ltb, String, Bool, true, false, ◌&&◌, Option, none, some, if◌then◌else◌, str_eq,
}

-- The two keys: the encrypted token, and the owner of the lock with the instant at which redis lets
-- the key expire. Instants are seconds of redis.
pub record Redis : Type 0 where
  pub cache : Option String
  pub lock : Option (String × ℕ)

-- Where a call of `Login` stands; a result of `none` is an error.
pub data Stage : Type 0 where
  starting trying waiting holding logging : Stage
  storing : String → Stage
  releasing finished : Option String → Stage

pub record Cipher : Type 0 where
  pub encrypt : String → Option String
  pub decrypt : String → Option String

-- What one step meets: whether redis answers, whether the context lasts, and the token of a KTMB
-- login that succeeds with `Status` true.
pub record Answer : Type 0 where
  pub redis_answers : Bool
  pub live : Bool
  pub on_login : Option String

pub data Cached : Type 0 where
  failed missing : Cached
  found : String → Cached

-- All the calls of `Login`, by their owners. `tried_at` is when a call last asked for the lock; the
-- code keeps no such record, and no step reads it.
pub record System : Type 0 where
  pub redis : Redis
  pub now : ℕ
  pub stage_of : String → Stage
  pub tried_at : String → ℕ

-- The expiry that `SetNX` gives the lock.
abbrev pub lock_seconds : ℕ
lock_seconds = 90

-- What the lock's key holds at the instant.
unfoldable pub held : ℕ → Option (String × ℕ) → Option String
held now none = none
held now (some (owner, expires)) = if ltb now expires then some owner else none

pub is_trying : Stage → Bool
is_trying trying = true
is_trying _ = false

module _ (cipher : Cipher) where
  unfoldable pub decrypted : Option String → Cached
  decrypted none = failed
  decrypted (some token) = found token

  unfoldable pub cached : Answer → Option String → Cached
  unfolding decrypted
  cached a none = if a.redis_answers then missing else failed
  cached a (some encrypted) =
      if a.redis_answers then decrypted (cipher.decrypt encrypted) else failed

  -- After a look into the cache: what ends the call, or what it does next.
  unfoldable pub after_look : Cached → (Option String → Stage) → Stage → Stage
  after_look failed ends next = ends none
  after_look (found token) ends next = ends (some token)
  after_look missing ends next = next

  -- `SetNX` of the lock, with its expiry; the option is what the key holds.
  unfoldable pub try_lock : String → ℕ → Option String → Redis → Stage × Redis
  try_lock owner now none redis =
      (holding, record redis { lock = some (owner, now + lock_seconds) })
  try_lock owner now (some other) redis = (waiting, redis)

  unfoldable pub logged_in : Option String → Stage
  logged_in none = releasing none
  logged_in (some token) = storing token

  unfoldable pub store : Bool → String → Option String → Redis → Stage × Redis
  store answers token none redis = (releasing none, redis)
  store answers token (some encrypted) redis =
      if answers
      then (releasing (some token), record redis { cache = some encrypted })
      else (releasing none, redis)

  -- The script of `releaseLock`, and of the deletion in `Invalidate`: one atomic step.
  unfoldable pub delete_if : String → Option String → Option String
  delete_if value none = none
  delete_if value (some held) = if str_eq held value then none else some held

  -- The same on the lock's key, which may have expired.
  unfoldable pub delete_lock : ℕ → String → Option (String × ℕ) → Option (String × ℕ)
  unfolding delete_if
  delete_lock now owner lock = elim (delete_if owner (held now lock)) [
    | none ↦ none
    | some other ↦ lock
  ]

  unfoldable pub release_lock : Bool → ℕ → String → Redis → Redis
  unfolding delete_lock
  release_lock answers now owner redis =
      if answers then record redis { lock = delete_lock now owner redis.lock } else redis

  -- One step of a call, which its owner, a fresh UUID, names.
  unfoldable pub step : Answer → ℕ → String → Stage → Redis → Stage × Redis
  unfolding cached after_look try_lock logged_in store release_lock
  step a now owner starting redis = (after_look (cached a redis.cache) finished trying, redis)
  step a now owner trying redis =
      if a.redis_answers
      then try_lock owner now (held now redis.lock) redis
      else (finished none, redis)
  step a now owner waiting redis =
      (after_look (cached a redis.cache) finished (if a.live then trying else finished none), redis)
  step a now owner holding redis = (after_look (cached a redis.cache) releasing logging, redis)
  step a now owner logging redis = (logged_in a.on_login, redis)
  step a now owner (storing token) redis = store a.redis_answers token (cipher.encrypt token) redis
  step a now owner (releasing result) redis =
      (finished result, release_lock a.redis_answers now owner redis)
  step a now owner (finished result) redis = (finished result, redis)

  -- What `Invalidate` compares with, once it has read the cache: nothing, if the cache cannot be read
  -- or holds another token.
  unfoldable pub to_delete : Answer → String → Option String → Option String
  to_delete a token none = none
  to_delete a token (some encrypted) = elim (cipher.decrypt encrypted) [
    | none ↦ none
    | some current ↦ if a.redis_answers && str_eq current token then some encrypted else none
  ]

  unfoldable pub delete_cached : Option String → Redis → Redis
  unfolding delete_if
  delete_cached none redis = redis
  delete_cached (some encrypted) redis = record redis { cache = delete_if encrypted redis.cache }

  unfoldable pub advance : Answer → String → System → System
  unfolding step is_trying
  advance a owner s =
      let stage = s.stage_of owner in
      let next = step a s.now owner stage s.redis in
      record {
        redis = next.1;
        now = s.now;
        stage_of = λ o. if str_eq o owner then next.0 else s.stage_of o;
        tried_at = λ o. if str_eq o owner && is_trying stage then s.now else s.tried_at o;
      }

  -- An interleaving of calls of `Login`, of deletions by `Invalidate`, and of time that passes between
  -- their steps, in which the lock may expire under the call that has taken it.
  pub data Reached : System → Type 0 where
    begun :
        (cache : Option String) (now : ℕ)
        → Reached (record {
          redis = record { cache = cache; lock = none };
          now = now;
          stage_of = λ o. starting;
          tried_at = λ o. 0;
        })
    advanced : (s : System) (a : Answer) (owner : String) → Reached s → Reached (advance a owner s)
    invalidated :
        (s : System) (read : Option String)
        → Reached s
        → Reached (record s { redis = delete_cached read s.redis })
    passed : (s : System) (seconds : ℕ) → Reached s → Reached (record s { now = s.now + seconds })
