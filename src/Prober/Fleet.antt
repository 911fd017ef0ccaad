-- ===== src/Prober/Fleet.antt =====
-- The Jobs of an epoch: the demanded slots, their shards, and `Spawn` (lib/prober/model.go,
-- lib/prober/spawner.go).
pub mod Shards
pub mod Announced
mod Tests
use nitroso_tin.Base.{
  ℕ, zero, suc, ◌+◌, ◌-◌, ◌*◌, ◌/◌, min, String, Bool, true, false, not, ◌||◌, ◌&&◌, Option, none,
  some, List, [], ◌∷◌, ◌++◌, length, take, drop, member, is_empty, ltb, leb, ◌==◌, if◌then◌else◌,
  str_eq, Result, ok, err,
}
use nitroso_tin.Counts.{Demand}
use nitroso_tin.Prober.Slot.{Target}

unfoldable pub demanded : List Demand → List Target
demanded [] = []
demanded (d ∷ ds) =
    let rest = demanded ds in
    if ltb 0 d.count
    then record { direction = d.direction; date = d.date; time = d.time; needed = d.count } ∷ rest
    else rest

-- `sorts` is sort.Slice with the order by date, direction and time.
unfoldable pub targets_from_count : (List Target → List Target) → List Demand → List Target
unfolding demanded
targets_from_count sorts counts = sorts (demanded counts)

module _ {A : Type 0} where
  -- `xs[start:stop]`.
  unfoldable pub slice : ℕ → ℕ → List A → List A
  slice start stop xs = take (stop - start) (drop start xs)

  -- The fuel counts the shards.
  unfoldable pub shards_from : ℕ → ℕ → ℕ → List A → List (List A)
  unfolding slice
  shards_from zero start size xs = []
  shards_from (suc fuel) start size xs =
      let rest = shards_from fuel (start + size) size xs in
      if ltb start (length xs) then slice start (min (start + size) (length xs)) xs ∷ rest else []

  -- A size below 1 stands as 0.
  unfoldable pub shard_targets : List A → ℕ → List (List A)
  unfolding shards_from
  shard_targets [] size = []
  shard_targets (x ∷ xs) size =
      if size == 0 || leb (length (x ∷ xs)) size
      then (x ∷ xs) ∷ []
      else shards_from (length (x ∷ xs)) 0 size (x ∷ xs)

unfoldable pub missing_jobs : List String → List String → List String
missing_jobs [] received = []
missing_jobs (name ∷ names) received =
    let rest = missing_jobs names received in if member name received then rest else name ∷ rest

-- A Job is named by its epoch, its shard and its place in the fan-out.
pub record JobName : Type 0 where
  pub epoch : ℕ
  pub shard : ℕ
  pub fanout : ℕ

pub data SpawnCall : Type 0 where
  get_counts recover_session : SpawnCall
  ensure : List Target → SpawnCall
  write_expected : List JobName → SpawnCall
  create : JobName → List Target → SpawnCall

pub data SpawnError : Type 0 where
  bad_config count_failed recover_failed ensure_failed expected_failed create_failed : SpawnError

-- A setting below 0 stands as 0; the clock is not before 1970.
pub record Fleet : Type 0 where
  pub epoch_minutes : ℕ
  pub job_minutes : ℕ
  pub slots_per_job : ℕ
  pub fanout : ℕ
  pub sorts : List Target → List Target
  -- No snapshot, or its entries.
  pub on_counts : List SpawnCall → Option (Option (List Demand))
  pub on_recover : List SpawnCall → Bool
  pub on_ensure : List SpawnCall → List Target → Bool
  pub on_expected : List SpawnCall → List JobName → Bool
  pub on_create : List SpawnCall → JobName → List Target → Bool

-- The names of one shard, from one place of the fan-out on; `left` are the places left.
unfoldable pub names_of_shard : ℕ → ℕ → ℕ → ℕ → List JobName
names_of_shard epoch shard place zero = []
names_of_shard epoch shard place (suc left) =
    record { epoch = epoch; shard = shard; fanout = place }
    ∷ names_of_shard epoch shard (place + 1) left

unfoldable pub names_from : ℕ → ℕ → ℕ → List (List Target) → List JobName
unfolding names_of_shard
names_from epoch fanout shard [] = []
names_from epoch fanout shard (ts ∷ rest) =
    names_of_shard epoch shard 0 fanout ++ names_from epoch fanout (shard + 1) rest

module _ (fleet : Fleet) where
  -- Whether every creation succeeded, and the requests.
  abbrev pub Created : Type 0
  Created = Bool × List SpawnCall

  unfoldable pub create_shard : ℕ → ℕ → ℕ → ℕ → List Target → Created → Created
  create_shard epoch shard place zero ts done = done
  create_shard epoch shard place (suc left) ts (fine, h) =
      let name : JobName = record { epoch = epoch; shard = shard; fanout = place } in
      create_shard epoch shard (place + 1) left ts
        (fine && fleet.on_create h name ts, create name ts ∷ h)

  unfoldable pub create_from : ℕ → ℕ → List (List Target) → Created → Created
  unfolding create_shard
  create_from epoch shard [] done = done
  create_from epoch shard (ts ∷ rest) done =
      create_from epoch (shard + 1) rest (create_shard epoch shard 0 fleet.fanout ts done)

  abbrev pub Spawned : Type 0
  Spawned = Option SpawnError × List SpawnCall

  unfoldable pub joined_errors : Created → Spawned
  joined_errors (fine, h) = (if fine then none else some create_failed, h)

  unfoldable pub spawn_shards : ℕ → List (List Target) → List SpawnCall → Spawned
  unfolding joined_errors create_from names_from
  spawn_shards epoch shards h =
      let names = names_from epoch fleet.fanout 0 shards in
      let h1 = write_expected names ∷ h in
      if fleet.on_expected h names
      then joined_errors (create_from epoch 0 shards (true, h1))
      else (some expected_failed, h1)

  unfoldable pub spawn_targets : ℕ → List Target → List SpawnCall → Spawned
  unfolding spawn_shards shard_targets
  spawn_targets epoch [] h = (none, h)
  spawn_targets epoch (t ∷ ts) h =
      let h1 = recover_session ∷ h in
      let h2 = ensure (t ∷ ts) ∷ h1 in
      if not (fleet.on_recover h)
      then (some recover_failed, h1)
      else if not (fleet.on_ensure h1 (t ∷ ts))
      then (some ensure_failed, h2)
      else spawn_shards epoch (shard_targets (t ∷ ts) fleet.slots_per_job) h2

  unfoldable pub spawn_counts : ℕ → Option (Option (List Demand)) → List SpawnCall → Spawned
  unfolding spawn_targets targets_from_count
  spawn_counts epoch none h = (some count_failed, h)
  spawn_counts epoch (some none) h = (none, h)
  spawn_counts epoch (some (some counts)) h =
      spawn_targets epoch (targets_from_count fleet.sorts counts) h

  unfoldable pub bad_fleet : Bool
  bad_fleet =
      fleet.epoch_minutes * 60 == 0
      || (fleet.job_minutes == 0 || (fleet.slots_per_job == 0 || fleet.fanout == 0))

  -- `now` counts seconds. The tallies of an earlier epoch are only read and logged.
  unfoldable pub spawn : ℕ → List SpawnCall → Spawned
  unfolding spawn_counts bad_fleet
  spawn now h =
      if bad_fleet
      then (some bad_config, h)
      else spawn_counts (now / (fleet.epoch_minutes * 60)) (fleet.on_counts h) (get_counts ∷ h)
