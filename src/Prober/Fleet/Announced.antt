-- ===== src/Prober/Fleet/Announced.antt =====
-- The Jobs that an epoch announces, and those that it creates.
use nitroso_tin.Base.{
  ℕ, zero, suc, ◌+◌, ◌*◌, ◌/◌, true, ◌&&◌, Option, none, some, List, [], ◌∷◌, ◌++◌, ◌≡◌, ◌⊎◌, refl,
  sym, subst, ap, ◌∙◌, inl, inr, Bool-cases, append_nil,
}
use nitroso_tin.Counts.{Demand}
use nitroso_tin.Prober.Slot.{Target}
use nitroso_tin.Prober.Fleet.{
  JobName, SpawnCall, get_counts, recover_session, ensure, write_expected, create, bad_config,
  recover_failed, ensure_failed, expected_failed, Fleet, names_of_shard, names_from, Created,
  create_shard, create_from, joined_errors, spawn_shards, spawn_targets, spawn_counts, bad_fleet,
  spawn, shard_targets, targets_from_count,
}

-- The Jobs created, in their order.
abbrev pub created : List SpawnCall → List JobName
created [] = []
created (create name ts ∷ h) = created h ++ (name ∷ [])
created (get_counts ∷ h) = created h
created (recover_session ∷ h) = created h
created (ensure ts ∷ h) = created h
created (write_expected names ∷ h) = created h

-- The Jobs announced last.
abbrev pub announced : List SpawnCall → List JobName
announced [] = []
announced (write_expected names ∷ h) = names
announced (create name ts ∷ h) = announced h
announced (get_counts ∷ h) = announced h
announced (recover_session ∷ h) = announced h
announced (ensure ts ∷ h) = announced h

append_assoc : {A : Type 0} (xs ys zs : List A) → (xs ++ ys) ++ zs ≡ xs ++ (ys ++ zs)
append_assoc [] ys zs = refl
append_assoc (x ∷ xs) ys zs = ap (λ t. x ∷ t) (append_assoc xs ys zs)

module _ (fleet : Fleet) where
  created-create_shard :
      (epoch shard place left : ℕ) (ts : List Target) (done : Created fleet)
      → (created (create_shard fleet epoch shard place left ts done).1
          ≡ created done.1 ++ names_of_shard epoch shard place left)
        × (announced (create_shard fleet epoch shard place left ts done).1 ≡ announced done.1)
  unfolding create_shard names_of_shard
  created-create_shard epoch shard place zero ts done = (sym (append_nil (created done.1)), refl)
  created-create_shard epoch shard place (suc left) ts (fine, h) =
      let name : JobName = record { epoch = epoch; shard = shard; fanout = place } in
      let rest =
        created-create_shard epoch shard (place + 1) left ts
          (fine && fleet.on_create h name ts, create name ts ∷ h) in
      (
        rest.0 ∙ append_assoc (created h) (name ∷ []) (names_of_shard epoch shard (place + 1) left),
        rest.1,
      )

  created-create_from :
      (epoch shard : ℕ) (shards : List (List Target)) (done : Created fleet)
      → (created (create_from fleet epoch shard shards done).1
          ≡ created done.1 ++ names_from epoch fleet.fanout shard shards)
        × (announced (create_from fleet epoch shard shards done).1 ≡ announced done.1)
  unfolding create_from names_from
  created-create_from epoch shard [] done = (sym (append_nil (created done.1)), refl)
  created-create_from epoch shard (ts ∷ rest) done =
      let one = created-create_shard epoch shard 0 fleet.fanout ts done in
      let next = create_shard fleet epoch shard 0 fleet.fanout ts done in
      let more = created-create_from epoch (shard + 1) rest next in
      let names = names_of_shard epoch shard 0 fleet.fanout in
      let others = names_from epoch fleet.fanout (shard + 1) rest in
      (
        more.0 ∙ ap (λ c. c ++ others) one.0 ∙ append_assoc (created done.1) names others,
        more.1 ∙ one.1,
      )

  -- Nothing is created, or what was announced is.
  abbrev pub AsAnnounced : List SpawnCall → Type 0
  AsAnnounced h = (created h ≡ []) ⊎ (created h ≡ announced h)

  joined_errors-AsAnnounced :
      (q : Created fleet) → created q.1 ≡ announced q.1 → AsAnnounced (joined_errors fleet q).1
  unfolding joined_errors
  joined_errors-AsAnnounced (fine, h) is = inr is

  spawn_shards-AsAnnounced :
      (epoch : ℕ) (shards : List (List Target)) (h : List SpawnCall)
      → created h ≡ []
      → AsAnnounced (spawn_shards fleet epoch shards h).1
  unfolding spawn_shards
  spawn_shards-AsAnnounced epoch shards h clean =
      let names = names_from epoch fleet.fanout 0 shards in
      let h1 : List SpawnCall = write_expected names ∷ h in
      elim (Bool-cases (fleet.on_expected h names)) [
        | inr refused ↦
            let same : spawn_shards fleet epoch shards h ≡ (some expected_failed, h1) =
              rw (spawn_shards, refused) in
            subst (λ q. AsAnnounced q.1) (sym same) (inl clean)
        | inl written ↦
            let all = created-create_from epoch 0 shards (true, h1) in
            let same : spawn_shards fleet epoch shards h
                ≡ joined_errors fleet (create_from fleet epoch 0 shards (true, h1)) =
              rw (spawn_shards, written) in
            subst (λ q. AsAnnounced q.1) (sym same)
              (joined_errors-AsAnnounced (create_from fleet epoch 0 shards (true, h1))
                (all.0 ∙ ap (λ c. c ++ names) clean ∙ sym all.1))
      ]

  spawn_targets-AsAnnounced :
      (epoch : ℕ) (ts : List Target) (h : List SpawnCall)
      → created h ≡ []
      → AsAnnounced (spawn_targets fleet epoch ts h).1
  unfolding spawn_targets
  spawn_targets-AsAnnounced epoch [] h clean = inl clean
  spawn_targets-AsAnnounced epoch (t ∷ ts) h clean =
      let h1 : List SpawnCall = recover_session ∷ h in
      let h2 : List SpawnCall = ensure (t ∷ ts) ∷ h1 in
      elim (Bool-cases (fleet.on_recover h)) [
        | inr lost ↦
            let same : spawn_targets fleet epoch (t ∷ ts) h ≡ (some recover_failed, h1) =
              rw (spawn_targets, lost) in
            subst (λ q. AsAnnounced q.1) (sym same) (inl clean)
        | inl fine ↦ elim (Bool-cases (fleet.on_ensure h1 (t ∷ ts))) [
          | inr unseeded ↦
              let same : spawn_targets fleet epoch (t ∷ ts) h ≡ (some ensure_failed, h2) =
                rw (spawn_targets, fine, unseeded) in
              subst (λ q. AsAnnounced q.1) (sym same) (inl clean)
          | inl seeded ↦
              let shards = shard_targets (t ∷ ts) fleet.slots_per_job in
              let same : spawn_targets fleet epoch (t ∷ ts) h ≡ spawn_shards fleet epoch shards h2 =
                rw (spawn_targets, fine, seeded) in
              subst (λ q. AsAnnounced q.1) (sym same)
                (spawn_shards-AsAnnounced epoch shards h2 clean)
        ]
      ]

  spawn_counts-AsAnnounced :
      (epoch : ℕ) (counts : Option (Option (List Demand))) (h : List SpawnCall)
      → created h ≡ []
      → AsAnnounced (spawn_counts fleet epoch counts h).1
  unfolding spawn_counts
  spawn_counts-AsAnnounced epoch none h clean = inl clean
  spawn_counts-AsAnnounced epoch (some none) h clean = inl clean
  spawn_counts-AsAnnounced epoch (some (some counts)) h clean =
      spawn_targets-AsAnnounced epoch (targets_from_count fleet.sorts counts) h clean

  -- From a history without Jobs, an epoch creates no Job, or it asks for exactly the Jobs that it has
  -- announced before, in the same order, even where some of the creations fail.
  pub spawn-AsAnnounced :
      (now : ℕ) (h : List SpawnCall) → created h ≡ [] → AsAnnounced (spawn fleet now h).1
  unfolding spawn
  spawn-AsAnnounced now h clean = elim (Bool-cases (bad_fleet fleet)) [
    | inl bad ↦
        let same : spawn fleet now h ≡ (some bad_config, h) = rw (spawn, bad) in
        subst (λ q. AsAnnounced q.1) (sym same) (inl clean)
    | inr good ↦
        let epoch = now / (fleet.epoch_minutes * 60) in
        let same : spawn fleet now h
            ≡ spawn_counts fleet epoch (fleet.on_counts h) (get_counts ∷ h) =
          rw (spawn, good) in
        subst (λ q. AsAnnounced q.1) (sym same)
          (spawn_counts-AsAnnounced epoch (fleet.on_counts h) (get_counts ∷ h) clean)
  ]
