-- ===== src/Prober/Fleet/Shards.antt =====
-- The shards of the demanded slots put together again, and their sizes.
use nitroso_tin.Base.{
  ℕ, zero, suc, ◌+◌, ◌-◌, ◌≤◌, ◌<◌, min, ◌||◌, List, [], ◌∷◌, ◌++◌, ◌≡◌, refl, sym, subst, ap, ◌∙◌,
  inl, inr, arith, length, take, drop, take_append_drop, length-drop, length-take, drop_all,
  drop-add, append_nil, All, ltb, leb, ◌==◌, Bool-cases, dec_le,
}
use nitroso_tin.Prober.Fleet.{slice, shards_from, shard_targets}

module _ {A : Type 0} where
  abbrev pub concat : List (List A) → List A
  concat [] = []
  concat (s ∷ ss) = s ++ concat ss

  abbrev pub Sized : ℕ → List A → Type 0
  Sized size s = (1 ≤ length s) × (length s ≤ size)

  abbrev pub Partition : ℕ → List A → List (List A) → Type 0
  Partition size xs shards = (concat shards ≡ xs) × All (Sized size) shards

  slice-drop :
      (start size : ℕ) (xs : List A)
      → 1 ≤ size
      → start < length xs
      → (slice start (min (start + size) (length xs)) xs ++ drop (start + size) xs ≡ drop start xs)
        × Sized size (slice start (min (start + size) (length xs)) xs)
  unfolding slice
  slice-drop start size xs some_size more =
      let k = min (start + size) (length xs) - start in
      let rest = drop start xs in
      let left = length-drop start xs in
      let small : k ≤ length rest = ground (arith, left, more) in
      let long = length-take k rest small in
      let beyond : drop k rest ≡ drop (start + size) xs = elim (dec_le (start + size) (length xs)) [
        | yes inside ↦ ap (λ n. drop n rest) (omega arith) ∙ sym (drop-add start size xs)
        | no outside ↦
            drop_all k rest (omega (arith, left)) ∙ sym (drop_all (start + size) xs (omega arith))
      ] in
      (
        ap (λ ys. take k rest ++ ys) (sym beyond) ∙ take_append_drop k rest,
        (omega (arith, long), omega (arith, long)),
      )

  shards_from-Partition :
      (fuel start size : ℕ) (xs : List A)
      → 1 ≤ size
      → length xs ≤ start + fuel
      → Partition size (drop start xs) (shards_from fuel start size xs)
  unfolding shards_from
  shards_from-Partition zero start size xs some_size enough =
      (sym (drop_all start xs (omega arith)), tt)
  shards_from-Partition (suc fuel) start size xs some_size enough =
      let rest = shards_from-Partition fuel (start + size) size xs some_size (omega arith) in
      elim (Bool-cases (ltb start (length xs))) [
        | inr over ↦
            let same : shards_from (suc fuel) start size xs ≡ [] = rw (shards_from, over) in
            subst (Partition size (drop start xs)) (sym same)
              (sym (drop_all start xs (ground (arith, over))), tt)
        | inl more ↦
            let part = slice start (min (start + size) (length xs)) xs in
            let same : shards_from (suc fuel) start size xs
                ≡ part ∷ shards_from fuel (start + size) size xs =
              rw (shards_from, more) in
            let one = slice-drop start size xs some_size (ground (arith, more)) in
            subst (Partition size (drop start xs)) (sym same)
              (ap (λ ys. part ++ ys) rest.0 ∙ one.0, (one.1, rest.1))
      ]

  -- Sharding splits the targets without loss: the shards in a row are the targets in their order, and
  -- with a size of at least 1 each of them holds at least one target and at most as many as the size.
  pub shard_targets-Partition :
      (xs : List A) (size : ℕ) → 1 ≤ size → Partition size xs (shard_targets xs size)
  unfolding shard_targets
  shard_targets-Partition [] size some_size = (refl, tt)
  shard_targets-Partition (x ∷ xs) size some_size =
      elim (Bool-cases (size == 0 || leb (length (x ∷ xs)) size)) [
        | inl whole ↦
            let same : shard_targets (x ∷ xs) size ≡ (x ∷ xs) ∷ [] = rw (shard_targets, whole) in
            subst (Partition size (x ∷ xs)) (sym same)
              (append_nil (x ∷ xs), ((omega arith, ground (arith, whole)), tt))
        | inr many ↦
            let same : shard_targets (x ∷ xs) size ≡ shards_from (length (x ∷ xs)) 0 size (x ∷ xs) =
              rw (shard_targets, many) in
            subst (Partition size (x ∷ xs)) (sym same)
              (shards_from-Partition (length (x ∷ xs)) 0 size (x ∷ xs) some_size (omega arith))
      ]
