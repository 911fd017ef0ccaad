-- ===== src/Prober/Fleet/Tests.antt =====
-- An epoch of three slots, in Jobs of two slots with a fan-out of two.
use nitroso_tin.Base.{String, ℕ, true, some, List, [], ◌∷◌, ◌≡◌, refl, arith, length}
use nitroso_tin.Counts.{Demand}
use nitroso_tin.Prober.Fleet.{Fleet, shard_targets, spawn}
use nitroso_tin.Prober.Fleet.Shards.{Partition, shard_targets-Partition}
use nitroso_tin.Prober.Fleet.Announced.{created, AsAnnounced, spawn-AsAnnounced}

abbrev demand : String → Demand
demand time = record { direction = "JToW"; date = "01-02-2030"; time = time; count = 1 }

abbrev fleet : Fleet
fleet = record {
  epoch_minutes = 5;
  job_minutes = 10;
  slots_per_job = 2;
  fanout = 2;
  sorts = λ ts. ts;
  on_counts = λ h. some (some (demand "10:00:00" ∷ demand "11:00:00" ∷ demand "12:00:00" ∷ []));
  on_recover = λ h. true;
  on_ensure = λ h ts. true;
  on_expected = λ h names. true;
  on_create = λ h name ts. true;
}

abbrev slots : List ℕ
slots = 1 ∷ 2 ∷ 3 ∷ []

shard_targets-Partition_example : Partition 2 slots (shard_targets slots 2)
shard_targets-Partition_example = shard_targets-Partition slots 2 (omega arith)

spawn-AsAnnounced_example : AsAnnounced fleet (spawn fleet 3_000 []).1
spawn-AsAnnounced_example = spawn-AsAnnounced fleet 3_000 [] refl

four_jobs : length (created (spawn fleet 3_000 []).1) ≡ 4
unfolding spawn
four_jobs = refl
