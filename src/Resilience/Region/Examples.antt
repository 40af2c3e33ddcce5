-- ===== src/Resilience/Region/Examples.antt =====
-- The theorems on regions, at a provider in three of them, the nearest of which is not healthy.
use routerbot.Base.{
  ℕ, ◌+◌, ◌-◌, ◌≡◌, ◌⊎◌, has, refl, String, none, some, true, [], ◌∷◌, lookup, insert,
}
use routerbot.Resilience.Region.{
  Region, ProviderRegion, RegionRouter, init, mark_unhealthy, select_provider, failover, sorted_by,
  insert_by, rank_by_distance, distance, compute_distances, mark_first,
}
use routerbot.Resilience.Region.Best.{IsRegionOf, Serves, IsBest}
use routerbot.Resilience.Region.Choice.{select_provider-IsBest, IsFailover, failover-IsFailover}

abbrev apart : Region ℕ → Region ℕ → ℕ
apart a b = (a.coordinates - b.coordinates) + (b.coordinates - a.coordinates)

abbrev at : String → ProviderRegion
at region = record { provider = "gpt"; region = region; weight = 1; healthy = true }

abbrev router : RegionRouter ℕ
router =
    init apart
      (record { default_region = "eu"; failover_enabled = true; max_failover_distance_km = 5 })
      (record { name = "us"; coordinates = 10 }
        ∷ record { name = "eu"; coordinates = 4 }
        ∷ record { name = "ap"; coordinates = 1 }
        ∷ [])
      (at "us" ∷ at "eu" ∷ at "ap" ∷ [])

abbrev degraded : RegionRouter ℕ
degraded = mark_unhealthy "gpt" "eu" router

select_provider-IsBest_example :
    (region : String) × IsRegionOf "eu" none region
    × (((select_provider "gpt" none degraded ≡ none)
          × ((y : ProviderRegion) → ¬ Serves "gpt" degraded y))
        ⊎ ((c : ProviderRegion) × (select_provider "gpt" none degraded ≡ some c)
            × Serves "gpt" degraded c
            × ((y : ProviderRegion) → Serves "gpt" degraded y → IsBest degraded region c y)))
unfolding mark_unhealthy init
select_provider-IsBest_example = select_provider-IsBest "gpt" none degraded

failed_over : failover "gpt" "eu" none degraded ≡ some (at "ap")
unfolding failover mark_unhealthy mark_first init compute_distances rank_by_distance sorted_by
    insert_by distance lookup insert has
failed_over = refl

failover-IsFailover_example : IsFailover "gpt" "eu" none degraded (at "ap")
failover-IsFailover_example = failover-IsFailover "gpt" "eu" none degraded (at "ap") failed_over
