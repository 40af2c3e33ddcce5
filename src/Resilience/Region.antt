-- ===== src/Resilience/Region.antt =====
-- `RegionRouter` of src/routerbot/core/resilience/region.py, and its part of models.py. Distances and
-- weights are numbers of some unit; haversine on two regions, which is trigonometry on floats, is a
-- parameter, and an unknown distance, infinite in the code, is `none`.
pub mod Ranking
pub mod Best
pub mod Choice
mod Examples
use Prim.Native.Nat.{Ordering}
use Prim.Native.String.{compare}
use routerbot.Base.{
  ℕ, ◌≡◌, ◌↔◌, String, Option, none, some, Bool, true, false, not, ◌&&◌, ◌||◌, List, [], ◌∷◌, ◌++◌,
  map, keep, arith, eq_iff, if◌then◌else◌, ltb, leb, Dict, Eq, lookup, insert, has, values,
  string_eq, ◌==◌, get_or,
}

pub record Region (C : Type 0) : Type 0 where
  pub name : String
  pub coordinates : C

pub record ProviderRegion : Type 0 where
  pub provider : String
  pub region : String
  pub weight : ℕ
  pub healthy : Bool

pub record RegionRoutingConfig : Type 0 where
  pub default_region : String
  pub failover_enabled : Bool
  pub max_failover_distance_km : ℕ

abbrev pub pair_beq : String × String → String × String → Bool
pair_beq (a, b) (c, d) = (a == c) && (b == d)

pub pair_beq_iff : (p q : String × String) → (pair_beq p q ≡ true) ↔ (p ≡ q)
pair_beq_iff (a, b) (c, d) = ground (arith, eq_iff a c, eq_iff b d)

instance abbrev pub pair_eq : Eq (String × String)
pair_eq = record { beq = pair_beq; beq_iff = pair_beq_iff }

abbrev pub Distances : Type 0
Distances = Dict (String × String) ℕ

pub record RegionRouter (C : Type 0) : Type 0 where
  pub config : RegionRoutingConfig
  pub regions : Dict String (Region C)
  pub provider_regions : List ProviderRegion
  pub distances : Distances

-- (min(r1, r2), max(r1, r2))
abbrev pub ordered : String → String → String × String
ordered r1 r2 = elim (compare r2 r1) [ Ordering.lt ↦ (r2, r1) | _ ↦ (r1, r2) ]

module _ {C : Type 0} (haversine : Region C → Region C → ℕ) where
  -- The inner loop of _compute_distances.
  abbrev distances_from : Region C → List (Region C) → Distances → Distances
  distances_from a [] d = d
  distances_from a (b ∷ bs) d =
      distances_from a bs (insert (ordered a.name b.name) (haversine a b) d)

  unfoldable pub compute_distances : List (Region C) → Distances → Distances
  compute_distances [] d = d
  compute_distances (a ∷ rest) d = compute_distances rest (distances_from a rest d)

  abbrev by_name : List (Region C) → Dict String (Region C) → Dict String (Region C)
  by_name [] d = d
  by_name (r ∷ rs) d = by_name rs (insert r.name r d)

  -- RegionRouter.__init__, with the lists of its configuration.
  unfoldable pub init : RegionRoutingConfig → List (Region C) → List ProviderRegion → RegionRouter C
  unfolding compute_distances
  init config regions provider_regions =
      let names = by_name regions [] in
      record {
        config = config;
        regions = names;
        provider_regions = provider_regions;
        distances = compute_distances (values names) [];
      }

  unfoldable pub add_region : Region C → RegionRouter C → RegionRouter C
  unfolding compute_distances
  add_region region r =
      let names = insert region.name region r.regions in
      record r { regions = names; distances = compute_distances (values names) [] }

-- list.sort by a strict order: before the first that is not smaller.
unfoldable pub insert_by : {A : Type 0} → (A → A → Bool) → A → List A → List A
insert_by less x [] = x ∷ []
insert_by less x (y ∷ ys) = if less y x then y ∷ insert_by less x ys else x ∷ y ∷ ys

unfoldable pub sorted_by : {A : Type 0} → (A → A → Bool) → List A → List A
unfolding insert_by
sorted_by less [] = []
sorted_by less (x ∷ xs) = insert_by less x (sorted_by less xs)

abbrev pub first : {A : Type 0} → List A → Option A
first [] = none
first (x ∷ xs) = some x

-- max(xs, key=…): the first of the greatest.
abbrev pub heaviest : ProviderRegion → List ProviderRegion → ProviderRegion
heaviest best [] = best
heaviest best (c ∷ cs) = heaviest (if ltb best.weight c.weight then c else best) cs

abbrev pub heaviest_of : List ProviderRegion → Option ProviderRegion
heaviest_of [] = none
heaviest_of (c ∷ cs) = some (heaviest c cs)

-- a < b, where `none` is infinite
abbrev pub closer : Option ℕ → Option ℕ → Bool
closer none b = false
closer (some a) none = true
closer (some a) (some b) = ltb a b

abbrev pub within : ℕ → Option ℕ → Bool
within limit none = false
within limit (some a) = leb a limit

-- client_region or self.config.default_region
abbrev pub region_or : String → Option String → String
region_or default none = default
region_or default (some s) = if s == "" then default else s

abbrev pub usable : String → ProviderRegion → Bool
usable provider_name pr = (pr.provider == provider_name) && pr.healthy

-- The loop of mark_healthy and of mark_unhealthy: the first that fits.
unfoldable pub mark_first : Bool → String → String → List ProviderRegion → List ProviderRegion
mark_first healthy provider region [] = []
mark_first healthy provider region (pr ∷ prs) =
    let rest = pr ∷ mark_first healthy provider region prs in
    if (pr.provider == provider) && (pr.region == region)
    then record pr { healthy = healthy } ∷ prs
    else rest

module _ {C : Type 0} where
  unfoldable pub distance : RegionRouter C → String → String → Option ℕ
  distance r r1 r2 = if r1 == r2 then some 0 else lookup (ordered r1 r2) r.distances

  -- The order of the keys (distance, -weight).
  abbrev pub before : RegionRouter C → String → ProviderRegion → ProviderRegion → Bool
  before r from_region a b =
      let d = distance r from_region a.region in
      let e = distance r from_region b.region in
      closer d e || (not (closer e d) && ltb b.weight a.weight)

  unfoldable pub rank_by_distance :
      RegionRouter C → List ProviderRegion → String → List ProviderRegion
  unfolding sorted_by
  rank_by_distance r candidates from_region = sorted_by (before r from_region) candidates

  -- not region or region not in self._regions
  abbrev pub unknown : RegionRouter C → String → Bool
  unknown r region = (region == "") || not (has region r.regions)

  unfoldable pub select_provider : String → Option String → RegionRouter C → Option ProviderRegion
  unfolding rank_by_distance
  select_provider provider_name client_region r =
      let region = region_or r.config.default_region client_region in
      let candidates = keep (usable provider_name) r.provider_regions in
      if unknown r region
      then heaviest_of candidates
      else first (rank_by_distance r candidates region)

  abbrev near : RegionRouter C → String → List ProviderRegion → List ProviderRegion
  near r region ranked =
      if ltb 0 r.config.max_failover_distance_km
      then keep (λ pr. within r.config.max_failover_distance_km (distance r region pr.region))
          ranked
      else ranked

  unfoldable pub failover : String → String → Option String → RegionRouter C → Option ProviderRegion
  unfolding rank_by_distance
  failover provider_name failed_region client_region r =
      let region = region_or r.config.default_region client_region in
      let candidates =
        keep (λ pr. usable provider_name pr && not (pr.region == failed_region))
          r.provider_regions in
      if not r.config.failover_enabled
      then none
      else if unknown r region
      then heaviest_of candidates
      else first (near r region (rank_by_distance r candidates region))

  unfoldable pub mark_unhealthy : String → String → RegionRouter C → RegionRouter C
  unfolding mark_first
  mark_unhealthy provider region r = record r {
    provider_regions = mark_first false provider region r.provider_regions;
  }

  unfoldable pub mark_healthy : String → String → RegionRouter C → RegionRouter C
  unfolding mark_first
  mark_healthy provider region r = record r {
    provider_regions = mark_first true provider region r.provider_regions;
  }

  unfoldable pub add_provider_region : ProviderRegion → RegionRouter C → RegionRouter C
  add_provider_region pr r = record r { provider_regions = r.provider_regions ++ pr ∷ [] }

  unfoldable pub healthy_regions : String → RegionRouter C → List String
  healthy_regions provider r = map (λ pr. pr.region) (keep (usable provider) r.provider_regions)

  unfoldable pub all_providers_in_region : String → RegionRouter C → List ProviderRegion
  all_providers_in_region region r = keep (λ pr. pr.region == region) r.provider_regions
