-- ===== src/Resilience/Region/Best.antt =====
-- What makes a deployment the best one for a region.
use routerbot.Base.{
  Bool-cases, has, lookup, ==-false, Option-cases, ℕ, ◌≡◌, ◌≢◌, ◌≤◌, ◌↔◌, eq_iff, ltb→le, refl, sym,
  ◌∙◌, ap, String, Option, none, some, Bool, true, false, List, [], ◌∷◌, arith, In, In-keep, inl,
  inr, if◌then◌else◌, keep, string_eq, ◌==◌,
}
use routerbot.Resilience.Region.{
  Region, ProviderRegion, RegionRouter, closer, distance, before, region_or, unknown, usable,
}
use routerbot.Resilience.Region.Ranking.{heavier}

-- The region that a request is served for: the client's, or by default where it has none.
abbrev pub IsRegionOf : String → Option String → String → Type 0
IsRegionOf default_region none region = region ≡ default_region
IsRegionOf default_region (some s) region =
    (s ≢ "" → region ≡ s) × (s ≡ "" → region ≡ default_region)

pub region_or-IsRegionOf :
    (default_region : String) (client_region : Option String)
    → IsRegionOf default_region client_region (region_or default_region client_region)
region_or-IsRegionOf d none = refl
region_or-IsRegionOf d (some s) = elim (Bool-cases (s == "")) [
  | inl t ↦ ((λ n. absurd (n ((eq_iff s "").0 t))), λ _. rw t refl)
  | inr f ↦ ((λ _. rw f refl), λ e. let z : true ≡ false = sym ((eq_iff s "").1 e) ∙ f in cc)
]

-- A distance is at most another; one that is not known is beyond all that are.
abbrev pub AtMost : Option ℕ → Option ℕ → Type 0
AtMost none none = Unit
AtMost none (some b) = ⊥
AtMost (some a) none = Unit
AtMost (some a) (some b) = a ≤ b

closer-AtMost : (d e : Option ℕ) → closer d e ≡ false → AtMost e d
closer-AtMost none none f = tt
closer-AtMost none (some b) f = tt
closer-AtMost (some a) none f = cc
closer-AtMost (some a) (some b) f = ltb→le a b f

closer_same : (d e : Option ℕ) → d ≡ e → closer e d ≡ false
closer_same none e h = rw (← h) refl
closer_same (some a) e h = rw (← h) (ground arith)

-- A healthy deployment of the provider.
abbrev pub Serves : {C : Type 0} → String → RegionRouter C → ProviderRegion → Type 0
Serves provider r pr = In pr r.provider_regions × (pr.provider ≡ provider) × (pr.healthy ≡ true)

In-kept :
    (p : ProviderRegion → Bool) (a : ProviderRegion) (xs : List ProviderRegion)
    → In a xs
    → p a ≡ true
    → In a (keep p xs)
In-kept p a [] m t = m
In-kept p a (x ∷ xs) (inl e) t = let t' : p x ≡ true = ap p (sym e) ∙ t in rw t' (inl e)
In-kept p a (x ∷ xs) (inr m) t = elim (Bool-cases (p x)) [
  | inl y ↦ rw y (inr (In-kept p a xs m t))
  | inr n ↦ rw n (In-kept p a xs m t)
]

pub usable-Serves :
    {C : Type 0} (provider : String) (r : RegionRouter C) (pr : ProviderRegion)
    → In pr (keep (usable provider) r.provider_regions) ↔ Serves provider r pr
usable-Serves provider r pr = (
  λ m.
      let (i, t) = In-keep (usable provider) pr r.provider_regions m in
      let p : (pr.provider == provider) ≡ true = ground arith in
      (i, (eq_iff pr.provider provider).0 p, ground arith),
  λ s.
      let p = (eq_iff pr.provider provider).1 s.1 in
      In-kept (usable provider) pr r.provider_regions s.0 (rw (p, s.2) refl),
)

-- A registered region.
abbrev pub IsKnown : {C : Type 0} → RegionRouter C → String → Type 0
IsKnown {C} r region = (region ≢ "") × (g : Region C) × (lookup region r.regions ≡ some g)

IsKnown-unknown :
    {C : Type 0} (r : RegionRouter C) (region : String)
    → IsKnown r region
    → unknown r region ≡ false
unfolding has
IsKnown-unknown r region (n, g, e) = ground (arith, ==-false region "" n, e)

unknown-IsKnown :
    {C : Type 0} (r : RegionRouter C) (region : String)
    → unknown r region ≡ false
    → IsKnown r region
unfolding has
unknown-IsKnown {C} r region f =
    let found : (g : Region C) × (lookup region r.regions ≡ some g) =
      elim (Option-cases (lookup region r.regions)) [
        | inr (g, e) ↦ (g, e)
        | inl e ↦ let z : ⊥ = ground (arith, e, f) in absurd z
      ] in
    (
      (λ e.
          let t : (region == "") ≡ true = (eq_iff region "").1 e in
          let z : true ≡ false = rw t at f in cc),
      found.0,
      found.1,
    )

-- What a selection for a region chooses: where the region is a known one, none is nearer to it, and
-- none as near has more weight; else none has more weight.
pub record IsBest {C : Type 0} (r : RegionRouter C) (region : String) (c y : ProviderRegion)
    : Type 0 where
  pub nearest : IsKnown r region → AtMost (distance r region c.region) (distance r region y.region)
  pub tie :
      IsKnown r region
      → distance r region c.region ≡ distance r region y.region
      → y.weight ≤ c.weight
  pub heaviest : ¬ IsKnown r region → y.weight ≤ c.weight

module _ {C : Type 0} (r : RegionRouter C) (region : String) (c y : ProviderRegion) where
  before-tie :
      before r region y c ≡ false
      → distance r region c.region ≡ distance r region y.region
      → y.weight ≤ c.weight
  before-tie f e =
      let d = distance r region y.region in
      let n = closer_same (distance r region y.region) (distance r region c.region) (sym e) in
      ltb→le c.weight y.weight (ground arith)

  pub IsBest-if :
      (b : Bool)
      → unknown r region ≡ b
      → (if b then heavier else before r region) y c ≡ false
      → IsBest r region c y
  IsBest-if true u f = record {
    nearest = λ k. let z : true ≡ false = sym u ∙ IsKnown-unknown r region k in cc;
    tie = λ k. let z : true ≡ false = sym u ∙ IsKnown-unknown r region k in cc;
    heaviest = λ _. ltb→le c.weight y.weight f;
  }
  IsBest-if false u f = record {
    nearest =
        λ _. closer-AtMost (distance r region y.region) (distance r region c.region) (ground arith);
    tie = λ _. before-tie f;
    heaviest = λ k. absurd (k (unknown-IsKnown r region u));
  }
