-- ===== src/Resilience/Region/Choice.antt =====
-- Which deployment is selected for a region, and which replaces one that failed.
use routerbot.Base.{
  ℕ, ◌<◌, ◌≡◌, ◌⊎◌, In-All, refl, sym, ◌∙◌, ap, String, Option, none, some, Bool, true, false, not,
  ◌&&◌, List, [], ◌∷◌, arith, In, In-keep, inl, inr, if◌then◌else◌, ltb, lt→ltb, keep, string_eq,
  ◌==◌, List-cases, some_inj, subst,
}
use routerbot.Resilience.Region.{
  ProviderRegion, RegionRouter, closer, within, distance, before, first, insert_by, sorted_by,
  heaviest_of, heaviest, region_or, unknown, usable, select_provider, failover,
}
use routerbot.Resilience.Region.Best.{
  IsRegionOf, region_or-IsRegionOf, Serves, usable-Serves, IsBest, IsBest-if,
}
use routerbot.Resilience.Region.Ranking.{
  IsOrder, IsFirst, first-sorted_by, heavier, heaviest-IsFirst,
}

closer_asym : (a b : Option ℕ) → closer a b ≡ true → closer b a ≡ false
closer_asym a b h = ground arith

closer_trans : (a b c : Option ℕ) → closer b a ≡ false → closer c b ≡ false → closer c a ≡ false
closer_trans a b c h k = ground arith

module _ {C : Type 0} (r : RegionRouter C) (region : String) where
  before-IsOrder : IsOrder (before r region)
  before-IsOrder = record {
    asym = λ a b h. ground arith;
    trans = λ a b c h k. ground arith;
    irrefl = λ a. ground arith;
  }

  -- By weight where the region is unknown, else by distance and then by weight.
  abbrev pub preferred : ProviderRegion → ProviderRegion → Bool
  preferred = if unknown r region then heavier else before r region

  chosen : List ProviderRegion → Option ProviderRegion
  chosen cs = if unknown r region then heaviest_of cs else first (sorted_by (before r region) cs)

  chosen_if :
      (b : Bool) (c : ProviderRegion) (cs : List ProviderRegion)
      → (h : ProviderRegion) × ((if b
            then heaviest_of (c ∷ cs)
            else first (sorted_by (before r region) (c ∷ cs)))
          ≡ some h)
        × IsFirst (if b then heavier else before r region) h (c ∷ cs)
  chosen_if true c cs = (heaviest c cs, refl, heaviest-IsFirst c cs)
  chosen_if false c cs = first-sorted_by (before r region) before-IsOrder c cs

  chosen-IsFirst :
      (c : ProviderRegion) (cs : List ProviderRegion)
      → (h : ProviderRegion) × (chosen (c ∷ cs) ≡ some h) × IsFirst preferred h (c ∷ cs)
  unfolding chosen
  chosen-IsFirst c cs = chosen_if (unknown r region) c cs

  chosen-empty : chosen [] ≡ none
  unfolding chosen sorted_by
  chosen-empty = ground arith

module _ {C : Type 0} (provider : String) (client_region : Option String) (r : RegionRouter C) where
  -- The region that counts, and the deployments to choose from.
  abbrev here : String
  here = region_or r.config.default_region client_region

  abbrev candidates : List ProviderRegion
  candidates = keep (usable provider) r.provider_regions

  select_provider-IsFirst :
      ((select_provider provider client_region r ≡ none) × (candidates ≡ []))
      ⊎ ((c : ProviderRegion) × (select_provider provider client_region r ≡ some c)
          × IsFirst (preferred r here) c candidates)
  unfolding select_provider chosen
  select_provider-IsFirst = elim (List-cases candidates) [
    | inl e ↦ inl (ap (chosen r here) e ∙ chosen-empty r here, e)
    | inr (c, cs, e) ↦
        let (h, s, f) = chosen-IsFirst r here c cs in
        inr (h, ap (chosen r here) e ∙ s, subst (IsFirst (preferred r here) h) (sym e) f)
  ]

  -- A request is served for the client's region, or for the default one where the client has none.
  -- If no healthy deployment of the provider is there, none is selected; else one of them is, and
  -- compared with every healthy deployment of the provider it is the best: where the region is
  -- a registered one, no other is nearer to it, and none as near has more weight; where it is not,
  -- none has more weight.
  pub select_provider-IsBest :
      (region : String) × IsRegionOf r.config.default_region client_region region
      × (((select_provider provider client_region r ≡ none)
            × ((y : ProviderRegion) → ¬ Serves provider r y))
          ⊎ ((c : ProviderRegion) × (select_provider provider client_region r ≡ some c)
              × Serves provider r c
              × ((y : ProviderRegion) → Serves provider r y → IsBest r region c y)))
  select_provider-IsBest = (
    here,
    region_or-IsRegionOf r.config.default_region client_region,
    elim select_provider-IsFirst [
      | inl (s, e) ↦ inl (s, λ y v. subst (In y) e ((usable-Serves provider r y).1 v))
      | inr (c, s, (m, a)) ↦ inr (
        c,
        s,
        (usable-Serves provider r c).0 m,
        λ y v. IsBest-if r here c y (unknown r here) refl (
            In-All (λ x. preferred r here x c ≡ false) y candidates
              ((usable-Serves provider r y).1 v) a),
      )
    ],
  )

In-insert_by :
    {A : Type 0} (less : A → A → Bool) (a x : A) (ys : List A)
    → In a (insert_by less x ys)
    → In a (x ∷ ys)
unfolding insert_by
In-insert_by less a x [] m = m
In-insert_by less a x (y ∷ ys) m = ground (arith, In-insert_by less a x ys)

In-sorted_by :
    {A : Type 0} (less : A → A → Bool) (a : A) (xs : List A) → In a (sorted_by less xs) → In a xs
unfolding sorted_by
In-sorted_by less a [] m = m
In-sorted_by less a (x ∷ xs) m = elim (In-insert_by less a x (sorted_by less xs) m) [
  | inl e ↦ inl e
  | inr n ↦ inr (In-sorted_by less a xs n)
]

In-first : {A : Type 0} (a : A) (xs : List A) → first xs ≡ some a → In a xs
In-first a [] e = cc
In-first a (x ∷ xs) e = inl (sym (some_inj e))

In-heaviest_of : (c : ProviderRegion) (cs : List ProviderRegion) → heaviest_of cs ≡ some c → In c cs
In-heaviest_of c [] e = cc
In-heaviest_of c (x ∷ xs) e = subst (λ y. In y (x ∷ xs)) (some_inj e) (heaviest-IsFirst x xs).0

module _ {C : Type 0} (provider failed_region : String) (client_region : Option String)
    (r : RegionRouter C) where
  abbrev pub home : String
  home = region_or r.config.default_region client_region

  abbrev limit : ℕ
  limit = r.config.max_failover_distance_km

  abbrev fallback : ProviderRegion → Bool
  fallback pr = usable provider pr && not (pr.region == failed_region)

  pub record IsFailover (c : ProviderRegion) : Type 0 where
    pub enabled : r.config.failover_enabled ≡ true
    pub deployed : In c r.provider_regions
    pub served : usable provider c ≡ true
    pub elsewhere : (c.region == failed_region) ≡ false
    pub reachable :
        unknown r home ≡ false
        → 0 < r.config.max_failover_distance_km
        → within r.config.max_failover_distance_km (distance r home c.region) ≡ true

  fallback-IsFailover :
      (c : ProviderRegion)
      → r.config.failover_enabled ≡ true
      → In c (keep fallback r.provider_regions)
      → (unknown r home ≡ false → 0 < limit → within limit (distance r home c.region) ≡ true)
      → IsFailover c
  fallback-IsFailover c on m near =
      let (i, t) = In-keep fallback c r.provider_regions m in
      record {
        enabled = on;
        deployed = i;
        served = ground arith;
        elsewhere = ground arith;
        reachable = near;
      }

  abbrev fallbacks : List ProviderRegion
  fallbacks = keep fallback r.provider_regions

  abbrev ranked : List ProviderRegion
  ranked = sorted_by (before r home) fallbacks

  abbrev is_near : ProviderRegion → Bool
  is_near pr = within limit (distance r home pr.region)

  answer-IsFailover :
      (enabled lost limited : Bool) (c : ProviderRegion)
      → r.config.failover_enabled ≡ enabled
      → unknown r home ≡ lost
      → ltb 0 limit ≡ limited
      → (if not enabled
          then none
          else if lost
          then heaviest_of fallbacks
          else first (if limited then keep is_near ranked else ranked))
        ≡ some c
      → IsFailover c
  answer-IsFailover false lost limited c on u l e = cc
  answer-IsFailover true true limited c on u l e =
      fallback-IsFailover c on (In-heaviest_of c fallbacks e)
        (λ k _. let z : true ≡ false = sym u ∙ k in cc)
  answer-IsFailover true false true c on u l e =
      let (m, w) = In-keep is_near c ranked (In-first c (keep is_near ranked) e) in
      fallback-IsFailover c on (In-sorted_by (before r home) c fallbacks m) (λ _ _. w)
  answer-IsFailover true false false c on u l e =
      fallback-IsFailover c on (In-sorted_by (before r home) c fallbacks (In-first c ranked e))
        (λ _ n. let z : true ≡ false = sym (lt→ltb 0 limit n) ∙ l in cc)

  -- What a failover answers with is a healthy deployment of the provider, outside the region that
  -- failed, and where the client's region is known and a distance is set, within that distance of
  -- it; and failover is enabled.
  pub failover-IsFailover :
      (c : ProviderRegion) → failover provider failed_region client_region r ≡ some c → IsFailover c
  unfolding failover
  failover-IsFailover c e =
      answer-IsFailover r.config.failover_enabled (unknown r home) (ltb 0 limit) c refl refl refl e
