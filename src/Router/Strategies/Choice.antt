-- ===== src/Router/Strategies/Choice.antt =====
-- What each strategy chooses: always a deployment of the list, and the least by its own key.
use native.Mathlib.Nat.{mod-lt, le_of_mul-le-mul_right, mul-le-mul_right, pow-suc}
use routerbot.Base.{
  ℕ, zero, suc, ◌*◌, ◌^◌, ◌≤◌, ◌<◌, ◌≡◌, refl, inl, inr, some, Bool, true, false, List, [], ◌∷◌, In,
  In-keep, All-mono, All-of_keep, keep-pos, some_inj, arith, if◌then◌else◌, length, get_elem?, All,
  keep, Bool-cases, any, ap, In, subst, In-keep, All-mono, All-of_keep, keep-pos, some_inj,
}
use routerbot.Router.Deployment.{Deployment, lt_latency}
use routerbot.Router.Strategies.{
  Random, Strategy, round_robin, least_connections, latency_based, cost_based, weighted, min_by,
  select, fewer_requests, lower_latency, cheaper, has_cost, weights, cheapest,
}

-- A strict order whose negation is transitive, such as comparison by a key.
pub record IsWeakOrder {A : Type 0} (lt : A → A → Bool) : Type 0 where
  pub asym : (a b : A) → lt a b ≡ true → lt b a ≡ false
  pub neg_trans : (a b c : A) → lt a b ≡ false → lt b c ≡ false → lt a c ≡ false

module _ {A : Type 0} (lt : A → A → Bool) where
  pub min_by-In : (b : A) (xs : List A) → In (min_by lt b xs) (b ∷ xs)
  unfolding min_by
  min_by-In b [] = inl refl
  min_by-In b (x ∷ xs) = ground (arith, min_by-In (if lt x b then x else b) xs)

  irreflexive : IsWeakOrder lt → (a : A) → lt a a ≡ false
  irreflexive o a = elim (Bool-cases (lt a a)) [ inl t ↦ o.asym a a t | inr f ↦ f ]

  -- What does not beat the winner of a duel is not beaten: both duellists lose to it or tie.
  duel :
      (o : IsWeakOrder lt) (b x r : A)
      → lt (if lt x b then x else b) r ≡ false
      → (lt b r ≡ false) × (lt x r ≡ false)
  duel o b x r h = elim (Bool-cases (lt x b)) [
    | inl t ↦ let h' : lt x r ≡ false = rw t at h in (o.neg_trans b x r (o.asym x b t) h', h')
    | inr f ↦ let h' : lt b r ≡ false = rw f at h in (h', o.neg_trans x b r f h')
  ]

  pub min_by_least :
      (b : A) (xs : List A) → IsWeakOrder lt → All (λ y. lt y (min_by lt b xs) ≡ false) (b ∷ xs)
  unfolding min_by
  min_by_least b [] o = (irreflexive o b, tt)
  min_by_least b (x ∷ xs) o =
      let (h, rest) = min_by_least (if lt x b then x else b) xs o in
      let (hb, hx) = duel o b x _ h in (hb, (hx, rest))

fewer_requests-IsWeakOrder : IsWeakOrder fewer_requests
fewer_requests-IsWeakOrder = record {
  asym = λ a b h. ground arith;
  neg_trans = λ a b c h k. ground arith;
}

cheaper-IsWeakOrder : IsWeakOrder cheaper
cheaper-IsWeakOrder = record { asym = λ a b h. ground arith; neg_trans = λ a b c h k. ground arith }

-- Fractions are compared by cross multiplication.
cross_trans : (a b c x y z : ℕ) → 0 < y → b * x ≤ a * y → c * y ≤ b * z → c * x ≤ a * z
cross_trans a b c x y z h p q =
    le_of_mul-le-mul_right (omega (arith, mul-le-mul_right x q, mul-le-mul_right z p)) h

pow_pos : (n : ℕ) → 0 < 5 ^ n
pow_pos zero = omega arith
pow_pos (suc n) = rw pow-suc (omega (arith, pow_pos n))

lt_latency-IsWeakOrder : IsWeakOrder lt_latency
lt_latency-IsWeakOrder = record {
  asym = λ a b h. ground arith;
  neg_trans = λ a b c h k.
      ground
        (arith, cross_trans a.num b.num c.num (5 ^ a.exp) (5 ^ b.exp) (5 ^ c.exp) (pow_pos b.exp));
}

lower_latency-IsWeakOrder : IsWeakOrder lower_latency
lower_latency-IsWeakOrder = record {
  asym = λ a b h. ground (arith, lt_latency-IsWeakOrder.asym a.avg_latency_ms b.avg_latency_ms);
  neg_trans = λ a b c h k.
      ground (
        arith,
        lt_latency-IsWeakOrder.neg_trans a.avg_latency_ms b.avg_latency_ms c.avg_latency_ms,
      );
}

-- The documented range of the draws.
pub record IsRandom (r : Random) : Type 0 where
  pub choice_range : (n : ℕ) → 0 < n → r.choice n < n
  pub choices_range : (ws : List ℕ) → 0 < length ws → r.choices ws < length ws

In-get_elem? :
    {A : Type 0} (xs : List A) (i : ℕ)
    → i < length xs
    → (a : A) × (get_elem? xs i ≡ some a) × In a xs
In-get_elem? [] i h = elim h [ ]
In-get_elem? (x ∷ xs) zero h = (x, refl, inl refl)
In-get_elem? (x ∷ xs) (suc i) h = let (a, e, m) = In-get_elem? xs i (omega arith) in (a, e, inr m)

length-weights : (ds : List Deployment) → length (weights ds) ≡ length ds
length-weights [] = refl
length-weights (d ∷ ds) = ap suc (length-weights ds)

cheapest-In :
    (r : Random) (ds cs : List Deployment)
    → IsRandom r
    → 0 < length ds
    → ((a : Deployment) → In a cs → In a ds)
    → (a : Deployment) × (cheapest r ds cs ≡ some a) × In a ds
cheapest-In r ds [] v h sub = In-get_elem? ds _ (v.choice_range (length ds) h)
cheapest-In r ds (c ∷ cs) v h sub = (_, refl, sub _ (min_by-In cheaper c cs))

-- Every strategy answers on every list that is not empty, with a deployment of the list.
pub select-In :
    (s : Strategy) (r : Random) (ds : List Deployment)
    → IsRandom r
    → 0 < length ds
    → (a : Deployment) × ((select s r ds).0 ≡ some a) × In a ds
unfolding select
select-In s r [] v h = elim h [ ]
select-In (round_robin n) r (d ∷ ds) v h = In-get_elem? (d ∷ ds) _ (mod-lt n (omega arith))
select-In least_connections r (d ∷ ds) v h = (_, refl, min_by-In fewer_requests d ds)
select-In latency_based r (d ∷ ds) v h = (_, refl, min_by-In lower_latency d ds)
select-In cost_based r (d ∷ ds) v h =
    cheapest-In r (d ∷ ds) _ v h λ a m. (In-keep has_cost a (d ∷ ds) m).0
select-In weighted r (d ∷ ds) v h = In-get_elem? (d ∷ ds) _ (
    let e = length-weights (d ∷ ds) in
    let k = v.choices_range (weights (d ∷ ds)) (omega arith) in omega arith)

-- Least connections picks a deployment, and none of the list has fewer requests in flight.
pub least_connections_least :
    (r : Random) (ds : List Deployment) (a : Deployment)
    → (select least_connections r ds).0 ≡ some a
    → All (λ d. a.active_requests ≤ d.active_requests) ds
unfolding select
least_connections_least r [] a e = tt
least_connections_least r (d ∷ ds) a e =
    All-mono (d ∷ ds) (min_by_least fewer_requests d ds fewer_requests-IsWeakOrder)
      λ y h. ground arith

-- When the latency strategy picks a deployment with no latency on record, no deployment of the
-- list has one: a measured deployment always goes before an untested one.
pub latency_based_untested :
    (r : Random) (ds : List Deployment) (a : Deployment)
    → (select latency_based r ds).0 ≡ some a
    → a.avg_latency_ms.num ≡ 0
    → All (λ d. d.avg_latency_ms.num ≡ 0) ds
unfolding select
latency_based_untested r [] a e z = tt
latency_based_untested r (d ∷ ds) a e z =
    All-mono (d ∷ ds) (min_by_least lower_latency d ds lower_latency-IsWeakOrder)
      λ y h. ground arith

cheapest-least :
    (r : Random) (ds cs : List Deployment) (a : Deployment)
    → 0 < length cs
    → cheapest r ds cs ≡ some a
    → In a cs × All (λ d. cheaper d a ≡ false) cs
cheapest-least r ds [] a m e = elim m [ ]
cheapest-least r ds (c ∷ cs) a m e =
    subst (λ z. In z (c ∷ cs) × All (λ d. cheaper d z ≡ false) (c ∷ cs)) (some_inj e)
      (min_by-In cheaper c cs, min_by_least cheaper c cs cheaper-IsWeakOrder)

-- When some deployment has a known cost, the cost strategy picks one of known cost, and no
-- deployment of known cost is cheaper.
pub cost_based_cheapest :
    (r : Random) (ds : List Deployment) (a : Deployment)
    → (select cost_based r ds).0 ≡ some a
    → any has_cost ds ≡ true
    → (has_cost a ≡ true) × All (λ d. has_cost d ≡ true → cheaper d a ≡ false) ds
unfolding select
cost_based_cheapest r [] a e k = cc
cost_based_cheapest r (d ∷ ds) a e k =
    let m = keep-pos has_cost (d ∷ ds) k in
    let (known, least) = cheapest-least r (d ∷ ds) (keep has_cost (d ∷ ds)) a m e in
    (
      (In-keep has_cost a (d ∷ ds) known).1,
      All-of_keep (λ d. cheaper d a ≡ false) has_cost (d ∷ ds) least,
    )
