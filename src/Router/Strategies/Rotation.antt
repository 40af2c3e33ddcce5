-- ===== src/Router/Strategies/Rotation.antt =====
-- Round robin over an unchanging list: n calls serve the n deployments once each, in order.
use native.Mathlib.Nat.{mul-add-mod_self_left, mod-eq_of_lt}
use routerbot.Base.{
  ℕ, zero, suc, ◌+◌, ◌*◌, ◌%◌, ◌≡◌, refl, Option, some, List, [], ◌∷◌, ◌++◌, map, arith, length,
  get_elem?, ◌<◌, sym, ap, ap₂, ◌∙◌, append_assoc, length-append,
}
use routerbot.Router.Deployment.{Deployment}
use routerbot.Router.Strategies.{Random, Strategy, round_robin, select}

-- The choices of `k` calls in a row.
unfoldable pub selections : ℕ → Strategy → Random → List Deployment → List (Option Deployment)
selections zero s r ds = []
selections (suc k) s r ds = let (d, s') = select s r ds in d ∷ selections k s' r ds

select-round_robin :
    (n : ℕ) (r : Random) (ds : List Deployment)
    → 0 < length ds
    → select (round_robin n) r ds ≡ (get_elem? ds (n % length ds), round_robin (n + 1))
unfolding select
select-round_robin n r [] h = elim h [ ]
select-round_robin n r (d ∷ ds) h = refl

get_elem?-append :
    (xs : List Deployment) (y : Deployment) (ys : List Deployment)
    → get_elem? (xs ++ y ∷ ys) (length xs) ≡ some y
get_elem?-append [] y ys = refl
get_elem?-append (x ∷ xs) y ys = get_elem?-append xs y ys

-- In the middle of a round: `before` has been served, and `rest` is served next.
rest_of_round :
    (q : ℕ) (r : Random) (ds before rest : List Deployment)
    → ds ≡ before ++ rest
    → selections (length rest) (round_robin (length ds * q + length before)) r ds ≡ map some rest
unfolding selections
rest_of_round q r ds before [] e = refl
rest_of_round q r ds before (x ∷ rest) e =
    let n = length ds * q + length before in
    let size : length ds ≡ length before + suc (length rest) =
      ap length e ∙ length-append before (x ∷ rest) in
    let here : get_elem? ds (n % length ds) ≡ some x =
      rw
        (
          mul-add-mod_self_left (length ds) q (length before),
          mod-eq_of_lt {n = length before} {m = length ds} (omega arith),
          e,
        )
        (get_elem?-append before x rest) in
    let onward =
      rest_of_round q r ds (before ++ x ∷ []) rest (e ∙ sym (append_assoc before (x ∷ []) rest)) in
    let count : length ds * q + length (before ++ x ∷ []) ≡ n + 1 =
      omega (arith, length-append before (x ∷ [])) in
    rw (select-round_robin n r ds (omega arith)) (ap₂ ◌∷◌ here (rw count at onward))

-- From a counter at the start of a round, `length ds` calls serve every deployment once, in the
-- order of the list.
pub selections-round_robin :
    (q : ℕ) (r : Random) (ds : List Deployment)
    → selections (length ds) (round_robin (length ds * q)) r ds ≡ map some ds
selections-round_robin q r ds =
    let h = rest_of_round q r ds [] ds refl in
    let e : length ds * q + 0 ≡ length ds * q = omega arith in rw e at h
