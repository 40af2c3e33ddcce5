-- ===== src/Resilience/Region/Ranking.antt =====
-- The first of a sorted list, and the heaviest of a list.
use routerbot.Base.{
  ◌≡◌, refl, some, Bool, true, false, List, [], ◌∷◌, arith, All, All-mono, In, inl, inr,
  if◌then◌else◌, ltb, Bool-cases, some_inj,
}
use routerbot.Resilience.Region.{ProviderRegion, insert_by, sorted_by, first, heaviest}

-- Of two that are not ordered one way and the other, neither is; and not being smaller is
-- transitive.
pub record IsOrder {A : Type 0} (less : A → A → Bool) : Type 0 where
  pub asym : (a b : A) → less a b ≡ true → less b a ≡ false
  pub trans : (a b c : A) → less b a ≡ false → less c b ≡ false → less c a ≡ false
  pub irrefl : (a : A) → less a a ≡ false

-- An item of the list, before which none stands.
abbrev pub IsFirst : {A : Type 0} → (A → A → Bool) → A → List A → Type 0
IsFirst less h xs = In h xs × All (λ y. less y h ≡ false) xs

module _ {A : Type 0} (less : A → A → Bool) (order : IsOrder less) where
  IsFirst-if :
      (b : Bool) (x h : A) (xs : List A)
      → less h x ≡ b
      → IsFirst less h xs
      → IsFirst less (if b then h else x) (x ∷ xs)
  IsFirst-if true x h xs e (m, a) = (inr m, (order.asym h x e, a))
  IsFirst-if false x h xs e (m, a) = (
    inl refl,
    (order.irrefl x, All-mono {P = λ y. less y h ≡ false} xs a (λ y n. order.trans x h y e n)),
  )

  first-insert_by :
      (x h : A) (ys : List A)
      → first ys ≡ some h
      → first (insert_by less x ys) ≡ some (if less h x then h else x)
  unfolding insert_by
  first-insert_by x h [] e = cc
  first-insert_by x h (y ∷ ys) e = elim (Bool-cases (less y x)) [
    | inl t ↦ let s : y ≡ h = some_inj e in rw (← s) (rw t refl)
    | inr f ↦ let s : y ≡ h = some_inj e in rw (← s) (rw f refl)
  ]

  pub first-sorted_by :
      (x : A) (xs : List A)
      → (h : A) × (first (sorted_by less (x ∷ xs)) ≡ some h) × IsFirst less h (x ∷ xs)
  unfolding sorted_by
  first-sorted_by x [] = (x, unfold insert_by in refl, (inl refl, (order.irrefl x, tt)))
  first-sorted_by x (y ∷ ys) =
      let (h, e, m) = first-sorted_by y ys in
      (
        if less h x then h else x,
        first-insert_by x h (sorted_by less (y ∷ ys)) e,
        IsFirst-if (less h x) x h (y ∷ ys) refl m,
      )

-- The heavier comes first.
abbrev pub heavier : ProviderRegion → ProviderRegion → Bool
heavier a b = ltb b.weight a.weight

heaviest-if :
    (b : Bool) (h best c : ProviderRegion) (cs : List ProviderRegion)
    → ltb best.weight c.weight ≡ b
    → IsFirst heavier h ((if b then c else best) ∷ cs)
    → IsFirst heavier h (best ∷ c ∷ cs)
heaviest-if true h best c cs e (m, a) = (inr m, (ground (arith, a.0), a))
heaviest-if false h best c cs e (m, a) =
    (elim m [ inl e ↦ inl e | inr n ↦ inr (inr n) ], (a.0, (ground (arith, a.0), a.1)))

pub heaviest-IsFirst :
    (best : ProviderRegion) (cs : List ProviderRegion)
    → IsFirst heavier (heaviest best cs) (best ∷ cs)
heaviest-IsFirst best [] = (inl refl, (ground arith, tt))
heaviest-IsFirst best (c ∷ cs) =
    let b = ltb best.weight c.weight in
    heaviest-if b (heaviest best (c ∷ cs)) best c cs refl
      (heaviest-IsFirst (if b then c else best) cs)
