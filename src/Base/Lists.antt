-- ===== src/Base/Lists.antt =====
-- Lists measured by native numbers, filters by Boolean tests, and predicates on lists.
use Prim.Native.Nat.{ℕ, zero, suc, ◌+◌, ◌≤◌, ◌<◌}
use mathlib.Core.Path.{◌≡◌, refl, sym, subst}
use mathlib.Core.Bool.{Bool, true, false, ◌&&◌, ◌||◌}
use mathlib.Core.Option.{Option, none, some}
use mathlib.Core.List.{List, [], ◌∷◌, ◌++◌}
use native.Mathlib.Omega.{arith}
use mathlib.Core.Logic.{◌↔◌, ◌⊎◌, inl, inr}
use routerbot.Base.Tests.{if◌then◌else◌, Bool-cases}

module _ {ℓ} {A : Type ℓ} where
  abbrev pub length : List A → ℕ
  length [] = 0
  length (x ∷ xs) = suc (length xs)

  abbrev pub get_elem? : List A → ℕ → Option A
  get_elem? [] i = none
  get_elem? (x ∷ xs) zero = some x
  get_elem? (x ∷ xs) (suc i) = get_elem? xs i

  -- `[x for x in xs if p(x)]`
  abbrev pub keep : (A → Bool) → List A → List A
  keep p [] = []
  keep p (x ∷ xs) = let rest = keep p xs in if p x then x ∷ rest else rest

  abbrev pub any : (A → Bool) → List A → Bool
  any p [] = false
  any p (x ∷ xs) = p x || any p xs

  abbrev pub all : (A → Bool) → List A → Bool
  all p [] = true
  all p (x ∷ xs) = p x && all p xs

  abbrev pub All {κ} : (A → Type κ) → List A → Type κ
  All P [] = Unit
  All P (x ∷ xs) = P x × All P xs

  pub List-cases : (xs : List A) → (xs ≡ []) ⊎ ((x : A) × (ys : List A) × (xs ≡ x ∷ ys))
  List-cases [] = inl refl
  List-cases (x ∷ xs) = inr (x, xs, refl)

  pub length-append : (xs ys : List A) → length (xs ++ ys) ≡ length xs + length ys
  length-append [] ys = omega arith
  length-append (x ∷ xs) ys = omega (arith, length-append xs ys)

  pub length-keep-le : (p : A → Bool) (xs : List A) → length (keep p xs) ≤ length xs
  length-keep-le p [] = omega arith
  length-keep-le p (x ∷ xs) = ground (arith, length-keep-le p xs)

  pub keep-append : (p : A → Bool) (xs ys : List A) → keep p (xs ++ ys) ≡ keep p xs ++ keep p ys
  keep-append p [] ys = refl
  keep-append p (x ∷ xs) ys = ground (arith, keep-append p xs ys)

  -- A filter that holds on a subset of another sees no difference after it.
  pub keep-keep :
      (p q : A → Bool)
      → ((a : A) → q a ≡ true → p a ≡ true)
      → (xs : List A) → keep q (keep p xs) ≡ keep q xs
  keep-keep p q h [] = refl
  keep-keep p q h (x ∷ xs) = ground (arith, keep-keep p q h xs, h x)

  pub keep-length_mono :
      (p q : A → Bool)
      → ((a : A) → q a ≡ true → p a ≡ true)
      → (xs : List A) → length (keep q xs) ≤ length (keep p xs)
  keep-length_mono p q h [] = omega arith
  keep-length_mono p q h (x ∷ xs) = ground (arith, keep-length_mono p q h xs, h x)

-- The item stands in the list.
abbrev pub In : {A : Type 0} → A → List A → Type 0
In a [] = ⊥
In a (x ∷ xs) = (a ≡ x) ⊎ In a xs

module _ {A : Type 0} where
  pub All-mono {κ μ} :
      {P : A → Type κ} {Q : A → Type μ} (xs : List A) → All P xs → ((a : A) → P a → Q a) → All Q xs
  All-mono [] h f = tt
  All-mono (x ∷ xs) h f = (f x h.0, All-mono xs h.1 f)

  pub All-keep {κ} : (P : A → Type κ) (p : A → Bool) (xs : List A) → All P xs → All P (keep p xs)
  All-keep P p [] h = tt
  All-keep P p (x ∷ xs) h = elim (Bool-cases (p x)) [
    | inl t ↦ rw t (h.0, All-keep P p xs h.1)
    | inr f ↦ rw f (All-keep P p xs h.1)
  ]

  pub All-append {κ} : (P : A → Type κ) (xs ys : List A) → All P xs → All P ys → All P (xs ++ ys)
  All-append P [] ys h k = k
  All-append P (x ∷ xs) ys h k = (h.0, All-append P xs ys h.1 k)

  pub In-All {κ} : (P : A → Type κ) (a : A) (xs : List A) → In a xs → All P xs → P a
  In-All P a [] m h = elim m [ ]
  In-All P a (x ∷ xs) (inl e) h = subst P (sym e) h.0
  In-All P a (x ∷ xs) (inr m) h = In-All P a xs m h.1

  pub All-of_keep {κ} :
      (P : A → Type κ) (p : A → Bool) (xs : List A)
      → All P (keep p xs)
      → All (λ a. p a ≡ true → P a) xs
  All-of_keep P p [] h = tt
  All-of_keep P p (x ∷ xs) h = elim (Bool-cases (p x)) [
    | inl t ↦ let h' = rw t at h in ((λ _. h'.0), All-of_keep P p xs h'.1)
    | inr f ↦ let h' = rw f at h in ((λ t. cc), All-of_keep P p xs h')
  ]

  pub In-keep : (p : A → Bool) (a : A) (xs : List A) → In a (keep p xs) → In a xs × (p a ≡ true)
  In-keep p a [] h = elim h [ ]
  In-keep p a (x ∷ xs) h = ground (arith, In-keep p a xs)

  -- A filter that loses an item of another is shorter.
  pub keep-length_lt :
      (p q : A → Bool)
      → ((a : A) → q a ≡ true → p a ≡ true)
      → (a : A) (xs : List A) → In a xs
      → p a ≡ true
      → q a ≡ false
      → length (keep q xs) < length (keep p xs)
  keep-length_lt p q h a [] m t f = elim m [ ]
  keep-length_lt p q h a (x ∷ xs) (inl e) t f =
      let t' = rw e at t in let f' = rw e at f in ground (arith, keep-length_mono p q h xs)
  keep-length_lt p q h a (x ∷ xs) (inr m) t f = ground (arith, keep-length_lt p q h a xs m t f, h x)

  pub In-append : (a : A) (xs ys : List A) → In a (xs ++ ys) ↔ (In a xs ⊎ In a ys)
  In-append a [] ys = (inr, λ s. elim s [ inl m ↦ elim m [ ] | inr m ↦ m ])
  In-append a (x ∷ xs) ys = ground (arith, In-append a xs ys)

  pub keep-pos : (p : A → Bool) (xs : List A) → any p xs ≡ true → 0 < length (keep p xs)
  keep-pos p [] h = cc
  keep-pos p (x ∷ xs) h = ground (arith, keep-pos p xs)

abbrev pub sum : List ℕ → ℕ
sum [] = 0
sum (x ∷ xs) = x + sum xs

pub sum-append : (xs ys : List ℕ) → sum (xs ++ ys) ≡ sum xs + sum ys
sum-append [] ys = omega arith
sum-append (x ∷ xs) ys = omega (arith, sum-append xs ys)
