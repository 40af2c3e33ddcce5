-- ===== src/Base/Dicts.antt =====
-- Python's `dict`, in insertion order: an association list whose new keys go to the end.
use Prim.Native.String.{String}
use Prim.Native.Nat.{ℕ, ◌+◌}
use mathlib.Core.Path.{◌≡◌, refl, sym, subst}
use mathlib.Core.Logic.{◌≢◌, ◌↔◌, inl, inr}
use mathlib.Core.Bool.{Bool, true, false}
use mathlib.Core.Option.{Option, none, some}
use mathlib.Core.List.{List, [], ◌∷◌, map}
use native.Mathlib.Omega.{arith}
use text.Mathlib.Text.{◌==◌ as str_eq}
use text.Mathlib.TextEquality.{eq_iff}
use routerbot.Base.Tests.{if◌then◌else◌, Bool-cases, some_inj}
use routerbot.Base.Lists.{any, keep, In, length, All}

-- Equality of keys: `__eq__` on hashable values.
pub record Eq {ℓ} (K : Type ℓ) : Type ℓ where
  pub beq : K → K → Bool
  pub beq_iff : (a b : K) → (beq a b ≡ true) ↔ (a ≡ b)

infix 50 ◌==◌
abbrev pub ◌==◌ {ℓ} : {K : Type ℓ} ⦃e : Eq K⦄ → K → K → Bool
◌==◌ ⦃e⦄ = e.beq

instance abbrev pub string_eq : Eq String
string_eq = record { beq = str_eq; beq_iff = eq_iff }

abbrev pub Dict {ℓ} : Type 0 → Type ℓ → Type ℓ
Dict K V = List (K × V)

module _ {ℓ} {K : Type 0} {V : Type ℓ} where
  abbrev pub keys : Dict K V → List K
  keys = map (λ p. p.0)

  abbrev pub values : Dict K V → List V
  values = map (λ p. p.1)

  -- The sum of a number for each value.
  abbrev pub total : (V → ℕ) → Dict K V → ℕ
  total f [] = 0
  total f (p ∷ d) = f p.1 + total f d

  pub length-keys : (d : Dict K V) → length (keys d) ≡ length d
  length-keys [] = refl
  length-keys (p ∷ d) = omega (arith, length-keys d)

module _ {ℓ} {K : Type 0} ⦃e : Eq K⦄ {V : Type ℓ} where
  -- d.get(k)
  unfoldable pub lookup : K → Dict K V → Option V
  lookup k [] = none
  lookup k ((j, v) ∷ d) = if j == k then some v else lookup k d

  -- d[k] = v
  unfoldable pub insert : K → V → Dict K V → Dict K V
  insert k v [] = (k, v) ∷ []
  insert k v ((j, w) ∷ d) = if j == k then (j, v) ∷ d else (j, w) ∷ insert k v d

  -- d.pop(k, None), del d[k]
  unfoldable pub remove : K → Dict K V → Dict K V
  remove k [] = []
  remove k ((j, v) ∷ d) = let rest = remove k d in if j == k then rest else (j, v) ∷ rest

  -- k in d
  unfoldable pub has : K → Dict K V → Bool
  unfolding lookup
  has k d = elim (lookup k d) [ none ↦ false | some _ ↦ true ]

  pub lookup-insert :
      (k j : K) (v : V) (d : Dict K V)
      → lookup j (insert k v d) ≡ (if k == j then some v else lookup j d)
  unfolding lookup insert
  lookup-insert k j v [] = refl
  lookup-insert k j v ((i, w) ∷ d) =
      ground (arith, e.beq_iff k j, e.beq_iff i k, e.beq_iff i j, lookup-insert k j v d)

  pub lookup-nil : (k : K) → ◌≡◌ {A = Option V} (lookup k []) none
  unfolding lookup
  lookup-nil k = refl

  pub lookup-remove :
      (k j : K) (d : Dict K V) → lookup j (remove k d) ≡ (if k == j then none else lookup j d)
  unfolding lookup remove
  lookup-remove k j [] = ground arith
  lookup-remove k j ((i, w) ∷ d) =
      ground (arith, e.beq_iff k j, e.beq_iff i k, e.beq_iff i j, lookup-remove k j d)

module _ {K : Type 0} ⦃e : Eq K⦄ where
  pub ==-refl : (k : K) → (k == k) ≡ true
  ==-refl k = (e.beq_iff k k).1 refl

  pub ==-false : (k j : K) → k ≢ j → (k == j) ≡ false
  ==-false k j h = ground (arith, e.beq_iff k j)

-- a in xs
abbrev pub contains : {K : Type 0} ⦃e : Eq K⦄ → K → List K → Bool
contains a xs = any (λ x. x == a) xs

module _ {K : Type 0} ⦃e : Eq K⦄ where
  pub contains-In : (a : K) (xs : List K) → (contains a xs ≡ true) ↔ In a xs
  contains-In a [] = ground arith
  contains-In a (x ∷ xs) = ground (arith, contains-In a xs, e.beq_iff x a)

  pub lookup-keys {ℓ} :
      {V : Type ℓ} (k : K) (v : V) (d : Dict K V) → lookup k d ≡ some v → In k (keys d)
  unfolding lookup
  lookup-keys k v [] h = cc
  lookup-keys k v ((j, w) ∷ d) h = ground (arith, e.beq_iff j k, lookup-keys k v d)

abbrev pub at_key {ℓ} : {V : Type ℓ} → (V → Bool) → Option V → Bool
at_key p none = false
at_key p (some v) = p v

module _ {ℓ} {K : Type 0} ⦃e : Eq K⦄ {V : Type ℓ} where
  -- Every key stands once, as in a Python dictionary.
  abbrev pub Distinct : Dict K V → Type ℓ
  Distinct [] = Unit
  Distinct ((k, v) ∷ d) = (lookup k d ≡ none) × Distinct d

  pub insert-Distinct : (k : K) (v : V) (d : Dict K V) → Distinct d → Distinct (insert k v d)
  unfolding insert
  insert-Distinct k v [] h = (unfold lookup in refl, tt)
  insert-Distinct k v ((j, w) ∷ d) h =
      ground (arith, e.beq_iff k j, e.beq_iff j k, lookup-insert k j v d, insert-Distinct k v d h.1)

  pub remove-Distinct : (k : K) (d : Dict K V) → Distinct d → Distinct (remove k d)
  unfolding remove
  remove-Distinct k [] h = tt
  remove-Distinct k ((j, w) ∷ d) h = ground (arith, lookup-remove k j d, remove-Distinct k d h.1)

  -- A key is among those of the entries that pass a test exactly when its own value passes it.
  pub any-keep :
      (p : V → Bool) (j : K) (d : Dict K V)
      → Distinct d
      → any (λ i. i == j) (keys (keep (λ q. p q.1) d)) ≡ at_key p (lookup j d)
  unfolding lookup
  any-keep p j [] h = refl
  any-keep p j ((i, v) ∷ d) h = ground (arith, e.beq_iff i j, any-keep p j d h.1)

  pub lookup-insert_self : (k : K) (v : V) (d : Dict K V) → lookup k (insert k v d) ≡ some v
  lookup-insert_self k v d = rw (lookup-insert k k v d, ==-refl k) refl

  -- The second of two writes to a key is the one that counts.
  pub insert_twice : (k : K) (v w : V) (d : Dict K V) → insert k v (insert k w d) ≡ insert k v d
  unfolding insert
  insert_twice k v w [] = rw (==-refl k) refl
  insert_twice k v w ((j, u) ∷ d) = ground (arith, insert_twice k v w d)

  -- A predicate of all entries holds of the one that is found, and is kept by an entry that has it.
  pub lookup-All {κ} :
      (P : K × V → Type κ) (k : K) (v : V) (d : Dict K V) → lookup k d ≡ some v → All P d → P (k, v)
  unfolding lookup
  lookup-All P k v [] h a = cc
  lookup-All P k v ((j, w) ∷ d) h a = elim (Bool-cases (j == k)) [
    | inl t ↦
        let h' = rw t at h in
        subst (λ x. P (x, v)) ((e.beq_iff j k).0 t) (subst (λ x. P (j, x)) (some_inj h') a.0)
    | inr f ↦ lookup-All P k v d (rw f at h) a.1
  ]

  pub insert-All {κ} :
      (P : K × V → Type κ) (k : K) (v : V) (d : Dict K V)
      → P (k, v)
      → All P d
      → All P (insert k v d)
  unfolding insert
  insert-All P k v [] p a = (p, tt)
  insert-All P k v ((j, w) ∷ d) p a = elim (Bool-cases (j == k)) [
    | inl t ↦ rw t (subst (λ x. P (x, v)) (sym ((e.beq_iff j k).0 t)) p, a.1)
    | inr f ↦ rw f (a.0, insert-All P k v d p a.1)
  ]

  -- Writing a key changes a total by that key's share.
  pub total-insert :
      (f : V → ℕ) (k : K) (v w : V) (d : Dict K V)
      → lookup k d ≡ some w
      → total f (insert k v d) + f w ≡ total f d + f v
  unfolding lookup insert
  total-insert f k v w [] h = cc
  total-insert f k v w ((j, u) ∷ d) h = ground (arith, total-insert f k v w d)

  -- A new key adds its share.
  pub total-insert_new :
      (f : V → ℕ) (k : K) (v : V) (d : Dict K V)
      → lookup k d ≡ none
      → total f (insert k v d) ≡ total f d + f v
  unfolding lookup insert
  total-insert_new f k v [] h = omega arith
  total-insert_new f k v ((j, u) ∷ d) h = ground (arith, total-insert_new f k v d)
