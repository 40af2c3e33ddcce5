-- ===== src/Proxy/Guardrails/Ordering.antt =====
-- The guardrails stand in the order of their priorities, those of one priority in the order in which
-- they were registered.
use routerbot.Base.{
  ◌≡◌, refl, ap, Bool, true, false, not, [], ◌∷◌, ◌++◌, arith, ltb_ℤ, keep, All, All-mono, All-keep,
  All-append, Bool-cases, inl, inr, string_eq, ◌==◌,
}
use routerbot.Proxy.Guardrails.{
  BaseGuardrail, Guardrails, insert_sorted, sort_by_priority, register, unregister, Change, added,
  dropped, change,
}

module _ {C D X : Type 0} where
  -- No guardrail stands before one of a smaller priority.
  abbrev pub IsSorted : Guardrails C D X → Type 0
  IsSorted [] = Unit
  IsSorted (g ∷ gs) = All (λ h. ltb_ℤ h.priority g.priority ≡ false) gs × IsSorted gs

  abbrev up_to : BaseGuardrail C D X → Guardrails C D X → Guardrails C D X
  up_to g = keep (λ h. not (ltb_ℤ g.priority h.priority))

  abbrev beyond : BaseGuardrail C D X → Guardrails C D X → Guardrails C D X
  beyond g = keep (λ h. ltb_ℤ g.priority h.priority)

  insert_sorted-front :
      (g : BaseGuardrail C D X) (gs : Guardrails C D X)
      → All (λ h. ltb_ℤ h.priority g.priority ≡ false) gs
      → insert_sorted g gs ≡ g ∷ gs
  unfolding insert_sorted
  insert_sorted-front g [] a = refl
  insert_sorted-front g (h ∷ hs) a = rw a.0 refl

  sort-sorted : (gs : Guardrails C D X) → IsSorted gs → sort_by_priority gs ≡ gs
  unfolding sort_by_priority
  sort-sorted [] s = refl
  sort-sorted (g ∷ gs) s = rw (sort-sorted gs s.1) (insert_sorted-front g gs s.0)

  keep_all :
      (p : BaseGuardrail C D X → Bool) (gs : Guardrails C D X)
      → All (λ h. p h ≡ true) gs
      → keep p gs ≡ gs
  keep_all p [] a = refl
  keep_all p (g ∷ gs) a = rw a.0 (ap (λ hs. g ∷ hs) (keep_all p gs a.1))

  keep_none :
      (p : BaseGuardrail C D X → Bool) (gs : Guardrails C D X)
      → All (λ h. p h ≡ false) gs
      → keep p gs ≡ []
  keep_none p [] a = refl
  keep_none p (g ∷ gs) a = rw a.0 (keep_none p gs a.1)

  -- A guardrail that no other of the list goes before.
  abbrev Least : BaseGuardrail C D X → BaseGuardrail C D X → Type 0
  Least h x = ltb_ℤ x.priority h.priority ≡ false

  up_to-none :
      (g h : BaseGuardrail C D X) (hs : Guardrails C D X)
      → ltb_ℤ g.priority h.priority ≡ true
      → All (Least h) hs
      → up_to g hs ≡ []
  up_to-none g h hs t a =
      keep_none (λ x. not (ltb_ℤ g.priority x.priority)) hs
        (All-mono {P = Least h} hs a (λ x f. ground arith))

  insert_lem :
      (g h : BaseGuardrail C D X) (hs : Guardrails C D X)
      → All (Least h) hs
      → insert_sorted h (up_to g hs ++ g ∷ beyond g hs) ≡ up_to g (h ∷ hs) ++ g ∷ beyond g (h ∷ hs)
  insert_lem g h hs a =
      let above = All-keep (Least h) (λ x. ltb_ℤ g.priority x.priority) hs a in
      let below = All-keep (Least h) (λ x. not (ltb_ℤ g.priority x.priority)) hs a in
      elim (Bool-cases (ltb_ℤ g.priority h.priority)) [
        | inl t ↦ rw t (
            rw (up_to-none g h hs t a) (
              unfold insert_sorted in
              rw t (ap (λ xs. g ∷ xs) (insert_sorted-front h (beyond g hs) above))))
        | inr f ↦ rw f (
            insert_sorted-front h (up_to g hs ++ g ∷ beyond g hs)
              (All-append (Least h) (up_to g hs) (g ∷ beyond g hs) below (f, above)))
      ]

  sort_last :
      (g : BaseGuardrail C D X) (gs : Guardrails C D X)
      → IsSorted gs
      → sort_by_priority (gs ++ g ∷ []) ≡ up_to g gs ++ g ∷ beyond g gs
  unfolding sort_by_priority
  sort_last g [] s = unfold insert_sorted in refl
  sort_last g (h ∷ hs) s = rw (sort_last g hs s.1) (insert_lem g h hs s.0)

  -- A guardrail that is registered in a sorted list stands behind all whose priority is its own or
  -- smaller, and before all others, which keep their order.
  pub register_lem :
      (g : BaseGuardrail C D X) (gs : Guardrails C D X)
      → IsSorted gs
      → register g gs
        ≡ keep (λ h. not (ltb_ℤ g.priority h.priority)) gs
          ++ g ∷ keep (λ h. ltb_ℤ g.priority h.priority) gs
  unfolding register
  register_lem g gs s = sort_last g gs s

  keep-IsSorted :
      (p : BaseGuardrail C D X → Bool) (gs : Guardrails C D X) → IsSorted gs → IsSorted (keep p gs)
  keep-IsSorted p [] s = tt
  keep-IsSorted p (g ∷ gs) s = elim (Bool-cases (p g)) [
    | inl t ↦ rw t (All-keep (Least g) p gs s.0, keep-IsSorted p gs s.1)
    | inr f ↦ rw f (keep-IsSorted p gs s.1)
  ]

  insert_sorted-All :
      (P : BaseGuardrail C D X → Type 0) (g : BaseGuardrail C D X) (gs : Guardrails C D X)
      → P g
      → All P gs
      → All P (insert_sorted g gs)
  unfolding insert_sorted
  insert_sorted-All P g [] q a = (q, tt)
  insert_sorted-All P g (h ∷ hs) q a = elim (Bool-cases (ltb_ℤ h.priority g.priority)) [
    | inl t ↦ rw t (a.0, insert_sorted-All P g hs q a.1)
    | inr f ↦ rw f (q, a)
  ]

  insert_sorted-IsSorted :
      (g : BaseGuardrail C D X) (gs : Guardrails C D X)
      → IsSorted gs
      → IsSorted (insert_sorted g gs)
  unfolding insert_sorted
  insert_sorted-IsSorted g [] s = (tt, tt)
  insert_sorted-IsSorted g (h ∷ hs) s = elim (Bool-cases (ltb_ℤ h.priority g.priority)) [
    | inl t ↦
        rw t (insert_sorted-All (Least h) g hs (ground arith) s.0, insert_sorted-IsSorted g hs s.1)
    | inr f ↦ rw f ((f, All-mono {P = Least h} hs s.0 (λ x e. ground arith)), s)
  ]

  sort-IsSorted : (gs : Guardrails C D X) → IsSorted (sort_by_priority gs)
  unfolding sort_by_priority
  sort-IsSorted [] = tt
  sort-IsSorted (g ∷ gs) = insert_sorted-IsSorted g (sort_by_priority gs) (sort-IsSorted gs)

  -- Registering sorts by priority whatever was there, and unregistering keeps a sorted list sorted.
  pub change-IsSorted :
      (gs : Guardrails C D X) (c : Change C D X) → IsSorted gs → IsSorted (change gs c)
  unfolding change register unregister
  change-IsSorted gs (added g) s = sort-IsSorted (gs ++ g ∷ [])
  change-IsSorted gs (dropped name) s = keep-IsSorted (λ g. not (g.name == name)) gs s
