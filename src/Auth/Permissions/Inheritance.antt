-- ===== src/Auth/Permissions/Inheritance.antt =====
-- What a set grants is what the sets that it inherits from list, cycles included.
use routerbot.Base.{
  ℕ, suc, ◌<◌, String, ◌≡◌, refl, some, true, false, List, [], ◌∷◌, ◌++◌, arith, inl, inr, ◌↔◌,
  contains, contains-In, string_eq, length, In, All, subst, Bool-cases,
}
use routerbot.Auth.Permissions.{
  Sets, resolve, resolve_permissions, check_sets, PermissionCheckResult, check_permission,
  first_granted, check_any_permission, first_denied, check_all_permissions,
}
use routerbot.Auth.Permissions.Resolution.{
  Inherits, self, parent, Grants, Expanded, resolve-Result, unvisited-le,
}

-- A resolution ends: with more fuel than there are permission sets it has a result, whatever the
-- sets inherit, from themselves included, and whatever has been visited.
pub resolve_total :
    (sets : Sets) (fuel : ℕ) (name : String) (visited : List String)
    → length sets < fuel
    → (r : List String × List String) × (resolve fuel sets name visited ≡ some r)
resolve_total sets fuel name visited h =
    let (perms, w, e, d) =
      resolve-Result sets fuel name visited (omega (arith, unvisited-le sets visited)) in
    ((perms, w), e)

reached :
    (sets : Sets) (perms w : List String)
    → ((s : String) → In s w → Expanded sets s perms w)
    → {a s : String} → Inherits sets a s
    → In a w
    → In s w
reached sets perms w x self m = m
reached sets perms w x (parent {a} {b} ps e i r) m =
    reached sets perms w x r ((x a m).parents ps e b i)

-- A set's resolved permissions are those that are listed by some set which it reaches through the
-- names it inherits from, itself included, and no others.
pub resolve_permissions-Grants :
    (sets : Sets) (name p : String) → In p (resolve_permissions sets name) ↔ Grants sets name p
unfolding resolve_permissions
resolve_permissions-Grants sets name p =
    let (perms, w, e, d) =
      resolve-Result sets (suc (length sets)) name [] (omega (arith, unvisited-le sets [])) in
    let x = λ (s : String) (m : In s w). elim (d.closed s m) as (λ _. Expanded sets s perms w) [
      | inl z ↦ elim z [ ]
      | inr y ↦ y
    ] in
    rw e (
      (λ m. elim (d.sound p m) [
        | inl z ↦ elim z [ ]
        | inr (s, inl i, g) ↦ subst (λ n. Grants sets n p) i g
        | inr (s, inr z, g) ↦ elim z [ ]
      ]),
      (λ g.
          let (s, ps, r, f, m) = g in
          (x s (reached sets perms w x r (d.visits name (inl refl)))).own ps f p m),
    )

-- Some of the user's sets grants the permission.
abbrev pub Granted : Sets → List String → String → Type 0
Granted sets user_sets p = (s : String) × In s user_sets × Grants sets s p

module _ (sets : Sets) where
  check_sets-Granted :
      (p : String) (checked user_sets : List String)
      → ((check_sets sets p checked user_sets).allowed ≡ true) ↔ Granted sets user_sets p
  unfolding check_sets
  check_sets-Granted p checked [] = ((λ h. cc), λ g. let (s, m, x) = g in elim m [ ])
  check_sets-Granted p checked (u ∷ us) =
      let ih = check_sets-Granted p (checked ++ u ∷ []) us in
      let own = resolve_permissions-Grants sets u p in
      let has = contains-In p (resolve_permissions sets u) in
      elim (Bool-cases (contains p (resolve_permissions sets u))) [
        | inl t ↦ rw t ((λ h. (u, inl refl, own.0 (has.0 t))), λ g. refl)
        | inr f ↦ rw f (
          (λ h. let (s, m, g) = ih.0 h in (s, inr m, g)),
          (λ g.
              let (s, m, x) = g in
              elim m [
                | inl e ↦ let t = has.1 (own.1 (subst (λ n. Grants sets n p) e x)) in cc
                | inr m' ↦ ih.1 (s, m', x)
              ]),
        )
      ]

  -- A permission is allowed exactly when one of the user's sets grants it, by itself or by
  -- inheritance.
  pub check_permission-Granted :
      (p : String) (user_sets : List String)
      → ((check_permission sets p user_sets).allowed ≡ true) ↔ Granted sets user_sets p
  unfolding check_permission
  check_permission-Granted p user_sets = check_sets-Granted p [] user_sets

  first_granted-Granted :
      (r : PermissionCheckResult) (user_sets perms : List String)
      → r.allowed ≡ false
      → ((first_granted sets r user_sets perms).allowed ≡ true)
        ↔ ((p : String) × In p perms × Granted sets user_sets p)
  unfolding first_granted
  first_granted-Granted r us [] e = ((λ h. cc), λ g. let (p, m, x) = g in elim m [ ])
  first_granted-Granted r us (p ∷ ps) e =
      let ih = first_granted-Granted r us ps e in
      let one = check_permission-Granted p us in
      elim (Bool-cases (check_permission sets p us).allowed) [
        | inl t ↦ rw t ((λ h. (p, inl refl, one.0 t)), λ g. t)
        | inr f ↦ rw f (
          (λ h. let (q, m, g) = ih.0 h in (q, inr m, g)),
          (λ g.
              let (q, m, x) = g in
              elim m [
                | inl i ↦ let t = one.1 (subst (λ n. Granted sets us n) i x) in cc
                | inr m' ↦ ih.1 (q, m', x)
              ]),
        )
      ]

  first_denied-Granted :
      (r : PermissionCheckResult) (user_sets perms : List String)
      → r.allowed ≡ true
      → ((first_denied sets r user_sets perms).allowed ≡ true) ↔ All (Granted sets user_sets) perms
  unfolding first_denied
  first_denied-Granted r us [] e = ((λ h. tt), λ g. e)
  first_denied-Granted r us (p ∷ ps) e =
      let ih = first_denied-Granted r us ps e in
      let one = check_permission-Granted p us in
      elim (Bool-cases (check_permission sets p us).allowed) [
        | inl t ↦ rw t ((λ h. (one.0 t, ih.0 h)), λ g. ih.1 g.1)
        | inr f ↦ rw f ((λ h. let t : true ≡ false = cc in cc), λ g. let t = one.1 g.0 in cc)
      ]

  -- A check of any of several permissions allows exactly when the user's sets grant one of them, a
  -- check of all exactly when they grant each.
  pub check_any-check_all :
      (perms user_sets : List String)
      → (((check_any_permission sets perms user_sets).allowed ≡ true)
          ↔ ((p : String) × In p perms × Granted sets user_sets p))
        × (((check_all_permissions sets perms user_sets).allowed ≡ true)
            ↔ All (Granted sets user_sets) perms)
  unfolding check_any_permission check_all_permissions
  check_any-check_all perms us =
      (first_granted-Granted _ us perms refl, first_denied-Granted _ us perms refl)
