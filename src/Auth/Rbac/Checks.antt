-- ===== src/Auth/Rbac/Checks.antt =====
-- Who passes the checks of a resource.
use routerbot.Base.{
  ◌≡◌, ◌≢◌, ◌↔◌, ◌⊎◌, inl, inr, refl, String, arith, Option, none, some, Bool, true, false,
  if◌then◌else◌, string_eq, eq_iff, Bool-cases,
}
use routerbot.Auth.Rbac.{
  AuthContext, admin, granted, permission_denied, present_and_same, is_admin,
  require_owner_or_admin, require_team_member_or_admin,
}

-- The identifier is present, not empty, and the resource's.
abbrev pub Holds : Option String → Option String → Type 0
Holds own resource = (id : String) × (own ≡ some id) × (resource ≡ some id) × (id ≢ "")

present_and_same-Holds : (a b : Option String) → (present_and_same a b ≡ true) ↔ Holds a b
present_and_same-Holds none b = ((λ h. cc), λ h. let (id, e, f, n) = h in cc)
present_and_same-Holds (some a) none = ((λ h. cc), λ h. let (id, e, f, n) = h in cc)
present_and_same-Holds (some a) (some b) = (
  (λ h.
      (a, refl, ground (arith, eq_iff a b, eq_iff a ""), ground (arith, eq_iff a b, eq_iff a ""))),
  λ h. let (id, e, f, n) = h in ground (arith, eq_iff a b, eq_iff a ""),
)

is_admin_iff : (ctx : AuthContext) → (is_admin ctx ≡ true) ↔ (ctx.role ≡ admin)
unfolding is_admin
is_admin_iff ctx = ground arith

not_both : (ctx : AuthContext) → is_admin ctx ≡ true → is_admin ctx ≡ false → ⊥
not_both ctx t f = cc

or_admin :
    (b : Bool) {P Q : Type 0}
    → ¬ Q
    → ((b ≡ true) ↔ P)
    → ((if b then granted else permission_denied) ≡ granted) ↔ (Q ⊎ P)
or_admin true n h = ((λ e. inr (h.0 refl)), λ s. refl)
or_admin false n h = ((λ e. cc), λ s. elim s [ inl q ↦ absurd (n q) | inr p ↦ let e = h.1 p in cc ])

-- A resource's owner check is passed by an admin, and by whoever has the owner's identifier for
-- their own, one that is not empty; and by no others. So is its team's check, by the team.
pub require-Holds :
    (ctx : AuthContext) (resource : Option String)
    → ((require_owner_or_admin ctx resource ≡ granted)
        ↔ ((ctx.role ≡ admin) ⊎ Holds ctx.user_id resource))
      × ((require_team_member_or_admin ctx resource ≡ granted)
          ↔ ((ctx.role ≡ admin) ⊎ Holds ctx.team_id resource))
unfolding require_owner_or_admin require_team_member_or_admin
require-Holds ctx resource =
    let own = present_and_same-Holds ctx.user_id resource in
    let team = present_and_same-Holds ctx.team_id resource in
    let who = is_admin_iff ctx in
    elim (Bool-cases (is_admin ctx)) [
      | inl t ↦ rw t (((λ h. inl (who.0 t)), λ h. refl), ((λ h. inl (who.0 t)), λ h. refl))
      | inr f ↦
          let other = λ (e : ctx.role ≡ admin). not_both ctx (who.1 e) f in
          rw f (or_admin _ other own, or_admin _ other team)
    ]
