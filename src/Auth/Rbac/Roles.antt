-- ===== src/Auth/Rbac/Roles.antt =====
-- What a role's name is read as, and how the roles compare.
use routerbot.Base.{
  ℕ, ◌≡◌, ◌↔◌, refl, ◌∙◌, ap, String, arith, some, true, List, [], ◌∷◌, codes, lower, same_codes,
  Bool-cases, some_inj, inl, inr,
}
use routerbot.Auth.Rbac.{
  Role, admin, editor, viewer, api_user, value, from_value, from_str, Permission, spend_view_own,
  llm_access, role_permissions,
}

same_codes_iff : (s t : List ℕ) → (same_codes s t ≡ true) ↔ (s ≡ t)
same_codes_iff [] [] = ground arith
same_codes_iff [] (b ∷ bs) = ground arith
same_codes_iff (a ∷ cs) [] = ground arith
same_codes_iff (a ∷ cs) (b ∷ bs) = ground (arith, same_codes_iff cs bs)

from_value_self : (r : Role) → from_value (codes (value r)) ≡ some r
unfolding from_value
from_value_self admin = refl
from_value_self editor = refl
from_value_self viewer = refl
from_value_self api_user = refl

named :
    (s : List ℕ) (r q : Role)
    → same_codes s (codes (value q)) ≡ true
    → some q ≡ some r
    → s ≡ codes (value r)
named s r q t e = (same_codes_iff s (codes (value q))).0 t ∙ ap (λ x. codes (value x)) (some_inj e)

from_value-eq : (s : List ℕ) (r : Role) → from_value s ≡ some r → s ≡ codes (value r)
unfolding from_value
from_value-eq s r h = elim (Bool-cases (same_codes s (codes "admin"))) [
  | inl t ↦ named s r admin t (rw t at h)
  | inr f ↦
      let h1 = rw f at h in
      elim (Bool-cases (same_codes s (codes "editor"))) [
        | inl t ↦ named s r editor t (rw t at h1)
        | inr g ↦
            let h2 = rw g at h1 in
            elim (Bool-cases (same_codes s (codes "viewer"))) [
              | inl t ↦ named s r viewer t (rw t at h2)
              | inr k ↦
                  let h3 = rw k at h2 in
                  elim (Bool-cases (same_codes s (codes "api_user"))) [
                    | inl t ↦ named s r api_user t (rw t at h3)
                    | inr l ↦ let h4 = rw l at h3 in cc
                  ]
            ]
      ]
]

lower-value : (r : Role) → lower (value r) ≡ codes (value r)
lower-value admin = refl
lower-value editor = refl
lower-value viewer = refl
lower-value api_user = refl

by_viewer : (p : Permission) → role_permissions viewer p ≡ true → role_permissions editor p ≡ true
unfolding role_permissions
by_viewer spend_view_own h = refl
by_viewer p h = ground arith

by_api_user :
    (p : Permission) → role_permissions api_user p ≡ true → role_permissions editor p ≡ true
unfolding role_permissions
by_api_user llm_access h = refl
by_api_user p h = ground arith

-- A text is read as a role exactly when its lower case is that role's name; so every role is read
-- back from its name.
pub from_str-value :
    ((s : String) (r : Role) → (from_str s ≡ some r) ↔ (lower s ≡ codes (value r)))
    × ((r : Role) → from_str (value r) ≡ some r)
unfolding from_str
from_str-value = (
  λ s r. (from_value-eq (lower s) r, λ e. ap from_value e ∙ from_value_self r),
  λ r. ap from_value (lower-value r) ∙ from_value_self r,
)

-- Whatever a viewer or an API user may do, an editor may; whatever an editor may, an admin may. But
-- neither of viewer and API user may do all that the other may.
pub role_permissions_le :
    ((p : Permission) → role_permissions viewer p ≡ true → role_permissions editor p ≡ true)
    × ((p : Permission) → role_permissions api_user p ≡ true → role_permissions editor p ≡ true)
    × ((p : Permission) → role_permissions editor p ≡ true → role_permissions admin p ≡ true)
    × (¬ ((p : Permission) → role_permissions viewer p ≡ true → role_permissions api_user p ≡ true))
    × (¬ ((p : Permission) → role_permissions api_user p ≡ true → role_permissions viewer p ≡ true))
unfolding role_permissions
role_permissions_le = (
  by_viewer,
  by_api_user,
  (λ p h. refl),
  (λ all. cc (all spend_view_own refl)),
  (λ all. cc (all llm_access refl)),
)
