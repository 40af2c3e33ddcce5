-- ===== src/Auth/Permissions/Examples.antt =====
-- The theorems on permission sets, at two sets that inherit from each other.
use routerbot.Base.{
  lookup, insert, String, ◌≡◌, refl, some, List, [], ◌∷◌, arith, ◌↔◌, string_eq, In,
}
use routerbot.Auth.Permissions.{PermissionSet, Sets, init, resolve, resolve_permissions}
use routerbot.Auth.Permissions.Resolution.{Grants}
use routerbot.Auth.Permissions.Inheritance.{resolve_total, resolve_permissions-Grants}

abbrev viewer : PermissionSet
viewer = record {
  name = "viewer";
  description = "";
  permissions = "models:read" ∷ [];
  inherit_from = "engineer" ∷ "ghost" ∷ [];
}

abbrev engineer : PermissionSet
engineer = record {
  name = "engineer";
  description = "";
  permissions = "llm:access" ∷ [];
  inherit_from = "viewer" ∷ [];
}

abbrev circle : Sets
circle = ("viewer", viewer) ∷ ("engineer", engineer) ∷ []

registered : init (viewer ∷ engineer ∷ []) ≡ circle
unfolding init insert
registered = refl

both : resolve_permissions circle "viewer" ≡ "models:read" ∷ "llm:access" ∷ []
unfolding resolve_permissions lookup
both = refl

resolve_total_example :
    (r : List String × List String) × (resolve 3 circle "viewer" ("ghost" ∷ []) ≡ some r)
resolve_total_example = resolve_total circle 3 "viewer" ("ghost" ∷ []) (omega arith)

resolve_permissions-Grants_example :
    In "llm:access" (resolve_permissions circle "viewer") ↔ Grants circle "viewer" "llm:access"
resolve_permissions-Grants_example = resolve_permissions-Grants circle "viewer" "llm:access"
