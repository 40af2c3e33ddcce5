-- ===== src/Auth/Rbac/Examples.antt =====
-- The theorem on a resource's checks, at its owner.
use routerbot.Base.{◌≡◌, ◌↔◌, ◌⊎◌, none, some}
use routerbot.Auth.Rbac.{
  AuthContext, admin, viewer, granted, require_owner_or_admin, require_team_member_or_admin,
}
use routerbot.Auth.Rbac.Checks.{Holds, require-Holds}

abbrev owner : AuthContext
owner = record { user_id = some "u1"; team_id = none; role = viewer; auth_method = "jwt" }

require-Holds_example :
    ((require_owner_or_admin owner (some "u1") ≡ granted)
      ↔ ((viewer ≡ admin) ⊎ Holds (some "u1") (some "u1")))
    × ((require_team_member_or_admin owner (some "u1") ≡ granted)
        ↔ ((viewer ≡ admin) ⊎ Holds none (some "u1")))
require-Holds_example = require-Holds owner (some "u1")
