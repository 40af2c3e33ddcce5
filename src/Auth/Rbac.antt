-- ===== src/Auth/Rbac.antt =====
-- src/routerbot/auth/rbac.py: roles, their permissions, and the checks of a request's context. A
-- check that raises is an error of its kind; the messages and the fields of AuthContext that no
-- check reads are left out.
pub mod Roles
pub mod Checks
mod Examples
use routerbot.Base.{
  ℕ, String, Option, none, some, Bool, true, false, not, ◌&&◌, List, [], ◌∷◌, if◌then◌else◌, any,
  string_eq, ◌==◌, codes, lower, same_codes,
}

pub data Role : Type 0 where
  admin editor viewer api_user : Role

abbrev pub value : Role → String
value admin = "admin"
value editor = "editor"
value viewer = "viewer"
value api_user = "api_user"

-- cls(s), over the members in their order.
unfoldable pub from_value : List ℕ → Option Role
from_value s =
    if same_codes s (codes "admin")
    then some admin
    else if same_codes s (codes "editor")
    then some editor
    else if same_codes s (codes "viewer")
    then some viewer
    else if same_codes s (codes "api_user")
    then some api_user
    else none

-- Role.from_str; no role is the ValueError.
unfoldable pub from_str : String → Option Role
unfolding from_value
from_str s = from_value (lower s)

pub data Permission : Type 0 where
  llm_access keys_manage_own keys_manage_team keys_manage_all teams_manage users_manage : Permission
  models_manage spend_view_own spend_view_all settings_manage audit_view : Permission
  guardrails_manage_team guardrails_manage_all : Permission

-- perm in ROLE_PERMISSIONS[role]
unfoldable pub role_permissions : Role → Permission → Bool
role_permissions admin perm = true
role_permissions editor llm_access = true
role_permissions editor keys_manage_own = true
role_permissions editor keys_manage_team = true
role_permissions editor models_manage = true
role_permissions editor spend_view_own = true
role_permissions editor guardrails_manage_team = true
role_permissions editor _ = false
role_permissions viewer spend_view_own = true
role_permissions viewer _ = false
role_permissions api_user llm_access = true
role_permissions api_user _ = false

pub record AuthContext : Type 0 where
  pub user_id : Option String
  pub team_id : Option String
  pub role : Role
  pub auth_method : String

unfoldable pub has_permission : AuthContext → Permission → Bool
unfolding role_permissions
has_permission ctx perm = role_permissions ctx.role perm

abbrev is_admin_role : Role → Bool
is_admin_role admin = true
is_admin_role editor = false
is_admin_role viewer = false
is_admin_role api_user = false

unfoldable pub is_admin : AuthContext → Bool
is_admin ctx = is_admin_role ctx.role

unfoldable pub is_authenticated : AuthContext → Bool
is_authenticated ctx = not (ctx.auth_method == "none")

-- What a check comes to.
pub data Check : Type 0 where
  granted permission_denied authentication_error : Check

unfoldable pub require_permission : AuthContext → Permission → Check
unfolding has_permission
require_permission ctx perm = if has_permission ctx perm then granted else permission_denied

unfoldable pub require_authenticated : AuthContext → Check
unfolding is_authenticated
require_authenticated ctx = if is_authenticated ctx then granted else authentication_error

unfoldable pub require_admin : AuthContext → Check
unfolding is_admin
require_admin ctx = if is_admin ctx then granted else permission_denied

-- a and a == b
abbrev pub present_and_same : Option String → Option String → Bool
present_and_same none b = false
present_and_same (some a) none = false
present_and_same (some a) (some b) = not (a == "") && (a == b)

unfoldable pub require_owner_or_admin : AuthContext → Option String → Check
unfolding is_admin
require_owner_or_admin ctx resource_user_id =
    if is_admin ctx
    then granted
    else if present_and_same ctx.user_id resource_user_id
    then granted
    else permission_denied

unfoldable pub require_team_member_or_admin : AuthContext → Option String → Check
unfolding is_admin
require_team_member_or_admin ctx resource_team_id =
    if is_admin ctx
    then granted
    else if present_and_same ctx.team_id resource_team_id
    then granted
    else permission_denied
