-- ===== src/Auth/Permissions.antt =====
-- src/routerbot/auth/advanced/permissions.py: permission sets that inherit from one another, and the
-- PermissionSet and PermissionCheckResult of auth/advanced/models.py. A Python set of texts is a list
-- of its members, of which only membership is asked. The set of visited names is shared by all the
-- recursive calls, so each call hands it on. The recursion has fuel, one more than there are sets.
pub mod Resolution
pub mod Inheritance
mod Examples
use Prim.Native.String.{◌++◌ as ◌<>◌}
use routerbot.Base.{
  ℕ, zero, suc, String, Option, none, some, Bool, true, false, List, [], ◌∷◌, ◌++◌, if◌then◌else◌,
  contains, Dict, lookup, insert, remove, string_eq, length,
}

pub record PermissionSet : Type 0 where
  pub name : String
  pub description : String
  pub permissions : List String
  pub inherit_from : List String

abbrev pub Sets : Type 0
Sets = Dict String PermissionSet

unfoldable pub register : PermissionSet → Sets → Sets
register s sets = insert s.name s sets

-- The loop of PermissionManager.__init__
unfoldable pub register_all : List PermissionSet → Sets → Sets
register_all [] sets = sets
register_all (s ∷ ss) sets = register_all ss (insert s.name s sets)

unfoldable pub init : List PermissionSet → Sets
unfolding register_all
init ss = register_all ss []

-- PermissionManager.remove
unfoldable pub unregister : String → Sets → Sets
unregister name sets = remove name sets

-- Permissions, and the names visited by now; no fuel is `none`.
abbrev pub Resolve : Type 0
Resolve = String → List String → Option (List String × List String)

-- The loop over the parents.
unfoldable pub visit_all :
    Resolve → List String → List String → List String → Option (List String × List String)
visit_all rec [] permissions visited = some (permissions, visited)
visit_all rec (parent ∷ parents) permissions visited = elim (rec parent visited) [
  | none ↦ none
  | some (inherited, visited') ↦ visit_all rec parents (permissions ++ inherited) visited'
]

unfoldable pub visit :
    Resolve → Option PermissionSet → List String → Option (List String × List String)
unfolding visit_all
visit rec none visited = some ([], visited)
visit rec (some ps) visited = visit_all rec ps.inherit_from ps.permissions visited

unfoldable pub resolve : ℕ → Sets → Resolve
unfolding visit
resolve zero sets set_name visited = none
resolve (suc fuel) sets set_name visited =
    let found = visit (resolve fuel sets) (lookup set_name sets) (set_name ∷ visited) in
    if contains set_name visited then some ([], visited) else found

-- The permissions of a result; the case of no fuel does not occur.
abbrev pub granted : Option (List String × List String) → List String
granted none = []
granted (some (permissions, visited)) = permissions

-- PermissionManager.resolve_permissions
unfoldable pub resolve_permissions : Sets → String → List String
unfolding resolve
resolve_permissions sets set_name = granted (resolve (suc (length sets)) sets set_name [])

-- The texts of `reason`, by what they say.
pub data Reason : Type 0 where
  no_reason : Reason
  not_in_any_assigned_set : String → Reason
  none_of_the_requested : Reason

pub record PermissionCheckResult : Type 0 where
  pub allowed : Bool
  pub permission : String
  pub reason : Reason
  pub checked_sets : List String

-- The loop of check_permission, with the sets checked by now.
unfoldable pub check_sets : Sets → String → List String → List String → PermissionCheckResult
unfolding resolve_permissions
check_sets sets permission checked [] = record {
  allowed = false;
  permission = permission;
  reason = not_in_any_assigned_set permission;
  checked_sets = checked;
}
check_sets sets permission checked (set_name ∷ user_sets) =
    let rest = check_sets sets permission (checked ++ set_name ∷ []) user_sets in
    if contains permission (resolve_permissions sets set_name)
    then record {
      allowed = true;
      permission = permission;
      reason = no_reason;
      checked_sets = checked ++ set_name ∷ [];
    }
    else rest

unfoldable pub check_permission : Sets → String → List String → PermissionCheckResult
unfolding check_sets
check_permission sets permission user_sets = check_sets sets permission [] user_sets

-- ",".join(xs)
unfoldable pub comma_join : List String → String
comma_join [] = ""
comma_join (x ∷ []) = x
comma_join (x ∷ y ∷ xs) = x <> ("," <> comma_join (y ∷ xs))

-- The loop of check_any_permission, with what it returns at the end.
unfoldable pub first_granted :
    Sets → PermissionCheckResult → List String → List String → PermissionCheckResult
unfolding check_permission
first_granted sets otherwise user_sets [] = otherwise
first_granted sets otherwise user_sets (perm ∷ perms) =
    let rest = first_granted sets otherwise user_sets perms in
    let result = check_permission sets perm user_sets in if result.allowed then result else rest

unfoldable pub check_any_permission : Sets → List String → List String → PermissionCheckResult
unfolding first_granted comma_join
check_any_permission sets permissions user_sets =
    first_granted sets
      (record {
        allowed = false;
        permission = comma_join permissions;
        reason = none_of_the_requested;
        checked_sets = user_sets;
      })
      user_sets permissions

-- The loop of check_all_permissions, with what it returns at the end.
unfoldable pub first_denied :
    Sets → PermissionCheckResult → List String → List String → PermissionCheckResult
unfolding check_permission
first_denied sets otherwise user_sets [] = otherwise
first_denied sets otherwise user_sets (perm ∷ perms) =
    let rest = first_denied sets otherwise user_sets perms in
    let result = check_permission sets perm user_sets in if result.allowed then rest else result

unfoldable pub check_all_permissions : Sets → List String → List String → PermissionCheckResult
unfolding first_denied comma_join
check_all_permissions sets permissions user_sets =
    first_denied sets
      (record {
        allowed = true;
        permission = comma_join permissions;
        reason = no_reason;
        checked_sets = user_sets;
      })
      user_sets permissions
