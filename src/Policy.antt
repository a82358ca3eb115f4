-- ===== src/Policy.antt =====
-- pkg/toolexecutor/policy.go, evaluator.go and `IsToolAllowed` of executor.go: which tools an agent
-- may run. A nil `*ToolPolicy` is `none`. The loops over `Allow` and `Deny` are `matches_any`.
-- Logging is left out. The sets that `MergePolicies` builds are duplicate-free lists in the order of
-- insertion; Go iterates over them in any order, and what a policy allows depends on membership only.
pub mod Decision
pub mod Merge
mod Examples
use Prim.Native.String.{◌++◌ as concat}
use ranyaa.Base.{
  String, Bool, true, false, not, ◌||◌, Option, none, some, List, [], ◌∷◌, ◌++◌, str_eq, any, keep,
  has, if◌then◌else◌,
}

pub record ToolPolicy : Type 0 where
  pub allow : List String
  pub deny : List String

-- for _, x := range list { if x == toolName || x == "*" { return true } }; return false
abbrev pub matches_any : String → List String → Bool
matches_any tool [] = false
matches_any tool (x ∷ xs) = if str_eq x tool || str_eq x "*" then true else matches_any tool xs

-- (*ToolPolicy).IsToolAllowed
pub is_tool_allowed : Option ToolPolicy → String → Bool
is_tool_allowed none tool = true
is_tool_allowed (some tp) tool =
    if matches_any tool tp.deny then false else if matches_any tool tp.allow then true else false

-- (*PolicyEngine).EvaluatePolicy; its error is always nil
pub evaluate_policy : String → Option ToolPolicy → Bool
unfolding is_tool_allowed
evaluate_policy tool none = true
evaluate_policy tool (some p) = is_tool_allowed (some p) tool

-- (*PolicyEngine).FilterToolsByPolicy
pub filter_tools_by_policy : List String → Option ToolPolicy → List String
unfolding is_tool_allowed
filter_tools_by_policy tools none = tools
filter_tools_by_policy tools (some p) = keep (is_tool_allowed (some p)) tools

-- the values of `ViolationType`
pub data Violation : Type 0 where
  no_violation deny_list not_in_allow_list : Violation

-- `Metadata`: empty, or the agent and the tool beside "policy_violation": true
pub record ViolationMetadata : Type 0 where
  pub agent_id : String
  pub tool_name : String

pub record EvaluationResult : Type 0 where
  pub allowed : Bool
  pub reason : String
  pub violation_type : Violation
  pub metadata : Option ViolationMetadata

pub is_denied : String → Option ToolPolicy → Bool
is_denied tool none = false
is_denied tool (some policy) = matches_any tool policy.deny

is_empty : List String → Bool
is_empty [] = true
is_empty (_ ∷ _) = false

pub is_allowed : String → Option ToolPolicy → Bool
unfolding is_empty
is_allowed tool none = true
is_allowed tool (some policy) =
    if is_empty policy.allow then false else matches_any tool policy.allow

-- (*PolicyEvaluator).Evaluate
pub evaluate : String → Option ToolPolicy → String → EvaluationResult
unfolding is_denied is_allowed
evaluate tool none agent = record {
  allowed = true;
  reason = "no policy configured";
  violation_type = no_violation;
  metadata = none;
}
evaluate tool (some policy) agent =
    if is_denied tool (some policy)
    then record {
      allowed = false;
      reason = concat "tool '" (concat tool "' is in deny list");
      violation_type = deny_list;
      metadata = some (record { agent_id = agent; tool_name = tool });
    }
    else if not (is_allowed tool (some policy))
    then record {
      allowed = false;
      reason = concat "tool '" (concat tool "' is not in allow list");
      violation_type = not_in_allow_list;
      metadata = some (record { agent_id = agent; tool_name = tool });
    }
    else record {
      allowed = true;
      reason = "tool is in allow list and not in deny list";
      violation_type = no_violation;
      metadata = none;
    }

-- (*PolicyEvaluator).GetAllowedTools
pub get_allowed_tools : List String → Option ToolPolicy → String → List String
get_allowed_tools [] policy agent = []
get_allowed_tools (tool ∷ tools) policy agent =
    let rest = get_allowed_tools tools policy agent in
    if (evaluate tool policy agent).allowed then tool ∷ rest else rest

-- (*PolicyEvaluator).GetDeniedTools
pub get_denied_tools : List String → Option ToolPolicy → String → List String
get_denied_tools [] policy agent = []
get_denied_tools (tool ∷ tools) policy agent =
    let rest = get_denied_tools tools policy agent in
    if not (evaluate tool policy agent).allowed then tool ∷ rest else rest

-- (*PolicyEvaluator).CreateViolationError: nil for a result that allows
pub create_violation_error : EvaluationResult → Option String
create_violation_error r = if r.allowed then none else some (concat "policy violation: " r.reason)

-- A map[string]bool that only `true` is stored in: s[x] = true.
abbrev pub add_to_set : String → List String → List String
add_to_set x s = if has x s then s else s ++ x ∷ []

-- for _, x := range list { s[x] = true }
abbrev pub add_all : List String → List String → List String
add_all [] s = s
add_all (x ∷ xs) s = add_all xs (add_to_set x s)

-- the union of the deny lists
merge_deny : List ToolPolicy → List String → List String
merge_deny [] s = s
merge_deny (p ∷ ps) s = merge_deny ps (add_all p.deny s)

-- one round of the loop over validPolicies[1:]
intersect_allow : List String → ToolPolicy → List String
intersect_allow allow_set p =
    let policy_allow_set = add_all p.allow [] in
    keep (λ allowed. has allowed policy_allow_set || has "*" policy_allow_set || str_eq allowed "*")
      allow_set

merge_allow : List String → List ToolPolicy → List String
unfolding intersect_allow
merge_allow allow_set [] = allow_set
merge_allow allow_set (p ∷ ps) = merge_allow (intersect_allow allow_set p) ps

-- the policies that are not nil
pub valid_policies : List (Option ToolPolicy) → List ToolPolicy
valid_policies [] = []
valid_policies (none ∷ ps) = valid_policies ps
valid_policies (some p ∷ ps) = p ∷ valid_policies ps

merge_valid : List ToolPolicy → Option ToolPolicy
unfolding merge_deny merge_allow
merge_valid [] = none
merge_valid (p ∷ []) = some p
merge_valid (p ∷ ps) =
    some (record { allow = merge_allow (add_all p.allow []) ps; deny = merge_deny (p ∷ ps) [] })

-- (*PolicyEngine).MergePolicies
pub merge_policies : List (Option ToolPolicy) → Option ToolPolicy
unfolding valid_policies merge_valid
merge_policies policies = merge_valid (valid_policies policies)
