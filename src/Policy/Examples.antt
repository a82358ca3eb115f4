-- ===== src/Policy/Examples.antt =====
-- Policies at concrete tools.
use mathlib.Core.List.{Mem, Perm}
use mathlib.Core.Logic.{◌∨₁◌}
use ranyaa.Base.{
  ◌≡◌, refl, ◌↔◌, true, false, not, none, some, List, [], ◌∷◌, ◌++◌, String, any, all,
}
use ranyaa.Policy.{
  ToolPolicy, matches_any, is_tool_allowed, evaluate_policy, evaluate, create_violation_error,
  filter_tools_by_policy, get_allowed_tools, get_denied_tools, merge_policies, valid_policies,
}
use ranyaa.Policy.Decision.{evaluate-agrees, is_tool_allowed_iff, tools-partition}
use ranyaa.Policy.Merge.{merge_policies-intersection, merge_policies-widens}

abbrev reader : ToolPolicy
reader = record { allow = "read" ∷ "list" ∷ []; deny = "shell" ∷ [] }

abbrev anything : ToolPolicy
anything = record { allow = "*" ∷ []; deny = [] }

evaluate-agrees_example :
    ((evaluate "shell" (some reader) "a1").allowed ≡ is_tool_allowed (some reader) "shell")
    × (evaluate_policy "shell" (some reader) ≡ is_tool_allowed (some reader) "shell")
    × (create_violation_error (evaluate "shell" (some reader) "a1") ≡ none
        ↔ is_tool_allowed (some reader) "shell" ≡ true)
evaluate-agrees_example = evaluate-agrees "shell" (some reader) "a1"

is_tool_allowed_iff_example : is_tool_allowed (some reader) "list" ≡ true ↔ (
    ¬ Mem "list" reader.deny
    × ¬ Mem "*" reader.deny
    × (Mem "list" reader.allow ∨₁ Mem "*" reader.allow))
is_tool_allowed_iff_example = is_tool_allowed_iff reader "list"

abbrev tools : List String
tools = "read" ∷ "shell" ∷ "list" ∷ []

tools-partition_example :
    (get_allowed_tools tools (some reader) "a1" ≡ filter_tools_by_policy tools (some reader))
    × Perm
        (get_allowed_tools tools (some reader) "a1" ++ get_denied_tools tools (some reader) "a1")
        tools
tools-partition_example = tools-partition tools (some reader) "a1"

merge_policies-intersection_example :
    is_tool_allowed (merge_policies (none ∷ some reader ∷ some anything ∷ [])) "read"
    ≡ all (λ p. is_tool_allowed p "read") (none ∷ some reader ∷ some anything ∷ [])
unfolding valid_policies
merge_policies-intersection_example =
    merge_policies-intersection (none ∷ some reader ∷ some anything ∷ []) "read" refl

-- The reader's allow list is lost when the other policy comes first.
merge_policies-widens_example :
    is_tool_allowed (merge_policies (some anything ∷ some reader ∷ [])) "write"
    ≡ not (any (λ r. matches_any "write" r.deny) (anything ∷ reader ∷ []))
unfolding valid_policies
merge_policies-widens_example = merge_policies-widens anything reader [] "write" refl

reader_denies_write : is_tool_allowed (some reader) "write" ≡ false
unfolding is_tool_allowed
reader_denies_write = refl
