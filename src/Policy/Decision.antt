-- ===== src/Policy/Decision.antt =====
-- The two routes to a decision (policy.go and evaluator.go) agree, and what they decide.
use mathlib.Core.List.{Mem, Perm, perm_middle}
use mathlib.Core.List.Perm
use mathlib.Core.Logic.{◌∨₁◌}
use mathlib.Core.Logic.Or
use mathlib.Core.Bool.{Bool-set}
use mathlib.Core.HLevel.{⊥_prop}
use ranyaa.Base.{
  String, ◌≡◌, refl, inl, inr, true, false, Option, none, some, List, [], ◌∷◌, ◌++◌, arith,
  Bool-cases, ◌↔◌, ◌||◌, has,
}
use ranyaa.Base.Members.{has-Mem, Mem-has}
use ranyaa.Policy.{
  ToolPolicy, is_empty, matches_any, is_tool_allowed, evaluate_policy, evaluate,
  filter_tools_by_policy, get_allowed_tools, get_denied_tools, create_violation_error,
}

is_empty-matches_any :
    (tool : String) (xs : List String) → is_empty xs ≡ true → matches_any tool xs ≡ false
unfolding is_empty
is_empty-matches_any tool [] h = refl
is_empty-matches_any tool (x ∷ xs) h = cc

-- The evaluator and the policy engine take the same decision, and a violation error is created
-- exactly for a decision against the tool.
pub evaluate-agrees :
    (tool : String) (policy : Option ToolPolicy) (agent : String)
    → ((evaluate tool policy agent).allowed ≡ is_tool_allowed policy tool)
      × (evaluate_policy tool policy ≡ is_tool_allowed policy tool)
      × (create_violation_error (evaluate tool policy agent) ≡ none
          ↔ is_tool_allowed policy tool ≡ true)
unfolding evaluate evaluate_policy is_tool_allowed create_violation_error
evaluate-agrees tool none agent = ground arith
evaluate-agrees tool (some p) agent = ground (arith, is_empty-matches_any tool p.allow)

pub matches_any-has :
    (tool : String) (xs : List String) → matches_any tool xs ≡ (has tool xs || has "*" xs)
matches_any-has tool [] = refl
matches_any-has tool (x ∷ xs) = ground (arith, matches_any-has tool xs)

matches_any-Mem :
    (tool : String) (xs : List String) → matches_any tool xs ≡ true ↔ (Mem tool xs ∨₁ Mem "*" xs)
matches_any-Mem tool xs = (
  (λ h. elim (Bool-cases (has tool xs)) [
    | inl e ↦ Or.inl (has-Mem tool xs e)
    | inr e ↦ Or.inr (has-Mem "*" xs (ground (arith, matches_any-has tool xs)))
  ]),
  (λ m.
      Or.elim (Bool-set _ _) m (λ a. ground (arith, matches_any-has tool xs, Mem-has tool xs a))
        (λ a. ground (arith, matches_any-has tool xs, Mem-has "*" xs a))),
)

-- A policy allows a tool exactly when neither the tool nor "*" is in its deny list, and the tool or
-- "*" is in its allow list.
pub is_tool_allowed_iff :
    (p : ToolPolicy) (tool : String)
    → is_tool_allowed (some p) tool ≡ true
      ↔ (¬ Mem tool p.deny × ¬ Mem "*" p.deny × (Mem tool p.allow ∨₁ Mem "*" p.allow))
unfolding is_tool_allowed
is_tool_allowed_iff p tool = (
  (λ h. (
    (λ m. ground (arith, (matches_any-Mem tool p.deny).1 (Or.inl m))),
    (λ m. ground (arith, (matches_any-Mem tool p.deny).1 (Or.inr m))),
    (matches_any-Mem tool p.allow).0 (ground arith),
  )),
  (λ (d, w, a). elim (Bool-cases (matches_any tool p.deny)) [
    | inl e ↦ absurd (Or.elim ⊥_prop ((matches_any-Mem tool p.deny).0 e) d w)
    | inr e ↦ ground (arith, (matches_any-Mem tool p.allow).1 a)
  ]),
)

get_allowed_tools-filter :
    (tools : List String) (policy : Option ToolPolicy) (agent : String)
    → get_allowed_tools tools policy agent ≡ filter_tools_by_policy tools policy
unfolding get_allowed_tools filter_tools_by_policy
get_allowed_tools-filter [] none agent = refl
get_allowed_tools-filter [] (some p) agent = refl
get_allowed_tools-filter (tool ∷ tools) none agent =
    rw (get_allowed_tools-filter tools none agent) (rw (evaluate-agrees tool none agent).0 refl)
get_allowed_tools-filter (tool ∷ tools) (some p) agent =
    rw (get_allowed_tools-filter tools (some p) agent)
      (rw (evaluate-agrees tool (some p) agent).0 refl)

tools-perm :
    (tools : List String) (policy : Option ToolPolicy) (agent : String)
    → Perm (get_allowed_tools tools policy agent ++ get_denied_tools tools policy agent) tools
unfolding get_allowed_tools get_denied_tools
tools-perm [] policy agent = Perm.refl []
tools-perm (tool ∷ tools) policy agent =
    let rest = tools-perm tools policy agent in
    elim (Bool-cases (evaluate tool policy agent).allowed) [
      | inl e ↦ rw e (Perm.cons tool rest)
      | inr e ↦ rw e (Perm.trans (perm_middle _ _) (Perm.cons tool rest))
    ]

-- The tools of a list that the evaluator allows are those that the policy engine's filter keeps,
-- and with the tools that it denies they are the list again, in another order.
pub tools-partition :
    (tools : List String) (policy : Option ToolPolicy) (agent : String)
    → (get_allowed_tools tools policy agent ≡ filter_tools_by_policy tools policy)
      × Perm (get_allowed_tools tools policy agent ++ get_denied_tools tools policy agent) tools
tools-partition tools policy agent =
    (get_allowed_tools-filter tools policy agent, tools-perm tools policy agent)
