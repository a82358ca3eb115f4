-- ===== src/Policy/Merge.antt =====
-- `MergePolicies`: what the merged policy allows, against what the merged policies allow.
use ranyaa.Base.{
  String, ◌≡◌, refl, sym, ◌∙◌, inl, inr, Bool, true, false, not, ◌&&◌, ◌||◌, Option, none, some,
  List, [], ◌∷◌, arith, eq_iff, str_eq, str_eq_self, has, any, all, keep, any-append, Bool-cases,
}
use ranyaa.Policy.{
  ToolPolicy, matches_any, is_tool_allowed, add_to_set, add_all, merge_deny, merge_allow,
  intersect_allow, merge_policies, valid_policies, merge_valid,
}
use ranyaa.Policy.Decision.{matches_any-has}

has-add_to_set : (t x : String) (s : List String) → has t (add_to_set x s) ≡ (has t s || str_eq x t)
has-add_to_set t x s = elim (Bool-cases (str_eq x t)) [
  | inl e ↦
      rw ((eq_iff x t).0 e)
        (ground (arith, any-append (λ (y : String). str_eq y t) s (t ∷ []), str_eq_self t))
  | inr e ↦ ground (arith, any-append (λ (y : String). str_eq y t) s (x ∷ []))
]

has-add_all : (t : String) (xs s : List String) → has t (add_all xs s) ≡ (has t s || has t xs)
has-add_all t [] s = ground arith
has-add_all t (x ∷ xs) s = ground (arith, has-add_all t xs (add_to_set x s), has-add_to_set t x s)

has-merge_deny :
    (t : String) (ps : List ToolPolicy) (s : List String)
    → has t (merge_deny ps s) ≡ (has t s || any (λ (p : ToolPolicy). has t p.deny) ps)
unfolding merge_deny
has-merge_deny t [] s = ground arith
has-merge_deny t (p ∷ ps) s =
    ground (arith, has-merge_deny t ps (add_all p.deny s), has-add_all t p.deny s)

has-keep :
    (t : String) (f : String → Bool) (xs : List String) → has t (keep f xs) ≡ (has t xs && f t)
has-keep t f [] = refl
has-keep t f (x ∷ xs) = elim (Bool-cases (str_eq x t)) [
  | inl e ↦ rw ((eq_iff x t).0 e) (ground (arith, has-keep t f xs, str_eq_self t))
  | inr e ↦ ground (arith, has-keep t f xs)
]

-- One round keeps a text that the next policy lists, or any text if that policy lists "*".
has-intersect_allow :
    (t : String) (allow_set : List String) (p : ToolPolicy)
    → has t (intersect_allow allow_set p)
      ≡ (has t allow_set && (matches_any t p.allow || str_eq t "*"))
unfolding intersect_allow
has-intersect_allow t allow_set p = ground (
  arith,
  has-keep t
      (λ (a : String). has a (add_all p.allow []) || has "*" (add_all p.allow []) || str_eq a "*")
      allow_set,
  has-add_all t p.allow [],
  has-add_all "*" p.allow [],
  matches_any-has t p.allow,
)

abbrev others_allow : String → List ToolPolicy → Bool
others_allow t = all (λ p. matches_any t p.allow)

matches_any-merge_allow :
    (t : String) (allow_set : List String) (ps : List ToolPolicy)
    → matches_any t (merge_allow allow_set ps)
      ≡ (has "*" allow_set || (has t allow_set && others_allow t ps))
unfolding merge_allow
matches_any-merge_allow t allow_set [] = ground (arith, matches_any-has t allow_set)
matches_any-merge_allow t allow_set (p ∷ ps) = elim (Bool-cases (str_eq t "*")) [
  | inl e ↦ rw ((eq_iff t "*").0 e) (
      ground (
        arith,
        matches_any-merge_allow "*" (intersect_allow allow_set p) ps,
        has-intersect_allow "*" allow_set p,
      ))
  | inr e ↦ ground (
    arith,
    matches_any-merge_allow t (intersect_allow allow_set p) ps,
    has-intersect_allow t allow_set p,
    has-intersect_allow "*" allow_set p,
  )
]

matches_any-merge_deny :
    (t : String) (ps : List ToolPolicy) (s : List String)
    → matches_any t (merge_deny ps s)
      ≡ (matches_any t s || any (λ (p : ToolPolicy). matches_any t p.deny) ps)
unfolding merge_deny
matches_any-merge_deny t [] s = ground arith
matches_any-merge_deny t (p ∷ ps) s = ground (
  arith,
  matches_any-merge_deny t ps (add_all p.deny s),
  matches_any-has t (add_all p.deny s),
  matches_any-has t s,
  matches_any-has t p.deny,
  has-add_all t p.deny s,
  has-add_all "*" p.deny s,
)

any_denies : String → List ToolPolicy → Bool
any_denies t = any (λ (p : ToolPolicy). matches_any t p.deny)

-- what the policy merged from at least two allows
is_tool_allowed-merge_valid :
    (t : String) (p q : ToolPolicy) (ps : List ToolPolicy)
    → is_tool_allowed (merge_valid (p ∷ q ∷ ps)) t ≡ (
        not (any_denies t (p ∷ q ∷ ps))
        && (has "*" p.allow || (has t p.allow && others_allow t (q ∷ ps))))
unfolding is_tool_allowed merge_valid any_denies
is_tool_allowed-merge_valid t p q ps = ground (
  arith,
  matches_any-merge_deny t (p ∷ q ∷ ps) [],
  matches_any-merge_allow t (add_all p.allow []) (q ∷ ps),
  has-add_all t p.allow [],
  has-add_all "*" p.allow [],
)

all_allow : String → List ToolPolicy → Bool
all_allow t = all (λ (p : ToolPolicy). is_tool_allowed (some p) t)

all_allow-split :
    (t : String) (ps : List ToolPolicy)
    → all_allow t ps ≡ (not (any_denies t ps) && others_allow t ps)
unfolding all_allow any_denies is_tool_allowed
all_allow-split t [] = refl
all_allow-split t (p ∷ ps) = ground (arith, all_allow-split t ps)

-- a nil policy allows every tool
all_allow-valid :
    (t : String) (ps : List (Option ToolPolicy))
    → all (λ p. is_tool_allowed p t) ps ≡ all_allow t (valid_policies ps)
unfolding all_allow valid_policies is_tool_allowed
all_allow-valid t [] = refl
all_allow-valid t (none ∷ ps) = all_allow-valid t ps
all_allow-valid t (some p ∷ ps) = ground (arith, all_allow-valid t ps)

abbrev pub first_allows_everything : List ToolPolicy → Bool
first_allows_everything [] = false
first_allows_everything (p ∷ _) = has "*" p.allow

merge_valid-intersection :
    (t : String) (ps : List ToolPolicy)
    → first_allows_everything ps ≡ false
    → is_tool_allowed (merge_valid ps) t ≡ all_allow t ps
merge_valid-intersection t [] h = unfold merge_valid is_tool_allowed all_allow in refl
merge_valid-intersection t (p ∷ []) h = unfold merge_valid is_tool_allowed all_allow in ground arith
merge_valid-intersection t (p ∷ q ∷ ps) h = ground (
  arith,
  is_tool_allowed-merge_valid t p q ps,
  all_allow-split t (p ∷ q ∷ ps),
  matches_any-has t p.allow,
)

-- Unless the first policy that is not nil lists "*", the merged policy allows a tool exactly when
-- every one of the merged policies does, a nil one allowing all tools.
pub merge_policies-intersection :
    (policies : List (Option ToolPolicy)) (tool : String)
    → first_allows_everything (valid_policies policies) ≡ false
    → is_tool_allowed (merge_policies policies) tool ≡ all (λ p. is_tool_allowed p tool) policies
unfolding merge_policies
merge_policies-intersection policies tool h =
    merge_valid-intersection tool (valid_policies policies) h ∙ sym (all_allow-valid tool policies)

-- If the first of two or more policies lists "*", the merged policy allows exactly the tools that
-- none of them denies, whatever the allow lists of the others are.
pub merge_policies-widens :
    (p q : ToolPolicy) (policies : List (Option ToolPolicy)) (tool : String)
    → has "*" p.allow ≡ true
    → is_tool_allowed (merge_policies (some p ∷ some q ∷ policies)) tool
      ≡ not (any (λ r. matches_any tool r.deny) (p ∷ q ∷ valid_policies policies))
unfolding merge_policies valid_policies any_denies
merge_policies-widens p q policies tool h =
    ground (arith, is_tool_allowed-merge_valid tool p q (valid_policies policies))
