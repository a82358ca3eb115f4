-- ===== src/Category/Examples.antt =====
-- A shell tool, registered under "Shell"; `lower` lowers that one word, as strings.ToLower does.
use ranyaa.Base.{
  String, ◌≡◌, ◌↔◌, refl, true, none, some, List, [], ◌∷◌, str_eq, if◌then◌else◌, lookup,
}
use ranyaa.Base.Members.{Mem-has}
use ranyaa.Category.{
  ToolMetadata, ToolRegistry, new_tool_registry, register_tool, apply_category_policy, get_tool,
  get_category, all_categories, is_valid_category,
}
use ranyaa.Category.Rules.{
  Registration, register_each, get_category-get_tool, register_tool-escapes, Permits,
  apply_category_policy_iff, shown,
}

abbrev lower : String → String
lower s = if str_eq s "Shell" then "shell" else s

abbrev shell_tool : List Registration
shell_tool = record { name = "run"; description = "runs a command"; category = "Shell" } ∷ []

get_category-get_tool_example :
    let tr = register_each lower shell_tool new_tool_registry in
    get_category "run" tr ≡ shown (get_tool "run" tr)
get_category-get_tool_example = get_category-get_tool lower shell_tool "run"

shell_is_valid : is_valid_category lower "Shell" ≡ true
unfolding is_valid_category
shell_is_valid = refl

register_tool-escapes_example :
    let result = register_tool lower "run" "runs a command" "Shell" new_tool_registry in
    (result.1 ≡ none) × (apply_category_policy "run" [] all_categories result.0 ≡ true)
register_tool-escapes_example =
    register_tool-escapes lower "run" "runs a command" "Shell" all_categories new_tool_registry refl
      shell_is_valid refl (λ c m. Mem-has c all_categories m)

abbrev one_tool : ToolRegistry
one_tool = record {
  tools = ("ls", record { name = "ls"; description = ""; category = "read" }) ∷ [];
  categories = ("ls", "read") ∷ [];
}

apply_category_policy_iff_example :
    (apply_category_policy "ls" ("read" ∷ []) ("shell" ∷ []) one_tool ≡ true) ↔ (
      (tool : ToolMetadata) × (lookup "ls" one_tool.tools ≡ some tool)
      × Permits ("read" ∷ []) ("shell" ∷ []) tool)
apply_category_policy_iff_example =
    apply_category_policy_iff "ls" ("read" ∷ []) ("shell" ∷ []) one_tool
