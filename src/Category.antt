-- ===== src/Category.antt =====
-- pkg/toolexecutor/categories.go: the registry of tools with their categories, and the policy rules
-- on categories. `to_lower` is Go's strings.ToLower.
pub mod Rules
mod Examples
use ranyaa.Base.{
  String, ◌≡◌, refl, Bool, true, false, ◌&&◌, ◌||◌, not, Option, none, some, List, [], ◌∷◌,
  if◌then◌else◌, Map, lookup, insert, str_eq, has,
}

-- AllCategories
abbrev pub all_categories : List String
all_categories = "read" ∷ "write" ∷ "shell" ∷ "web" ∷ "spec" ∷ "general" ∷ []

pub record ToolMetadata : Type 0 where
  pub name : String
  pub description : String
  pub category : String

pub record ToolRegistry : Type 0 where
  pub tools : Map ToolMetadata
  pub categories : Map String

pub data CategoryError : Type 0 where
  tool_name_required : CategoryError
  invalid_category : String → CategoryError
  tool_not_found : String → CategoryError

unfoldable pub new_tool_registry : ToolRegistry
new_tool_registry = record { tools = []; categories = [] }

-- an empty category is the general one
abbrev pub or_general : String → String
or_general category = if str_eq category "" then "general" else category

-- the registry after a registration that passes the checks
abbrev pub with_tool : String → String → String → ToolRegistry → ToolRegistry
with_tool name description category tr = record {
  tools =
      insert name (record { name = name; description = description; category = category }) tr.tools;
  categories = insert name category tr.categories;
}

module _ (to_lower : String → String) where
  unfoldable pub is_valid_category : String → Bool
  is_valid_category category = has (to_lower category) all_categories

  unfoldable pub register_tool :
      String → String → String → ToolRegistry → ToolRegistry × Option CategoryError
  register_tool name description category tr =
      let chosen = or_general category in
      if str_eq name ""
      then (tr, some tool_name_required)
      else if not (is_valid_category chosen)
      then (tr, some (invalid_category chosen))
      else (with_tool name description chosen tr, none)

abbrev pub tool_or_error : String → Option ToolMetadata → Option ToolMetadata × Option CategoryError
tool_or_error name none = (none, some (tool_not_found name))
tool_or_error name (some tool) = (some tool, none)

unfoldable pub get_tool : String → ToolRegistry → Option ToolMetadata × Option CategoryError
get_tool name tr = tool_or_error name (lookup name tr.tools)

abbrev category_or_error : String → Option String → String × Option CategoryError
category_or_error name none = ("general", some (tool_not_found name))
category_or_error name (some category) = (category, none)

unfoldable pub get_category : String → ToolRegistry → String × Option CategoryError
get_category name tr = category_or_error name (lookup name tr.categories)

abbrev tools_of : (ToolMetadata → Bool) → Map ToolMetadata → List ToolMetadata
tools_of p [] = []
tools_of p ((name, tool) ∷ m) = let rest = tools_of p m in if p tool then tool ∷ rest else rest

-- List
unfoldable pub list_tools : ToolRegistry → List ToolMetadata
list_tools tr = tools_of (λ tool. true) tr.tools

unfoldable pub filter_by_category : String → ToolRegistry → List ToolMetadata
filter_by_category category tr = tools_of (λ tool. str_eq tool.category category) tr.tools

-- a nil tool does not match
abbrev pub matches_category_of : List String → Option ToolMetadata → Bool
matches_category_of categories none = false
matches_category_of categories (some tool) = has tool.category categories

unfoldable pub filter_by_categories : List String → ToolRegistry → List ToolMetadata
filter_by_categories categories tr = tools_of (λ tool. has tool.category categories) tr.tools

unfoldable pub matches_category : String → String → ToolRegistry → Bool
unfolding get_tool
matches_category name category tr = matches_category_of (category ∷ []) (get_tool name tr).0

unfoldable pub matches_any_category : String → List String → ToolRegistry → Bool
unfolding get_tool
matches_any_category name categories tr = matches_category_of categories (get_tool name tr).0

abbrev pub is_allowed_among : List String → String → Bool
is_allowed_among [] category = true
is_allowed_among (c ∷ cs) category = has category (c ∷ cs)

abbrev pub apply_rules : List String → List String → Option ToolMetadata → Bool
apply_rules allow deny none = false
apply_rules allow deny (some tool) =
    if has tool.category deny then false else is_allowed_among allow tool.category

unfoldable pub apply_category_policy : String → List String → List String → ToolRegistry → Bool
unfolding get_tool
apply_category_policy name allow deny tr = apply_rules allow deny (get_tool name tr).0
