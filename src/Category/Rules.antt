-- ===== src/Category/Rules.antt =====
-- What the category rules decide, and which tools they reach.
use ranyaa.Base.{
  String, ◌≡◌, ◌↔◌, ◌⊎◌, refl, sym, ◌∙◌, ap, inl, inr, true, false, Option, none, some, List, [],
  ◌∷◌, lookup, str_eq, has, arith, lookup-insert, lookup-insert_self, Bool-cases,
}
use mathlib.Core.List.{Mem}
use mathlib.Core.Bool.{false≢true}
use ranyaa.Base.Members.{has-Mem, Mem-has}
use ranyaa.Category.{
  all_categories, ToolMetadata, ToolRegistry, CategoryError, new_tool_registry, or_general,
  is_valid_category, register_tool, get_tool, get_category, apply_category_policy, apply_rules,
  is_allowed_among, tool_or_error, with_tool,
}

pub record Registration : Type 0 where
  pub name : String
  pub description : String
  pub category : String

abbrev category_of : Option ToolMetadata → Option String
category_of none = none
category_of (some tool) = some tool.category

-- Both maps of the registry know the same tools, with the same category.
abbrev pub Agrees : ToolRegistry → Type 0
Agrees tr = (j : String) → lookup j tr.categories ≡ category_of (lookup j tr.tools)

with_tool-Agrees :
    (name description category : String) (tr : ToolRegistry)
    → Agrees tr
    → Agrees (with_tool name description category tr)
with_tool-Agrees name description category tr h j = ground (
  arith,
  h j,
  lookup-insert name j category tr.categories,
  lookup-insert name j (record { name = name; description = description; category = category })
      tr.tools,
)

-- what GetCategory must answer for what Get answers
abbrev pub shown : Option ToolMetadata × Option CategoryError → String × Option CategoryError
shown (none, err) = ("general", err)
shown (some tool, err) = (tool.category, err)

module _ (to_lower : String → String) where
  register_tool-valid :
      (name description category : String) (tr : ToolRegistry)
      → str_eq name "" ≡ false
      → is_valid_category to_lower (or_general category) ≡ true
      → register_tool to_lower name description category tr
        ≡ (with_tool name description (or_general category) tr, none)
  unfolding register_tool
  register_tool-valid name description category tr named valid = rw (named, valid) refl

  register_tool-Agrees :
      (name description category : String) (tr : ToolRegistry)
      → Agrees tr
      → Agrees (register_tool to_lower name description category tr).0
  unfolding register_tool
  register_tool-Agrees name description category tr h = elim (Bool-cases (str_eq name "")) [
    | inl e ↦ rw e h
    | inr e ↦ elim (Bool-cases (is_valid_category to_lower (or_general category))) [
      | inr bad ↦ rw (e, bad) h
      | inl good ↦ rw (e, good) (with_tool-Agrees name description (or_general category) tr h)
    ]
  ]

  abbrev pub register_each : List Registration → ToolRegistry → ToolRegistry
  register_each [] tr = tr
  register_each (r ∷ more) tr =
      register_each more (register_tool to_lower r.name r.description r.category tr).0

  register_each-Agrees :
      (rs : List Registration) (tr : ToolRegistry) → Agrees tr → Agrees (register_each rs tr)
  register_each-Agrees [] tr h = h
  register_each-Agrees (r ∷ more) tr h =
      register_each-Agrees more _ (register_tool-Agrees r.name r.description r.category tr h)

  -- After any registrations, refused and repeated ones included, `GetCategory` answers the category
  -- that the metadata of `Get` shows, and the same error for a tool that is not there.
  pub get_category-get_tool :
      (rs : List Registration) (name : String)
      → let tr = register_each rs new_tool_registry in
        get_category name tr ≡ shown (get_tool name tr)
  unfolding get_category get_tool new_tool_registry
  get_category-get_tool rs name =
      let tr = register_each rs new_tool_registry in
      let agree : lookup name tr.categories ≡ category_of (lookup name tr.tools) =
        register_each-Agrees rs new_tool_registry (λ j. refl) name in
      rw agree (ground arith)

  -- If the name is not empty, a category that is valid in lower case but not as it is spelled is
  -- accepted by `Register`, and no list of valid categories to deny, without a list of allowed
  -- ones, keeps the tool from being allowed.
  pub register_tool-escapes :
      (name description category : String) (deny : List String) (tr : ToolRegistry)
      → str_eq name "" ≡ false
      → is_valid_category to_lower (or_general category) ≡ true
      → has (or_general category) all_categories ≡ false
      → ((c : String) → Mem c deny → has c all_categories ≡ true)
      → let result = register_tool to_lower name description category tr in
        (result.1 ≡ none) × (apply_category_policy name [] deny result.0 ≡ true)
  unfolding apply_category_policy get_tool
  register_tool-escapes name description category deny tr named valid odd known =
      let tool : ToolMetadata = record {
        name = name;
        description = description;
        category = or_general category;
      } in
      let free : has (or_general category) deny ≡ false =
        elim (Bool-cases (has (or_general category) deny)) [
          | inr e ↦ e
          | inl e ↦ absurd (ground (arith, odd, known (or_general category) (has-Mem _ deny e)))
        ] in
      rw
        (
          register_tool-valid name description category tr named valid,
          lookup-insert_self name tool tr.tools,
          free,
        )
        (refl, refl)

got_tool : (name : String) (o : Option ToolMetadata) → (tool_or_error name o).0 ≡ o
got_tool name none = refl
got_tool name (some tool) = refl

is_allowed_among_iff :
    (allow : List String) (c : String)
    → (is_allowed_among allow c ≡ true) ↔ ((allow ≡ []) ⊎ Mem c allow)
is_allowed_among_iff [] c = (λ h. inl refl, λ h. refl)
is_allowed_among_iff (a ∷ more) c = (
  λ h. inr (has-Mem c (a ∷ more) h),
  λ h. elim h [ inl e ↦ absurd (ground (arith, e)) | inr m ↦ Mem-has c (a ∷ more) m ],
)

-- what the rules ask of a tool
abbrev pub Permits : List String → List String → ToolMetadata → Type 0
Permits allow deny tool = ¬ Mem tool.category deny × ((allow ≡ []) ⊎ Mem tool.category allow)

apply_rules_sound :
    (allow deny : List String) (o : Option ToolMetadata)
    → apply_rules allow deny o ≡ true
    → (tool : ToolMetadata) × (o ≡ some tool) × Permits allow deny tool
apply_rules_sound allow deny none h = ground (arith, h)
apply_rules_sound allow deny (some tool) h = elim (Bool-cases (has tool.category deny)) [
  | inl denied ↦ absurd (ground (arith, h, denied))
  | inr free ↦ (
    tool,
    refl,
    (
      λ m. false≢true (sym free ∙ Mem-has tool.category deny m),
      (is_allowed_among_iff allow tool.category).0 (ground (arith, h, free)),
    ),
  )
]

apply_rules_complete :
    (allow deny : List String) (tool : ToolMetadata)
    → Permits allow deny tool
    → apply_rules allow deny (some tool) ≡ true
apply_rules_complete allow deny tool (free, allowed) = elim (Bool-cases (has tool.category deny)) [
  | inl denied ↦ absurd (free (has-Mem tool.category deny denied))
  | inr e ↦ rw e ((is_allowed_among_iff allow tool.category).1 allowed)
]

-- A tool is allowed just when it is registered, its category is not denied, and the list of allowed
-- categories is empty or has its category.
pub apply_category_policy_iff :
    (name : String) (allow deny : List String) (tr : ToolRegistry)
    → (apply_category_policy name allow deny tr ≡ true)
      ↔ ((tool : ToolMetadata) × (lookup name tr.tools ≡ some tool) × Permits allow deny tool)
unfolding apply_category_policy get_tool
apply_category_policy_iff name allow deny tr =
    let same = got_tool name (lookup name tr.tools) in
    (
      λ h.
          apply_rules_sound allow deny (lookup name tr.tools)
            (sym (ap (apply_rules allow deny) same) ∙ h),
      λ (tool, found, permitted).
          ap (apply_rules allow deny) (same ∙ found)
          ∙ apply_rules_complete allow deny tool permitted,
    )
