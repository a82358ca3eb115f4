-- ===== src/Node.antt =====
-- pkg/node: the types (types.go) and the capability validator (validator.go). Nodes are held by
-- value: no caller keeps a node that it has passed to the registry and changes it. The metadata of
-- a node is any type `M`. A nil permission map is `none`.
pub mod Operations
pub mod WellFormed
pub mod Permitted
pub mod Silence
pub mod Admission
pub mod Answers
mod Examples
pub mod Registry
pub mod Permission
pub mod Heartbeat
pub mod Invocation
use ranyaa.Base.{
  ℕ, String, ◌≡◌, refl, Bool, true, false, Option, none, some, List, [], ◌∷◌, if◌then◌else◌, Map,
  lookup, str_eq, has, starts_with,
}

pub record NodeData (M : Type 0) : Type 0 where
  pub id : String
  pub name : String
  pub platform : String
  pub capabilities : List String
  pub permissions : Option (Map Bool)
  pub last_seen : ℕ
  pub online : Bool
  pub metadata : M
  pub created_at : ℕ
  pub missed_heartbeats : ℕ
  pub timeout_count : ℕ
  pub degraded : Bool

pub data NodeError : Type 0 where
  id_required : NodeError
  name_required : NodeError
  platform_required : NodeError
  capability_required : NodeError
  bad_capability : String → NodeError
  invalid_capabilities : NodeError → NodeError
  node_not_found : String → NodeError
  unknown_capability : String → NodeError
  permission_denied : String → NodeError
  bad_parameter : String → NodeError
  parameter_required : String → NodeError

abbrev pub valid_capabilities : List String
valid_capabilities =
    "camera.snap" ∷ "camera.record" ∷ "notification.send" ∷ "notification.list" ∷ "location.get"
    ∷ "location.stream" ∷ "automation.click" ∷ "automation.input" ∷ []

unfoldable pub is_valid_capability : String → Bool
is_valid_capability capability = has capability valid_capabilities

-- the loop of ValidateCapabilities: the first bad capability
unfoldable pub first_invalid : List String → Option NodeError
unfolding is_valid_capability
first_invalid [] = none
first_invalid (cap ∷ rest) =
    let more = first_invalid rest in
    if is_valid_capability cap then more else some (bad_capability cap)

unfoldable pub validate_capabilities : List String → Option NodeError
unfolding first_invalid
validate_capabilities [] = some capability_required
validate_capabilities (cap ∷ rest) = first_invalid (cap ∷ rest)

-- What a call returns beside an error.
pub data Result {ℓ} (A : Type ℓ) : Type ℓ where
  ok : A → Result A
  failed : NodeError → Result A

unfoldable pub get_permission_for_capability : String → Result String
get_permission_for_capability capability =
    if starts_with capability "camera."
    then ok "camera"
    else if starts_with capability "notification."
    then ok "notifications"
    else if starts_with capability "location."
    then ok "location"
    else if starts_with capability "automation."
    then ok "automation"
    else failed (unknown_capability capability)

-- The values of parameters, as far as the type assertions tell them apart.
pub data Value : Type 0 where
  number : Value
  text : Value
  other : Value

-- an optional parameter that must be a number, or a text
abbrev optional_number : String → Option Value → Option NodeError
optional_number key none = none
optional_number key (some number) = none
optional_number key (some text) = some (bad_parameter key)
optional_number key (some other) = some (bad_parameter key)

abbrev optional_text : String → Option Value → Option NodeError
optional_text key none = none
optional_text key (some text) = none
optional_text key (some number) = some (bad_parameter key)
optional_text key (some other) = some (bad_parameter key)

abbrev required : String → Option Value → Option NodeError → Option NodeError
required key none next = some (parameter_required key)
required key (some _) next = next

unfoldable pub validate_invocation_parameters : String → Map Value → Option NodeError
validate_invocation_parameters capability parameters =
    if str_eq capability "camera.snap"
    then optional_number "quality" (lookup "quality" parameters)
    else if str_eq capability "camera.record"
    then optional_number "duration" (lookup "duration" parameters)
    else if str_eq capability "notification.send"
    then required "title" (lookup "title" parameters)
        (required "message" (lookup "message" parameters) none)
    else if str_eq capability "location.get"
    then optional_text "accuracy" (lookup "accuracy" parameters)
    else if str_eq capability "location.stream"
    then optional_number "interval" (lookup "interval" parameters)
    else if str_eq capability "automation.click"
    then required "x" (lookup "x" parameters) (required "y" (lookup "y" parameters) none)
    else if str_eq capability "automation.input"
    then required "text" (lookup "text" parameters) none
    else none
