-- ===== src/Node/Examples.antt =====
-- A phone with a camera: it registers, is granted the camera, is asked for a picture, and falls
-- silent.
use ranyaa.Base.{ℕ, String, ◌≡◌, ◌↔◌, refl, true, false, none, some, List, [], ◌∷◌, lookup}
use ranyaa.Node.{
  NodeData, ok, validate_capabilities, get_permission_for_capability,
  validate_invocation_parameters, number,
}
use ranyaa.Node.Registry.{NodeRegistry, new_registry, load_nodes, get_node}
use ranyaa.Node.Permission.{has_permission}
use ranyaa.Node.Heartbeat.{HeartbeatConfig, check_heartbeats}
use ranyaa.Node.Operations.{Operation, register, grant, revoke, load, apply, perform}
use ranyaa.Node.WellFormed.{IsWellFormed, perform-IsWellFormed, new_registry-IsWellFormed}
use ranyaa.Node.Permitted.{has_permission-perform}
use ranyaa.Node.Silence.{passes, silent_goes_offline, lookup-check_heartbeats}
use ranyaa.Node.Invocation.{
  InvocationRequest, InvocationResponse, InvocationManager, begin_invoke, finish_invoke,
}
use ranyaa.Node.Admission.{IsServable, begin_invoke_iff}
use ranyaa.Node.Answers.{respond_all, begin_invoke-finish_invoke}

abbrev phone : NodeData ℕ
phone = record {
  id = "phone";
  name = "my phone";
  platform = "ios";
  capabilities = "camera.snap" ∷ [];
  permissions = none;
  last_seen = 0;
  online = false;
  metadata = 0;
  created_at = 0;
  missed_heartbeats = 0;
  timeout_count = 0;
  degraded = false;
}

abbrev granted_ops : List (Operation ℕ)
granted_ops = register phone 5 ∷ grant "phone" "camera" ∷ grant "tablet" "camera" ∷ []

perform-IsWellFormed_example : IsWellFormed (perform granted_ops new_registry)
perform-IsWellFormed_example =
    perform-IsWellFormed granted_ops new_registry new_registry-IsWellFormed

has_permission-perform_example :
    has_permission "phone" "camera" (perform granted_ops new_registry) ≡ ok true
unfolding validate_capabilities
has_permission-perform_example = has_permission-perform "phone" "camera" granted_ops

revoked_again :
    has_permission "phone" "camera" (
      perform
        (register phone 5 ∷ grant "phone" "camera" ∷ revoke "phone" "camera" ∷ [])
        new_registry)
    ≡ ok false
unfolding validate_capabilities
revoked_again =
    has_permission-perform "phone" "camera"
      (register phone 5 ∷ grant "phone" "camera" ∷ revoke "phone" "camera" ∷ [])

abbrev known_phone : NodeData ℕ
known_phone = record phone { permissions = some (("camera", true) ∷ []); online = true }

abbrev one_phone : NodeRegistry ℕ
one_phone = record { nodes = ("phone", known_phone) ∷ []; default_node = "" }

one_phone-IsWellFormed : IsWellFormed one_phone
unfolding perform apply load_nodes new_registry validate_capabilities
one_phone-IsWellFormed =
    perform-IsWellFormed (load (known_phone ∷ []) ∷ []) new_registry new_registry-IsWellFormed

abbrev two_misses : HeartbeatConfig
two_misses = record { heartbeat_timeout = 90; max_missed_heartbeats = 2 }

lookup-check_heartbeats_example :
    let after = (check_heartbeats 100 two_misses one_phone).0 in
    (lookup "phone" after.nodes ≡ some (record known_phone { missed_heartbeats = 1 }))
    × (after.default_node ≡ "")
lookup-check_heartbeats_example =
    lookup-check_heartbeats 100 two_misses "phone" one_phone one_phone-IsWellFormed

silent_goes_offline_example :
    (after : NodeData ℕ) × (lookup "phone"
        (perform (passes two_misses (100 ∷ 130 ∷ [])) one_phone).nodes
      ≡ some after)
    × (after.online ≡ false)
silent_goes_offline_example =
    silent_goes_offline two_misses (100 ∷ 130 ∷ []) "phone" known_phone one_phone
      one_phone-IsWellFormed refl refl refl

abbrev picture : InvocationRequest
picture = record {
  invocation_id = "i1";
  node_id = "phone";
  capability = "camera.snap";
  parameters = ("quality", number) ∷ [];
}

abbrev idle : InvocationManager ℕ ℕ
idle = record { registry = one_phone; active_invocations = []; degraded_threshold = 5 }

begin_invoke_iff_example : ((begin_invoke picture idle).1 ≡ none) ↔ IsServable picture one_phone
begin_invoke_iff_example = begin_invoke_iff picture idle

picture-IsServable : IsServable picture one_phone
unfolding get_permission_for_capability has_permission get_node validate_invocation_parameters
picture-IsServable = record {
  node = known_phone;
  known = refl;
  online = refl;
  capable = refl;
  needed = "camera";
  requires = refl;
  permitted = refl;
  parameters = refl;
}

abbrev answer : String → ℕ → InvocationResponse ℕ
answer id n = record { invocation_id = id; success = true; result = n }

begin_invoke-finish_invoke_example :
    (finish_invoke "i1" (
      respond_all
        (answer "i2" 1 ∷ answer "i1" 2 ∷ answer "i1" 3 ∷ [])
        (begin_invoke picture idle).0)).1
    ≡ some (answer "i1" 2)
begin_invoke-finish_invoke_example =
    begin_invoke-finish_invoke picture idle (answer "i2" 1 ∷ answer "i1" 2 ∷ answer "i1" 3 ∷ [])
      ((begin_invoke_iff picture idle).1 picture-IsServable)
