-- ===== src/Node/Invocation.antt =====
-- pkg/node/invocation.go: `Invoke` up to the wait (`begin_invoke`), a response of a node
-- (`handle_response`), and the two ends of the wait (`finish_invoke`, `time_out_invoke`). A
-- response channel holds one response. Statistics and events are left out.
use ranyaa.Base.{
  ℕ, String, Bool, true, false, not, Option, none, some, if◌then◌else◌, Map, lookup, insert, delete,
}
use ranyaa.Node.{NodeData, Value, Result, ok, failed, validate_invocation_parameters}
use ranyaa.Node.Registry.{NodeRegistry, get_node, has_capability, increment_timeout_count}
use ranyaa.Node.Permission.{check_invocation_permission}

pub record InvocationRequest : Type 0 where
  pub invocation_id : String
  pub node_id : String
  pub capability : String
  pub parameters : Map Value

pub data NodeErrorCode : Type 0 where
  err_node_not_found : NodeErrorCode
  err_node_offline : NodeErrorCode
  err_capability_not_found : NodeErrorCode
  err_permission_denied : NodeErrorCode
  err_invalid_parameters : NodeErrorCode
  err_invocation_timeout : NodeErrorCode

pub record InvocationResponse (R : Type 0) : Type 0 where
  pub invocation_id : String
  pub success : Bool
  pub result : R

-- A tracker, with what its channel holds.
pub record InvocationTracker (R : Type 0) : Type 0 where
  pub node_id : String
  pub capability : String
  pub response_chan : Option (InvocationResponse R)

pub record InvocationManager (M R : Type 0) : Type 0 where
  pub registry : NodeRegistry M
  pub active_invocations : Map (InvocationTracker R)
  pub degraded_threshold : ℕ

abbrev pub is_some {ℓ} : {A : Type ℓ} → Option A → Bool
is_some none = false
is_some (some _) = true

module _ {M : Type 0} where
  abbrev pub check_node :
      InvocationRequest → NodeRegistry M → Result (NodeData M) → Option NodeErrorCode
  check_node req nr (failed err) = some err_node_not_found
  check_node req nr (ok node) =
      if not node.online
      then some err_node_offline
      else if not (has_capability req.node_id req.capability nr)
      then some err_capability_not_found
      else if is_some (check_invocation_permission req.node_id req.capability nr)
      then some err_permission_denied
      else if is_some (validate_invocation_parameters req.capability req.parameters)
      then some err_invalid_parameters
      else none

module _ {M R : Type 0} where
  abbrev pub track :
      InvocationRequest
      → InvocationManager M R
      → Option NodeErrorCode
      → InvocationManager M R × Option NodeErrorCode
  track req im (some code) = (im, some code)
  track req im none = (
    record im {
      active_invocations =
          insert req.invocation_id
            (record { node_id = req.node_id; capability = req.capability; response_chan = none })
            im.active_invocations;
    },
    none,
  )

  unfoldable pub begin_invoke :
      InvocationRequest → InvocationManager M R → InvocationManager M R × Option NodeErrorCode
  begin_invoke req im = track req im (check_node req im.registry (get_node req.node_id im.registry))

module _ {R : Type 0} where
  abbrev pub offer : InvocationResponse R → InvocationTracker R → InvocationTracker R × Bool
  offer response tracker = elim tracker.response_chan [
    | none ↦ (record tracker { response_chan = some response }, true)
    | some _ ↦ (tracker, false)
  ]

  abbrev pub held : Option (InvocationTracker R) → Option (InvocationResponse R)
  held none = none
  held (some tracker) = tracker.response_chan

module _ {M R : Type 0} where
  abbrev pub respond_found :
      InvocationResponse R
      → InvocationManager M R
      → Option (InvocationTracker R)
      → InvocationManager M R × Bool
  respond_found response im none = (im, false)
  respond_found response im (some tracker) =
      let (offered, sent) = offer response tracker in
      (
        record im {
          active_invocations = insert response.invocation_id offered im.active_invocations;
        },
        sent,
      )

  -- true for no error
  unfoldable pub handle_response :
      InvocationResponse R → InvocationManager M R → InvocationManager M R × Bool
  handle_response response im =
      respond_found response im (lookup response.invocation_id im.active_invocations)

  -- the select's first case, if the channel holds a response
  unfoldable pub finish_invoke :
      String → InvocationManager M R → InvocationManager M R × Option (InvocationResponse R)
  finish_invoke id im =
      let response = held (lookup id im.active_invocations) in
      (
        elim response [
          | none ↦ im
          | some _ ↦ record im { active_invocations = delete id im.active_invocations }
        ],
        response,
      )

  -- the select's second case
  unfoldable pub time_out_invoke :
      String → String → InvocationManager M R → InvocationManager M R × NodeErrorCode
  time_out_invoke id node_id im = (
    record im {
      active_invocations = delete id im.active_invocations;
      registry = (increment_timeout_count node_id im.degraded_threshold im.registry).0;
    },
    err_invocation_timeout,
  )
