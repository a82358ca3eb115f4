-- ===== src/Node/Admission.antt =====
-- When an invocation starts.
use ranyaa.Base.{
  String, ◌≡◌, refl, sym, ◌∙◌, ap, inl, inr, Bool, true, false, ◌↔◌, Option, none, some, arith,
  lookup, has, Bool-cases, Option-cases,
}
use ranyaa.Node.{
  NodeData, Result, ok, failed, validate_invocation_parameters, get_permission_for_capability,
}
use ranyaa.Node.Registry.{NodeRegistry, get_node, has_capability}
use ranyaa.Node.Permission.{has_permission, check_invocation_permission, check_required, refusal}
use ranyaa.Node.Invocation.{
  InvocationRequest, InvocationManager, NodeErrorCode, begin_invoke, check_node, track,
}

refusal-none : (p : String) (o : Result Bool) → refusal p o ≡ none → o ≡ ok true
refusal-none p (failed err) h = ground (arith, h)
refusal-none p (ok true) h = refl
refusal-none p (ok false) h = ground (arith, h)

module _ {M : Type 0} where
  -- What a node must be like for a request.
  pub record IsServable (req : InvocationRequest) (nr : NodeRegistry M) : Type 0 where
    pub node : NodeData M
    pub known : lookup req.node_id nr.nodes ≡ some node
    pub online : node.online ≡ true
    pub capable : has req.capability node.capabilities ≡ true
    pub needed : String
    pub requires : get_permission_for_capability req.capability ≡ ok needed
    pub permitted : has_permission req.node_id needed nr ≡ ok true
    pub parameters : validate_invocation_parameters req.capability req.parameters ≡ none

  check_required-none :
      (id : String) (nr : NodeRegistry M) (o : Result String)
      → check_required id nr o ≡ none
      → (p : String) × (o ≡ ok p) × (has_permission id p nr ≡ ok true)
  check_required-none id nr (failed err) h = ground (arith, h)
  check_required-none id nr (ok p) h = (p, refl, refusal-none p _ h)

  check_node-none :
      (req : InvocationRequest) (nr : NodeRegistry M) (n : NodeData M)
      → lookup req.node_id nr.nodes ≡ some n
      → check_node req nr (ok n) ≡ none
      → IsServable req nr
  unfolding has_capability check_invocation_permission
  check_node-none req nr n e h = elim (Bool-cases n.online) [
    | inr off ↦ absurd (ground (arith, h, off))
    | inl on ↦ elim (Bool-cases (has_capability req.node_id req.capability nr)) [
      | inr lacks ↦ absurd (ground (arith, h, on, lacks))
      | inl capable ↦
          elim (Option-cases (check_invocation_permission req.node_id req.capability nr)) [
            | inr (err, refused) ↦ absurd (ground (arith, h, on, capable, refused))
            | inl allowed ↦
                elim (Option-cases (validate_invocation_parameters req.capability req.parameters)) [
                  | inr (err, bad) ↦ absurd (ground (arith, h, on, capable, allowed, bad))
                  | inl good ↦
                      let (needed, requires, permitted) =
                        check_required-none req.node_id nr
                          (get_permission_for_capability req.capability) allowed in
                      record {
                        node = n;
                        known = e;
                        online = on;
                        capable = ground (arith, capable, e);
                        needed = needed;
                        requires = requires;
                        permitted = permitted;
                        parameters = good;
                      }
                ]
          ]
    ]
  ]

module _ {M R : Type 0} where
  begin_invoke_code :
      (req : InvocationRequest) (im : InvocationManager M R) (o : Option NodeErrorCode)
      → (track req im o).1 ≡ o
  begin_invoke_code req im none = refl
  begin_invoke_code req im (some code) = refl

  begin_invoke_sound :
      (req : InvocationRequest) (im : InvocationManager M R)
      → (begin_invoke req im).1 ≡ none
      → IsServable req im.registry
  unfolding begin_invoke get_node
  begin_invoke_sound req im started =
      let passed = sym (begin_invoke_code req im _) ∙ started in
      elim (Option-cases (lookup req.node_id im.registry.nodes)) [
        | inl absent ↦ absurd (ground (arith, passed, absent))
        | inr (n, e) ↦
            let got : get_node req.node_id im.registry ≡ ok n = rw e refl in
            check_node-none req im.registry n e (sym (ap (check_node req im.registry) got) ∙ passed)
      ]

  begin_invoke_complete :
      (req : InvocationRequest) (im : InvocationManager M R)
      → IsServable req im.registry
      → (begin_invoke req im).1 ≡ none
  unfolding begin_invoke get_node has_capability check_invocation_permission
  begin_invoke_complete req im h =
      let allowed : check_invocation_permission req.node_id req.capability im.registry ≡ none =
        rw (h.requires, h.permitted) refl in
      let capable : has_capability req.node_id req.capability im.registry ≡ true =
        rw h.known h.capable in
      let got : get_node req.node_id im.registry ≡ ok h.node = rw h.known refl in
      begin_invoke_code req im _
      ∙ ap (check_node req im.registry) got
      ∙ rw (h.online, capable, allowed, h.parameters) refl

  -- An invocation is started just when its node is registered, is online, has the capability, has the
  -- permission that the capability requires, and the validator accepts the parameters.
  pub begin_invoke_iff :
      (req : InvocationRequest) (im : InvocationManager M R)
      → ((begin_invoke req im).1 ≡ none) ↔ IsServable req im.registry
  begin_invoke_iff req im = (begin_invoke_sound req im, begin_invoke_complete req im)
