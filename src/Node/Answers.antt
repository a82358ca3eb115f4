-- ===== src/Node/Answers.antt =====
-- Which response an invocation gets.
use ranyaa.Base.{
  String, ◌≡◌, refl, sym, ◌∙◌, ap, inl, inr, false, Option, none, some, List, [], ◌∷◌,
  if◌then◌else◌, arith, lookup, insert, str_eq, eq_iff, lookup-insert_self, lookup-insert_ne,
  Bool-cases,
}
use ranyaa.Node.Invocation.{
  InvocationRequest, InvocationResponse, InvocationManager, InvocationTracker, NodeErrorCode,
  begin_invoke, track, handle_response, respond_found, offer, held, finish_invoke,
}

module _ {M R : Type 0} where
  abbrev pub respond_all :
      List (InvocationResponse R) → InvocationManager M R → InvocationManager M R
  respond_all [] im = im
  respond_all (response ∷ more) im = respond_all more (handle_response response im).0

module _ {R : Type 0} (id : String) where
  -- the first response that carries the id
  abbrev pub first_for : List (InvocationResponse R) → Option (InvocationResponse R)
  first_for [] = none
  first_for (response ∷ more) =
      let rest = first_for more in if str_eq response.invocation_id id then some response else rest

  abbrev or_first :
      Option (InvocationResponse R) → List (InvocationResponse R) → Option (InvocationResponse R)
  or_first (some kept) rs = some kept
  or_first none rs = first_for rs

  or_first_nil : (o : Option (InvocationResponse R)) → or_first o [] ≡ o
  or_first_nil none = refl
  or_first_nil (some kept) = refl

  or_first_ne :
      (response : InvocationResponse R) (o : Option (InvocationResponse R))
      (more : List (InvocationResponse R))
      → str_eq response.invocation_id id ≡ false
      → or_first o more ≡ or_first o (response ∷ more)
  or_first_ne response none more other = rw other refl
  or_first_ne response (some old) more other = refl

  or_first-offer :
      (response : InvocationResponse R) (t : InvocationTracker R)
      (o : Option (InvocationResponse R)) (more : List (InvocationResponse R))
      → t.response_chan ≡ o
      → response.invocation_id ≡ id
      → or_first (offer response t).0.response_chan more
        ≡ or_first t.response_chan (response ∷ more)
  or_first-offer response t none more e own =
      ground (arith, e, own, eq_iff response.invocation_id id)
  or_first-offer response t (some old) more e own = ground (arith, e)

module _ {M R : Type 0} (id : String) where
  handle_response_self :
      (r : InvocationResponse R) (im : InvocationManager M R) (t : InvocationTracker R)
      → lookup id im.active_invocations ≡ some t
      → r.invocation_id ≡ id
      → lookup id (handle_response r im).0.active_invocations ≡ some (offer r t).0
  unfolding handle_response
  handle_response_self r im t here own =
      let found : lookup r.invocation_id im.active_invocations ≡ some t =
        ap (λ i. lookup i im.active_invocations) own ∙ here in
      ap (λ o. lookup id (respond_found r im o).0.active_invocations) found
      ∙ ap (λ i. lookup id (insert i (offer r t).0 im.active_invocations)) own
      ∙ lookup-insert_self id (offer r t).0 im.active_invocations

  respond_found_ne :
      (r : InvocationResponse R) (im : InvocationManager M R) (o : Option (InvocationTracker R))
      → str_eq r.invocation_id id ≡ false
      → lookup id (respond_found r im o).0.active_invocations ≡ lookup id im.active_invocations
  respond_found_ne r im none other = refl
  respond_found_ne r im (some t) other =
      lookup-insert_ne r.invocation_id id (offer r t).0 im.active_invocations other

  held-respond_all :
      (rs : List (InvocationResponse R)) (im : InvocationManager M R) (t : InvocationTracker R)
      → lookup id im.active_invocations ≡ some t
      → held (lookup id (respond_all rs im).active_invocations) ≡ or_first id t.response_chan rs
  unfolding handle_response
  held-respond_all [] im t here = ap held here ∙ sym (or_first_nil id t.response_chan)
  held-respond_all (r ∷ more) im t here = elim (Bool-cases (str_eq r.invocation_id id)) [
    | inl same ↦
        let own = (eq_iff r.invocation_id id).0 same in
        held-respond_all more (handle_response r im).0 (offer r t).0
          (handle_response_self r im t here own)
        ∙ or_first-offer id r t t.response_chan more refl own
    | inr other ↦
        held-respond_all more (handle_response r im).0 t
          (respond_found_ne r im (lookup r.invocation_id im.active_invocations) other ∙ here)
        ∙ or_first_ne id r t.response_chan more other
  ]

abbrev fresh_tracker : {R : Type 0} → InvocationRequest → InvocationTracker R
fresh_tracker req = record {
  node_id = req.node_id;
  capability = req.capability;
  response_chan = none;
}

module _ {M R : Type 0} where
  lookup-track :
      (req : InvocationRequest) (im : InvocationManager M R) (o : Option NodeErrorCode)
      → (track req im o).1 ≡ none
      → lookup req.invocation_id (track req im o).0.active_invocations ≡ some (fresh_tracker req)
  lookup-track req im none started =
      lookup-insert_self req.invocation_id (fresh_tracker req) im.active_invocations
  lookup-track req im (some code) started = ground (arith, started)

  -- If an invocation is started, then, whatever responses arrive after that, the waiting caller finds
  -- the first one that carries the invocation's id, and none if there is no such response.
  pub begin_invoke-finish_invoke :
      (req : InvocationRequest) (im : InvocationManager M R) (rs : List (InvocationResponse R))
      → (begin_invoke req im).1 ≡ none
      → (finish_invoke req.invocation_id (respond_all rs (begin_invoke req im).0)).1
        ≡ first_for req.invocation_id rs
  unfolding begin_invoke finish_invoke
  begin_invoke-finish_invoke req im rs started =
      held-respond_all req.invocation_id rs (begin_invoke req im).0 (fresh_tracker req)
        (lookup-track req im _ started)
