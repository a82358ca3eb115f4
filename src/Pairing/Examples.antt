-- ===== src/Pairing/Examples.antt =====
-- Concrete runs of the pairing manager: `trim` and `upper` leave the texts as they are.
use ranyaa.Base.{String, ◌≡◌, refl, true, some, List, [], ◌∷◌}
use ranyaa.Pairing.{
  PendingRequest, Manager, ok, no_change, new_manager, is_listed, bootstrap_peers, cleanup_expired,
  cleanup_each, refresh_from_disk, load_pending, load_allowlist,
}
use ranyaa.Pairing.Requests.{ensure_pending, resolve, generate_unique_code}
use ranyaa.Pairing.Consistent.{IsConsistent}
use ranyaa.Pairing.Runs.{
  Operation, asked, ensured, resolved, perform_all, perform_new-IsConsistent,
  new_manager-IsConsistent,
}
use ranyaa.Pairing.Lifecycle.{resolve_ensured}

abbrev same : String → String
same t = t

abbrev two_pending : Manager
two_pending = new_manager same same "telegram" 2 60 ("owner" ∷ [])

abbrev first_request : PendingRequest
first_request = record {
  channel = "telegram";
  peer_id = "ann";
  code = "AB12";
  requested_at = 5;
  expires_at = 65;
}

-- two peers ask, a third is refused, one is approved, one expires
abbrev busy : List Operation
busy =
    ensured "ann" 5 no_change (some "AB12" ∷ []) true
    ∷ ensured "bob" 6 no_change (some "AB12" ∷ some "CD34" ∷ []) true
    ∷ ensured "eve" 7 no_change (some "EF56" ∷ []) true
    ∷ resolved "AB12" true 8 no_change true true
    ∷ asked "ann" 9 no_change
    ∷ ensured "eve" 90 no_change (some "EF56" ∷ []) true
    ∷ []

perform_new-IsConsistent_example : IsConsistent same same 2 (perform_all same same busy two_pending)
perform_new-IsConsistent_example =
    perform_new-IsConsistent same same "telegram" 2 60 ("owner" ∷ []) busy refl

resolve_ensured_example :
    ((resolve same same "AB12" true 65 no_change true true
        (ensure_pending same same "ann" 5 no_change (some "AB12" ∷ []) true two_pending).0).1
      ≡ ok first_request)
    × (is_listed "ann"
          (resolve same same "AB12" true 65 no_change true true
            (ensure_pending same same "ann" 5 no_change (some "AB12" ∷ []) true two_pending).0).0
        ≡ true)
unfolding ensure_pending new_manager bootstrap_peers generate_unique_code cleanup_expired
    cleanup_each refresh_from_disk load_pending load_allowlist
resolve_ensured_example =
    resolve_ensured same same 2 two_pending
      (new_manager-IsConsistent same same "telegram" 2 60 ("owner" ∷ [])) "ann" "AB12" 5 65
      no_change (some "AB12" ∷ []) true true true first_request refl refl refl refl
