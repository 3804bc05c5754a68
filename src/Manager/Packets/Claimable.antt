-- ===== src/Manager/Packets/Claimable.antt =====
-- Which cycles give a packet that may be claimed, and which are accepted.
use lang_sop.Manager.Stops.Unstopped.{IsUnstopped, is_some-none, first_stop_projection-IsUnstopped}
use lang_sop.Base.{
  both, false_of_not, not_of_false, ◌≡◌, refl, ◌∙◌, sym, ◌↔◌, Bool, true, false, not, ◌&&◌, ◌||◌,
  List, [], ◌∷◌, ◌==◌, eq_iff, String, any, map, contains, is_empty, is_empty_text, arith,
  Bool-cases, inl, inr,
}
use lang_sop.Manager.Records.{ManagerCycleInput, proof_obligation, ready_for_claim}
use lang_sop.Manager.Fields.{manager_model_route_is_missing}
use lang_sop.Manager.Obligations.{proof_obligations_for_cycle, completion_gate_for_cycle}
use lang_sop.Manager.Stops.{first_stop_projection, model_route_missing}
use lang_sop.Manager.Readiness.{unsatisfied, recompute_manager_readiness}
use lang_sop.Manager.Readiness.Follows.{
  has_inputs, is_let_through, goes_on, readiness_progress-Follows,
}
use lang_sop.Manager.Packets.{build_manager_work_packet_candidate, packet_is_claimable}

any-unsatisfied :
    (evidence refs : List String)
    → is_empty refs ≡ false
    → any (λ o. not o.satisfied) (map (λ ref. proof_obligation ref evidence false) refs) ≡ true
unfolding any
any-unsatisfied evidence [] h = cc
any-unsatisfied evidence (ref ∷ refs) h = refl

unsatisfied_lem :
    (cycle : ManagerCycleInput)
    → unsatisfied cycle
      ≡ not (
          is_empty cycle.proof_obligation_ref_set
          && ((cycle.source_authority_state == "accepted_and_fresh")
              && not (is_empty_text cycle.completion_review_ref)))
unfolding proof_obligations_for_cycle any
unsatisfied_lem cycle = elim (Bool-cases (is_empty cycle.proof_obligation_ref_set)) [
  | inl e ↦ rw e (ground arith)
  | inr e ↦ rw e (any-unsatisfied _ cycle.proof_obligation_ref_set e)
]

and_twice_lem :
    (r q z : Bool)
    → ((r && not (q || z)) && (not q && ((r && not (q || z)) && (not false && not false))))
      ≡ (r && not (q || z))
and_twice_lem r q z = ground arith

and_once_lem : (i l : Bool) → ((i && l) && l) ≡ (l && i)
and_once_lem i l = ground arith

packet_is_claimable_lem :
    (cycle : ManagerCycleInput)
    → packet_is_claimable (build_manager_work_packet_candidate cycle) ≡ is_let_through cycle
unfolding packet_is_claimable build_manager_work_packet_candidate recompute_manager_readiness
    ready_for_claim model_route_missing
packet_is_claimable_lem cycle = rw (readiness_progress-Follows cycle).packet (
    and_twice_lem _ (manager_model_route_is_missing cycle.model_route)
      (contains cycle.model_route_state ("missing" ∷ "unknown" ∷ "" ∷ [])))

-- What a cycle needs for a packet that may be claimed.
pub record IsClaimable (cycle : ManagerCycleInput) : Type 0 where
  pub unstopped : IsUnstopped cycle
  pub reviewed : is_empty_text cycle.completion_review_ref ≡ false
  pub obligations : is_empty cycle.proof_obligation_ref_set ≡ true
  pub source_authority : cycle.source_authority_state ≡ "accepted_and_fresh"
  pub route : manager_model_route_is_missing cycle.model_route ≡ false
  pub route_state : contains cycle.model_route_state ("missing" ∷ "unknown" ∷ "" ∷ []) ≡ false

abbrev claim_tests : ManagerCycleInput → Bool
claim_tests cycle =
    goes_on cycle
    && (not (is_empty_text cycle.completion_review_ref)
        && (is_empty cycle.proof_obligation_ref_set
            && ((cycle.source_authority_state == "accepted_and_fresh")
                && not (model_route_missing cycle))))

is_let_through_lem : (cycle : ManagerCycleInput) → is_let_through cycle ≡ claim_tests cycle
unfolding completion_gate_for_cycle
is_let_through_lem cycle = rw (unsatisfied_lem cycle) (ground arith)

goes_on_iff : (cycle : ManagerCycleInput) → (goes_on cycle ≡ true) ↔ IsUnstopped cycle
goes_on_iff cycle =
    let unstopped = first_stop_projection-IsUnstopped cycle in
    let absent = is_some-none (first_stop_projection cycle) in
    (λ h. unstopped.0 (absent.1 (false_of_not h)), λ u. not_of_false (absent.0 (unstopped.1 u)))

routed_lem : (a b : Bool) → (a || b) ≡ false → (a ≡ false) × (b ≡ false)
routed_lem a b h = ground arith

-- The packet of a cycle may be claimed exactly when the cycle has no reason to stop, a completion
-- review, no proof obligation of its own, an accepted and fresh source authority state and a model
-- route: source references and an authority notice are not asked for.
pub packet_is_claimable_iff :
    (cycle : ManagerCycleInput)
    → (packet_is_claimable (build_manager_work_packet_candidate cycle) ≡ true) ↔ IsClaimable cycle
unfolding model_route_missing
packet_is_claimable_iff cycle =
    let same = packet_is_claimable_lem cycle ∙ is_let_through_lem cycle in
    let names = eq_iff cycle.source_authority_state "accepted_and_fresh" in
    (
      λ h.
          let (going, t) = both (sym same ∙ h) in
          let (reviewed, t) = both t in
          let (obligations, t) = both t in
          let (authority, routed) = both t in
          let (route, route_state) =
            routed_lem (manager_model_route_is_missing cycle.model_route)
              (contains cycle.model_route_state ("missing" ∷ "unknown" ∷ "" ∷ []))
              (false_of_not routed) in
          record {
            unstopped = (goes_on_iff cycle).0 going;
            reviewed = false_of_not reviewed;
            obligations = obligations;
            source_authority = names.0 authority;
            route = route;
            route_state = route_state;
          },
      λ c.
          same
          ∙ rw
              (
                (goes_on_iff cycle).1 c.unstopped,
                c.reviewed,
                c.obligations,
                names.1 c.source_authority,
                c.route,
                c.route_state,
              )
              refl,
    )

-- A cycle is accepted exactly when its packet may be claimed and it has source references and an
-- authority notice.
pub recompute_manager_readiness-accepted :
    (cycle : ManagerCycleInput)
    → (recompute_manager_readiness cycle).accepted ≡ (
        packet_is_claimable (build_manager_work_packet_candidate cycle)
        && (not (is_empty cycle.source_ref_set) && not (is_empty_text cycle.authority_notice_ref)))
unfolding recompute_manager_readiness
recompute_manager_readiness-accepted cycle =
    let f = readiness_progress-Follows cycle in
    rw (f.state, f.issues, packet_is_claimable_lem cycle)
      (and_once_lem (has_inputs cycle) (is_let_through cycle))
