-- ===== src/Manager/Readiness/Follows.antt =====
-- How far the recomputation of a cycle goes: its states and its issues agree with the tests.
use lang_sop.Base.{
  both, false_of_not, if◌then◌else◌, ◌≡◌, refl, Bool, true, false, not, ◌&&◌, Option, none, some,
  [], ◌∷◌, is_empty, is_empty_text, is_some, is_empty-append, arith,
}
use lang_sop.Manager.Vocabulary.{ManagerReadinessState, ManagerWorkPacketState}
use lang_sop.Manager.Records.{ManagerCycleInput, ManagerIssue}
use lang_sop.Manager.Fields.{manager_work_packet_state_is_ready_for_claim}
use lang_sop.Manager.Obligations.{completion_gate_for_cycle}
use lang_sop.Manager.Stops.{first_stop_projection, model_route_missing}
use lang_sop.Manager.Readiness.{
  Progress, manager_readiness_state_is_ready_for_claim, input_progress, stop_progress, bypass,
  unsatisfied, readiness_progress,
}

abbrev pub is_ready : Progress → Bool
is_ready p = manager_readiness_state_is_ready_for_claim p.readiness_state

abbrev pub is_packet_ready : Progress → Bool
is_packet_ready p = manager_work_packet_state_is_ready_for_claim p.packet_state

-- A progress whose states are both ready or both not, with whether it has no issue.
pub record Follows (p : Progress) (ready without_issue : Bool) : Type 0 where
  pub state : is_ready p ≡ ready
  pub packet : is_packet_ready p ≡ ready
  pub issues : is_empty p.issues ≡ without_issue

bypass-Follows :
    (found : Bool) (issue : ManagerIssue) (state : ManagerReadinessState) (p : Progress)
    (r e : Bool)
    → manager_readiness_state_is_ready_for_claim state ≡ false
    → Follows p r e
    → Follows (bypass found issue state p) (r && not found) (e && not (r && found))
unfolding bypass
bypass-Follows true issue state p true e h f = rw f.state (record {
  state = h;
  packet = refl;
  issues = ground (arith, is_empty-append p.issues (issue ∷ []));
})
bypass-Follows true issue state p false e h f =
    rw f.state (record { state = f.state; packet = f.packet; issues = ground (arith, f.issues) })
bypass-Follows false issue state p r e h f = record {
  state = ground (arith, f.state);
  packet = ground (arith, f.packet);
  issues = ground (arith, f.issues);
}

abbrev stopped : ManagerCycleInput → Progress
stopped cycle = stop_progress (first_stop_projection cycle) (input_progress cycle)

abbrev Stop : Type 0
Stop = ManagerReadinessState × ManagerWorkPacketState × ManagerIssue

-- A stop leaves neither the cycle nor its packet ready.
data NeverReady : Option Stop → Type 0 where
  nothing : NeverReady none
  stop :
      (r : ManagerReadinessState) (k : ManagerWorkPacketState) (issue : ManagerIssue)
      → manager_readiness_state_is_ready_for_claim r ≡ false
      → manager_work_packet_state_is_ready_for_claim k ≡ false
      → NeverReady (some (r, k, issue))

abbrev never_ready : Option Stop → Bool
never_ready none = true
never_ready (some (r, k, issue)) =
    not (manager_readiness_state_is_ready_for_claim r)
    && not (manager_work_packet_state_is_ready_for_claim k)

never_ready-if :
    (b : Bool) (o p : Option Stop)
    → never_ready (if b then o else p) ≡ (if b then never_ready o else never_ready p)
never_ready-if true o p = refl
never_ready-if false o p = refl

if_same : (b : Bool) → (if b then true else true) ≡ true
if_same true = refl
if_same false = refl

NeverReady-tested : (o : Option Stop) → never_ready o ≡ true → NeverReady o
NeverReady-tested none h = nothing
NeverReady-tested (some (r, k, issue)) h =
    let (readiness, packet) = both h in
    stop r k issue (false_of_not readiness) (false_of_not packet)

never_ready-first_stop_projection :
    (cycle : ManagerCycleInput) → never_ready (first_stop_projection cycle) ≡ true
unfolding first_stop_projection
never_ready-first_stop_projection cycle = simp (never_ready-if, if_same)

first_stop_projection-NeverReady :
    (cycle : ManagerCycleInput) → NeverReady (first_stop_projection cycle)
first_stop_projection-NeverReady cycle =
    NeverReady-tested (first_stop_projection cycle) (never_ready-first_stop_projection cycle)

abbrev pub has_inputs : ManagerCycleInput → Bool
has_inputs cycle =
    not (is_empty cycle.source_ref_set) && not (is_empty_text cycle.authority_notice_ref)

stop_progress-Follows :
    (o : Option Stop) (p : Progress) (e : Bool)
    → NeverReady o
    → Follows p true e
    → Follows (stop_progress o p) (not (is_some o)) (e && not (is_some o))
unfolding stop_progress
stop_progress-Follows o p e nothing f = record {
  state = f.state;
  packet = f.packet;
  issues = ground (arith, f.issues);
}
stop_progress-Follows o p e (stop r k issue hr hk) f = record {
  state = hr;
  packet = hk;
  issues = ground (arith, is_empty-append p.issues (issue ∷ []));
}

input_progress-Follows :
    (cycle : ManagerCycleInput) → Follows (input_progress cycle) true (has_inputs cycle)
unfolding input_progress
input_progress-Follows cycle = record { state = refl; packet = refl; issues = ground arith }

abbrev pub goes_on : ManagerCycleInput → Bool
goes_on cycle = not (is_some (first_stop_projection cycle))

-- The tests of the recomputation, each with the negation that the code has.
abbrev pub is_let_through : ManagerCycleInput → Bool
is_let_through cycle =
    ((goes_on cycle && not (not (completion_gate_for_cycle cycle).opened))
      && not (unsatisfied cycle))
    && not (model_route_missing cycle)

no_issue_lem :
    (i g o u m : Bool)
    → ((((i && g) && not (g && not o)) && not ((g && not (not o)) && u))
        && not (((g && not (not o)) && not u) && m))
      ≡ (i && (((g && not (not o)) && not u) && not m))
no_issue_lem i g o u m = ground arith

pub readiness_progress-Follows :
    (cycle : ManagerCycleInput)
    → Follows
        (readiness_progress cycle)
        (is_let_through cycle)
        (has_inputs cycle && is_let_through cycle)
unfolding readiness_progress
readiness_progress-Follows cycle =
    rw
      (← no_issue_lem (has_inputs cycle) (goes_on cycle) (completion_gate_for_cycle cycle).opened
        (unsatisfied cycle) (model_route_missing cycle))
      (bypass-Follows _ _ _ _ _ _ refl (
        bypass-Follows _ _ _ _ _ _ refl (
          bypass-Follows _ _ _ _ _ _ refl (
            stop_progress-Follows (first_stop_projection cycle) (input_progress cycle)
              (has_inputs cycle) (first_stop_projection-NeverReady cycle)
              (input_progress-Follows cycle)))))
