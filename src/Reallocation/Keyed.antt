-- ===== src/Reallocation/Keyed.antt =====
-- An allocation keeps one entry for each key.
use drone_swarm_lab.Base.{
  String, List, [], ◌∷◌, contains, Result, ok, err, after, Bool-cases, inl, inr,
}
use drone_swarm_lab.Registry
use drone_swarm_lab.Registry.{TaskRegistry, RuntimeError}
use drone_swarm_lab.Registry.Ops.{apply, assign_op}
use drone_swarm_lab.Registry.Keys.{IsKeyed, apply-IsKeyed}
use drone_swarm_lab.Coordinator.{Coordinator}
use drone_swarm_lab.Coordinator.Failures.{IsWellFormed}
use drone_swarm_lab.Reallocation.{
  AllocationOutcome, Allocator, count_conflict, count_assignment, see, apply_decision,
  apply_decisions, allocate_unassigned,
}

module _ {F : Type 0} where
  -- `let _ = registry.assign(..)`
  pub assign-after-IsKeyed :
      (task_id agent_id : String) (r : TaskRegistry F)
      → IsKeyed r
      → IsKeyed (after r (Registry.assign task_id agent_id r))
  unfolding apply
  assign-after-IsKeyed task_id agent_id r h = apply-IsKeyed (assign_op task_id agent_id) r h

  apply_decision-IsKeyed :
      (seen : List String) (task_id agent_id : String) (r : TaskRegistry F)
      (out : AllocationOutcome)
      → IsKeyed r
      → IsKeyed (apply_decision seen task_id agent_id r out).0
  unfolding apply_decision
  apply_decision-IsKeyed seen task_id agent_id r out h = elim (Bool-cases (contains seen task_id)) [
    | inl twice ↦ rw (apply_decision, twice) h
    | inr first ↦
        rw (apply_decision, first)
          (of_result (Registry.assign task_id agent_id r)
            (assign-after-IsKeyed task_id agent_id r h))
  ]
    where
      of_result :
          (result : Result RuntimeError (TaskRegistry F))
          → IsKeyed (after r result)
          → IsKeyed
              (elim result as (λ _. TaskRegistry F × AllocationOutcome) [
                | err e ↦ (r, count_conflict out)
                | ok r' ↦ (r', count_assignment task_id agent_id out)
              ]).0
      of_result (ok r') k = k
      of_result (err e) k = k

  apply_decisions-IsKeyed :
      (seen : List String) (decisions : List (String × String)) (r : TaskRegistry F)
      (out : AllocationOutcome)
      → IsKeyed r
      → IsKeyed (apply_decisions seen decisions r out).0
  unfolding apply_decisions
  apply_decisions-IsKeyed seen [] r out h = h
  apply_decisions-IsKeyed seen ((task_id, agent_id) ∷ rest) r out h =
      apply_decisions-IsKeyed (see seen task_id) rest _ _
        (apply_decision-IsKeyed seen task_id agent_id r out h)

  pub allocate_unassigned-IsWellFormed :
      {S : Type 0} (zero_float : F) (allocate : Allocator F S) (c : Coordinator F) (s : S)
      → IsWellFormed c
      → IsWellFormed (allocate_unassigned zero_float allocate (c, s)).0.0
  unfolding allocate_unassigned
  allocate_unassigned-IsWellFormed zero_float allocate c s w = record {
    agents = w.agents;
    tasks = apply_decisions-IsKeyed [] _ c.registry _ w.tasks;
  }
