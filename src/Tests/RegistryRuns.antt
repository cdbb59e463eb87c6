-- ===== src/Tests/RegistryRuns.antt =====
-- The registry at concrete inputs.
use drone_swarm_lab.Base.{
  ℕ, ◌≡◌, refl, ◌⊎◌, true, none, some, List, [], ◌∷◌, arith, ok, err, contains, map, filter, any,
}
use drone_swarm_lab.HashMap
use drone_swarm_lab.HashMap.Laws.{AllEntries}
use drone_swarm_lab.Types.TaskStatus.{assigned, completed}
use drone_swarm_lab.Registry.{
  insert, assign, start, complete, fail_task, release_task, expire_tasks, release_agent_tasks,
  unassigned_tasks, complete_assigned_task, invalid_transition,
}
use drone_swarm_lab.Registry.Ops.{
  Op, insert_op, assign_op, start_op, complete_op, fail_op, release_agent_op, expire_op, apply, run,
}
use drone_swarm_lab.Registry.Keys.{IsKeyed, apply-IsKeyed}
use drone_swarm_lab.Registry.Lifecycle.{Evolves, apply-Evolves}
use drone_swarm_lab.Registry.Outcomes.{assign_write, release-assign}
use drone_swarm_lab.Registry.Ownership.{IsOwned, Owned, AllInsertsOwned, run-Owned}
use drone_swarm_lab.Registry.Terminal.{terminal_forever}
use drone_swarm_lab.Registry.Release.{completed_still_listed}
use drone_swarm_lab.Tests.Data.{busy, free, done, registry}

pub registry-IsKeyed : IsKeyed registry
unfolding HashMap.get
registry-IsKeyed = record {
  unique = (refl, (refl, (refl, (refl, tt))));
  keyed = (refl, (refl, (refl, (refl, tt))));
}

get-busy : HashMap.get "t0" registry.tasks ≡ some busy
unfolding HashMap.get
get-busy = refl

get-done : HashMap.get "t3" registry.tasks ≡ some done
unfolding HashMap.get
get-done = refl

registry-Owned : AllEntries Owned registry.tasks
registry-Owned = ground arith

-- A day of operations: t1 comes in again, t1 is taken and started, t0 finishes, a0 is lost, and t2 expires.
abbrev day : List (Op ℕ)
day =
    insert_op free
    ∷ assign_op "t1" "a0"
    ∷ start_op "t1"
    ∷ complete_op "t0"
    ∷ release_agent_op "a0"
    ∷ expire_op 6
    ∷ fail_op "t3"
    ∷ []

day_ends :
    (run day registry).tasks
    ≡ ("t0", record busy { status = completed }) ∷ ("t1", free) ∷ ("t3", done) ∷ []
unfolding run apply insert assign HashMap.insert start complete fail_task release_agent_tasks
    expire_tasks HashMap.get HashMap.modify HashMap.map_values HashMap.remove HashMap.values filter
day_ends = refl

apply-Evolves_example :
    Evolves busy (HashMap.get "t0" (apply (release_agent_op "a1") registry).tasks)
apply-Evolves_example =
    apply-Evolves (release_agent_op "a1") registry "t0" busy registry-IsKeyed get-busy refl

terminal_forever_example :
    (HashMap.get "t3" (run day registry).tasks ≡ none)
    ⊎ (HashMap.get "t3" (run day registry).tasks ≡ some done)
unfolding any
terminal_forever_example =
    terminal_forever day registry "t3" done registry-IsKeyed get-done refl refl

free-IsOwned : IsOwned free
free-IsOwned = record { free = λ e. refl; held = ground arith }

day-Owned : AllInsertsOwned day
day-Owned = (free-IsOwned, (tt, (tt, (tt, (tt, (tt, (tt, tt)))))))

run-Owned_example : AllEntries Owned (run day registry).tasks
run-Owned_example = run-Owned day registry day-Owned registry-Owned

apply-IsKeyed_example : IsKeyed (apply (expire_op 6) registry)
apply-IsKeyed_example = apply-IsKeyed (expire_op 6) registry registry-IsKeyed

assign_free : assign "t1" "a0" registry ≡ ok (assign_write "t1" "a0" registry)
unfolding assign HashMap.get
assign_free = refl

release-assign_example : release_task "t1" (assign_write "t1" "a0" registry) ≡ (registry, some "a0")
release-assign_example =
    release-assign "t1" "a0" registry (assign_write "t1" "a0" registry) assign_free

completed_still_listed_example :
    (contains (map (λ x. x.id) (unassigned_tasks (complete_assigned_task "t0" registry).0)) "t0"
      ≡ true)
    × (assign "t0" "a0" (complete_assigned_task "t0" registry).0
        ≡ err (invalid_transition completed assigned))
completed_still_listed_example =
    completed_still_listed "t0" "a0" registry busy registry-IsKeyed get-busy refl
