-- ===== src/Coordinator/Failures.antt =====
-- coordinator.rs: the loop over the failed agents, table by table.
use drone_swarm_lab.Base.{
  ℕ, String, ◌≡◌, refl, ◌∙◌, ap, Bool, false, ◌||◌, Option, none, some, List, [], ◌∷◌, arith,
  contains, any, contains-append, if◌then◌else◌, Bool-cases, inl, inr,
}
use drone_swarm_lab.HashMap
use drone_swarm_lab.HashMap.Laws.{UniqueKeys, map_option, get-modify, modify-UniqueKeys}
use drone_swarm_lab.Types.{Task}
use drone_swarm_lab.Types.Health.{dead}
use drone_swarm_lab.Types.TaskStatus.{unassigned}
use drone_swarm_lab.Registry
use drone_swarm_lab.Registry.{
  TaskRegistry, is_held_by, release_if_held, release_agent_tasks, is_expired,
}
use drone_swarm_lab.Registry.Keys.{IsKeyed, insert-IsKeyed, release_agent_tasks-IsKeyed, test_at}
use drone_swarm_lab.Registry.Release.{release_agent_tasks_lem, get-release_agent_tasks}
use drone_swarm_lab.Membership.{AgentEntry, mark_dead}
use drone_swarm_lab.Coordinator.{Coordinator, inject_all, fail_agent, fail_agents}

-- Both tables of the coordinator have one entry for each key.
pub record IsWellFormed {F : Type 0} (c : Coordinator F) : Type 0 where
  pub agents : UniqueKeys c.membership.agents
  pub tasks : IsKeyed c.registry

module _ {F : Type 0} where
  pub inject_all-membership :
      (ts : List (Task F)) (c : Coordinator F)
      → ((inject_all ts c).membership ≡ c.membership) × ((inject_all ts c).detector ≡ c.detector)
  unfolding inject_all
  inject_all-membership [] c = (refl, refl)
  inject_all-membership (t ∷ ts) c =
      inject_all-membership ts (record c { registry = Registry.insert t c.registry })

  pub inject_all-IsWellFormed :
      (ts : List (Task F)) (c : Coordinator F) → IsWellFormed c → IsWellFormed (inject_all ts c)
  unfolding inject_all
  inject_all-IsWellFormed [] c w = w
  inject_all-IsWellFormed (t ∷ ts) c w =
      inject_all-IsWellFormed ts _
        (record { agents = w.agents; tasks = insert-IsKeyed t c.registry w.tasks })

  fail_agent-IsWellFormed :
      (now : ℕ) (a : String) (c : Coordinator F)
      → IsWellFormed c
      → IsWellFormed (fail_agent now a c).0
  unfolding fail_agent mark_dead
  fail_agent-IsWellFormed now a c w = record {
    agents = modify-UniqueKeys a _ c.membership.agents w.agents;
    tasks = release_agent_tasks-IsKeyed a c.registry w.tasks;
  }

  pub fail_agents-IsWellFormed :
      (now : ℕ) (agents : List String) (c : Coordinator F)
      → IsWellFormed c
      → IsWellFormed (fail_agents now agents c).0
  unfolding fail_agents
  fail_agents-IsWellFormed now [] c w = w
  fail_agents-IsWellFormed now (a ∷ agents) c w =
      fail_agents-IsWellFormed now agents (fail_agent now a c).0 (fail_agent-IsWellFormed now a c w)

  -- The entry of an agent after the failures.
  pub get-fail_agents :
      (now : ℕ) (agents : List String) (c : Coordinator F) (k : String)
      → HashMap.get k (fail_agents now agents c).0.membership.agents ≡ (
          if contains agents k
          then map_option {A = AgentEntry F}
              (λ e. record e { health = dead })
              (HashMap.get k c.membership.agents)
          else HashMap.get k c.membership.agents)
  unfolding fail_agents fail_agent mark_dead contains
  get-fail_agents now [] c k = refl
  get-fail_agents now (a ∷ agents) c k = ground (
    arith,
    get-fail_agents now agents (fail_agent now a c).0 k,
    get-modify a k (λ e. record e { health = dead }) c.membership.agents,
  )

  -- A task that one of the agents holds.
  abbrev pub held_by_any : List String → Task F → Bool
  held_by_any agents t = any (λ a. is_held_by a t) agents

  abbrev pub release_if_lost : List String → Task F → Task F
  release_if_lost agents t =
      if held_by_any agents t then record t { status = unassigned; assigned_to = none } else t

  free_not_held :
      (a : String) (t : Task F)
      → is_held_by a (record t { status = unassigned; assigned_to = none }) ≡ false
  unfolding is_held_by
  free_not_held a t = refl

  free_not_held_any :
      (agents : List String) (t : Task F)
      → held_by_any agents (record t { status = unassigned; assigned_to = none }) ≡ false
  unfolding any
  free_not_held_any [] t = refl
  free_not_held_any (a ∷ agents) t = rw (free_not_held a t) (free_not_held_any agents t)

  release_step :
      (a : String) (agents : List String) (t : Task F)
      → release_if_lost agents (release_if_held a t) ≡ release_if_lost (a ∷ agents) t
  unfolding release_if_held any
  release_step a agents t = elim (Bool-cases (is_held_by a t)) [
    | inl held ↦ rw held (rw (free_not_held_any agents t))
    | inr free ↦ rw free
  ]

  lost_nil : (o : Option (Task F)) → o ≡ map_option (release_if_lost []) o
  unfolding any
  lost_nil none = refl
  lost_nil (some t) = refl

  lost_cons :
      (a : String) (agents : List String) (o : Option (Task F))
      → map_option (release_if_lost agents) (map_option (release_if_held a) o)
        ≡ map_option (release_if_lost (a ∷ agents)) o
  lost_cons a agents none = refl
  lost_cons a agents (some t) = ap some (release_step a agents t)

  held_nil : (o : Option (Task F)) → false ≡ test_at (held_by_any []) o
  unfolding any
  held_nil none = refl
  held_nil (some t) = refl

  held_cons :
      (a : String) (agents : List String) (o : Option (Task F))
      → (test_at (is_held_by a) o
          || test_at (held_by_any agents) (map_option (release_if_held a) o))
        ≡ test_at (held_by_any (a ∷ agents)) o
  held_cons a agents none = refl
  held_cons a agents (some t) =
      unfold release_if_held any in
      elim (Bool-cases (is_held_by a t)) [ inl held ↦ rw held | inr free ↦ rw free ]

  -- The task under a key after the failures.
  pub get-fail_agents_task :
      (now : ℕ) (agents : List String) (c : Coordinator F) (k : String)
      → HashMap.get k (fail_agents now agents c).0.registry.tasks
        ≡ map_option (release_if_lost agents) (HashMap.get k c.registry.tasks)
  unfolding fail_agents fail_agent
  get-fail_agents_task now [] c k = lost_nil (HashMap.get k c.registry.tasks)
  get-fail_agents_task now (a ∷ agents) c k =
      get-fail_agents_task now agents (fail_agent now a c).0 k
      ∙ ap (map_option (release_if_lost agents)) (get-release_agent_tasks a k c.registry)
      ∙ lost_cons a agents (HashMap.get k c.registry.tasks)

  -- Which tasks the failures release.
  pub contains-released :
      (now : ℕ) (agents : List String) (c : Coordinator F) (k : String)
      → IsWellFormed c
      → contains (fail_agents now agents c).1 k
        ≡ test_at (held_by_any agents) (HashMap.get k c.registry.tasks)
  unfolding fail_agents contains
  contains-released now [] c k w = held_nil (HashMap.get k c.registry.tasks)
  contains-released now (a ∷ agents) c k w =
      let c' : Coordinator F = (fail_agent now a c).0 in
      contains-append (fail_agent now a c).1.released_tasks (fail_agents now agents c').1 k
      ∙ rw (contains-released now agents c' k (fail_agent-IsWellFormed now a c w)) (
          unfold fail_agent in
          rw
            (
              (release_agent_tasks_lem a k c.registry w.tasks).0,
              get-release_agent_tasks a k c.registry,
            )
            (held_cons a agents (HashMap.get k c.registry.tasks)))
