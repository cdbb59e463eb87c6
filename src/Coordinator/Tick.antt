-- ===== src/Coordinator/Tick.antt =====
-- coordinator.rs: a whole tick.
use drone_swarm_lab.Base.{
  ℕ, String, ◌≡◌, ◌≢◌, ◌≤◌, ◌↔◌, ◌∙◌, ap, sym, refl, Bool, true, false, Option, none, some, inl,
  inr, List, arith, contains, if◌then◌else◌, Option-cases,
}
use drone_swarm_lab.HashMap
use drone_swarm_lab.HashMap.Laws.{map_option}
use drone_swarm_lab.HashMap.Keys.{test_value}
use drone_swarm_lab.Types.{Task, is_alive_health}
use drone_swarm_lab.Types.Health.{dead}
use drone_swarm_lab.Types.TaskStatus.{in_progress}
use drone_swarm_lab.Registry.{is_expired}
use drone_swarm_lab.Registry.Keys.{expire_tasks-IsKeyed, test_at, get-expire_tasks}
use drone_swarm_lab.Membership.{AgentEntry, FailureDetector, detect}
use drone_swarm_lab.Membership.Detection.{is_silent, contains-detect}
use drone_swarm_lab.Coordinator.{Coordinator, inject_all, fail_agents, process_tick}
use drone_swarm_lab.Coordinator.Failures.{
  IsWellFormed, inject_all-membership, inject_all-IsWellFormed, fail_agents-IsWellFormed,
  get-fail_agents, held_by_any, release_if_lost, get-fail_agents_task, contains-released,
}

module _ {F : Type 0} where
  -- The coordinator after the injections, and the agents that the detector then reports.
  abbrev pub injected : List (Task F) → Coordinator F → Coordinator F
  injected tasks c = inject_all tasks c

  abbrev pub failed_agents : ℕ → List (Task F) → Coordinator F → List String
  failed_agents now tasks c = detect (injected tasks c).detector (injected tasks c).membership now

  abbrev pub unless_expired : ℕ → Option (Task F) → Option (Task F)
  unless_expired now o = if test_at (is_expired now) o then none else o

  -- There is a task whose expiry tick has come and that is not in progress.
  abbrev pub Lapsed : ℕ → Option (Task F) → Type 0
  Lapsed now o =
      (t : Task F) × (expiry : ℕ) × (o ≡ some t)
      × (t.expires_at ≡ some expiry)
      × (expiry ≤ now)
      × (t.status ≢ in_progress)

  expired-Lapsed :
      (now : ℕ) (o : Option (Task F)) → test_at (is_expired now) o ≡ true → Lapsed now o
  unfolding is_expired
  expired-Lapsed now none h = ground arith
  expired-Lapsed now (some t) h = elim (Option-cases t.expires_at) [
    | inl never ↦ ground (arith, never, h)
    | inr (e, some_time) ↦
        (t, e, refl, some_time, ground (arith, some_time, h), ground (arith, some_time, h))
  ]

  Lapsed-expired :
      (now : ℕ) (o : Option (Task F)) → Lapsed now o → test_at (is_expired now) o ≡ true
  unfolding is_expired
  Lapsed-expired now o (t, e, there, some_time, past, idle) = ground (arith, there, some_time)

  silenced :
      (now : ℕ) (failed : Bool) (o : Option (AgentEntry F)) (d : FailureDetector)
      → failed ≡ test_value (is_silent d now) o
      → test_value
          (is_silent d now)
          (if failed then map_option {A = AgentEntry F} (λ e. record e { health = dead }) o else o)
        ≡ false
  silenced now failed none d h = ground arith
  silenced now failed (some e) d h = unfold is_alive_health in ground arith

module _ {F : Type 0} (now : ℕ) (tasks : List (Task F)) (c : Coordinator F)
    (w : IsWellFormed c) where
  injected-IsWellFormed : IsWellFormed (injected tasks c)
  injected-IsWellFormed = inject_all-IsWellFormed tasks c w

  failed-IsWellFormed :
      IsWellFormed (fail_agents now (failed_agents now tasks c) (injected tasks c)).0
  failed-IsWellFormed =
      fail_agents-IsWellFormed now (failed_agents now tasks c) (injected tasks c)
        injected-IsWellFormed

  -- A tick keeps both tables keyed.
  pub process_tick-IsWellFormed : IsWellFormed (process_tick now tasks c).0
  unfolding process_tick
  process_tick-IsWellFormed = record {
    agents = failed-IsWellFormed.agents;
    tasks = expire_tasks-IsKeyed now _ failed-IsWellFormed.tasks;
  }

  contains-failed :
      (k : String)
      → contains (failed_agents now tasks c) k
        ≡ test_value (is_silent c.detector now) (HashMap.get k c.membership.agents)
  contains-failed k =
      let same = inject_all-membership tasks c in
      contains-detect (injected tasks c).detector (injected tasks c).membership now k
        injected-IsWellFormed.agents
      ∙ (λ i. test_value (is_silent (same.1 i) now) (HashMap.get k (same.0 i).agents))

  -- A tick reports as failed exactly the agents that count as alive and whose last heartbeat is
  -- more than the timeout ago. It marks those dead and leaves every other entry as it was, and
  -- afterwards no such agent is left.
  pub process_tick_agents :
      (k : String)
      → (contains (process_tick now tasks c).1.newly_failed k
          ≡ test_value (is_silent c.detector now) (HashMap.get k c.membership.agents))
        × (HashMap.get k (process_tick now tasks c).0.membership.agents ≡ (
            if contains (process_tick now tasks c).1.newly_failed k
            then map_option {A = AgentEntry F}
                (λ e. record e { health = dead })
                (HashMap.get k c.membership.agents)
            else HashMap.get k c.membership.agents))
        × (test_value
              (is_silent c.detector now)
              (HashMap.get k (process_tick now tasks c).0.membership.agents)
            ≡ false)
  unfolding process_tick
  process_tick_agents k =
      let there =
        get-fail_agents now (failed_agents now tasks c) (injected tasks c) k
        ∙ ap
            (λ v.
              if contains (failed_agents now tasks c) k
              then map_option {A = AgentEntry F} (λ e. record e { health = dead })
                  (HashMap.get k v.agents)
              else HashMap.get k v.agents)
            (inject_all-membership tasks c).0 in
      (
        contains-failed k,
        there,
        rw there
            (silenced now _ (HashMap.get k c.membership.agents) c.detector (contains-failed k)),
      )

  -- If both tables have one entry for each key, and task keys equal to task ids: a tick releases a
  -- task, injected or there before, exactly if a newly failed agent held it, and then drops it
  -- exactly if its expiry tick has come and it is not in progress, whether unassigned, assigned,
  -- completed or failed. Its output lists exactly the released and the dropped ids.
  pub process_tick_tasks :
      (k : String)
      → (HashMap.get k (process_tick now tasks c).0.registry.tasks ≡ (
          if contains (process_tick now tasks c).1.expired_task_ids k
          then none
          else map_option
              (release_if_lost (process_tick now tasks c).1.newly_failed)
              (HashMap.get k (injected tasks c).registry.tasks)))
        × (contains (process_tick now tasks c).1.released_tasks k
            ≡ test_at
                (held_by_any (process_tick now tasks c).1.newly_failed)
                (HashMap.get k (injected tasks c).registry.tasks))
        × ((contains (process_tick now tasks c).1.expired_task_ids k ≡ true)
            ↔ Lapsed now (
                map_option
                  (release_if_lost (process_tick now tasks c).1.newly_failed)
                  (HashMap.get k (injected tasks c).registry.tasks)))
  unfolding process_tick
  process_tick_tasks k =
      let agents = failed_agents now tasks c in
      let there = get-fail_agents_task now agents (injected tasks c) k in
      let kept =
        get-expire_tasks now k (fail_agents now agents (injected tasks c)).0.registry
          failed-IsWellFormed.tasks in
      let reported = kept.1 ∙ ap (test_at (is_expired now)) there in
      (
        kept.0
            ∙ ap (unless_expired now) there
            ∙ ap
                (λ b.
                  if b
                  then none
                  else map_option (release_if_lost agents)
                      (HashMap.get k (injected tasks c).registry.tasks))
                (sym reported),
        contains-released now agents (injected tasks c) k injected-IsWellFormed,
        (λ h. expired-Lapsed now _ (sym reported ∙ h), λ l. reported ∙ Lapsed-expired now _ l),
      )
