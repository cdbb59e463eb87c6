-- ===== src/Membership/Detection.antt =====
-- failure.rs: which agents the detector reports.
use drone_swarm_lab.Base.{ℕ, ◌-◌, String, ◌≡◌, ◌∙◌, ap, Bool, ◌&&◌, ltb, contains, map}
use drone_swarm_lab.HashMap
use drone_swarm_lab.HashMap.Laws.{UniqueKeys}
use drone_swarm_lab.HashMap.Keys.{test_value, contains-keys, filter-filter}
use drone_swarm_lab.Types.{is_alive_health}
use drone_swarm_lab.Membership.{AgentEntry, MembershipView, FailureDetector, detect}

module _ {F : Type 0} where
  -- An agent whose failure is due.
  abbrev pub is_silent : FailureDetector → ℕ → AgentEntry F → Bool
  is_silent d now e = is_alive_health e.health && ltb d.timeout_ticks (now - e.last_heartbeat_tick)

  -- The detector reports exactly the agents that are alive and whose last heartbeat is more than
  -- the timeout ago.
  pub contains-detect :
      (d : FailureDetector) (v : MembershipView F) (now : ℕ) (k : String)
      → UniqueKeys v.agents
      → contains (detect d v now) k ≡ test_value (is_silent d now) (HashMap.get k v.agents)
  unfolding detect
  contains-detect d v now k u =
      ap (λ l. contains (map (λ e. e.0) l) k) (filter-filter _ _ v.agents)
      ∙ contains-keys (is_silent d now) k v.agents u
