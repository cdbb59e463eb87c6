-- ===== src/Registry/Keys.antt =====
-- task_registry.rs: the keys of the table, and the ids of its tasks.
use drone_swarm_lab.Base.{
  ℕ, String, ◌≡◌, refl, ap, ◌∙◌, inl, inr, Bool, false, Option, none, some, List, [], ◌∷◌, arith,
  after, eq_iff, if◌then◌else◌, filter, contains, map,
}
use drone_swarm_lab.HashMap
use drone_swarm_lab.HashMap.{HashMap}
use drone_swarm_lab.HashMap.Laws.{
  UniqueKeys, AllEntries, get-remove, insert-UniqueKeys, remove-UniqueKeys, modify-UniqueKeys,
  map_values-UniqueKeys, AllEntries-insert, AllEntries-remove, AllEntries-modify,
  AllEntries-map_values,
}
use drone_swarm_lab.Types.{Task, TaskStatus}
use drone_swarm_lab.Registry.Outcomes.{assign_outcomes}
use drone_swarm_lab.Registry.Ops.{
  Op, insert_op, assign_op, start_op, complete_op, fail_op, release_op, finish_op, release_agent_op,
  expire_op, apply,
}
use drone_swarm_lab.Types.TaskStatus.{unassigned, assigned, in_progress, completed, failed}
use drone_swarm_lab.Registry.{
  assign, start, complete, fail_task, transition, take_owner, release_task, complete_assigned_task,
  TaskRegistry, new, insert, collect, write, remove_all, release_agent_tasks, release_if_held,
  is_expired, expired_ids, expire_tasks,
}

module _ {F : Type 0} where
  abbrev pub HasKey : String → Task F → Type 0
  HasKey k t = t.id ≡ k

  abbrev pub test_at : (Task F → Bool) → Option (Task F) → Bool
  test_at p none = false
  test_at p (some t) = p t

  pub contains-ids :
      (p : Task F → Bool) (k : String) (m : HashMap (Task F))
      → UniqueKeys m
      → AllEntries HasKey m
      → contains (map (λ t. t.id) (filter p (HashMap.values m))) k ≡ test_at p (HashMap.get k m)
  unfolding filter contains HashMap.values HashMap.get
  contains-ids p k [] u a = refl
  contains-ids p k ((i, w) ∷ m) u a =
      ground (arith, contains-ids p k m u.1 a.1, eq_iff i k, eq_iff w.id k)

  pub get-remove_all :
      (ids : List String) (k : String) (m : HashMap (Task F))
      → HashMap.get k (remove_all ids m) ≡ (if contains ids k then none else HashMap.get k m)
  unfolding remove_all contains
  get-remove_all [] k m = refl
  get-remove_all (i ∷ ids) k m =
      ground (arith, get-remove_all ids k (HashMap.remove i m), get-remove i k m)

-- The table is keyed by the ids of its tasks.
pub record IsKeyed {F : Type 0} (r : TaskRegistry F) : Type 0 where
  pub unique : UniqueKeys r.tasks
  pub keyed : AllEntries HasKey r.tasks

module _ {F : Type 0} where
  -- What `expire_tasks` leaves under a key, and what it reports.
  pub get-expire_tasks :
      (now : ℕ) (k : String) (r : TaskRegistry F)
      → IsKeyed r
      → (HashMap.get k (expire_tasks now r).0.tasks ≡ (
          if test_at (is_expired now) (HashMap.get k r.tasks) then none else HashMap.get k r.tasks))
        × (contains (expire_tasks now r).1 k ≡ test_at (is_expired now) (HashMap.get k r.tasks))
  unfolding expire_tasks
  get-expire_tasks now k r h =
      let reported = contains-ids (is_expired now) k r.tasks h.unique h.keyed in
      (
        get-remove_all (expired_ids now r) k r.tasks
            ∙ ap (λ b. if b then none else HashMap.get k r.tasks) reported,
        reported,
      )

  collect-IsKeyed :
      (ts : List (Task F)) (m : HashMap (Task F))
      → IsKeyed (record { tasks = m })
      → IsKeyed (record { tasks = collect ts m })
  unfolding collect
  collect-IsKeyed [] m h = h
  collect-IsKeyed (t ∷ ts) m h = collect-IsKeyed ts (HashMap.insert t.id t m) (record {
    unique = insert-UniqueKeys t.id t m h.unique;
    keyed = AllEntries-insert HasKey t.id t m refl h.keyed;
  })

  pub new-IsKeyed : (ts : List (Task F)) → IsKeyed (new ts)
  unfolding new
  new-IsKeyed ts = collect-IsKeyed ts [] (record { unique = tt; keyed = tt })

  pub insert-IsKeyed : (t : Task F) (r : TaskRegistry F) → IsKeyed r → IsKeyed (insert t r)
  unfolding insert
  insert-IsKeyed t r h = record {
    unique = insert-UniqueKeys t.id t r.tasks h.unique;
    keyed = AllEntries-insert HasKey t.id t r.tasks refl h.keyed;
  }

  -- A write that keeps ids keeps the table keyed.
  pub write-IsKeyed :
      (k : String) (f : Task F → Task F) (r : TaskRegistry F)
      → ((t : Task F) → (f t).id ≡ t.id)
      → IsKeyed r
      → IsKeyed (write k f r)
  write-IsKeyed k f r same h = record {
    unique = modify-UniqueKeys k f r.tasks h.unique;
    keyed = AllEntries-modify HasKey k f r.tasks (λ t _ e. same t ∙ e) h.keyed;
  }

  pub release_agent_tasks-IsKeyed :
      (agent : String) (r : TaskRegistry F) → IsKeyed r → IsKeyed (release_agent_tasks agent r).0
  unfolding release_agent_tasks
  release_agent_tasks-IsKeyed agent r h = record {
    unique = map_values-UniqueKeys (release_if_held agent) r.tasks h.unique;
    keyed =
        AllEntries-map_values HasKey (release_if_held agent) r.tasks (λ k t e. ground (arith, e))
          h.keyed;
  }

  remove_all-IsKeyed :
      (ids : List String) (m : HashMap (Task F))
      → IsKeyed (record { tasks = m })
      → IsKeyed (record { tasks = remove_all ids m })
  unfolding remove_all
  remove_all-IsKeyed [] m h = h
  remove_all-IsKeyed (i ∷ ids) m h = remove_all-IsKeyed ids (HashMap.remove i m) (record {
    unique = remove-UniqueKeys i m h.unique;
    keyed = AllEntries-remove HasKey i m h.keyed;
  })

  pub expire_tasks-IsKeyed :
      (now : ℕ) (r : TaskRegistry F) → IsKeyed r → IsKeyed (expire_tasks now r).0
  unfolding expire_tasks
  expire_tasks-IsKeyed now r h = remove_all-IsKeyed (expired_ids now r) r.tasks h

  pub transition-IsKeyed :
      (k : String) (allowed : List TaskStatus) (s : TaskStatus) (r : TaskRegistry F)
      → IsKeyed r
      → IsKeyed (after r (transition k allowed s r))
  unfolding transition
  transition-IsKeyed k allowed s r h =
      ground (arith, write-IsKeyed k (λ t. record t { status = s }) r (λ t. refl) h)

  pub take_owner-IsKeyed :
      (k : String) (s : TaskStatus) (r : TaskRegistry F) → IsKeyed r → IsKeyed (take_owner s k r).0
  unfolding take_owner
  take_owner-IsKeyed k s r h =
      ground
        (arith, write-IsKeyed k (λ t. record t { status = s; assigned_to = none }) r (λ t. refl) h)

  pub assign-IsKeyed :
      (k agent : String) (r : TaskRegistry F) → IsKeyed r → IsKeyed (after r (assign k agent r))
  assign-IsKeyed k agent r h = elim (assign_outcomes k agent r) [
    | inl (f, a) ↦ rw a h
    | inr (inl (u, f, c, a)) ↦ rw a h
    | inr (inr (u, f, o, a)) ↦ rw a (write-IsKeyed k _ r (λ t. refl) h)
  ]

  pub apply-IsKeyed : (op : Op F) (r : TaskRegistry F) → IsKeyed r → IsKeyed (apply op r)
  unfolding apply start complete fail_task release_task complete_assigned_task
  apply-IsKeyed (insert_op task) r h = insert-IsKeyed task r h
  apply-IsKeyed (assign_op k agent) r h = assign-IsKeyed k agent r h
  apply-IsKeyed (start_op k) r h = transition-IsKeyed k (assigned ∷ []) in_progress r h
  apply-IsKeyed (complete_op k) r h = transition-IsKeyed k (in_progress ∷ []) completed r h
  apply-IsKeyed (fail_op k) r h = transition-IsKeyed k (assigned ∷ in_progress ∷ []) failed r h
  apply-IsKeyed (release_op k) r h = take_owner-IsKeyed k unassigned r h
  apply-IsKeyed (finish_op k) r h = take_owner-IsKeyed k completed r h
  apply-IsKeyed (release_agent_op agent) r h = release_agent_tasks-IsKeyed agent r h
  apply-IsKeyed (expire_op now) r h = expire_tasks-IsKeyed now r h
