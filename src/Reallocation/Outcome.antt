-- ===== src/Reallocation/Outcome.antt =====
-- node/reallocation.rs: the outcome of an allocation, and the registry after it.
use drone_swarm_lab.Base.{
  ℕ, ◌+◌, String, ◌≡◌, refl, ◌∙◌, ap, true, false, some, List, [], ◌∷◌, ◌++◌, arith, length,
  length-append, contains, All, All-append, Bool-cases, inl, inr, eq_iff, eq_refl, subst, map,
  Distinct, Distinct-snoc,
}
use drone_swarm_lab.HashMap
use drone_swarm_lab.HashMap.Laws.{get-modify}
use drone_swarm_lab.Types.{Task}
use drone_swarm_lab.Types.TaskStatus.{assigned}
use drone_swarm_lab.Registry.{TaskRegistry}
use drone_swarm_lab.Registry.Outcomes.{assign_outcomes, assign_write}
use drone_swarm_lab.Coordinator.{Coordinator}
use drone_swarm_lab.Reallocation.{
  AssignmentChange, AllocationOutcome, Allocator, count_conflict, count_assignment, apply_decision,
  apply_decisions, see, allocate_unassigned, allocation_tasks, allocation_agents, connectivity,
}

abbrev pub decided : AllocationOutcome → ℕ
decided out = length out.assignments + out.conflicting_assignments

see_keeps :
    (seen : List String) (k j : String) → contains seen j ≡ true → contains (see seen k) j ≡ true
unfolding contains
see_keeps seen k j h = ground arith

-- The task of each assignment has been seen.
abbrev Seen : List String → List AssignmentChange → Type 0
Seen seen = All (λ a. contains seen a.task_id ≡ true)

Seen-see :
    (seen : List String) (k : String) (xs : List AssignmentChange)
    → Seen seen xs
    → Seen (see seen k) xs
Seen-see seen k [] h = tt
Seen-see seen k (a ∷ xs) h = (see_keeps seen k a.task_id h.0, Seen-see seen k xs h.1)

see_self : (seen : List String) (k : String) → contains (see seen k) k ≡ true
unfolding contains
see_self seen k = ground (arith, eq_refl k)

abbrev pub task_ids : List AssignmentChange → List String
task_ids = map (λ a. a.task_id)

not-Seen :
    (seen : List String) (k : String) (xs : List AssignmentChange)
    → Seen seen xs
    → contains seen k ≡ false
    → contains (task_ids xs) k ≡ false
unfolding contains
not-Seen seen k [] h n = refl
not-Seen seen k (a ∷ xs) h n = ground (arith, not-Seen seen k xs h.1 n, eq_iff a.task_id k)

task_ids-append : (xs ys : List AssignmentChange) → task_ids (xs ++ ys) ≡ task_ids xs ++ task_ids ys
task_ids-append [] ys = refl
task_ids-append (a ∷ xs) ys = ap (◌∷◌ a.task_id) (task_ids-append xs ys)

module _ {F : Type 0} where
  -- The registry shows the assignment.
  abbrev pub Shows : TaskRegistry F → AssignmentChange → Type 0
  Shows r a =
      (t : Task F) × (HashMap.get a.task_id r.tasks ≡ some t)
      × (t.status ≡ assigned)
      × (t.assigned_to ≡ some a.agent_id)

  decision_count :
      (seen : List String) (k agent : String) (r : TaskRegistry F) (out : AllocationOutcome)
      → decided (apply_decision seen k agent r out).1 ≡ decided out + 1
  unfolding apply_decision
  decision_count seen k agent r out =
      ground (arith, length-append out.assignments (record { task_id = k; agent_id = agent } ∷ []))

  decisions_count :
      (seen : List String) (l : List (String × String)) (r : TaskRegistry F)
      (out : AllocationOutcome)
      → decided (apply_decisions seen l r out).1 ≡ decided out + length l
  unfolding apply_decisions
  decisions_count seen [] r out = omega arith
  decisions_count seen ((k, agent) ∷ l) r out = omega (
    arith,
    decision_count seen k agent r out,
    decisions_count (see seen k) l (apply_decision seen k agent r out).0
        (apply_decision seen k agent r out).1,
  )

  -- A decision leaves the tasks seen before alone.
  decision_keeps :
      (seen : List String) (k agent j : String) (r : TaskRegistry F) (out : AllocationOutcome)
      → contains seen j ≡ true
      → HashMap.get j (apply_decision seen k agent r out).0.tasks ≡ HashMap.get j r.tasks
  unfolding apply_decision
  decision_keeps seen k agent j r out h = elim (Bool-cases (contains seen k)) [
    | inl repeated ↦ rw repeated
    | inr first ↦ elim (assign_outcomes k agent r) [
      | inl (f, a) ↦ rw (first, a, apply_decision)
      | inr (inl (u, f, c, a)) ↦ rw (first, a, apply_decision)
      | inr (inr (u, f, o, a)) ↦ rw (first, a, apply_decision) (other first)
    ]
  ]
    where
      other :
          contains seen k ≡ false
          → HashMap.get j (assign_write k agent r).tasks ≡ HashMap.get j r.tasks
      other first = ground (
        arith,
        get-modify k j (λ t. record t { status = assigned; assigned_to = some agent }) r.tasks,
        eq_iff k j,
      )

  decisions_keep :
      (seen : List String) (l : List (String × String)) (j : String) (r : TaskRegistry F)
      (out : AllocationOutcome)
      → contains seen j ≡ true
      → HashMap.get j (apply_decisions seen l r out).0.tasks ≡ HashMap.get j r.tasks
  unfolding apply_decisions
  decisions_keep seen [] j r out h = refl
  decisions_keep seen ((k, agent) ∷ l) j r out h =
      decisions_keep (see seen k) l j _ _ (see_keeps seen k j h)
      ∙ decision_keeps seen k agent j r out h

  -- What holds of the outcome so far.
  record IsSound (seen : List String) (r : TaskRegistry F) (out : AllocationOutcome) : Type 0 where
    seen_all : Seen seen out.assignments
    shown : All (Shows r) out.assignments
    distinct : Distinct (task_ids out.assignments)

  Shows-keep :
      (seen : List String) (r s : TaskRegistry F) (xs : List AssignmentChange)
      → ((j : String) → contains seen j ≡ true → HashMap.get j s.tasks ≡ HashMap.get j r.tasks)
      → Seen seen xs
      → All (Shows r) xs
      → All (Shows s) xs
  Shows-keep seen r s [] keep h a = tt
  Shows-keep seen r s (x ∷ xs) keep h ((t, e, st, o), rest) =
      ((t, keep x.task_id h.0 ∙ e, st, o), Shows-keep seen r s xs keep h.1 rest)

  conflict-IsSound :
      (seen : List String) (k : String) (r : TaskRegistry F) (out : AllocationOutcome)
      → IsSound seen r out
      → IsSound (see seen k) r (count_conflict out)
  unfolding count_conflict
  conflict-IsSound seen k r out h = record {
    seen_all = Seen-see seen k out.assignments h.seen_all;
    shown = h.shown;
    distinct = h.distinct;
  }

  assignment-IsSound :
      (seen : List String) (k agent : String) (r : TaskRegistry F) (out : AllocationOutcome)
      (u : Task F)
      → contains seen k ≡ false
      → HashMap.get k r.tasks ≡ some u
      → IsSound seen r out
      → IsSound (see seen k) (assign_write k agent r) (count_assignment k agent out)
  unfolding count_assignment
  assignment-IsSound seen k agent r out u first f h = record {
    seen_all =
        All-append (λ a. contains (see seen k) a.task_id ≡ true) out.assignments _
          (Seen-see seen k out.assignments h.seen_all) (see_self seen k, tt);
    shown =
        All-append (Shows (assign_write k agent r)) out.assignments _
          (Shows-keep seen r (assign_write k agent r) out.assignments others h.seen_all h.shown)
          ((record u { status = assigned; assigned_to = some agent }, now_shown, refl, refl), tt);
    distinct = rw (task_ids-append out.assignments) (
        Distinct-snoc (task_ids out.assignments) k h.distinct
          (not-Seen seen k out.assignments h.seen_all first));
  }
    where
      write : Task F → Task F
      write t = record t { status = assigned; assigned_to = some agent }

      others :
          (j : String)
          → contains seen j ≡ true
          → HashMap.get j (assign_write k agent r).tasks ≡ HashMap.get j r.tasks
      others j old = ground (arith, get-modify k j write r.tasks, eq_iff k j)

      now_shown :
          HashMap.get k (assign_write k agent r).tasks
          ≡ some (record u { status = assigned; assigned_to = some agent })
      now_shown = rw (get-modify, eq_refl k, f)

  abbrev SoundStep : List String → String → TaskRegistry F × AllocationOutcome → Type 0
  SoundStep seen k (r, out) = IsSound (see seen k) r out

  decision-IsSound :
      (seen : List String) (k agent : String) (r : TaskRegistry F) (out : AllocationOutcome)
      → IsSound seen r out
      → SoundStep seen k (apply_decision seen k agent r out)
  unfolding apply_decision
  decision-IsSound seen k agent r out h = elim (Bool-cases (contains seen k)) [
    | inl repeated ↦ subst (SoundStep seen k) (rw repeated) (conflict-IsSound seen k r out h)
    | inr first ↦ elim (assign_outcomes k agent r) [
      | inl (f, a) ↦
          subst (SoundStep seen k) (rw (first, a, apply_decision)) (conflict-IsSound seen k r out h)
      | inr (inl (u, f, c, a)) ↦
          subst (SoundStep seen k) (rw (first, a, apply_decision)) (conflict-IsSound seen k r out h)
      | inr (inr (u, f, o, a)) ↦
          subst (SoundStep seen k) (rw (first, a, apply_decision))
            (assignment-IsSound seen k agent r out u first f h)
    ]
  ]

  decisions-IsSound :
      (seen : List String) (l : List (String × String)) (r : TaskRegistry F)
      (out : AllocationOutcome)
      → IsSound seen r out
      → All (Shows (apply_decisions seen l r out).0) (apply_decisions seen l r out).1.assignments
        × Distinct (task_ids (apply_decisions seen l r out).1.assignments)
  unfolding apply_decisions
  decisions-IsSound seen [] r out h = (h.shown, h.distinct)
  decisions-IsSound seen ((k, agent) ∷ l) r out h =
      decisions-IsSound (see seen k) l _ _ (decision-IsSound seen k agent r out h)

  module _ {S : Type 0} (zero_float : F) (allocate : Allocator F S) (c : Coordinator F)
      (s : S) where
    -- Whatever the allocator decides, each assignment that the outcome reports is what the registry
    -- shows afterwards, no task is reported twice, and each decision counts once, as an assignment
    -- or as a conflict.
    pub allocate_unassigned_sound :
        All
          (Shows (allocate_unassigned zero_float allocate (c, s)).0.0.registry)
          (allocate_unassigned zero_float allocate (c, s)).1.assignments
        × Distinct (task_ids (allocate_unassigned zero_float allocate (c, s)).1.assignments)
        × (decided (allocate_unassigned zero_float allocate (c, s)).1
            ≡ length
                (allocate s
                  (allocation_tasks c)
                  (allocation_agents zero_float c)
                  (connectivity zero_float c)).1)
    unfolding allocate_unassigned
    allocate_unassigned_sound =
        let sound =
          decisions-IsSound [] _ c.registry _
            (record { seen_all = tt; shown = tt; distinct = tt }) in
        (sound.0, sound.1, omega (arith, decisions_count [] _ c.registry _))
