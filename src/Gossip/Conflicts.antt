-- ===== src/Gossip/Conflicts.antt =====
-- node/gossip.rs: two nodes that disagree on the owner of a task, and tell each other.
use drone_swarm_lab.Base.{
  ℕ, String, ◌≡◌, refl, ◌∙◌, ap, Bool, true, false, ◌&&◌, ◌||◌, Option, none, some, [], ◌∷◌, arith,
  ltb, nat_eq, text_lt, if◌then◌else◌, Bool-cases, inl, inr, ◌==◌, eq_iff, eq_refl, find, after,
}
use drone_swarm_lab.HashMap
use drone_swarm_lab.HashMap.{HashMap}
use drone_swarm_lab.HashMap.Laws.{UniqueKeys, AllEntries, get-modify}
use drone_swarm_lab.Types.{Task}
use drone_swarm_lab.Types.TaskStatus.{unassigned, assigned}
use drone_swarm_lab.Registry.{TaskRegistry, is_active, assign, release_task, take_owner, task_mut}
use drone_swarm_lab.Registry.Keys.{IsKeyed, HasKey, take_owner-IsKeyed, assign-IsKeyed}
use drone_swarm_lab.Membership.{MembershipView, is_alive, generation_of}
use drone_swarm_lab.Gossip.{
  Merge, local_owner, remote_wins, merge_claim, count_stale, resolve, or_one,
}

-- Whether the second claim, a generation and an agent, beats the first.
abbrev pub beats : ℕ → String → ℕ → String → Bool
beats g owner g' remote = ltb g g' || (nat_eq g' g && text_lt owner remote)

module _ {F : Type 0} where
  owner_of : Option (Task F) → Option String
  owner_of none = none
  owner_of (some t) = t.assigned_to

  find-get :
      (k : String) (m : HashMap (Task F))
      → UniqueKeys m
      → AllEntries HasKey m
      → find (λ t. t.id == k) (HashMap.values m) ≡ HashMap.get k m
  unfolding find HashMap.values HashMap.get
  find-get k [] u a = refl
  find-get k ((i, w) ∷ m) u a = ground (arith, find-get k m u.1 a.1, eq_iff i k, eq_iff w.id k)

  local_owner-get :
      (k : String) (r : TaskRegistry F)
      → IsKeyed r
      → local_owner k r ≡ owner_of (HashMap.get k r.tasks)
  unfolding local_owner owner_of
  local_owner-get k r h =
      rw (find-get k r.tasks h.unique h.keyed, local_owner) (cases (HashMap.get k r.tasks))
    where
      cases : (o : Option (Task F)) → (elim o [ none ↦ none | some t ↦ t.assigned_to ]) ≡ owner_of o
      cases none = refl
      cases (some t) = refl

  -- The registry after a claim that takes the task over.
  abbrev taken_over : String → String → TaskRegistry F → TaskRegistry F
  taken_over k remote r =
      let free : TaskRegistry F = (release_task k r).0 in after free (assign k remote free)

  taken_over-IsKeyed :
      (k remote : String) (r : TaskRegistry F) → IsKeyed r → IsKeyed (taken_over k remote r)
  unfolding release_task
  taken_over-IsKeyed k remote r h = assign-IsKeyed k remote _ (take_owner-IsKeyed k unassigned r h)

  get-release_task :
      (k : String) (r : TaskRegistry F) (t : Task F)
      → HashMap.get k r.tasks ≡ some t
      → is_active t.status ≡ true
      → HashMap.get k (release_task k r).0.tasks
        ≡ some (record t { status = unassigned; assigned_to = none })
  unfolding release_task
  get-release_task k r t e a = rw (e, take_owner, release_task, a) (rw (get-modify, eq_refl k, e))

  get-assign :
      (k remote : String) (r : TaskRegistry F) (t : Task F)
      → HashMap.get k r.tasks ≡ some (record t { status = unassigned; assigned_to = none })
      → HashMap.get k (after r (assign k remote r)).tasks
        ≡ some (record t { status = assigned; assigned_to = some remote })
  unfolding assign
  get-assign k remote r t e = rw (e, task_mut, assign) (rw (get-modify, eq_refl k, e))

  get-taken_over :
      (k remote : String) (r : TaskRegistry F) (t : Task F)
      → HashMap.get k r.tasks ≡ some t
      → is_active t.status ≡ true
      → HashMap.get k (taken_over k remote r).tasks
        ≡ some (record t { status = assigned; assigned_to = some remote })
  get-taken_over k remote r t e a =
      get-assign k remote (release_task k r).0 t (get-release_task k r t e a)

  beats_lem :
      (v : MembershipView F) (gens : HashMap ℕ) (remote owner : String)
      → remote_wins v gens remote owner
        ≡ beats (generation_of owner v) owner (or_one (HashMap.get remote gens)) remote
  unfolding remote_wins
  beats_lem v gens remote owner = refl

  -- A node that holds the claim of `owner` on an active task and hears of `remote`'s, of an agent
  -- that it knows to be alive, keeps the stronger of the two.
  pub resolve_conflict :
      (v : MembershipView F) (gens : HashMap ℕ) (k owner remote : String) (m : Merge F) (t : Task F)
      → IsKeyed m.registry
      → HashMap.get k m.registry.tasks ≡ some t
      → is_active t.status ≡ true
      → t.assigned_to ≡ some owner
      → (owner == remote) ≡ false
      → is_alive remote v ≡ true
      → local_owner k (resolve v gens k remote m).registry
        ≡ some (
            if beats (generation_of owner v) owner (or_one (HashMap.get remote gens)) remote
            then remote
            else owner)
  unfolding resolve merge_claim count_stale owner_of
  resolve_conflict v gens k owner remote m t h e active o ne live =
      let here : local_owner k m.registry ≡ some owner =
        local_owner-get k m.registry h ∙ ap owner_of e ∙ o in
      let there : local_owner k (taken_over k remote m.registry) ≡ some remote =
        local_owner-get k _ (taken_over-IsKeyed k remote m.registry h)
        ∙ ap owner_of (get-taken_over k remote m.registry t e active) in
      rw (← beats_lem v gens remote owner) (elim (Bool-cases (remote_wins v gens remote owner)) [
        | inl wins ↦ rw (here, resolve, ne, live, wins) there
        | inr loses ↦ rw (here, resolve, ne, live, loses) here
      ])
