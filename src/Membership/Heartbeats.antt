-- ===== src/Membership/Heartbeats.antt =====
-- membership.rs: heartbeats, which the network may lose, double and reorder.
use mathlib.Core.List.{Permᴰ, Memᴰ}
use mathlib.Core.List.Permᴰ.{nil, cons, swap, trans}
use mathlib.Core.List.Memᴰ.{head, tail}
use drone_swarm_lab.Base.{
  ℕ, String, ◌≡◌, refl, sym, ◌∙◌, ◌||◌, ◌&&◌, nat_eq, inl, inr, ap, fun_ext, Bool, List, [], ◌∷◌,
  arith, ◌==◌, eq_iff, subst, Bool-cases, ltb, if◌then◌else◌,
}
use drone_swarm_lab.HashMap
use drone_swarm_lab.HashMap.{HashMap}
use drone_swarm_lab.HashMap.Laws.{map_option, get-modify, modify-modify, modify_comm}
use drone_swarm_lab.Types.Health.{alive}
use drone_swarm_lab.Membership.{AgentEntry, MembershipView, beat, record_heartbeat}

-- A received heartbeat.
pub record Heartbeat : Type 0 where
  pub sender : String
  pub tick : ℕ
  pub generation : ℕ

module _ {F : Type 0} where
  unfoldable pub receive : Heartbeat → MembershipView F → MembershipView F
  receive b view = record_heartbeat b.sender b.tick b.generation view

  -- The loop over the heartbeats of a tick, first to last.
  unfoldable pub receive_all : List Heartbeat → MembershipView F → MembershipView F
  receive_all [] view = view
  receive_all (b ∷ bs) view = receive_all bs (receive b view)

  beat_comm : (t g s h : ℕ) (e : AgentEntry F) → beat t g (beat s h e) ≡ beat s h (beat t g e)
  unfolding beat
  beat_comm t g s h e = ground arith

  beat_idem : (t g : ℕ) (e : AgentEntry F) → beat t g (beat t g e) ≡ beat t g e
  unfolding beat
  beat_idem t g e = ground arith

  beats_comm :
      (k : String) (t g s h : ℕ) (m : HashMap (AgentEntry F))
      → HashMap.modify k (beat t g) (HashMap.modify k (beat s h) m)
        ≡ HashMap.modify k (beat s h) (HashMap.modify k (beat t g) m)
  beats_comm k t g s h m =
      modify-modify k (beat t g) (beat s h) m
      ∙ ap (λ f. HashMap.modify k f m) (fun_ext (beat_comm t g s h))
      ∙ sym (modify-modify k (beat s h) (beat t g) m)

  pub receive_comm :
      (a b : Heartbeat) (v : MembershipView F) → receive a (receive b v) ≡ receive b (receive a v)
  unfolding receive record_heartbeat
  receive_comm a b v =
      ap (λ m. record { agents = m })
        (elim (Bool-cases (a.sender == b.sender)) [
          | inl same ↦
              subst
                (λ s.
                  HashMap.modify s (beat a.tick a.generation)
                    (HashMap.modify b.sender (beat b.tick b.generation) v.agents)
                  ≡ HashMap.modify b.sender (beat b.tick b.generation)
                      (HashMap.modify s (beat a.tick a.generation) v.agents))
                (sym ((eq_iff a.sender b.sender).0 same))
                (beats_comm b.sender a.tick a.generation b.tick b.generation v.agents)
          | inr other ↦
              modify_comm a.sender b.sender (beat a.tick a.generation) (beat b.tick b.generation)
                v.agents other
        ])

  pub receive_idem : (a : Heartbeat) (v : MembershipView F) → receive a (receive a v) ≡ receive a v
  unfolding receive record_heartbeat
  receive_idem a v =
      ap (λ m. record { agents = m })
        (modify-modify a.sender _ _ v.agents
          ∙ ap (λ f. HashMap.modify a.sender f v.agents) (fun_ext (beat_idem a.tick a.generation)))

  -- The order in which heartbeats arrive does not change the view.
  pub receive_all-perm :
      {xs ys : List Heartbeat}
      → Permᴰ xs ys
      → (v : MembershipView F) → receive_all xs v ≡ receive_all ys v
  unfolding receive_all
  receive_all-perm nil v = refl
  receive_all-perm (cons {a = a} {l₂ = ys} e p) v =
      receive_all-perm p (receive a v) ∙ ap (λ x. receive_all ys (receive x v)) e
  receive_all-perm (swap {a = a} {b = b} {l = l} e f) v =
      ap (receive_all l) (receive_comm b a v ∙ (λ i. receive (e i) (receive (f i) v)))
  receive_all-perm (trans p q) v = receive_all-perm p v ∙ receive_all-perm q v

  receive-receive_all :
      (a : Heartbeat) (xs : List Heartbeat) (v : MembershipView F)
      → receive a (receive_all xs v) ≡ receive_all xs (receive a v)
  unfolding receive_all
  receive-receive_all a [] v = refl
  receive-receive_all a (x ∷ xs) v =
      receive-receive_all a xs (receive x v) ∙ ap (receive_all xs) (receive_comm a x v)

  -- A heartbeat that is delivered again changes nothing.
  pub receive_again :
      {a : Heartbeat} {xs : List Heartbeat}
      → Memᴰ a xs
      → (v : MembershipView F) → receive a (receive_all xs v) ≡ receive_all xs v
  unfolding receive_all
  receive_again {a = a} (head {x = x} {xs = xs} e) v =
      receive-receive_all a xs (receive x v)
      ∙ ap (receive_all xs)
          (subst (λ b. receive b (receive x v) ≡ receive x v) (sym e) (receive_idem x v))
  receive_again (tail {x = x} m) v = receive_again m (receive x v)

  -- Whether a heartbeat is newer than the last one recorded, by generation and then by tick.
  abbrev pub is_newer : ℕ → ℕ → AgentEntry F → Bool
  is_newer t g e = ltb e.generation g || (nat_eq g e.generation && ltb e.last_heartbeat_tick t)

  beat_lem :
      (t g : ℕ) (e : AgentEntry F)
      → beat t g e ≡ (
          if is_newer t g e
          then record e { generation = g; last_heartbeat_tick = t; health = alive }
          else e)
  unfolding beat
  beat_lem t g e = ground arith

  -- A heartbeat that is newer, by generation and then by tick, than what is recorded of its sender
  -- makes the sender alive at that generation and tick. Any other heartbeat, and one of an unknown
  -- sender, changes nothing, and no heartbeat touches another agent's entry.
  pub record_heartbeat_lem :
      (a k : String) (t g : ℕ) (v : MembershipView F)
      → HashMap.get k (record_heartbeat a t g v).agents ≡ (
          if a == k
          then map_option
              (λ e.
                if is_newer t g e
                then record e { generation = g; last_heartbeat_tick = t; health = alive }
                else e)
              (HashMap.get k v.agents)
          else HashMap.get k v.agents)
  unfolding record_heartbeat
  record_heartbeat_lem a k t g v =
      rw (fun_ext {f = beat t g} (beat_lem t g)) (get-modify a k _ v.agents)
