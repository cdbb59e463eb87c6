-- ===== src/Autonomy/Fsm/Neighbors.antt =====
-- node/runtime.rs: the loss of peers, and the wait for a lost peer.
use Prim.Native.String.{◌++◌ as text_append}
use drone_swarm_lab.Base.{
  ℕ, String, Bool, true, false, ◌≡◌, refl, ap, ◌∙◌, ◌&&◌, ◌||◌, not, none, some, List, [], ◌∷◌, leb,
  inl, inr, Bool-cases, contains, if◌then◌else◌, eq_iff, eq_refl, ◌==◌, arith, filter,
}
use drone_swarm_lab.HashMap
use drone_swarm_lab.HashMap.{HashMap}
use drone_swarm_lab.Mission.{AgentMissionState, aborting}
use drone_swarm_lab.Autonomy.{AgentNode, saturating_add, wait_for_reconnect, ticks_since, hear_peer}
use drone_swarm_lab.Autonomy.Fsm.{check_wait, check_peers, is_newly_lost, detect_peer}

contains-without :
    (p : String) (ps : List String) → contains (filter (λ q. not (q == p)) ps) p ≡ false
unfolding contains filter
contains-without p [] = refl
contains-without p (q ∷ ps) = ground (arith, contains-without p ps)

module _ {T : Type 0} where
  -- Whether the peer has been silent for the timeout.
  abbrev pub is_silent : ℕ → String → AgentNode T → Bool
  is_silent now p n =
      leb n.autonomy.peer_heartbeat_timeout_ticks
        (ticks_since now (HashMap.get p n.last_peer_heartbeat_ticks))

  detect-lost :
      (now : ℕ) (p : String) (n : AgentNode T)
      → ((detect_peer now p n).lost_peers_detected ≡ p ∷ n.lost_peers_detected)
        × ((detect_peer now p n).last_peer_heartbeat_ticks ≡ n.last_peer_heartbeat_ticks)
        × ((detect_peer now p n).autonomy ≡ n.autonomy)
        × ((detect_peer now p n).peer_ids ≡ n.peer_ids)
  unfolding detect_peer
  detect-lost now p n = ground arith

  -- What one round of the loop does to what the later rounds read.
  round-lost :
      (now : ℕ) (p q : String) (n : AgentNode T)
      → let n' = if is_newly_lost now p n then detect_peer now p n else n in
        (contains n'.lost_peers_detected q
          ≡ ((p == q) && is_newly_lost now p n || contains n.lost_peers_detected q))
        × (n'.last_peer_heartbeat_ticks ≡ n.last_peer_heartbeat_ticks)
        × (n'.autonomy ≡ n.autonomy)
  unfolding contains
  round-lost now p q n = elim (Bool-cases (is_newly_lost now p n)) [
    | inl b ↦ let (l, h, a, _) = detect-lost now p n in rw (b) (rw (l) (ground arith), h, a)
    | inr b ↦ rw (b) (ground arith, refl, refl)
  ]

  newly_lem :
      (now : ℕ) (q : String) (n' n : AgentNode T) (b : Bool)
      → contains n'.lost_peers_detected q ≡ (b || contains n.lost_peers_detected q)
      → n'.last_peer_heartbeat_ticks ≡ n.last_peer_heartbeat_ticks
      → n'.autonomy ≡ n.autonomy
      → is_newly_lost now q n' ≡ (is_newly_lost now q n && not b)
  unfolding is_newly_lost
  newly_lem now q n' n b l h a = rw (l, h, a) (ground arith)

  round_newly :
      (now : ℕ) (p q : String) (n : AgentNode T)
      → is_newly_lost now q (if is_newly_lost now p n then detect_peer now p n else n)
        ≡ (is_newly_lost now q n && not ((p == q) && is_newly_lost now p n))
  round_newly now p q n =
      let n' : AgentNode T = if is_newly_lost now p n then detect_peer now p n else n in
      let (l, h, a) = round-lost now p q n in newly_lem now q n' n _ l h a

  same_newly :
      (now : ℕ) (p q : String) (n : AgentNode T)
      → (p == q) ≡ true
      → is_newly_lost now p n ≡ is_newly_lost now q n
  same_newly now p q n h = ap (λ s. is_newly_lost now s n) ((eq_iff p q).0 h)

  -- The loop reports each peer of the list that has been silent for the timeout and was not yet
  -- declared lost, and declares it lost.
  pub check_peers_lem :
      (now : ℕ) (ps : List String) (q : String) (n : AgentNode T)
      → (contains (check_peers now ps n).1 q ≡ (contains ps q && is_newly_lost now q n))
        × (contains (check_peers now ps n).0.lost_peers_detected q
            ≡ (contains (check_peers now ps n).1 q || contains n.lost_peers_detected q))
        × ((check_peers now ps n).0.last_peer_heartbeat_ticks ≡ n.last_peer_heartbeat_ticks)
        × ((check_peers now ps n).0.autonomy ≡ n.autonomy)
  unfolding check_peers contains
  check_peers_lem now [] q n = (refl, refl, refl, refl)
  check_peers_lem now (p ∷ ps) q n =
      let n' : AgentNode T = if is_newly_lost now p n then detect_peer now p n else n in
      let (r, l, h, a) = check_peers_lem now ps q n' in
      let (l', h', a') = round-lost now p q n in
      (
        ground (arith, r, round_newly now p q n, same_newly now p q n),
        ground (arith, l, l'),
        h ∙ h',
        a ∙ a',
      )

  -- A peer that was declared lost is not reported again by a later check while it stays silent.
  pub lost_once :
      (now now' : ℕ) (ps ps' : List String) (q : String) (n : AgentNode T)
      → contains (check_peers now ps n).1 q ≡ true
      → contains (check_peers now' ps' (check_peers now ps n).0).1 q ≡ false
  unfolding is_newly_lost
  lost_once now now' ps ps' q n h = ground (
    arith,
    h,
    (check_peers_lem now ps q n).1,
    (check_peers_lem now' ps' q (check_peers now ps n).0).0,
  )

  detect-waits :
      (now max_ticks : ℕ) (p : String) (n : AgentNode T)
      → n.autonomy.neighbor_lost_policy ≡ wait_for_reconnect max_ticks
      → n.waiting_for_neighbor_reconnect_until ≡ none
      → ((detect_peer now p n).pre_neighbor_wait_mission_state ≡ some n.mission_state)
        × ((detect_peer now p n).waiting_for_neighbor_reconnect_until
            ≡ some (p, saturating_add now max_ticks))
  unfolding detect_peer
  detect-waits now max_ticks p n h w = rw (h, w) (refl, refl)

  hear-waits :
      (now : ℕ) (p : String) (until : ℕ) (s : AgentMissionState T) (n : AgentNode T)
      → n.pre_neighbor_wait_mission_state ≡ some s
      → n.waiting_for_neighbor_reconnect_until ≡ some (p, until)
      → ((hear_peer now p n).mission_state ≡ s)
        × ((hear_peer now p n).waiting_for_neighbor_reconnect_until ≡ none)
        × (contains (hear_peer now p n).lost_peers_detected p ≡ false)
  unfolding hear_peer
  hear-waits now p until s n h w =
      rw (w, h, eq_refl p) (refl, refl, contains-without p n.lost_peers_detected)

  check-waits :
      (now : ℕ) (w : String × ℕ) (n : AgentNode T)
      → n.waiting_for_neighbor_reconnect_until ≡ some w
      → (check_wait now n).mission_state ≡ (
          if leb w.1 now
          then aborting (text_append "neighbor_reconnect_timeout:" w.0)
          else n.mission_state)
  unfolding check_wait
  check-waits now w n h = ground (arith, h)

  -- Under the policy to wait, a lost peer suspends the mission of an agent that waits for none. If
  -- the peer is heard again, the mission goes on, and the peer counts as lost no more. A check
  -- aborts the mission exactly if it comes at the deadline or later.
  pub wait_outcomes :
      (now later max_ticks : ℕ) (p : String) (n : AgentNode T)
      → n.autonomy.neighbor_lost_policy ≡ wait_for_reconnect max_ticks
      → n.waiting_for_neighbor_reconnect_until ≡ none
      → ((hear_peer later p (detect_peer now p n)).mission_state ≡ n.mission_state)
        × ((hear_peer later p (detect_peer now p n)).waiting_for_neighbor_reconnect_until ≡ none)
        × (contains (hear_peer later p (detect_peer now p n)).lost_peers_detected p ≡ false)
        × ((check_wait later (detect_peer now p n)).mission_state ≡ (
            if leb (saturating_add now max_ticks) later
            then aborting (text_append "neighbor_reconnect_timeout:" p)
            else (detect_peer now p n).mission_state))
  wait_outcomes now later max_ticks p n h w =
      let d : AgentNode T = detect_peer now p n in
      let (s, u) = detect-waits now max_ticks p n h w in
      let (m, w', l) = hear-waits later p (saturating_add now max_ticks) n.mission_state d s u in
      (m, w', l, check-waits later (p, saturating_add now max_ticks) d u)
