-- ===== src/Node/Sends.antt =====
-- What a node sends at the end of the coordination of a tick.
use drone_swarm_lab.Base.{
  ℕ, suc, String, ◌≡◌, refl, sym, ◌∙◌, ap, true, leb, if◌then◌else◌, none, some, Option, List, [],
  ◌∷◌, ◌++◌, map, append-nil, Bool-cases, inl, inr,
}
use mathlib.Core.List.{append_assoc}
use drone_swarm_lab.HashMap.{get, values}
use drone_swarm_lab.Membership
use drone_swarm_lab.Protocol.{RawMessage}
use drone_swarm_lab.Gossip.{RuntimeMessage, gossip, cbba}
use drone_swarm_lab.Cbba.{BidFloats, CbbaAllocator}
use drone_swarm_lab.Node.{
  AgentNode, World, assignments_of, cbba_bids_of, send_all, send_gossip, send_cbba_bids,
  maybe_send_gossip,
}

module _ {F Tr : Type 0} (fl : BidFloats F) (world : World F Tr) where
  -- A message to each of some peers.
  abbrev pub to_each : List String → String → List ℕ → List RawMessage
  to_each peers own_id payload =
      map (λ peer. record { from = own_id; to = peer; payload = payload }) peers

  abbrev pub gossip_of : AgentNode F Tr → RuntimeMessage F
  gossip_of n =
      gossip (assignments_of (values n.coordinator.registry.tasks))
        (Membership.all_generations n.coordinator.membership)

  abbrev pub bids_of : String → CbbaAllocator F → RuntimeMessage F
  bids_of own_id c =
      cbba c.current_round (cbba_bids_of c.winning_bids)
        (elim (get own_id c.bundles) [ none ↦ [] | some b ↦ b ])

  -- The messages of a gossip round: the gossip to each peer, then the bids if the node has any.
  abbrev pub round_of : AgentNode F Tr → List RawMessage
  round_of n =
      to_each n.peer_ids n.own_id (world.to_payload (gossip_of n)) ++ elim n.cbba_allocator [
        | none ↦ []
        | some c ↦ to_each n.peer_ids n.own_id (world.to_payload (bids_of n.own_id c))
      ]

  module _ (log : Tr → List RawMessage)
      (logs : (m : RawMessage) (tr : Tr) → log (world.send m tr).0 ≡ log tr ++ m ∷ [])
      (works : (m : RawMessage) (tr : Tr) → (world.send m tr).1 ≡ true) where
    send_all_lem :
        (peers : List String) (own_id : String) (payload : List ℕ) (tr : Tr)
        → (log (send_all fl world peers own_id payload tr).0
            ≡ log tr ++ to_each peers own_id payload)
          × ((send_all fl world peers own_id payload tr).1 ≡ true)
    unfolding send_all
    send_all_lem [] own_id payload tr = (sym (append-nil (log tr)), refl)
    send_all_lem (peer ∷ peers) own_id payload tr =
        let msg : RawMessage = record { from = own_id; to = peer; payload = payload } in
        let (rest, ok) = send_all_lem peers own_id payload (world.send msg tr).0 in
        rw (send_all, works msg tr)
          (
            rest
                ∙ ap (λ l. l ++ to_each peers own_id payload) (logs msg tr)
                ∙ append_assoc (log tr) (msg ∷ []) (to_each peers own_id payload),
            ok,
          )

    send_cbba_bids_lem :
        (n : AgentNode F Tr)
        → (log (send_cbba_bids fl world n).transport
            ≡ log n.transport ++ elim n.cbba_allocator [
              | none ↦ []
              | some c ↦ to_each n.peer_ids n.own_id (world.to_payload (bids_of n.own_id c))
            ])
          × ((send_cbba_bids fl world n).ticks_since_last_gossip ≡ n.ticks_since_last_gossip)
    unfolding send_cbba_bids
    send_cbba_bids_lem n = by_allocator n.cbba_allocator refl
      where
        by_allocator :
            (o : Option (CbbaAllocator F))
            → n.cbba_allocator ≡ o
            → (log (send_cbba_bids fl world n).transport
                ≡ log n.transport ++ elim n.cbba_allocator [
                  | none ↦ []
                  | some c ↦ to_each n.peer_ids n.own_id (world.to_payload (bids_of n.own_id c))
                ])
              × ((send_cbba_bids fl world n).ticks_since_last_gossip ≡ n.ticks_since_last_gossip)
        by_allocator none e = rw (send_cbba_bids, e) (sym (append-nil (log n.transport)), refl)
        by_allocator (some c) e =
            rw (send_cbba_bids, e)
              (
                (send_all_lem n.peer_ids n.own_id (world.to_payload (bids_of n.own_id c))
                    n.transport).0,
                refl,
              )

    -- If every send succeeds and the transport logs what is sent, then a node whose gossip is due
    -- sends its assignments and generations to each peer, in their order, then its bids to each if it
    -- runs CBBA, and starts to count anew; before that it sends nothing and counts the tick.
    pub maybe_send_gossip-sends :
        (n : AgentNode F Tr)
        → (log (maybe_send_gossip fl world n).transport
            ≡ log n.transport
              ++ (if leb n.gossip_interval_ticks (suc n.ticks_since_last_gossip)
                  then round_of n
                  else []))
          × ((maybe_send_gossip fl world n).ticks_since_last_gossip ≡ (
              if leb n.gossip_interval_ticks (suc n.ticks_since_last_gossip)
              then 0
              else suc n.ticks_since_last_gossip))
    unfolding maybe_send_gossip send_gossip
    maybe_send_gossip-sends n =
        let counted : AgentNode F Tr = record n {
          ticks_since_last_gossip = suc n.ticks_since_last_gossip;
        } in
        let (sent, ok) =
          send_all_lem n.peer_ids n.own_id (world.to_payload (gossip_of n)) n.transport in
        let gossip_messages = to_each n.peer_ids n.own_id (world.to_payload (gossip_of n)) in
        let bid_messages : List RawMessage = elim n.cbba_allocator [
          | none ↦ []
          | some c ↦ to_each n.peer_ids n.own_id (world.to_payload (bids_of n.own_id c))
        ] in
        let reset : AgentNode F Tr = record (send_gossip fl world counted).0 {
          ticks_since_last_gossip = 0;
        } in
        let (more, same) = send_cbba_bids_lem reset in
        elim (Bool-cases (leb n.gossip_interval_ticks (suc n.ticks_since_last_gossip))) [
          | inr early ↦ rw (early) (sym (append-nil (log n.transport)), refl)
          | inl due ↦
              rw (due, ok)
                (
                  more
                      ∙ ap (λ l. l ++ bid_messages) sent
                      ∙ append_assoc (log n.transport) gossip_messages bid_messages,
                  same,
                )
        ]
