-- ===== src/Cbba/Bids.antt =====
-- The merge of remote bids.
use drone_swarm_lab.Base.{
  String, ◌≡◌, refl, sym, subst, true, ◌==◌, eq_iff, if_both, some, List, [], ◌∷◌, arith,
  Bool-cases, Option-cases, inl, inr,
}
use drone_swarm_lab.HashMap.{get, insert}
use drone_swarm_lab.HashMap.Laws.{get-insert}
use drone_swarm_lab.Cbba.{
  BidFloats, WinningBids, CbbaAllocator, apply_bid, apply_bids, apply_senders, apply_remote_bids,
}

module _ {F : Type 0} (fl : BidFloats F) where
  -- The second winner is the first, or has outbid it, in one or more steps to a higher bid.
  pub data Climb : String × F → String × F → Type 0 where
    same : {w : String × F} → Climb w w
    outbid : {v w x : String × F} → fl.floats.lt v.1 w.1 ≡ true → Climb w x → Climb v x

  -- A task that has a winner keeps one, with a bid that has only risen.
  abbrev pub Rises : WinningBids F → WinningBids F → Type 0
  Rises m n =
      (task_id : String) (w : String × F)
      → get task_id m ≡ some w
      → (x : String × F) × (get task_id n ≡ some x) × Climb w x

  Climb-trans : {v w x : String × F} → Climb v w → Climb w x → Climb v x
  Climb-trans same k = k
  Climb-trans (outbid h c) k = outbid h (Climb-trans c k)

  Rises-trans : (l m n : WinningBids F) → Rises l m → Rises m n → Rises l n
  Rises-trans l m n h k task_id w e =
      let (x, e2, c) = h task_id w e in let (y, e3, d) = k task_id x e2 in (y, e3, Climb-trans c d)

  Rises-insert :
      (id : String) (new : String × F) (m : WinningBids F)
      → ((w : String × F) → get id m ≡ some w → Climb w new)
      → Rises m (insert id new m)
  Rises-insert id new m up k w e = elim (Bool-cases (id == k)) [
    | inl here ↦
        let there : get id m ≡ some w =
          subst (λ j. get j m ≡ some w) (sym ((eq_iff id k).0 here)) e in
        (new, rw (get-insert id k new m, here) refl, up w there)
    | inr other ↦ (w, rw (get-insert id k new m, other) e, same)
  ]

  apply_bid-Rises :
      (id : String) (new : String × F) (c : CbbaAllocator F)
      → Rises c.winning_bids (apply_bid fl id new c).winning_bids
  unfolding apply_bid
  apply_bid-Rises id (agent, bid) c = elim (Option-cases (get id c.winning_bids)) [
    | inl gone ↦
        rw (apply_bid, gone)
          (Rises-insert id (agent, bid) c.winning_bids (λ w e. absurd (ground arith)))
    | inr ((winner, old), known) ↦ elim (Bool-cases (fl.floats.lt old bid)) [
      | inl higher ↦
          rw (apply_bid, known, higher)
            (Rises-insert id (agent, bid) c.winning_bids
              (λ w e.
                let is_old : (winner, old) ≡ w = ground arith in
                subst (λ v. Climb v (agent, bid)) is_old (outbid higher same)))
      | inr lower ↦ rw (apply_bid, known, lower) (λ k w e. (w, e, same))
    ]
  ]

  apply_bids-Rises :
      (bids : WinningBids F) (c : CbbaAllocator F)
      → Rises c.winning_bids (apply_bids fl bids c).winning_bids
  unfolding apply_bids
  apply_bids-Rises [] c = λ k w e. (w, e, same)
  apply_bids-Rises ((id, new) ∷ bids) c =
      Rises-trans c.winning_bids (apply_bid fl id new c).winning_bids _ (apply_bid-Rises id new c)
        (apply_bids-Rises bids (apply_bid fl id new c))

  apply_senders-Rises :
      (remote : List (String × WinningBids F)) (c : CbbaAllocator F)
      → Rises c.winning_bids (apply_senders fl remote c).winning_bids
  unfolding apply_senders
  apply_senders-Rises [] c = λ k w e. (w, e, same)
  apply_senders-Rises ((sender, bids) ∷ remote) c =
      Rises-trans c.winning_bids (apply_bids fl bids c).winning_bids _ (apply_bids-Rises bids c)
        (apply_senders-Rises remote (apply_bids fl bids c))

  -- Whatever the remote bids, after apply_remote_bids each task that had a winner has one: the
  -- same with the same bid, or one that outbid it, in one or more steps to a higher bid.
  pub apply_remote_bids-Rises :
      (remote : List (String × WinningBids F)) (c : CbbaAllocator F)
      → Rises c.winning_bids (apply_remote_bids fl remote c).winning_bids
  unfolding apply_remote_bids
  apply_remote_bids-Rises remote c =
      if_both (λ (d : CbbaAllocator F). Rises c.winning_bids d.winning_bids) c.converged
        (λ k w e. (w, e, same)) (apply_senders-Rises remote c)
