-- ===== src/Network/Queues.antt =====
-- The queues of the messages in flight: their sizes, and what is due in them.
use drone_swarm_lab.Base.{
  ℕ, ◌+◌, String, ◌≡◌, refl, Bool, not, some, List, [], ◌∷◌, arith, eq_refl, eq_iff, if◌then◌else◌,
  ◌++◌, ◌⊎◌, inl, inr, Option-cases, leb, map, filter,
}
use drone_swarm_lab.HashMap.{HashMap, get, insert}
use drone_swarm_lab.HashMap.Laws.{get-insert}
use drone_swarm_lab.Protocol.{RawMessage}
use drone_swarm_lab.Network.{InFlight, InMemNetwork, queue_of, split_due, drain_ready}

-- How many elements of a list pass a test.
abbrev pub count : {A : Type 0} → (A → Bool) → List A → ℕ
count p [] = 0
count p (x ∷ xs) = (if p x then 1 else 0) + count p xs

pub count-append :
    {A : Type 0} (p : A → Bool) (xs ys : List A) → count p (xs ++ ys) ≡ count p xs + count p ys
count-append p [] ys = omega arith
count-append p (x ∷ xs) ys = omega (arith, count-append p xs ys)

-- The messages of a queue, each with the recipient that the queue is for.
abbrev pub addressed : String → InFlight → List (String × RawMessage)
addressed k q = map (λ e. (k, e.1)) q

-- How many messages wait that pass a test on the recipient and the message.
abbrev pub waiting : (String × RawMessage → Bool) → HashMap InFlight → ℕ
waiting p [] = 0
waiting p ((k, q) ∷ m) = count p (addressed k q) + waiting p m

pub waiting-insert :
    (p : String × RawMessage → Bool) (k : String) (q : InFlight) (m : HashMap InFlight)
    → waiting p (insert k q m) + count p (addressed k (queue_of k m))
      ≡ waiting p m + count p (addressed k q)
unfolding insert queue_of get
waiting-insert p k q [] = omega arith
waiting-insert p k q ((j, w) ∷ m) = ground (arith, eq_iff j k, waiting-insert p k q m)

pub queue_of-get :
    (k : String) (q : InFlight) (m : HashMap InFlight) → get k m ≡ some q → queue_of k m ≡ q
unfolding queue_of
queue_of-get k q m f = rw (queue_of, f) refl

pub queue_of-insert :
    (k : String) (q : InFlight) (m : HashMap InFlight) → queue_of k (insert k q m) ≡ q
queue_of-insert k q m = queue_of-get k q (insert k q m) (rw (get-insert, eq_refl k) refl)

-- Reference: the messages whose tick has come, in the order of the queue, and the other entries.
abbrev pub due : ℕ → InFlight → List RawMessage
due now q = map (λ e. e.1) (filter (λ e. leb e.0 now) q)

abbrev pub later : ℕ → InFlight → InFlight
later now q = filter (λ e. not (leb e.0 now)) q

pub split_due_lem : (now : ℕ) (q : InFlight) → split_due now q ≡ (due now q, later now q)
unfolding split_due filter
split_due_lem now [] = refl
split_due_lem now ((t, msg) ∷ q) = ground (arith, split_due_lem now q)

pub count-due-later :
    (p : String × RawMessage → Bool) (k : String) (now : ℕ) (q : InFlight)
    → count p (map (λ msg. (k, msg)) (due now q)) + count p (addressed k (later now q))
      ≡ count p (addressed k q)
unfolding filter
count-due-later p k now [] = refl
count-due-later p k now ((t, msg) ∷ q) = ground (arith, count-due-later p k now q)

-- Nothing that is left is due.
pub due-later : (now : ℕ) (q : InFlight) → due now (later now q) ≡ []
unfolding filter
due-later now [] = refl
due-later now ((t, msg) ∷ q) = ground (arith, due-later now q)

-- What `drain_ready` returns, for a recipient without a queue and with one.
pub drain_ready-cases :
    {F S : Type 0} (id : String) (n : InMemNetwork F S)
    → (queue_of id n.in_flight ≡ []) × (drain_ready id n ≡ ([], n))
      ⊎ ((q : InFlight) × (queue_of id n.in_flight ≡ q)
          × (drain_ready id n ≡ (
            due n.current_tick q,
            record n { in_flight = insert id (later n.current_tick q) n.in_flight },
          )))
unfolding queue_of drain_ready
drain_ready-cases id n = elim (Option-cases (get id n.in_flight)) [
  | inl f ↦ inl (rw (queue_of, f) refl, rw (drain_ready, f) refl)
  | inr (q, f) ↦ inr (q, queue_of-get id q n.in_flight f, rw (drain_ready, f, split_due_lem) refl)
]

pub later-later : (now : ℕ) (q : InFlight) → later now (later now q) ≡ later now q
unfolding filter
later-later now [] = refl
later-later now ((t, msg) ∷ q) = ground (arith, later-later now q)
