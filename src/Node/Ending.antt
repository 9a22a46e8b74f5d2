-- ===== src/Node/Ending.antt =====
-- The wait for the pairing node: it ends, and what it can miss.
use alt_sendme.Prelude.{
  ℕ, ◌+◌, ◌-◌, ◌≤◌, ◌≡◌, true, false, Text, Option, some, List, [], ◌∷◌, ◌++◌, arith, Bool-cases,
  ◌⊎◌, leb, inl, inr,
}
use alt_sendme.Node.Status.{
  ready, unavailable, NodeStatus, Node, init, wait_max_ms, is_node_status_settled,
}
use alt_sendme.Node.Machine.{Event, mounted, answered, recheck, network_ready, step, run}

-- One turn of the wait: the timer is due, and the node answers that it is still starting, or gives
-- no reason for being unavailable.
abbrev pub turns : NodeStatus → List ℕ → List Event
turns s [] = []
turns s (time ∷ times) = recheck ∷ answered s time time ∷ turns s times

abbrev pub IsEnded : Node → Type 0
IsEnded n =
    (n.has_resolved ≡ true)
    × (n.fallback_timer ≡ false)
    × (n.refresh_in_flight ≡ false)
    × (n.node_status.status ≡ unavailable)

abbrev IsWaiting : ℕ → Node → Type 0
IsWaiting since n =
    (n.fallback_timer ≡ true) × (n.refresh_in_flight ≡ false) × (n.wait_started_at ≡ some since)

abbrev turn : NodeStatus → ℕ → Node → Node
turn s time n = step true (step true n recheck) (answered s time time)

turn-IsEnded : (s : NodeStatus) (time : ℕ) (n : Node) → IsEnded n → IsEnded (turn s time n)
unfolding step
turn-IsEnded s time n h = ground arith

turn-IsWaiting :
    (s : NodeStatus) (since time : ℕ) (n : Node)
    → is_node_status_settled s ≡ false
    → IsWaiting since n
    → IsWaiting since (turn s time n) ⊎ IsEnded (turn s time n)
unfolding step
turn-IsWaiting s since time n h w = elim (Bool-cases (leb wait_max_ms (time - since))) [
  | inl late ↦ inr (ground arith)
  | inr early ↦ inl (ground arith)
]

turn-ends :
    (s : NodeStatus) (since time : ℕ) (n : Node)
    → is_node_status_settled s ≡ false
    → IsWaiting since n
    → since + wait_max_ms ≤ time
    → IsEnded (turn s time n)
unfolding step
turn-ends s since time n h w late = ground arith

turns-IsEnded :
    (s : NodeStatus) (times : List ℕ) (n : Node) → IsEnded n → IsEnded (run true n (turns s times))
unfolding run
turns-IsEnded s [] n h = h
turns-IsEnded s (time ∷ times) n h = turns-IsEnded s times (turn s time n) (turn-IsEnded s time n h)

turns-end :
    (s : NodeStatus) (since time : ℕ) (times more : List ℕ) (n : Node)
    → is_node_status_settled s ≡ false
    → since + wait_max_ms ≤ time
    → IsWaiting since n ⊎ IsEnded n
    → IsEnded (run true n (turns s (times ++ time ∷ more)))
unfolding run
turns-end s since time [] more n h late (inl w) =
    turns-IsEnded s more (turn s time n) (turn-ends s since time n h w late)
turns-end s since time [] more n h late (inr e) = turns-IsEnded s (time ∷ more) n e
turns-end s since time (t ∷ times) more n h late (inl w) =
    turns-end s since time times more (turn s t n) h late (turn-IsWaiting s since t n h w)
turns-end s since time (t ∷ times) more n h late (inr e) =
    turns-end s since time times more (turn s t n) h late (inr (turn-IsEnded s t n e))

first_answer-IsWaiting :
    (s : NodeStatus) (since : ℕ)
    → is_node_status_settled s ≡ false
    → IsWaiting since (run true (init true) (mounted ∷ answered s since since ∷ []))
unfolding run step init
first_answer-IsWaiting s since h = ground arith

-- The wait ends: if the node never gets ready and gives no reason, the wait that the first answer
-- begins is over after the first turn at which 30 s have passed, and stays so: the node counts as
-- unavailable, and neither a timer nor a request is left.
pub waiting_ends :
    (s : NodeStatus) (since time : ℕ) (times more : List ℕ)
    → is_node_status_settled s ≡ false
    → since + wait_max_ms ≤ time
    → IsEnded
        (run true (init true) (mounted ∷ answered s since since ∷ turns s (times ++ time ∷ more)))
unfolding run
waiting_ends s since time times more h late =
    turns-end s since time times more (run true (init true) (mounted ∷ answered s since since ∷ []))
      h late (inl (first_answer-IsWaiting s since h))

-- A loss: if the network gets ready while a request is in flight, and the request was answered
-- before, that the node is ready and its network is not, then the network counts as not ready, and
-- neither a request nor the timer is left to correct it.
pub network_ready-is_lost :
    (n : Node) (reason : Option Text) (now : ℕ)
    → n.listening ≡ true
    → n.refresh_in_flight ≡ true
    → let m = run true n (
        network_ready
        ∷ answered (record { status = ready; reason = reason; network_ready = false }) now now
        ∷ []) in
      (m.is_network_ready ≡ false) × (m.refresh_in_flight ≡ false) × (m.fallback_timer ≡ false)
unfolding run step is_node_status_settled
network_ready-is_lost n reason now h k = ground arith
