-- ===== src/Node/Waiting.antt =====
-- The wait for the pairing node: it never gets stuck.
use alt_sendme.Prelude.{◌≡◌, Bool, true, false, not, ◌&&◌, ◌||◌, List, [], ◌∷◌, is_some, arith}
use alt_sendme.Node.Status.{
  NodeStatusKind, ready, starting, unavailable, Node, init, is_node_status_settled,
  is_node_status_pending,
}
use alt_sendme.Node.Machine.{Event, answered, step, run}

abbrev is_starting : NodeStatusKind → Bool
is_starting starting = true
is_starting ready = false
is_starting unavailable = false

-- What holds of the node after any events.
pub record Sound (capable : Bool) (n : Node) : Type 0 where
  -- while the wait goes on, a request or the timer will end it
  pub alive :
      (is_node_status_pending capable n && n.listening) ≡ true
      → (n.refresh_in_flight || n.fallback_timer) ≡ true
  -- it goes on exactly while the node is starting
  pub pending : n.has_resolved ≡ not (is_starting n.node_status.status)
  -- the timer runs only since some time
  pub timed : n.fallback_timer ≡ true → is_some n.wait_started_at ≡ true
  -- without pairing nothing is waited for
  pub offline : capable ≡ false → n.has_resolved ≡ true
  pub quiet : capable ≡ false → (n.refresh_in_flight || n.fallback_timer || n.listening) ≡ false

step-Sound :
    (capable : Bool) (n : Node) (e : Event) → Sound capable n → Sound capable (step capable n e)
unfolding step is_node_status_settled
step-Sound true n (answered s now later) v = ground arith
step-Sound false n (answered s now later) v = ground arith
step-Sound true n e v = ground arith
step-Sound false n e v = ground arith

run-Sound :
    (capable : Bool) (n : Node) (es : List Event)
    → Sound capable n
    → Sound capable (run capable n es)
unfolding run
run-Sound capable n [] v = v
run-Sound capable n (e ∷ es) v = run-Sound capable (step capable n e) es (step-Sound capable n e v)

init-Sound : (capable : Bool) → Sound capable (init capable)
unfolding init
init-Sound true = ground arith
init-Sound false = ground arith

-- After any events from the start: while a listening device waits for its node, a request or the
-- timer is running, so the wait does not get stuck; it waits exactly while the node's status is that
-- it starts; the timer runs only within a wait with a known start; and where pairing is not possible
-- nothing is waited for, asked or listened to.
pub run-init-Sound :
    (capable : Bool) (es : List Event) → Sound capable (run capable (init capable) es)
run-init-Sound capable es = run-Sound capable (init capable) es (init-Sound capable)
