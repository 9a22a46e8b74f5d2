-- ===== src/Node/Machine.antt =====
-- frontend/src/store/node-capability-store.ts and frontend/src/hooks/useNodeCapability.ts as a state
-- machine. Events of the native node come only once they are listened for.
use alt_sendme.Prelude.{ℕ, Bool, false, Text, Option, List, [], ◌∷◌, if◌then◌else◌}
use alt_sendme.Node.Status.{
  NodeStatus, Node, refresh, on_status, on_status_error, ensure_lifecycle, on_node_ready,
  on_network_ready, on_network_warming, on_node_failed,
}

pub data Event : Type 0 where
  -- a component that uses the hook is mounted, a device is paired
  mounted device_paired : Event
  -- the answer to the request in flight, with the two readings of the clock, or its failure
  answered : NodeStatus → ℕ → ℕ → Event
  request_failed : Text → Event
  -- the timer is due
  recheck : Event
  node_ready network_ready network_warming : Event
  node_failed : Option Text → Event

abbrev if_listening : (Node → Node) → Node → Node
if_listening f n = if n.listening then f n else n

-- The callback of the timer.
abbrev fire : Bool → Node → Node
fire capable n =
    if n.fallback_timer then refresh capable (record n { fallback_timer = false }) else n

unfoldable pub step : Bool → Node → Event → Node
unfolding refresh on_status on_status_error ensure_lifecycle on_node_ready on_network_ready
    on_network_warming on_node_failed
step capable n mounted = refresh capable (ensure_lifecycle capable n)
step capable n device_paired = if_listening (refresh capable) n
step capable n (answered answer now later) =
    if n.refresh_in_flight then on_status answer now later n else n
step capable n (request_failed error) = if n.refresh_in_flight then on_status_error error n else n
step capable n recheck = fire capable n
step capable n node_ready = if_listening on_node_ready n
step capable n network_ready = if_listening on_network_ready n
step capable n network_warming = if_listening on_network_warming n
step capable n (node_failed payload) = if_listening (on_node_failed payload) n

unfoldable pub run : Bool → Node → List Event → Node
unfolding step
run capable n [] = n
run capable n (e ∷ es) = run capable (step capable n e) es
