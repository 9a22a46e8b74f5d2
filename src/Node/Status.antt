-- ===== src/Node/Status.antt =====
-- frontend/src/store/node-capability-store.ts: the status of the device's pairing node, and the
-- variables of the module beside the store.
use alt_sendme.Prelude.{
  ℕ, ◌-◌, Bool, true, false, not, ◌&&◌, Text, codes, Option, none, some, is_truthy, is_empty,
  or_else, trim, leb, if◌then◌else◌,
}

-- frontend/src/lib/pairing-api.ts
pub data NodeStatusKind : Type 0 where
  ready starting unavailable : NodeStatusKind

pub record NodeStatus : Type 0 where
  pub status : NodeStatusKind
  pub reason : Option Text
  -- `Boolean(network_ready)`
  pub network_ready : Bool

abbrev pub is_ready : NodeStatusKind → Bool
is_ready ready = true
is_ready starting = false
is_ready unavailable = false

abbrev settled : NodeStatusKind → Option Text → Bool
settled ready reason = true
settled starting reason = false
settled unavailable reason = is_truthy reason

unfoldable pub is_node_status_settled : NodeStatus → Bool
is_node_status_settled s = settled s.status s.reason

abbrev pub fallback_recheck_ms : ℕ
fallback_recheck_ms = 1000

abbrev pub wait_max_ms : ℕ
wait_max_ms = 30000

-- The store, and the variables `refreshInFlight`, `lifecycleListenersStarted`, `fallbackTimer` and
-- `waitStartedAt`.
pub record Node : Type 0 where
  pub node_status : NodeStatus
  pub has_resolved : Bool
  pub is_network_ready : Bool
  pub refresh_in_flight : Bool
  pub listening : Bool
  pub fallback_timer : Bool
  pub wait_started_at : Option ℕ

abbrev desktop_only : NodeStatus
desktop_only = record {
  status = unavailable;
  reason = some (codes "desktop_only");
  network_ready = false;
}

abbrev plain_status : NodeStatusKind → Option Text → NodeStatus
plain_status kind reason = record { status = kind; reason = reason; network_ready = false }

-- The store at its creation; `capable` is `IS_PAIRING_CAPABLE`.
unfoldable pub init : Bool → Node
init capable = record {
  node_status = if capable then plain_status starting none else desktop_only;
  has_resolved = not capable;
  is_network_ready = not capable;
  refresh_in_flight = false;
  listening = false;
  fallback_timer = false;
  wait_started_at = none;
}

unfoldable pub clear_fallback : Node → Node
clear_fallback n = record n { fallback_timer = false; wait_started_at = none }

abbrev resolve : NodeStatus → Bool → Node → Node
resolve status network n = record n {
  node_status = status;
  has_resolved = true;
  is_network_ready = network;
}

-- `refresh`, up to its `await`; a refresh that is in flight is waited for.
unfoldable pub refresh : Bool → Node → Node
refresh capable n =
    if capable then record n { refresh_in_flight = true } else resolve desktop_only true n

-- `getNodeStatus` answers with a status that is not settled. The clock is read twice.
abbrev wait_more : NodeStatus → ℕ → ℕ → Node → Node
wait_more answer now later n =
    let since = or_else n.wait_started_at now in
    let waiting = record n {
      node_status = plain_status starting answer.reason;
      has_resolved = false;
      is_network_ready = false;
      wait_started_at = some since;
    } in
    if leb wait_max_ms (later - since)
    then resolve
        (plain_status unavailable
          (some (or_else answer.reason (codes "Device node failed to start in time."))))
        false (clear_fallback waiting)
    else record waiting { fallback_timer = true }

-- The rest of `refresh`, once `getNodeStatus` has answered.
unfoldable pub on_status : NodeStatus → ℕ → ℕ → Node → Node
unfolding is_node_status_settled clear_fallback
on_status answer now later n =
    let done = record n { refresh_in_flight = false } in
    if is_node_status_settled answer
    then resolve answer (is_ready answer.status && answer.network_ready) (clear_fallback done)
    else wait_more answer now later done

-- `getNodeStatus` has failed, with the error's text.
unfoldable pub on_status_error : Text → Node → Node
unfolding clear_fallback
on_status_error error n =
    resolve (plain_status unavailable (some error)) false
      (clear_fallback (record n { refresh_in_flight = false }))

-- `ensureNodeCapabilityLifecycle`
unfoldable pub ensure_lifecycle : Bool → Node → Node
ensure_lifecycle capable n = if capable then record n { listening = true } else n

-- `device-node-ready`
unfoldable pub on_node_ready : Node → Node
unfolding clear_fallback refresh
on_node_ready n = refresh true (clear_fallback n)

-- `device-node-network-ready`
unfoldable pub on_network_ready : Node → Node
unfolding refresh
on_network_ready n = refresh true (record n { is_network_ready = true })

-- `device-node-network-warming`
unfoldable pub on_network_warming : Node → Node
on_network_warming n = record n { is_network_ready = false }

abbrev failure_reason : Option Text → Text
failure_reason none = codes "Failed to initialize device node"
failure_reason (some payload) =
    if is_empty (trim payload) then codes "Failed to initialize device node" else payload

-- `device-node-failed`; the payload, if it is a text
unfoldable pub on_node_failed : Option Text → Node → Node
unfolding clear_fallback trim
on_node_failed payload n =
    resolve (plain_status unavailable (some (failure_reason payload))) false (clear_fallback n)

-- frontend/src/hooks/useNodeCapability.ts: what the hook derives.
abbrev pub is_node_ready : Bool → Node → Bool
is_node_ready capable n = capable && is_ready n.node_status.status

abbrev pub is_node_status_pending : Bool → Node → Bool
is_node_status_pending capable n = capable && not n.has_resolved
