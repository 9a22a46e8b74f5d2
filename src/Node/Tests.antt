-- ===== src/Node/Tests.antt =====
-- Runs of the node's status.
use alt_sendme.Prelude.{◌≡◌, refl, true, false, none, [], ◌∷◌, arith}
use alt_sendme.Node.Status.{ready, starting, NodeStatus, Node, init, is_node_status_settled}
use alt_sendme.Node.Machine.{mounted, answered, recheck, network_ready, run, step}
use alt_sendme.Node.Waiting.{Sound, run-init-Sound}
use alt_sendme.Node.Ending.{IsEnded, turns, waiting_ends, network_ready-is_lost}

abbrev booting : NodeStatus
booting = record { status = starting; reason = none; network_ready = false }

run-init-Sound_example :
    Sound true (run true (init true) (mounted ∷ answered booting 5 5 ∷ recheck ∷ []))
run-init-Sound_example = run-init-Sound true (mounted ∷ answered booting 5 5 ∷ recheck ∷ [])

waiting_ends_example : IsEnded (
    run true
      (init true)
      (mounted ∷ answered booting 5 5 ∷ turns booting (1005 ∷ 30005 ∷ 31005 ∷ [])))
unfolding is_node_status_settled
waiting_ends_example = waiting_ends booting 5 30005 (1005 ∷ []) (31005 ∷ []) refl (omega arith)

abbrev asking : Node
asking = run true (init true) (mounted ∷ [])

network_ready-is_lost_example :
    let m = run true asking (
      network_ready
      ∷ answered (record { status = ready; reason = none; network_ready = false }) 9 9
      ∷ []) in
    (m.is_network_ready ≡ false) × (m.refresh_in_flight ≡ false) × (m.fallback_timer ≡ false)
unfolding run step init
network_ready-is_lost_example = network_ready-is_lost asking none 9 refl refl
