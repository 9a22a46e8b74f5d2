-- ===== src/Pairing/Countdown.antt =====
-- frontend/src/hooks/usePairing.ts: the countdown of the pairing window.
use alt_sendme.Prelude.{
  ℕ, zero, suc, ◌+◌, ◌-◌, ◌≡◌, Bool, true, false, Text, Option, none, some, List, [], ◌∷◌, arith,
  subst,
}
use alt_sendme.Pairing.Hook.{
  Pairing, host_ttl_secs, is_positive, same_expires, hydrate, render, tick, opened,
}
use alt_sendme.Pairing.Machine.{Event, rendered, second, step, run}
use alt_sendme.Node.Status.{is_node_status_settled}

-- A second of the countdown: the hook is rendered, and its interval is due.
abbrev pub seconds : ℕ → List Event
seconds zero = []
seconds (suc k) = rendered ∷ second ∷ seconds k

-- What is shown when `n` seconds are left.
abbrev pub left : ℕ → Option ℕ
left zero = none
left (suc n) = some (suc n)

module _ (lower : Text → Text) (capable : Bool) (t : Text) where
  record Counting (n : ℕ) (p : Pairing) : Type 0 where
    ticket_stays : p.pairing_ticket ≡ some t
    count : p.host_expires_in ≡ left n
    ticking :
        same_expires p.host_expires_in p.rendered_expires ≡ true
        → p.timer ≡ is_positive p.host_expires_in

  rendered-Counting : (n : ℕ) (p : Pairing) → Counting n p → Counting n (render capable p)
  unfolding hydrate render is_node_status_settled
  rendered-Counting n p v = ground arith

  rendered_timer :
      (n : ℕ) (p : Pairing) → Counting n p → (render capable p).timer ≡ is_positive (left n)
  unfolding hydrate render is_node_status_settled
  rendered_timer n p v = ground arith

  tick-Counting :
      (n : ℕ) (p : Pairing)
      → Counting n p
      → p.timer ≡ is_positive (left n)
      → Counting (n - 1) (tick p)
  unfolding tick
  tick-Counting zero p v h = ground arith
  tick-Counting (suc zero) p v h = ground arith
  tick-Counting (suc (suc n)) p v h = ground arith

  seconds-Counting :
      (k n m : ℕ) (p : Pairing)
      → m + k ≡ n
      → Counting n p
      → Counting m (run lower capable p (seconds k))
  unfolding run step
  seconds-Counting zero n m p e v = subst (λ i. Counting i p) (omega (arith, e)) v
  seconds-Counting (suc k) n m p e v =
      let rendered = rendered-Counting n p v in
      let ticked = tick-Counting n (render capable p) rendered (rendered_timer n p v) in
      seconds-Counting k (n - 1) m (tick (render capable p)) (omega (arith, e)) ticked

  opened-Counting :
      (p : Pairing)
      → same_expires (some host_ttl_secs) p.rendered_expires ≡ false
      → Counting host_ttl_secs (opened t p)
  unfolding opened
  opened-Counting p h = ground arith

-- The countdown of a window that has just been opened: if the last render did not see just 180
-- seconds left, and from then on only renders and the interval alternate, then `k` seconds before
-- the end of the 180 seconds it shows `k` seconds, for every positive `k`, and at their end it shows
-- none; the ticket is shown all that time.
pub countdown_ends :
    (lower : Text → Text) (capable : Bool) (t : Text) (p : Pairing) (k j : ℕ)
    → same_expires (some host_ttl_secs) p.rendered_expires ≡ false
    → k + j ≡ host_ttl_secs
    → let q = run lower capable (opened t p) (seconds j) in
      (q.host_expires_in ≡ left k) × (q.pairing_ticket ≡ some t)
countdown_ends lower capable t p k j h e =
    let v =
      seconds-Counting lower capable t j host_ttl_secs k (opened t p) e
        (opened-Counting lower capable t p h) in
    (v.count, v.ticket_stays)
