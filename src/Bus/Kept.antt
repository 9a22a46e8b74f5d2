-- ===== src/Bus/Kept.antt =====
-- frontend/src/lib/web-event-bus.ts: the live subscriptions, and what a change of their list keeps.
use alt_sendme.Prelude.{
  ℕ, zero, suc, ◌<◌, false, ◌≡◌, refl, ap, subst, Text, text_eq, none, some, List, [], ◌∷◌, ◌++◌,
  All, All-append, All-remove_at, All-get_elem?, get, get_elem?, remove_at, arith, ◌==◌, ==_iff,
  if◌then◌else◌, Bool-cases, inl, inr, length,
}
use mathlib.Core.Option.{none-ne-some}
use alt_sendme.Bus.Listeners.{has_handler, delete_handler, dispatch_web_event}
use alt_sendme.Bus.Client.{Subscription, Client, handlers_of}
use alt_sendme.Bus.Heard.{Apart}

-- The end of a live subscription holds the set of its event.
abbrev pub Holds : List (Text × ℕ) → Subscription → Type 0
Holds listeners s = get s.event listeners ≡ some s.cell

abbrev pub Older : ℕ → Subscription → Type 0
Older count s = s.handler < count

abbrev Other : Subscription → Subscription → Type 0
Other s t = (s.handler == t.handler) ≡ false

abbrev DistinctHandlers : List Subscription → Type 0
DistinctHandlers [] = Unit
DistinctHandlers (s ∷ live) = All (Other s) live × DistinctHandlers live

pub record Inv (c : Client) : Type 0 where
  pub is_apart : Apart c.bus
  pub heard : (j : Text) → dispatch_web_event j c.bus ≡ handlers_of j c.live
  pub held : All (Holds c.bus.listeners) c.live
  pub older : All (Older c.count) c.live
  pub distinct : DistinctHandlers c.live

pub has_handler-handlers_of :
    (count : ℕ) (j : Text) (live : List Subscription)
    → All (Older count) live
    → has_handler count (handlers_of j live) ≡ false
unfolding handlers_of
has_handler-handlers_of count j [] a = refl
has_handler-handlers_of count j (s ∷ live) a =
    ground (arith, a.0, has_handler-handlers_of count j live a.1, ==_iff s.handler count)

pub handlers_of-append :
    (j : Text) (s : Subscription) (live : List Subscription)
    → handlers_of j (live ++ s ∷ [])
      ≡ (if text_eq s.event j then handlers_of j live ++ s.handler ∷ [] else handlers_of j live)
unfolding handlers_of
handlers_of-append j s [] = ground arith
handlers_of-append j s (t ∷ live) = ground (arith, handlers_of-append j s live)

pub stay_below :
    (count : ℕ) (live : List Subscription) → All (Older count) live → All (Older (suc count)) live
stay_below count [] a = tt
stay_below count (s ∷ live) a = (omega (arith, a.0), stay_below count live a.1)

pub append-Distinct :
    (s : Subscription) (live : List Subscription)
    → All (Older s.handler) live
    → DistinctHandlers live
    → DistinctHandlers (live ++ s ∷ [])
append-Distinct s [] a d = (tt, tt)
append-Distinct s (t ∷ live) a d = (
  All-append (Other t) live (s ∷ []) d.0 (ground (arith, a.0, ==_iff t.handler s.handler), tt),
  append-Distinct s live a.1 d.1,
)

pub remove_at-Distinct :
    (i : ℕ) (live : List Subscription) → DistinctHandlers live → DistinctHandlers (remove_at i live)
remove_at-Distinct i [] d = tt
remove_at-Distinct zero (s ∷ live) d = d.1
remove_at-Distinct (suc i) (s ∷ live) d =
    (All-remove_at (Other s) i live d.0, remove_at-Distinct i live d.1)

pub handlers_of-remove_at :
    (j : Text) (i : ℕ) (live : List Subscription) (s : Subscription)
    → get_elem? live i ≡ some s
    → DistinctHandlers live
    → handlers_of j (remove_at i live) ≡ (
        if text_eq s.event j
        then delete_handler s.handler (handlers_of j live)
        else handlers_of j live)
unfolding handlers_of delete_handler
handlers_of-remove_at j i [] s e d = absurd (none-ne-some s e)
handlers_of-remove_at j zero (t ∷ live) s e d =
    let same : t ≡ s = ap (λ o. elim o [ none ↦ t | some z ↦ z ]) e in
    subst
      (λ u. handlers_of j live ≡ (
        if text_eq u.event j
        then delete_handler u.handler (handlers_of j (t ∷ live))
        else handlers_of j (t ∷ live)))
      same (ground (arith, ==_iff t.handler t.handler))
handlers_of-remove_at j (suc i) (t ∷ live) s e d =
    let other : Other t s = All-get_elem? (Other t) i live s d.0 e in
    ground (arith, other, handlers_of-remove_at j i live s e d.1)

pub none_of :
    (j : Text) (live : List Subscription)
    → handlers_of j live ≡ []
    → All (λ s. text_eq s.event j ≡ false) live
unfolding handlers_of
none_of j [] e = tt
none_of j (s ∷ live) e = elim (Bool-cases (text_eq s.event j)) [
  | inl h ↦
      let bad : s.handler ∷ handlers_of j live ≡ [] = rw (h) at e in
      let size : length (s.handler ∷ handlers_of j live) ≡ 0 = ap length bad in
      absurd (omega (arith, size))
  | inr h ↦ (h, none_of j live (rw (h) at e))
]
