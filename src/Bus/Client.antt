-- ===== src/Bus/Client.antt =====
-- frontend/src/lib/web-event-bus.ts as its callers use it: each subscription has a handler of its own,
-- and is ended once at most.
use alt_sendme.Prelude.{
  ℕ, suc, Text, text_eq, Option, none, some, List, [], ◌∷◌, ◌++◌, get_elem?, remove_at,
  if◌then◌else◌,
}
use alt_sendme.Bus.Listeners.{Bus, no_listeners, subscribe_web_event, unsubscribe}

-- A subscription, with what its end holds.
pub record Subscription : Type 0 where
  pub event : Text
  pub cell : ℕ
  pub handler : ℕ

-- The bus, the subscriptions that are not ended, the oldest first, and how many there were.
pub record Client : Type 0 where
  pub bus : Bus
  pub live : List Subscription
  pub count : ℕ

pub data Call : Type 0 where
  subscribes : Text → Call
  -- the end of the live subscription at an index
  ends : ℕ → Call

abbrev pub start : Client
start = record { bus = no_listeners; live = []; count = 0 }

abbrev pub subscription : Text → Client → Subscription
subscription event c = record {
  event = event;
  cell = (subscribe_web_event event c.count c.bus).1;
  handler = c.count;
}

abbrev pub end_of : ℕ → Option Subscription → Client → Client
end_of i none c = c
end_of i (some s) c = record {
  bus = unsubscribe s.event s.cell s.handler c.bus;
  live = remove_at i c.live;
  count = c.count;
}

unfoldable pub step : Call → Client → Client
unfolding subscribe_web_event unsubscribe
step (subscribes event) c = record {
  bus = (subscribe_web_event event c.count c.bus).0;
  live = c.live ++ subscription event c ∷ [];
  count = suc c.count;
}
step (ends i) c = end_of i (get_elem? c.live i) c

unfoldable pub run : List Call → Client → Client
unfolding step
run [] c = c
run (call ∷ calls) c = run calls (step call c)

-- The handlers of the live subscriptions to an event, the oldest first.
unfoldable pub handlers_of : Text → List Subscription → List ℕ
unfolding text_eq
handlers_of event [] = []
handlers_of event (s ∷ live) =
    let rest = handlers_of event live in if text_eq s.event event then s.handler ∷ rest else rest
