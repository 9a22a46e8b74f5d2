-- ===== src/Bus/Tests.antt =====
-- Runs of frontend/src/lib/web-event-bus.ts on a few subscriptions.
use alt_sendme.Prelude.{◌≡◌, refl, codes, text_eq, List, [], ◌∷◌, get, put, delete}
use alt_sendme.Bus.Listeners.{
  Bus, no_listeners, add_handler, delete_handler, dispatch_web_event, subscribe_web_event,
  unsubscribe,
}
use alt_sendme.Bus.Client.{Call, subscribes, ends, start, step, run, handlers_of}
use alt_sendme.Bus.Live.{run-heard}

abbrev calls : List Call
calls =
    subscribes (codes "a")
    ∷ subscribes (codes "b")
    ∷ subscribes (codes "a")
    ∷ ends 0
    ∷ ends 0
    ∷ subscribes (codes "b")
    ∷ []

reached : dispatch_web_event (codes "b") (run calls start).bus ≡ 3 ∷ []
unfolding run step subscribe_web_event unsubscribe dispatch_web_event add_handler delete_handler get
    put delete text_eq
reached = refl

run-heard_example :
    dispatch_web_event (codes "b") (run calls start).bus
    ≡ handlers_of (codes "b") (run calls start).live
run-heard_example = run-heard calls (codes "b")

-- The end of the first subscription is called again when a second one has made a new set.
abbrev first : Bus
first = (subscribe_web_event (codes "a") 1 no_listeners).0

abbrev second : Bus
second = (subscribe_web_event (codes "a") 2 (unsubscribe (codes "a") 0 1 first)).0

ended_twice : dispatch_web_event (codes "a") (unsubscribe (codes "a") 0 1 second) ≡ []
unfolding subscribe_web_event unsubscribe dispatch_web_event add_handler delete_handler get put
    delete text_eq
ended_twice = refl
