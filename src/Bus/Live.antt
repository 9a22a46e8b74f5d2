-- ===== src/Bus/Live.antt =====
-- frontend/src/lib/web-event-bus.ts: whatever its callers do, an event reaches the handlers of its live
-- subscriptions, the oldest first.
use alt_sendme.Prelude.{
  ℕ, suc, false, ◌≡◌, refl, sym, ap, ◌∙◌, Text, text_eq, text_eq_iff, text_eq_refl, Option, none,
  some, List, [], ◌∷◌, ◌++◌, All, All-append, All-remove_at, All-get_elem?, get, delete, get-put,
  get-delete, get_elem?, remove_at, arith, if◌then◌else◌,
}
use mathlib.Core.Option.{none-ne-some}
use alt_sendme.Bus.Listeners.{
  Bus, has_handler, add_handler, delete_handler, dispatch_web_event, subscribe_web_event,
  subscribed, handlers_in, unsubscribe, without_empty,
}
use alt_sendme.Bus.Client.{
  Subscription, Client, Call, subscribes, ends, start, subscription, end_of, step, run, handlers_of,
}
use alt_sendme.Bus.Heard.{subscribed-Apart, subscribed-heard, ended-Apart, ended-heard}
use alt_sendme.Bus.Kept.{
  Holds, Older, Inv, has_handler-handlers_of, handlers_of-append, stay_below, append-Distinct,
  remove_at-Distinct, handlers_of-remove_at, none_of,
}

-- The map after a subscription to an event.
held-subscribed :
    (event : Text) (h : ℕ) (bus : Bus) (o : Option ℕ)
    → get event bus.listeners ≡ o
    → (live : List Subscription) → All (Holds bus.listeners) live
    → All (Holds (subscribed event h o bus).0.listeners) live
held-subscribed event h bus o e [] a = tt
held-subscribed event h bus none e (s ∷ live) a = (
  ground (arith, get-put event s.event bus.next bus.listeners, text_eq_iff event s.event, a.0, e),
  held-subscribed event h bus none e live a.1,
)
held-subscribed event h bus (some cell) e (s ∷ live) a = a

holds-subscribed :
    (event : Text) (h : ℕ) (bus : Bus) (o : Option ℕ)
    → get event bus.listeners ≡ o
    → get event (subscribed event h o bus).0.listeners ≡ some (subscribed event h o bus).1
holds-subscribed event h bus none e =
    ground (arith, get-put event event bus.next bus.listeners, text_eq_refl event)
holds-subscribed event h bus (some cell) e = e

added :
    (event j : Text) (h : ℕ) (xs ys : List ℕ)
    → xs ≡ ys
    → has_handler h ys ≡ false
    → (if text_eq event j then add_handler h xs else xs)
      ≡ (if text_eq event j then ys ++ h ∷ [] else ys)
unfolding add_handler
added event j h xs ys e f = rw (e, f) refl

subscribes-Inv : (event : Text) (c : Client) → Inv c → Inv (step (subscribes event) c)
unfolding step subscribe_web_event
subscribes-Inv event c i =
    let o : Option ℕ = get event c.bus.listeners in
    let s : Subscription = subscription event c in
    record {
      is_apart = subscribed-Apart event c.count c.bus i.is_apart o refl;
      heard = λ j.
          subscribed-heard event c.count c.bus i.is_apart o refl j
          ∙ added event j c.count (dispatch_web_event j c.bus) (handlers_of j c.live) (i.heard j)
              (has_handler-handlers_of c.count j c.live i.older)
          ∙ sym (handlers_of-append j s c.live);
      held =
          All-append (Holds (subscribed event c.count o c.bus).0.listeners) c.live (s ∷ [])
            (held-subscribed event c.count c.bus o refl c.live i.held)
            (holds-subscribed event c.count c.bus o refl, tt);
      older =
          All-append (Older (suc c.count)) c.live (s ∷ []) (stay_below c.count c.live i.older)
            (omega arith, tt);
      distinct = append-Distinct s c.live i.older i.distinct;
    }

deleted-held :
    (event : Text) (listeners : List (Text × ℕ)) (live : List Subscription)
    → All (λ s. text_eq s.event event ≡ false) live
    → All (Holds listeners) live
    → All (Holds (delete event listeners)) live
deleted-held event listeners [] n a = tt
deleted-held event listeners (s ∷ live) n a = (
  ground (
    arith,
    get-delete event s.event listeners,
    n.0,
    a.0,
    text_eq_iff event s.event,
    text_eq_iff s.event event,
  ),
  deleted-held event listeners live n.1 a.1,
)

-- The others hold the map's cells when an event loses a handler; where none is left, none of them is
-- of that event.
left-held :
    (event : Text) (left : List ℕ) (listeners : List (Text × ℕ)) (live : List Subscription)
    → left ≡ handlers_of event live
    → All (Holds listeners) live
    → All (Holds (without_empty event left listeners)) live
left-held event [] listeners live e a =
    deleted-held event listeners live (none_of event live (sym e)) a
left-held event (h ∷ left) listeners live e a = a

taken :
    (event j : Text) (h : ℕ) (xs ys : List ℕ)
    → xs ≡ ys
    → (if text_eq event j then delete_handler h xs else xs)
      ≡ (if text_eq event j then delete_handler h ys else ys)
taken event j h xs ys e = ap (λ zs. if text_eq event j then delete_handler h zs else zs) e

ends-Inv :
    (i : ℕ) (c : Client) (o : Option Subscription)
    → get_elem? c.live i ≡ o
    → Inv c
    → Inv (end_of i o c)
unfolding dispatch_web_event unsubscribe
ends-Inv i c none e v = v
ends-Inv i c (some s) e v =
    let holds : Holds c.bus.listeners s =
      All-get_elem? (Holds c.bus.listeners) i c.live s v.held e in
    let left : List ℕ = delete_handler s.handler (c.bus.cells s.cell) in
    let in_cell : dispatch_web_event s.event c.bus ≡ c.bus.cells s.cell =
      ap (handlers_in c.bus.cells) holds in
    let removed = handlers_of-remove_at s.event i c.live s e v.distinct in
    let is_left : left ≡ handlers_of s.event (remove_at i c.live) =
      ap (delete_handler s.handler) (sym in_cell ∙ v.heard s.event)
      ∙ sym (rw (text_eq_refl s.event) at removed) in
    let heard : (j : Text)
        → dispatch_web_event j (unsubscribe s.event s.cell s.handler c.bus)
          ≡ handlers_of j (remove_at i c.live) =
      λ j.
        ended-heard s.event s.cell s.handler c.bus v.is_apart holds j
        ∙ taken s.event j s.handler (dispatch_web_event j c.bus) (handlers_of j c.live) (v.heard j)
        ∙ sym (handlers_of-remove_at j i c.live s e v.distinct) in
    record {
      is_apart = ended-Apart s.event s.cell s.handler c.bus v.is_apart;
      heard = heard;
      held =
          left-held s.event left c.bus.listeners (remove_at i c.live) is_left
            (All-remove_at (Holds c.bus.listeners) i c.live v.held);
      older = All-remove_at (Older c.count) i c.live v.older;
      distinct = remove_at-Distinct i c.live v.distinct;
    }

step-Inv : (call : Call) (c : Client) → Inv c → Inv (step call c)
unfolding step
step-Inv (subscribes event) c v = subscribes-Inv event c v
step-Inv (ends i) c v = ends-Inv i c (get_elem? c.live i) refl v

run-Inv : (calls : List Call) (c : Client) → Inv c → Inv (run calls c)
unfolding run
run-Inv [] c v = v
run-Inv (call ∷ calls) c v = run-Inv calls (step call c) (step-Inv call c v)

start-Inv : Inv start
unfolding dispatch_web_event get handlers_of
start-Inv = record {
  is_apart = record {
    made = λ event cell e. absurd (none-ne-some cell e);
    apart = λ a b cell e f. absurd (none-ne-some cell e);
  };
  heard = λ j. refl;
  held = tt;
  older = tt;
  distinct = tt;
}

-- If each subscription has a handler of its own and is ended once at most, then at any time an event is
-- passed to the handlers of its subscriptions that are not ended, each once, the oldest first, and to
-- no others.
pub run-heard :
    (calls : List Call) (event : Text)
    → dispatch_web_event event (run calls start).bus ≡ handlers_of event (run calls start).live
run-heard calls event = (run-Inv calls start start-Inv).heard event
