-- ===== src/Bus/Heard.antt =====
-- frontend/src/lib/web-event-bus.ts: an event reaches the handlers of its live subscriptions.
use alt_sendme.Prelude.{
  ℕ, ◌<◌, true, ◌≡◌, refl, sym, ap, subst, Text, text_eq, text_eq_iff, Option, none, some, List, [],
  ◌∷◌, get, put, delete, get-put, get-delete, arith, ◌==◌, ==_iff, if◌then◌else◌, Bool-cases, inl,
  inr,
}
use alt_sendme.Bus.Listeners.{
  Bus, set_cell, add_handler, delete_handler, dispatch_web_event, subscribed, handlers_in,
  unsubscribe, without_empty,
}

-- Each event of the map has a cell of its own, of those that were made.
pub record Apart (bus : Bus) : Type 0 where
  pub made : (event : Text) (cell : ℕ) → get event bus.listeners ≡ some cell → cell < bus.next
  pub apart :
      (a b : Text) (cell : ℕ)
      → get a bus.listeners ≡ some cell
      → get b bus.listeners ≡ some cell
      → text_eq a b ≡ true

pub subscribed-Apart :
    (event : Text) (h : ℕ) (bus : Bus)
    → Apart bus
    → (o : Option ℕ) → get event bus.listeners ≡ o
    → Apart (subscribed event h o bus).0
subscribed-Apart event h bus i none e = record {
  made = λ a cell g. ground (arith, get-put event a bus.next bus.listeners, i.made a cell);
  apart = λ a b cell g k. ground (
    arith,
    get-put event a bus.next bus.listeners,
    get-put event b bus.next bus.listeners,
    i.apart a b cell,
    i.made a cell,
    i.made b cell,
    text_eq_iff event a,
    text_eq_iff event b,
    text_eq_iff a b,
  );
}
subscribed-Apart event h bus i (some cell) e = record { made = i.made; apart = i.apart }

left-Apart :
    (event : Text) (cell h : ℕ) (bus : Bus) (left : List ℕ)
    → Apart bus
    → Apart (record {
      next = bus.next;
      cells = set_cell cell left bus.cells;
      listeners = without_empty event left bus.listeners;
    })
left-Apart event cell h bus [] i = record {
  made = λ a other g. ground (arith, get-delete event a bus.listeners, i.made a other);
  apart = λ a b other g k. ground (
    arith,
    get-delete event a bus.listeners,
    get-delete event b bus.listeners,
    i.apart a b other,
  );
}
left-Apart event cell h bus (x ∷ left) i = record { made = i.made; apart = i.apart }

same_event :
    (event j : Text) (m : List (Text × ℕ)) {o : Option ℕ}
    → get event m ≡ o
    → text_eq event j ≡ true
    → get j m ≡ o
same_event event j m {o} e h =
    let same : event ≡ j = (text_eq_iff event j).0 h in subst (λ k. get k m ≡ o) same e

-- A handler in a cell of its own.
fresh-cell :
    (event j : Text) (h : ℕ) (bus : Bus) (o : Option ℕ)
    → (text_eq event j ≡ true → o ≡ none)
    → ((cell : ℕ) → o ≡ some cell → cell < bus.next)
    → handlers_in
        (set_cell bus.next (add_handler h []) bus.cells)
        (if text_eq event j then some bus.next else o)
      ≡ (if text_eq event j
          then add_handler h (handlers_in bus.cells o)
          else handlers_in bus.cells o)
fresh-cell event j h bus none e m = ground arith
fresh-cell event j h bus (some cell) e m =
    let below : cell < bus.next = m cell refl in ground (arith, below)

-- A handler in the cell of its event, which is that of no other event.
shared-cell :
    (event j : Text) (cell : ℕ) (new : List ℕ) (cells : ℕ → List ℕ) (o : Option ℕ)
    → (text_eq event j ≡ true → o ≡ some cell)
    → (o ≡ some cell → text_eq event j ≡ true)
    → handlers_in (set_cell cell new cells) o
      ≡ (if text_eq event j then new else handlers_in cells o)
shared-cell event j cell new cells none e a = ground arith
shared-cell event j cell new cells (some other) e a = elim (Bool-cases (cell == other)) [
  | inl same ↦
      let it : cell ≡ other = (==_iff cell other).0 same in ground (arith, a (ap some (sym it)))
  | inr differs ↦ ground (arith, e, differs, ==_iff cell other)
]

-- A subscription adds its handler to those that its event reaches, and to no others.
pub subscribed-heard :
    (event : Text) (h : ℕ) (bus : Bus)
    → Apart bus
    → (o : Option ℕ) → get event bus.listeners ≡ o
    → (j : Text)
    → dispatch_web_event j (subscribed event h o bus).0 ≡ (
        if text_eq event j
        then add_handler h (dispatch_web_event j bus)
        else dispatch_web_event j bus)
unfolding dispatch_web_event
subscribed-heard event h bus i none e j =
    let k : get j (put event bus.next bus.listeners)
        ≡ (if text_eq event j then some bus.next else get j bus.listeners) =
      get-put event j bus.next bus.listeners in
    rw (k) (
      fresh-cell event j h bus (get j bus.listeners) (same_event event j bus.listeners e)
        (i.made j))
subscribed-heard event h bus i (some cell) e j =
    let heard : text_eq event j ≡ true
        → handlers_in bus.cells (get j bus.listeners) ≡ bus.cells cell =
      λ h. ap (handlers_in bus.cells) (same_event event j bus.listeners e h) in
    ground (
      arith,
      heard,
      shared-cell event j cell (add_handler h (bus.cells cell)) bus.cells (get j bus.listeners)
          (same_event event j bus.listeners e) (λ k. i.apart event j cell e k),
    )

left-heard :
    (event j : Text) (cell : ℕ) (left : List ℕ) (bus : Bus)
    → (text_eq event j ≡ true → get j bus.listeners ≡ some cell)
    → handlers_in (set_cell cell left bus.cells) (get j (without_empty event left bus.listeners))
      ≡ handlers_in (set_cell cell left bus.cells) (get j bus.listeners)
left-heard event j cell [] bus e = elim (Bool-cases (text_eq event j)) [
  | inl h ↦
      let gone : get j (delete event bus.listeners) ≡ none =
        ground (arith, get-delete event j bus.listeners, h) in
      let itself : (cell == cell) ≡ true = (==_iff cell cell).1 refl in rw (gone, e h, itself) refl
  | inr h ↦
      ap (handlers_in (set_cell cell [] bus.cells))
        (ground (arith, get-delete event j bus.listeners, h))
]
left-heard event j cell (x ∷ left) bus e = refl

-- The end of a subscription takes its handler from those that its event reaches, and from no others.
pub ended-heard :
    (event : Text) (cell h : ℕ) (bus : Bus)
    → Apart bus
    → get event bus.listeners ≡ some cell
    → (j : Text)
    → dispatch_web_event j (unsubscribe event cell h bus) ≡ (
        if text_eq event j
        then delete_handler h (dispatch_web_event j bus)
        else dispatch_web_event j bus)
unfolding dispatch_web_event unsubscribe
ended-heard event cell h bus i e j =
    let old : Option ℕ = get j bus.listeners in
    let left : List ℕ = delete_handler h (bus.cells cell) in
    let heard : text_eq event j ≡ true → handlers_in bus.cells old ≡ bus.cells cell =
      λ h. ap (handlers_in bus.cells) (same_event event j bus.listeners e h) in
    ground (
      arith,
      heard,
      left-heard event j cell left bus (same_event event j bus.listeners e),
      shared-cell event j cell left bus.cells old (same_event event j bus.listeners e)
          (λ k. i.apart event j cell e k),
    )

pub ended-Apart :
    (event : Text) (cell h : ℕ) (bus : Bus) → Apart bus → Apart (unsubscribe event cell h bus)
unfolding unsubscribe
ended-Apart event cell h bus i = left-Apart event cell h bus (delete_handler h (bus.cells cell)) i
