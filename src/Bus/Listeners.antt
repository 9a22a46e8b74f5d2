-- ===== src/Bus/Listeners.antt =====
-- frontend/src/lib/web-event-bus.ts: the map from events to sets of handlers. The sets are mutable
-- objects, which the functions that end a subscription hold too: they stand in cells, and the map
-- has the cells' numbers. A handler is a number, its identity.
use alt_sendme.Prelude.{
  ℕ, suc, Bool, Text, Option, none, some, List, [], ◌∷◌, ◌++◌, get, put, delete, any, ◌==◌,
  if◌then◌else◌,
}

pub record Bus : Type 0 where
  pub next : ℕ
  pub cells : ℕ → List ℕ
  pub listeners : List (Text × ℕ)

abbrev pub no_listeners : Bus
no_listeners = record { next = 0; cells = λ cell. []; listeners = [] }

-- The cells with another set in one of them.
abbrev pub set_cell : ℕ → List ℕ → (ℕ → List ℕ) → ℕ → List ℕ
set_cell cell handlers cells other = if cell == other then handlers else cells other

abbrev pub has_handler : ℕ → List ℕ → Bool
has_handler handler handlers = any (λ other. other == handler) handlers

-- `handlers.add(handler)`
unfoldable pub add_handler : ℕ → List ℕ → List ℕ
add_handler handler handlers =
    if has_handler handler handlers then handlers else handlers ++ handler ∷ []

-- `handlers.delete(handler)`
unfoldable pub delete_handler : ℕ → List ℕ → List ℕ
delete_handler handler [] = []
delete_handler handler (other ∷ handlers) =
    let rest = delete_handler handler handlers in
    if other == handler then handlers else other ∷ rest

-- The handlers that `dispatchWebEvent` calls, in their order.
abbrev pub handlers_in : (ℕ → List ℕ) → Option ℕ → List ℕ
handlers_in cells none = []
handlers_in cells (some cell) = cells cell

unfoldable pub dispatch_web_event : Text → Bus → List ℕ
unfolding get
dispatch_web_event event bus = handlers_in bus.cells (get event bus.listeners)

abbrev pub subscribed : Text → ℕ → Option ℕ → Bus → Bus × ℕ
subscribed event handler none bus = (
  record {
    next = suc bus.next;
    cells = set_cell bus.next (add_handler handler []) bus.cells;
    listeners = put event bus.next bus.listeners;
  },
  bus.next,
)
subscribed event handler (some cell) bus = (
  record {
    next = bus.next;
    cells = set_cell cell (add_handler handler (bus.cells cell)) bus.cells;
    listeners = bus.listeners;
  },
  cell,
)

-- The bus after a subscription, and the cell of the set that its end holds.
unfoldable pub subscribe_web_event : Text → ℕ → Bus → Bus × ℕ
unfolding get put add_handler
subscribe_web_event event handler bus = subscribed event handler (get event bus.listeners) bus

abbrev pub without_empty : Text → List ℕ → List (Text × ℕ) → List (Text × ℕ)
without_empty event [] listeners = delete event listeners
without_empty event (handler ∷ handlers) listeners = listeners

-- The function that `subscribeWebEvent` returns.
unfoldable pub unsubscribe : Text → ℕ → ℕ → Bus → Bus
unfolding delete delete_handler
unsubscribe event cell handler bus = record {
  next = bus.next;
  cells = set_cell cell (delete_handler handler (bus.cells cell)) bus.cells;
  listeners = without_empty event (delete_handler handler (bus.cells cell)) bus.listeners;
}
