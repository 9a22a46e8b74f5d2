-- ===== src/Bridge/Engine.antt =====
-- frontend/src/lib/wasm-bridge-client.ts: the engine that runs in the browser, and what it is called
-- for. The engine itself is a parameter.
use alt_sendme.Prelude.{ℕ, Bool, Text, Option, none, some, List, [], ◌∷◌, ◌++◌, ◌⊎◌, inl, inr}
use alt_sendme.Save.Names.{WriteConflict}
use alt_sendme.Save.Location.{World}
use alt_sendme.Web.Files.{Files}
use alt_sendme.Web.Send.{WebSendEntryType, Payload, SendError}

-- What the engine answers, for the relay configurations `R` and the answers `V` about relays; `none`
-- where it throws. Its answers in JSON are given parsed.
pub record Engine (R V : Type 0) : Type 0 where
  -- whether the module loads and starts
  pub is_loaded : Bool
  pub fetch_ticket_metadata : Text → Option R → Option V
  pub send_items : Payload → WebSendEntryType → Option R → Option Text
  pub receive_file : Text → Option R → Option (List Text × List (List ℕ))
  pub verify_relays : R → Option V
  pub get_relay_status : Option R → Option V

-- An event of the browser's bus (frontend/src/lib/web-event-bus.ts).
pub data WebEvent : Type 0 where
  receive_conflicts : List WriteConflict → WebEvent
  receive_completed : WebEvent

-- What the calls change: the chosen files, `currentTicket`, the disk and the downloads, and the events
-- that were dispatched.
pub record Browser (D : Type 0) : Type 0 where
  pub files : Files
  pub current_ticket : Option Text
  pub world : World D
  pub dispatched : List WebEvent

pub data CallError : Type 0 where
  transfer_unavailable ticket_required no_file_selected incomplete relay_required : CallError
  not_in_preview engine_failed save_failed : CallError
  not_sent : SendError → CallError

abbrev pub answered : {A : Type 0} → Option A → CallError ⊎ A
answered none = inl engine_failed
answered (some a) = inr a

module _ {D : Type 0} where
  -- The event is given to the listeners.
  unfoldable pub dispatch_web_event : WebEvent → Browser D → Browser D
  dispatch_web_event e b = record b { dispatched = b.dispatched ++ e ∷ [] }

  unfoldable pub wasm_send_items : Option Text → Browser D → Browser D × (CallError ⊎ Text)
  wasm_send_items none b = (b, inl engine_failed)
  wasm_send_items (some ticket) b = (record b { current_ticket = some ticket }, inr ticket)

  unfoldable pub wasm_stop_sharing : Browser D → Browser D
  wasm_stop_sharing b = record b { current_ticket = none }

  unfoldable pub get_web_sharing_ticket : Browser D → Option Text
  get_web_sharing_ticket b = b.current_ticket
