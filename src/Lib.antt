-- ===== src/Lib.antt =====
-- AltSendme sends files from one device to another. A Rust engine moves the bytes; the program
-- modelled here is its interface (frontend/src), in TypeScript, which runs on the desktop, on
-- Android and in the browser. The engine tells it by events what happens to a transfer, and it
-- calls the engine by `invoke`; both are outside this model, so that any sequence of events and
-- answers can occur.
-- Beside it stands the script that writes the notes of a release (scripts).
--
-- How the parts interact. The sender (frontend/src/hooks/useSender.ts) and the receiver
-- (frontend/src/hooks/useReceiver.ts) are React hooks: handlers of the engine's events and of the
-- user's actions, which read and write a state, and refs beside it. A handler that awaits an answer
-- ends there, and what follows runs when the answer comes, in between other events. The sender keeps
-- its state in a store (frontend/src/store/sender-store.ts). Both measure the speed with
-- frontend/src/utils/etaUtils.ts. In the browser the received files are saved by
-- frontend/src/lib/web-save-location.ts, which makes one archive of several files with
-- frontend/src/lib/web-zip.ts.
--
-- The modules.
--   Prelude: tests, lists, association lists, and JavaScript's strings as lists of UTF-16 units.
--   Transfer: frontend/src/types/transfer.ts and frontend/src/types/ui.ts. Numbers of JavaScript are
--     any type with the operations that the code uses (record Numbers); nothing is assumed of them.
--   Eta: SpeedAverager (add_sample, get_average), calculateETA (calculate_eta) and formatETA (format_eta).
--   Sender.Store: the store's state and one function per action.
--   Sender.Hook: the hook's state: the store, the refs, the values of the last render, which the
--     handlers' closures hold, the interval, and the list of awaited answers and timers (Task).
--   Sender.Events, Sender.Controls: one function per handler, split at each `await`.
--   Sender.Machine: the events (Event), the answers (Reply), `step` and `run`.
--   Sender.Invites: the invitations of paired devices, a machine of its own, which sees the ticket of
--     each render (useSender.ts and frontend/src/lib/paired-send-counts.ts).
--   Sender.Selection, Sender.Stopping, Sender.Transfers, Sender.Unstuck: the theorems.
--   Receiver.Paths: countTopLevelItems, resolveRevealPath and the helpers of paths.
--   Receiver.State, Receiver.Events, Receiver.Controls, Receiver.Machine: as for the sender; a render
--     also syncs the refs and runs the effect of the preview, with its timer and its requests.
--   Receiver.Preview, Receiver.Sequence, Receiver.Resetting: the theorems.
--   Zip.Bytes, Zip.Headers, Zip.Archive: crc32, the buffers and their writes, the headers, and
--     createStoreOnlyZip. Zip.Reader is a reader by the specification of the format, written apart
--     from the code; Zip.Layout, Zip.Fields, Zip.Written and Zip.RoundTrip relate the two.
--   Save.Names, Save.Folder, Save.Location: the names, writing below a folder, and the choice between
--     the folder, a download and an archive. Save.Resolve, Save.Kept, Save.Received: the theorems.
--   Pairing.Devices: the lists of paired devices of frontend/src/lib/pairing-api.ts, their order and
--     the updates of a presence; Pairing.Labels: the labels and the search.
--     Pairing.Order, Pairing.Presence: the theorems.
--   Node.Status, Node.Machine: the status of the device's node, with the requests and the timer by
--     which it is waited for (frontend/src/store/node-capability-store.ts); Node.Waiting, Node.Ending:
--     the theorems.
--   Pairing.Hook, Pairing.Machine: the hook usePairing with its store and its listeners
--     (frontend/src/hooks/usePairing.ts, frontend/src/store/pairing-data-store.ts), which runs
--     Node.Machine beside its own state; Pairing.Coherent, Pairing.Countdown: the theorems.
--   Web.Files, Web.Send: the files that are chosen in the browser (frontend/src/lib/web-file-store.ts)
--     and what is sent of them (frontend/src/lib/web-send-items.ts); Web.Metadata, Web.Preview: what
--     is told of them beside (frontend/src/lib/web-send-metadata.ts);
--     Web.Entries, Web.Drop: what is dropped in the browser, read and registered
--     (frontend/src/lib/web-drag-drop.ts); Web.Registered, Web.Sent, Web.Chosen, Web.Reading,
--     Web.Inside, Web.Dropped, Web.Told, Web.Previewed, Web.Refined (the store against one map from paths): the theorems.
--   Bus.Listeners: the handlers of the browser's events (frontend/src/lib/web-event-bus.ts), and
--     Bus.Client their callers; Bus.Heard, Bus.Kept, Bus.Live: the theorems.
--   Bridge.Engine, Bridge.Stub, Bridge.Invoke: the calls of the browser
--     (frontend/src/lib/platform-api.ts, frontend/src/lib/wasm-bridge-client.ts), over Web.Files, Web.Send
--     and Save.Location; Bridge.Picking: the files of the page's input; Bridge.Sizes,
--     Bridge.Receiving, Bridge.Sharing: the theorems.
--   Dropping.State, Dropping.Machine: the hook useDragDrop (frontend/src/hooks/useDragDrop.ts) on its
--     three platforms, as for the sender; Dropping.Consistent, Dropping.Shares: the theorems.
--   Relay.Config, Relay.Settings: the relays' configuration (frontend/src/lib/relay-config.ts and the
--     files beside it) and the handlers of frontend/src/components/settings/relay/relay-settings.tsx;
--     Relay.Editing: the URL in its row; Relay.Regions: the country of a relay
--     (frontend/src/lib/relay.ts); Relay.Secure, Relay.Sanitized: the theorems.
--   Release.Patterns, Release.Lines: the regular expressions of scripts/generate-release-notes.js, each as
--     the matcher of that one; Release.Commits: the commits, parsed and normalized; Release.Grouping: a
--     Map of lists; a lookup in a plain object of the script also finds what every object inherits
--     (inherited_properties); Release.Sections: the groups' summaries and the highlights; Release.Work,
--     Release.Contributors: whom the notes thank; Release.Notes: the whole notes.
--     Release.Partition, Release.Summaries, Release.Highlights, Release.Normalized, Release.Loaded,
--     Release.Inherited, Release.Scanned, Release.Logins, Release.Credited: the theorems.
--   Sorting: a stable sort by a comparison.
--   Samples: one instance of Numbers. The modules Tests hold runs on small inputs.
--
-- What is a parameter. The engine that runs in the browser (Bridge.Engine.Engine), of which nothing is
-- assumed. The parser of URLs. What git and GitHub print for the notes
-- of a release. The texts of the interface (`t`), the numbers, the platform's `join` of
-- paths, the text encoder, `toLowerCase`, `toUpperCase`
-- and `localeCompare`, and the browser's file system
-- (Save.Folder.FileSystem), of which the theorems on saving assume what Documented says: a write
-- changes the one file that it writes, which then has the content, and opening a folder changes
-- no file. Payloads that the code parses as JSON are given parsed, `none` where they are
-- malformed. Errors that the code throws are `none`, or a Failure.
--
-- Bounds. Loops over lists are structural. Reading dropped folders has fuel for their depth
-- (Web.Reading.depth). The loop of resolveWritableFileName has fuel for its 9999 rounds, which are all
-- that the code runs. A number in such a name is at most 9999; five digits are
-- printed at most. The checksum's table has its 256 entries. Fields of 16 and 32 bits are written
-- modulo 2^16 and 2^32, as DataView does.
--
-- What is not modelled: the drawing of the interface (frontend/src/components), translations, themes
-- and routes; the Rust engine, its bindings, and the build but the notes of a release; the logging of
-- errors; the thumbnails and items of a preview in the receiver; what handlers of the browser's events
-- do while one is dispatched; and the browser's database and folder picker.
pub mod Prelude
pub mod Sorting
pub mod Transfer
pub mod Eta
pub mod Sender
pub mod Receiver
pub mod Zip
pub mod Save
pub mod Pairing
pub mod Node
pub mod Web
pub mod Bus
pub mod Bridge
pub mod Dropping
pub mod Relay
pub mod Release
pub mod Samples
