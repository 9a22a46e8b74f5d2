-- ===== src/Receiver/Controls.antt =====
-- frontend/src/hooks/useReceiver.ts: the handlers of the user's actions, and what they do after each
-- `await`.
use alt_sendme.Prelude.{
  ℕ, suc, Bool, true, false, not, ◌&&◌, ◌||◌, Text, codes, Option, none, some, [], leb, trim,
  is_empty, if◌then◌else◌, text_eq, length, drop, ◌-◌,
}
use alt_sendme.Transfer.{AlertType, Failure}
use alt_sendme.Sender.Controls.{error_text, with_colon}
use alt_sendme.Receiver.Paths.{resolve_reveal_path}
use alt_sendme.Receiver.State.{
  TicketPreviewMetadata, Platform, Messages, download_dir, receive_file, browse, open_folder,
  Receiver, on_state, await, alert,
}

-- frontend/src/lib/pairing-api.ts, without `remote_endpoint_id`
pub record PairedInvite : Type 0 where
  pub blob_ticket : Text
  pub file_count : ℕ
  pub total_size : ℕ
  pub sender_name : Text

-- `text.endsWith(suffix)`
unfoldable pub ends_with : Text → Text → Bool
unfolding text_eq
ends_with text suffix =
    leb (length suffix) (length text) && text_eq (drop (length text - length suffix) text) suffix

unfoldable pub is_cancelled : Text → Bool
unfolding ends_with
is_cancelled text = text_eq text (codes "cancelled") || ends_with text (codes ": cancelled")

abbrev first_count : Option TicketPreviewMetadata → Option TicketPreviewMetadata → Option ℕ
first_count none none = none
first_count none (some p) = some p.item_count
first_count (some p) q = some p.item_count

-- `a ?? b`, both optional
abbrev or_count : Option ℕ → Option ℕ → Option ℕ
or_count none b = b
or_count (some n) b = some n

abbrev preview_of : PairedInvite → TicketPreviewMetadata
preview_of invite = record {
  file_name = invite.sender_name;
  item_count = invite.file_count;
  size = invite.total_size;
  mime_type =
      if leb 2 invite.file_count then some (codes "application/x-iroh-collection") else none;
}

module _ {N : Type 0} (msg : Messages) (platform : Platform) where
  -- `handleTicketChange`
  unfoldable pub change_ticket : Text → Receiver N → Receiver N
  change_ticket ticket r = on_state (λ s. record s { ticket = ticket }) r

  -- The state that `receiveWithTicket` sets before its first `await`.
  unfoldable pub begin_receive : Receiver N → Receiver N
  unfolding trim
  begin_receive r = record r {
    transfer_item_count =
        or_count r.transfer_item_count
          (first_count r.preview_metadata_ref r.rendered.preview_metadata);
    preview_request_seq = suc r.preview_request_seq;
    transfer_seq = suc r.transfer_seq;
    state = record (r.state) {
      is_receiving = true;
      is_transporting = false;
      is_completed = false;
      transfer_metadata = none;
      transfer_progress = none;
      transfer_start_time = none;
      is_preview_loading = false;
    };
    pending_conflict_notice = none;
    folder_open_triggered = false;
    android_open_uri = if platform.is_android then trim r.downloads_uri_ref else [];
  }

  -- `receiveWithTicket`, up to its first `await`
  unfoldable pub receive_with : Text → Receiver N → Receiver N
  unfolding trim begin_receive
  receive_with ticket r =
      let path = trim r.save_path_ref in
      if is_empty (trim ticket)
      then r
      else if is_empty path && not platform.is_web && not platform.is_android
      then await (download_dir (trim ticket)) (begin_receive r)
      else await (receive_file (trim ticket) path) (begin_receive r)

  -- `handleReceive`
  unfoldable pub handle_receive : Receiver N → Receiver N
  unfolding receive_with
  handle_receive r = receive_with r.rendered.ticket r

  -- `downloadDir()` has answered
  unfoldable pub found_folder : Text → Text → Receiver N → Receiver N
  found_folder ticket path r =
      await (receive_file ticket path)
        (record r { state = record (r.state) { save_path = path }; save_path_ref = path })

  -- The `catch` of `receiveWithTicket`
  unfoldable pub fail_receive : Failure → Receiver N → Receiver N
  unfolding is_cancelled error_text
  fail_receive error r =
      if is_cancelled error.text
      then r
      else on_state
          (λ s.
            record (alert (msg.plain (codes "common:errors.receiveFailed"))
              (error_text error (msg.plain (codes "common:webPreview.transferUnavailable"))
                error.text)
              AlertType.error s) {
                is_receiving = false;
                is_transporting = false;
                is_completed = false;
              })
          r

  -- `acceptPairedInvite`
  unfoldable pub accept_invite : PairedInvite → Receiver N → Receiver N
  unfolding receive_with
  accept_invite invite r =
      let preview = preview_of invite in
      let chosen = record r {
        state = record (r.state) {
          ticket = invite.blob_ticket;
          preview_metadata = some preview;
          is_preview_loading = false;
        };
        preview_metadata_ref = some preview;
        transfer_item_count = some invite.file_count;
        preview_request_seq = suc r.preview_request_seq;
      } in
      if r.rendered.is_receiving || r.rendered.is_transporting
      then on_state
          (alert (msg.plain (codes "common:receiver.receiveBusyTitle"))
            (msg.plain (codes "common:receiver.receiveBusyDescription")) AlertType.info)
          r
      else receive_with invite.blob_ticket chosen

  -- `resetForNewTransfer`
  unfoldable pub reset : Receiver N → Receiver N
  reset r = record r {
    transfer_seq = 0;
    preview_request_seq = suc r.preview_request_seq;
    state = record (r.state) {
      is_receiving = false;
      is_transporting = false;
      is_completed = false;
      ticket = [];
      transfer_metadata = none;
      transfer_progress = none;
      transfer_start_time = none;
      file_names = [];
      preview_metadata = none;
      is_preview_loading = false;
    };
    pending_conflict_notice = none;
    folder_open_triggered = false;
    android_open_uri = [];
    transfer_item_count = none;
  }

  -- `initializeSavePath` has found a folder; the empty path where it has failed
  unfoldable pub initialize : Text → Receiver N → Receiver N
  initialize path r = on_state (λ s. record s { save_path = path }) r

  -- `handleBrowseFolder`, up to its dialog
  unfoldable pub browse_folder : Bool → Receiver N → Receiver N
  browse_folder picker r =
      if r.rendered.is_receiving || (platform.is_web && not picker) then r else await browse r

  -- The dialog's answer: on Android a path and a URI, else a path.
  unfoldable pub browsed : Option Text → Text → Receiver N → Receiver N
  browsed none uri r = r
  browsed (some path) uri r =
      on_state
        (λ s. record s {
          save_path = if is_empty path then s.save_path else path;
          downloads_path = if platform.is_android then path else s.downloads_path;
          downloads_uri = if platform.is_android then uri else s.downloads_uri;
        })
        r

  unfoldable pub fail_browse : Failure → Receiver N → Receiver N
  fail_browse error r =
      on_state
        (alert (msg.plain (codes "common:errors.folderDialogFailed"))
          (with_colon (msg.plain (codes "common:errors.folderDialogFailedDesc")) error.text)
          AlertType.error)
        r

  abbrev pub open_path : Option Text → Receiver N → Receiver N
  open_path none r = r
  open_path (some path) r = if is_empty path then r else await (open_folder path) r

  -- `handleOpenFolder`, up to the opening
  unfoldable pub open_received : (Text → Text → Option Text) → Receiver N → Receiver N
  unfolding trim resolve_reveal_path
  open_received join_path r =
      let opened = record r { folder_open_triggered = true } in
      let uri = trim r.android_open_uri in
      if platform.is_web || r.folder_open_triggered
      then r
      else if platform.is_android
      then (if is_empty uri
          then on_state
              (alert (msg.plain (codes "common:errors.openFolderFailed"))
                (msg.plain (codes "common:errors.openFolderUnavailableDesc")) AlertType.error)
              r
          else await (open_folder uri) opened)
      else if is_empty r.rendered.save_path
      then r
      else open_path (resolve_reveal_path join_path r.rendered.save_path r.file_names_ref) opened

  unfoldable pub fail_open : Failure → Receiver N → Receiver N
  fail_open error r =
      on_state
        (alert (msg.plain (codes "common:errors.openFolderFailed"))
          (with_colon (msg.plain (codes "common:errors.openFolderFailedDesc")) error.text)
          AlertType.error)
        (record r { folder_open_triggered = false })
