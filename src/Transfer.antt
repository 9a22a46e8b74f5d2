-- ===== src/Transfer.antt =====
-- The data that the sender and the receiver share (frontend/src/types/transfer.ts and ui.ts), and
-- the numbers of the language.
use alt_sendme.Prelude.{ℕ, Bool, false, Text, Option, none, some, if◌then◌else◌, []}

-- JavaScript's numbers, IEEE doubles, are not modelled: `N` is any type with the operations that
-- the source applies to them. No theorem assumes a law of an operation that it does not name.
pub record Numbers (N : Type 0) : Type 0 where
  pub zero : N
  pub one : N
  pub hundred : N
  pub thousand : N
  pub add : N → N → N
  pub sub : N → N → N
  pub div : N → N → N
  pub mul : N → N → N
  pub max : N → N → N
  pub min : N → N → N
  -- `a > b`
  pub gt : N → N → Bool
  -- `a <= b`
  pub le : N → N → Bool
  pub is_nan : N → Bool
  pub is_finite : N → Bool
  -- `Boolean(a)`: false for 0 and NaN
  pub truthy : N → Bool
  -- `parseInt(text, 10)`
  pub parse_int : Text → N

-- `a ? b : c` on a number that may be `null`
abbrev pub is_set {ℓ} : {A : Type ℓ} → (A → Bool) → Option A → Bool
is_set truthy none = false
is_set truthy (some n) = truthy n

-- `a || b` on a number that may be `null`
abbrev pub or_number {ℓ} : {A : Type ℓ} → (A → Bool) → Option A → A → A
or_number truthy none d = d
or_number truthy (some n) d = if truthy n then n else d

pub data PathType : Type 0 where
  file directory : PathType

pub data AlertType : Type 0 where
  success error info : AlertType

pub record AlertDialogState : Type 0 where
  pub is_open : Bool
  pub title : Text
  pub description : Text
  pub type : AlertType

abbrev pub closed_alert : AlertDialogState
closed_alert = record { is_open = false; title = []; description = []; type = info }

pub record TransferProgress (N : Type 0) : Type 0 where
  pub bytes_transferred : N
  pub total_bytes : N
  pub speed_bps : N
  pub percentage : N
  pub eta_seconds : Option N

-- An optional field that is absent is `none`.
pub record TransferMetadata (N : Type 0) : Type 0 where
  pub file_name : Text
  pub file_size : N
  pub duration : N
  pub start_time : N
  pub end_time : N
  pub download_path : Option Text
  pub was_stopped : Bool
  pub path_type : Option PathType
  pub item_count : Option ℕ

-- A rejected promise: `String(error)`, and for a `WebPreviewError` its message.
pub record Failure : Type 0 where
  pub text : Text
  pub preview_message : Option Text
