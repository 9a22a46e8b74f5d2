-- ===== src/Bridge/Receiving.antt =====
-- frontend/src/lib/platform-api.ts: what a call tells, and what it does to the disk.
use alt_sendme.Prelude.{
  ℕ, ◌+◌, ◌≡◌, refl, sym, subst, Text, trim, is_empty, or_else, Option, none, some, List, [], ◌∷◌,
  ◌++◌, ◌⊎◌, inl, inr, Bool-cases, arith,
}
use alt_sendme.Save.Names.{WriteConflict}
use alt_sendme.Save.Folder.{FileSystem, Documented, ReceivedWebFile}
use alt_sendme.Save.Location.{
  DirectoryHandle, World, WriteCollectionResult, write_received_collection,
}
use alt_sendme.Save.Kept.{Keeps}
use alt_sendme.Save.Received.{write_received_collection-Keeps}
use alt_sendme.Bridge.Engine.{
  Engine, WebEvent, receive_conflicts, receive_completed, Browser, CallError, transfer_unavailable,
  ticket_required, dispatch_web_event,
}
use alt_sendme.Bridge.Stub.{Value}
use alt_sendme.Bridge.Invoke.{
  receive_file, Called, tell_conflicts, zip_files, save, save_received, finish_receive, receive,
  invoke_web_transfer, invoke_web,
}

-- How often it was told that a receive is complete.
abbrev pub completions : List WebEvent → ℕ
completions [] = 0
completions (receive_conflicts conflicts ∷ events) = completions events
completions (receive_completed ∷ events) = 1 + completions events

abbrev pub succeeds : {A : Type 0} → CallError ⊎ A → ℕ
succeeds (inl error) = 0
succeeds (inr a) = 1

abbrev pub Tells : {D V : Type 0} → Browser D → Called D V → Type 0
Tells b r = completions r.0.dispatched ≡ completions b.dispatched + succeeds r.1

completions-append :
    (xs ys : List WebEvent) → completions (xs ++ ys) ≡ completions xs + completions ys
completions-append [] ys = omega arith
completions-append (receive_conflicts conflicts ∷ xs) ys = completions-append xs ys
completions-append (receive_completed ∷ xs) ys = omega (arith, completions-append xs ys)

tell-completions :
    {D : Type 0} (conflicts : List WriteConflict) (b : Browser D)
    → completions (tell_conflicts conflicts b).dispatched ≡ completions b.dispatched
unfolding dispatch_web_event
tell-completions [] b = refl
tell-completions (c ∷ conflicts) b =
    omega (arith, completions-append b.dispatched (receive_conflicts (c ∷ conflicts) ∷ []))

tell-world :
    {D : Type 0} (conflicts : List WriteConflict) (b : Browser D)
    → (tell_conflicts conflicts b).world ≡ b.world
unfolding dispatch_web_event
tell-world [] b = refl
tell-world (c ∷ conflicts) b = refl

finish-Tells :
    {D : Type 0} (V : Type 0) (files : List ReceivedWebFile)
    (o : World D × Option WriteCollectionResult) (b : Browser D)
    → Tells b (finish_receive {D = D} {V = V} files o b)
unfolding finish_receive dispatch_web_event
finish-Tells V files (w, none) b = omega arith
finish-Tells V files (w, some result) b = omega (
  arith,
  tell-completions result.conflicts (record b { world = w }),
  completions-append (tell_conflicts result.conflicts (record b { world = w })).dispatched
      (receive_completed ∷ []),
)

finish-world :
    {D : Type 0} (V : Type 0) (files : List ReceivedWebFile)
    (o : World D × Option WriteCollectionResult) (b : Browser D)
    → (finish_receive {D = D} {V = V} files o b).0.world ≡ o.0
unfolding finish_receive dispatch_web_event
finish-world V files (w, none) b = refl
finish-world V files (w, some result) b = tell-world result.conflicts (record b { world = w })

module _ {D : Type 0} (V : Type 0) (fs : FileSystem D) (doc : Documented fs)
    (encode : Text → List ℕ) (cached : Option DirectoryHandle) where
  abbrev Good : Browser D → Called D V → Type 0
  Good b r = Tells b r × Keeps fs doc b.world.disk r.0.world.disk

  save-Good :
      (b : Browser D) (o : Option (List ReceivedWebFile)) → Good b (save fs encode cached b o)
  save-Good b none = (omega arith, λ at name bytes e. e)
  save-Good b (some files) =
      let o = write_received_collection fs encode cached files b.world in
      (
        finish-Tells V files o b,
        subst (λ (w : World D). Keeps fs doc b.world.disk w.disk) (sym (finish-world V files o b))
            (write_received_collection-Keeps fs doc encode cached files b.world),
      )

  save_received-Good :
      (b : Browser D) (o : Option (List Text × List (List ℕ)))
      → Good b (save_received fs encode cached b o)
  save_received-Good b none = (omega arith, λ at name bytes e. e)
  save_received-Good b (some (names, contents)) = save-Good b (zip_files names contents)

  unchanged-Good : (b : Browser D) (r : CallError ⊎ Value V) → succeeds r ≡ 0 → Good b (b, r)
  unchanged-Good b r h = (omega (arith, h), λ at name bytes e. e)

-- A receive in the browser: in every branch, errors of the engine and of the disk included, the
-- completion is told once if the call succeeds and not at all if it fails, and every file that
-- stood on the disk stands there after with the same content.
pub receive_file-Tells :
    {D R V : Type 0} (fs : FileSystem D) (doc : Documented fs) (encode : Text → List ℕ)
    (cached : Option DirectoryHandle) (engine : Engine R V) (ticket : Option Text)
    (relay : Option R) (b : Browser D)
    → let r = invoke_web fs encode cached engine (receive_file ticket relay) b in
      (completions r.0.dispatched ≡ completions b.dispatched + succeeds r.1)
      × Keeps fs doc b.world.disk r.0.world.disk
unfolding invoke_web invoke_web_transfer receive
receive_file-Tells {V = V} fs doc encode cached engine ticket relay b =
    elim (Bool-cases engine.is_loaded) [
      | inr off ↦ rw (off) (unchanged-Good V fs doc encode cached b (inl transfer_unavailable) refl)
      | inl on ↦ elim (Bool-cases (is_empty (trim (or_else ticket [])))) [
        | inl blank ↦
            rw (on, blank) (unchanged-Good V fs doc encode cached b (inl ticket_required) refl)
        | inr given ↦
            rw (on, given)
              (save_received-Good V fs doc encode cached b
                (engine.receive_file (trim (or_else ticket [])) relay))
      ]
    ]
