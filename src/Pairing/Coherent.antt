-- ===== src/Pairing/Coherent.antt =====
-- frontend/src/hooks/usePairing.ts: what holds of the pairing window after any events.
use alt_sendme.Prelude.{
  ℕ, ◌≡◌, refl, Bool, true, false, ◌&&◌, Text, none, some, List, [], ◌∷◌, ◌++◌, any, any-append,
  any-remove_at, is_some, arith, Option-cases, inl, inr, remove_at, get_elem?, if◌then◌else◌,
}
use alt_sendme.Node.Status.{is_node_status_settled}
use alt_sendme.Pairing.Hook.{
  Task, start_host, stop_host, join_request, forget_request, rename_self, rename_request, hydration,
  hydrated, fail_hydrate, opened, await, open_host, close_host, join, on_device_paired,
  on_host_expired, on_unpaired, Pairing, is_positive, hydrate, render, tick,
}
use alt_sendme.Pairing.Machine.{
  Reply, finished, failed, ticket, info, loaded, Event, open_window, close_window, join_other,
  forget, rename_this, rename_other, rendered, second, reply, resume, resume_at, step, run, init,
}

abbrev is_start : Task → Bool
is_start start_host = true
is_start _ = false

abbrev is_join : Task → Bool
is_join join_request = true
is_join (hydration join) = join
is_join _ = false

-- What holds after any events.
pub record Coherent (p : Pairing) : Type 0 where
  -- the marks stand only while a request is awaited that takes them away
  pub loading : p.is_loading ≡ true → any is_start p.pending ≡ true
  pub joining : p.is_joining ≡ true → any is_join p.pending ≡ true
  -- the countdown runs only for a ticket
  pub ticketed : is_some p.host_expires_in ≡ true → is_some p.pairing_ticket ≡ true
  -- and its interval only while the last render saw seconds left
  pub shown : p.timer ≡ true → is_positive p.rendered_expires ≡ true

await-Coherent :
    (t : Task) (p : Pairing) → Coherent p → Coherent (record p { pending = p.pending ++ t ∷ [] })
await-Coherent t p v =
    ground (arith, any-append is_start p.pending (t ∷ []), any-append is_join p.pending (t ∷ []))

hydrate-Coherent : (capable : Bool) (p : Pairing) → Coherent p → Coherent (hydrate capable false p)
unfolding hydrate is_node_status_settled
hydrate-Coherent capable p v = ground (arith, await-Coherent (hydration false) p v)

tick-Coherent : (p : Pairing) → Coherent p → Coherent (tick p)
unfolding tick
tick-Coherent p v = elim (Option-cases p.host_expires_in) [
  | inl e ↦ ground arith
  | inr (n, e) ↦ ground arith
]

guarded-Coherent :
    (b : Bool) (t : Task) (p q : Pairing)
    → Coherent p
    → Coherent (await t q)
    → Coherent (if b then await t q else p)
guarded-Coherent true t p q v w = w
guarded-Coherent false t p q v w = v

-- A task of neither mark is taken out.
taken-Coherent :
    (t : Task) (i : ℕ) (p : Pairing)
    → get_elem? p.pending i ≡ some t
    → is_start t ≡ false
    → is_join t ≡ false
    → Coherent p
    → Coherent (record p { pending = remove_at i p.pending })
taken-Coherent t i p e h k v =
    ground
      (arith, any-remove_at is_start i p.pending t e h, any-remove_at is_join i p.pending t e k)

-- The join's own task is taken out, and its mark with it.
joined-Coherent :
    (t : Task) (i : ℕ) (p : Pairing)
    → get_elem? p.pending i ≡ some t
    → is_start t ≡ false
    → Coherent p
    → Coherent (record p { pending = remove_at i p.pending; is_joining = false })
joined-Coherent t i p e h v = ground (arith, any-remove_at is_start i p.pending t e h)

module _ (lower : Text → Text) (capable : Bool) where
  resume_at-Coherent :
      (t : Task) (i : ℕ) (a : Reply) (p : Pairing)
      → get_elem? p.pending i ≡ some t
      → Coherent p
      → Coherent (resume_at lower capable (some t) i a p)
  unfolding is_node_status_settled resume hydrate hydrated fail_hydrate opened
  resume_at-Coherent start_host i (ticket u) p e v =
      ground (arith, any-remove_at is_join i p.pending start_host e refl)
  resume_at-Coherent start_host i failed p e v =
      ground (arith, any-remove_at is_join i p.pending start_host e refl)
  resume_at-Coherent stop_host i finished p e v = taken-Coherent stop_host i p e refl refl v
  resume_at-Coherent stop_host i failed p e v = taken-Coherent stop_host i p e refl refl v
  resume_at-Coherent join_request i finished p e v = ground (
    arith,
    any-remove_at is_start i p.pending join_request e refl,
    any-append is_start (remove_at i p.pending) (hydration true ∷ []),
    any-append is_join (remove_at i p.pending) (hydration true ∷ []),
  )
  resume_at-Coherent join_request i failed p e v = joined-Coherent join_request i p e refl v
  resume_at-Coherent forget_request i finished p e v =
      hydrate-Coherent capable (record p { pending = remove_at i p.pending })
        (taken-Coherent forget_request i p e refl refl v)
  resume_at-Coherent forget_request i failed p e v = taken-Coherent forget_request i p e refl refl v
  resume_at-Coherent rename_self i (info none) p e v = taken-Coherent rename_self i p e refl refl v
  resume_at-Coherent rename_self i (info (some d)) p e v =
      ground (arith, taken-Coherent rename_self i p e refl refl v)
  resume_at-Coherent rename_self i failed p e v = taken-Coherent rename_self i p e refl refl v
  resume_at-Coherent rename_request i finished p e v =
      hydrate-Coherent capable (record p { pending = remove_at i p.pending })
        (taken-Coherent rename_request i p e refl refl v)
  resume_at-Coherent rename_request i failed p e v = taken-Coherent rename_request i p e refl refl v
  resume_at-Coherent (hydration true) i (loaded ds d c) p e v =
      ground (arith, joined-Coherent (hydration true) i p e refl v)
  resume_at-Coherent (hydration false) i (loaded ds d c) p e v =
      ground (arith, taken-Coherent (hydration false) i p e refl refl v)
  resume_at-Coherent (hydration true) i failed p e v =
      ground (arith, joined-Coherent (hydration true) i p e refl v)
  resume_at-Coherent (hydration false) i failed p e v =
      ground (arith, taken-Coherent (hydration false) i p e refl refl v)
  resume_at-Coherent t i a p e v = v

  step-Coherent : (p : Pairing) (e : Event) → Coherent p → Coherent (step lower capable p e)
  unfolding step open_host close_host join render on_device_paired on_host_expired on_unpaired
      hydrate is_node_status_settled
  step-Coherent p second v = tick-Coherent p v
  step-Coherent p (reply i a) v = elim (Option-cases (get_elem? p.pending i)) [
    | inl e ↦ rw (e) v
    | inr (t, e) ↦ rw (e) (resume_at-Coherent t i a p e v)
  ]
  step-Coherent p rendered v = ground (arith, await-Coherent (hydration false) p v)
  step-Coherent p open_window v =
      guarded-Coherent (capable && p.rendered_ready) start_host p (record p { is_loading = true }) v
        (ground (
          arith,
          any-append is_start p.pending (start_host ∷ []),
          any-append is_join p.pending (start_host ∷ []),
        ))
  step-Coherent p close_window v = ground (arith, await-Coherent stop_host p v)
  step-Coherent p join_other v =
      guarded-Coherent (capable && p.rendered_ready) join_request p (record p { is_joining = true })
        v
        (ground (
          arith,
          any-append is_start p.pending (join_request ∷ []),
          any-append is_join p.pending (join_request ∷ []),
        ))
  step-Coherent p forget v = await-Coherent forget_request p v
  step-Coherent p rename_this v = await-Coherent rename_self p v
  step-Coherent p rename_other v = await-Coherent rename_request p v
  step-Coherent p e v = ground (arith, await-Coherent (hydration false) p v)

  run-Coherent : (p : Pairing) (es : List Event) → Coherent p → Coherent (run lower capable p es)
  unfolding run
  run-Coherent p [] v = v
  run-Coherent p (e ∷ es) v = run-Coherent (step lower capable p e) es (step-Coherent p e v)

-- After any events from the start: the window counts as being opened only while its request is
-- awaited, and a join as going on only while its request is, or the load of the data that waits for
-- it; a countdown is shown only with a ticket; and the countdown's interval runs only if the last
-- render saw seconds left.
pub run-init-Coherent :
    (lower : Text → Text) (capable : Bool) (es : List Event)
    → Coherent (run lower capable (init lower capable) es)
unfolding init
run-init-Coherent lower capable es =
    run-Coherent lower capable (init lower capable) es (ground arith)
