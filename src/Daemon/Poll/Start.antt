-- ===== src/Daemon/Poll/Start.antt =====
-- src/up-daemon.c: starting and stopping the polling of one device.
use upower.Prelude.{
  false, ℕ, ◌≡◌, refl, sym, subst, ◌∙◌, ◌≢◌, List, [], ◌∷◌, none, some, ◌==◌, ==_refl, ==→eq, arith,
  Bool-cases, Option-cases, inl, inr,
}
use upower.MainLoop.{MainLoop, IsMainLoop, fire_timeout_callback}
use upower.Types.{DeviceLevel}
use upower.Daemon.{TimeoutData}
use upower.Daemon.Poll.{
  change_idle_timeout, Signals, Poller, calculate_timeout, table_lookup, table_remove, table_insert,
  enable_poll_for_device, enable_warning_level_notifications, disable_warning_level_notifications,
  start_poll, stop_poll,
}
use upower.Daemon.Poll.Sources.{IsRunning, IsScheduled, IsRegistered, IsPolled}

module _ {A : Type 0} where
  lookup-remove : (d : ℕ) (t : List (ℕ × A)) → table_lookup d (table_remove d t) ≡ none
  unfolding table_lookup table_remove
  lookup-remove d [] = refl
  lookup-remove d ((k, a) ∷ t) = elim (Bool-cases (k == d)) [
    | inl this ↦ rw this (lookup-remove d t)
    | inr other ↦ rw (other, other) (lookup-remove d t)
  ]

  lookup-remove_other :
      (d e : ℕ) (t : List (ℕ × A)) → d ≢ e → table_lookup d (table_remove e t) ≡ table_lookup d t
  unfolding table_lookup table_remove
  lookup-remove_other d e [] ne = refl
  lookup-remove_other d e ((k, a) ∷ t) ne = ground (arith, lookup-remove_other d e t ne)

  lookup-insert_other :
      (d e : ℕ) (a : A) (t : List (ℕ × A))
      → d ≢ e
      → table_lookup d (table_insert e a t) ≡ table_lookup d t
  unfolding table_lookup
  lookup-insert_other d e a t ne = ground (arith, lookup-remove_other d e t ne)

  lookup-insert : (d : ℕ) (a : A) (t : List (ℕ × A)) → table_lookup d (table_insert d a t) ≡ some a
  unfolding table_lookup
  lookup-insert d a t = rw (==_refl d) refl

module _ {L G : Type 0} ⦃m : MainLoop L⦄ ⦃g : Signals G⦄ where
  pub disable_keeps :
      (p : Poller L G) (device : ℕ)
      → let q = disable_warning_level_notifications p device in
        (q.polling.poll_timeouts ≡ p.polling.poll_timeouts)
        × (q.polling.poll_paused ≡ p.polling.poll_paused)
        × (q.loop ≡ p.loop)
  unfolding disable_warning_level_notifications
  disable_keeps p device = elim (Option-cases (table_lookup device p.polling.idle_signals)) [
    | inl out ↦ rw out (refl, refl, refl)
    | inr (handler, found) ↦ rw found (refl, refl, refl)
  ]

  -- A device whose polling is started is in the table.
  pub start_poll-known :
      (level : ℕ → DeviceLevel) (p : Poller L G) (device callback : ℕ)
      → (timer : TimeoutData) × (table_lookup device
            (start_poll level p device callback).polling.poll_timeouts
          ≡ some timer)
  unfolding start_poll enable_warning_level_notifications
  start_poll-known level p device callback =
      let old = p.polling.poll_timeouts in
      let timer : TimeoutData = record { id = 0; timeout = 0; callback = callback } in
      let started =
        (enable_poll_for_device level device timer
          (enable_warning_level_notifications p device).loop).0 in
      elim (Option-cases (table_lookup device old)) [
        | inr (known, found) ↦ rw found (known, found)
        | inl out ↦ elim (Bool-cases p.polling.poll_paused) [
          | inl paused ↦ rw (out, paused) (timer, lookup-insert device timer old)
          | inr polling ↦ rw (out, polling) (started, lookup-insert device started old)
        ]
      ]

pub lookup_empty : (device : ℕ) → table_lookup {A = TimeoutData} device [] ≡ none
unfolding table_lookup
lookup_empty device = refl

module _ {L : Type 0} ⦃m : MainLoop L⦄ (laws : IsMainLoop L) where
  open laws use {source-zero, add-fresh, add-positive, source-add, interval-add, source-remove}

  insert-IsRegistered :
      (timeouts : List (ℕ × TimeoutData)) (loop : L) (device : ℕ) (timer : TimeoutData)
      → table_lookup device timeouts ≡ none
      → IsRegistered timeouts loop
      → IsRegistered (table_insert device timer timeouts) loop
  insert-IsRegistered timeouts loop device timer out k i d e =
      let (old, found, same) = k i d e in
      elim (Bool-cases (d == device)) [
        | inl this ↦ absurd (ground (arith, this))
        | inr other ↦ (
          old,
          lookup-insert_other d device timer timeouts (λ h. ground (arith, other)) ∙ found,
          same,
        )
      ]

  insert_started-IsRegistered :
      (timeouts : List (ℕ × TimeoutData)) (loop : L) (level : ℕ → DeviceLevel) (device : ℕ)
      (timer : TimeoutData)
      → table_lookup device timeouts ≡ none
      → IsRegistered timeouts loop
      → let (started, after) = enable_poll_for_device level device timer loop in
        IsRegistered (table_insert device started timeouts) after
  unfolding enable_poll_for_device
  insert_started-IsRegistered timeouts loop level device timer out k i d e =
      let s = calculate_timeout level device in
      let f = fire_timeout_callback device in
      let started = (enable_poll_for_device level device timer loop).0 in
      elim (Bool-cases (i == started.id)) [
        | inl new ↦
            let this : device ≡ d = ground (arith, e, new, source-add s f loop i) in
            (
              started,
              subst (λ x. table_lookup x (table_insert device started timeouts) ≡ some started) this
                  (lookup-insert device started timeouts),
              sym (==→eq i started.id new),
            )
        | inr old ↦
            insert-IsRegistered timeouts loop device started out k i d
              (ground (arith, e, old, source-add s f loop i))
      ]

  remove-IsRegistered :
      (timeouts : List (ℕ × TimeoutData)) (loop : L) (device : ℕ) (timer : TimeoutData)
      → table_lookup device timeouts ≡ some timer
      → IsRegistered timeouts loop
      → IsRegistered (table_remove device timeouts) (m.remove timer.id loop)
  remove-IsRegistered timeouts loop device timer found k i d e =
      let before : m.source i loop ≡ some (fire_timeout_callback d) =
        ground (arith, e, source-remove timer.id loop i) in
      let (old, known, same) = k i d before in
      elim (Bool-cases (d == device)) [
        | inl this ↦
            let removed : i ≡ timer.id = ground (arith, this, found, known, same) in
            absurd (ground (arith, e, removed, source-remove timer.id loop i))
        | inr other ↦
            (old, lookup-remove_other d device timeouts (λ h. ground (arith, other)) ∙ known, same)
      ]

  module _ {G : Type 0} ⦃g : Signals G⦄ where
    -- Starting to poll a device leaves no source that the table does not know, whether the polling
    -- is paused or not and whether the device is polled already or not.
    pub start_poll-IsPolled :
        (level : ℕ → DeviceLevel) (p : Poller L G) (device callback : ℕ)
        → IsPolled p
        → IsPolled (start_poll level p device callback)
    unfolding start_poll enable_warning_level_notifications
    start_poll-IsPolled level p device callback k =
        let old = p.polling.poll_timeouts in
        let timer : TimeoutData = record { id = 0; timeout = 0; callback = callback } in
        elim (Option-cases (table_lookup device old)) [
          | inr (known, found) ↦ rw found k
          | inl out ↦ elim (Bool-cases p.polling.poll_paused) [
            | inl paused ↦ rw (out, paused) (insert-IsRegistered old p.loop device timer out k)
            | inr polling ↦
                rw (out, polling) (insert_started-IsRegistered old p.loop level device timer out k)
          ]
        ]

    pub start_poll-IsScheduled :
        (level : ℕ → DeviceLevel) (p : Poller L G) (device callback : ℕ)
        → table_lookup device p.polling.poll_timeouts ≡ none
        → IsScheduled level device callback (start_poll level p device callback)
    unfolding start_poll enable_warning_level_notifications enable_poll_for_device
    start_poll-IsScheduled level p device callback out =
        let old = p.polling.poll_timeouts in
        let s = calculate_timeout level device in
        let f = fire_timeout_callback device in
        let id = (m.add s f p.loop).0 in
        let timer : TimeoutData = record { id = 0; timeout = 0; callback = callback } in
        let started : TimeoutData = record { id = id; timeout = s; callback = callback } in
        elim (Bool-cases p.polling.poll_paused) [
          | inl paused ↦ rw (out, paused) (timer, lookup-insert device timer old, refl, inl refl)
          | inr going ↦
              rw (out, going)
                (
                  started,
                  lookup-insert device started old,
                  refl,
                  inr (
                    refl,
                    (
                      ground (arith, source-add s f p.loop id, ==_refl id),
                      ground (arith, interval-add s f p.loop id, ==_refl id),
                      refl,
                    ),
                  ),
                )
        ]

    stop_poll-IsPolled :
        (p : Poller L G) (device : ℕ)
        → IsPolled p
        → let q = stop_poll p device in
          IsPolled q × (table_lookup device q.polling.poll_timeouts ≡ none)
    unfolding stop_poll
    stop_poll-IsPolled p device k =
        let old = p.polling.poll_timeouts in
        let (timeouts, _, loop) = disable_keeps p device in
        elim (Option-cases (table_lookup device old)) [
          | inl out ↦ rw (out, timeouts, loop) (k, out)
          | inr (timer, found) ↦
              rw (found, timeouts, loop)
                (remove-IsRegistered old p.loop device timer found k, lookup-remove device old)
        ]

    stop_poll_paused :
        (p : Poller L G) (device : ℕ)
        → (stop_poll p device).polling.poll_paused ≡ p.polling.poll_paused
    unfolding stop_poll
    stop_poll_paused p device =
        let (_, paused, _) = disable_keeps p device in
        elim (Option-cases (table_lookup device p.polling.poll_timeouts)) [
          | inl out ↦ rw out paused
          | inr (timer, found) ↦ rw found paused
        ]

    -- After the polling of a device is stopped, no source polls it, and the sources of the other
    -- devices are still those of the table.
    pub stop_poll-silent :
        (p : Poller L G) (device i : ℕ)
        → IsPolled p
        → let q = stop_poll p device in
          IsPolled q × (m.source i q.loop ≢ some (fire_timeout_callback device))
    stop_poll-silent p device i k =
        let (polled, out) = stop_poll-IsPolled p device k in
        (
          polled,
          λ e. let (timer, found, same) = polled i device e in absurd (ground (arith, out, found)),
        )

    -- When the warning level of a polled device changes, its source is replaced by one with the
    -- interval of the new level and the same function, and the table knows it.
    change_idle_timeout_restarts :
        (level : ℕ → DeviceLevel) (p : Poller L G) (device : ℕ) (timer : TimeoutData)
        → IsPolled p
        → p.polling.poll_paused ≡ false
        → table_lookup device p.polling.poll_timeouts ≡ some timer
        → (q : Poller L G) × (new : TimeoutData) × (change_idle_timeout level p device ≡ some q)
          × IsPolled q
          × (table_lookup device q.polling.poll_timeouts ≡ some new)
          × (new.callback ≡ timer.callback)
          × IsRunning level q.loop (device, new)
    unfolding change_idle_timeout start_poll enable_warning_level_notifications
        enable_poll_for_device
    change_idle_timeout_restarts level p device timer k polling found =
        let stopped = stop_poll p device in
        let (polled, out) = stop_poll-IsPolled p device k in
        let going = stop_poll_paused p device ∙ polling in
        let s = calculate_timeout level device in
        let f = fire_timeout_callback device in
        let id = (m.add s f stopped.loop).0 in
        let new : TimeoutData = record { id = id; timeout = s; callback = timer.callback } in
        (
          start_poll level stopped device timer.callback,
          new,
          rw found refl,
          start_poll-IsPolled level stopped device timer.callback polled,
          rw (out, going) (lookup-insert device new stopped.polling.poll_timeouts),
          refl,
          (
            rw (out, going) (ground (arith, source-add s f stopped.loop id, ==_refl id)),
            rw (out, going) (ground (arith, interval-add s f stopped.loop id, ==_refl id)),
            refl,
          ),
        )
