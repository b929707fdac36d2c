-- ===== src/Daemon/Poll/Sources.antt =====
-- The sources of the main loop that poll devices, as src/up-daemon.c starts and removes them.
use upower.Prelude.{
  ◌⊎◌, ℕ, ◌≡◌, refl, ◌∙◌, sym, subst, ◌≢◌, true, false, List, [], ◌∷◌, some, ◌==◌, ==_refl, arith,
  All, Bool-cases, inl, inr,
}
use upower.MainLoop.{MainLoop, IsMainLoop, Callback, fire_timeout_callback}
use upower.Types.{DeviceLevel}
use upower.Daemon.{TimeoutData}
use upower.Daemon.Poll.{
  Signals, Poller, calculate_timeout, table_lookup, enable_poll_for_device, pause_all, resume_all,
  pause_poll, resume_poll,
}

module _ {L : Type 0} ⦃m : MainLoop L⦄ where
  -- A source polls a device only if the table has it for that device.
  abbrev pub IsRegistered : List (ℕ × TimeoutData) → L → Type 0
  IsRegistered timeouts loop =
      (i d : ℕ)
      → m.source i loop ≡ some (fire_timeout_callback d)
      → (timer : TimeoutData) × (table_lookup d timeouts ≡ some timer) × (timer.id ≡ i)

  abbrev pub IsPolled : {G : Type 0} → Poller L G → Type 0
  IsPolled p = IsRegistered p.polling.poll_timeouts p.loop

  -- An entry whose source is in the loop and has the interval of the device's level.
  abbrev pub IsRunning : (ℕ → DeviceLevel) → L → ℕ × TimeoutData → Type 0
  IsRunning level loop (d, timer) =
      (m.source timer.id loop ≡ some (fire_timeout_callback d))
      × (m.interval timer.id loop ≡ calculate_timeout level d)
      × (timer.timeout ≡ calculate_timeout level d)

  -- What the start of the polling comes to: the table has the device with the function, and the
  -- source runs unless the polling is paused.
  abbrev pub IsScheduled : {G : Type 0} → (ℕ → DeviceLevel) → ℕ → ℕ → Poller L G → Type 0
  IsScheduled level device callback p =
      (timer : TimeoutData) × (table_lookup device p.polling.poll_timeouts ≡ some timer)
      × (timer.callback ≡ callback)
      × ((p.polling.poll_paused ≡ true)
          ⊎ ((p.polling.poll_paused ≡ false) × IsRunning level p.loop (device, timer)))

  module _ (laws : IsMainLoop L) where
    open laws use {source-zero, add-fresh, add-positive, source-add, interval-add, source-remove}

    -- Pausing starts no source, and removes those of the table.
    pause_all-source :
        (timeouts : List (ℕ × TimeoutData)) (loop : L) (i : ℕ) (c : Callback)
        → m.source i (pause_all timeouts loop).1 ≡ some c
        → m.source i loop ≡ some c
    unfolding pause_all
    pause_all-source [] loop i c e = e
    pause_all-source ((d, timer) ∷ t) loop i c e =
        let h = pause_all-source t _ i c e in
        elim (Bool-cases (timer.id == 0)) [
          | inl idle ↦ ground (arith, h, idle)
          | inr running ↦ ground (arith, h, running, source-remove timer.id loop i)
        ]

    pause_all-removes :
        (timeouts : List (ℕ × TimeoutData)) (loop : L) (d : ℕ) (timer : TimeoutData) (c : Callback)
        → table_lookup d timeouts ≡ some timer
        → m.source timer.id (pause_all timeouts loop).1 ≢ some c
    unfolding pause_all table_lookup
    pause_all-removes [] loop d timer c e h = cc
    pause_all-removes ((k, first) ∷ t) loop d timer c e h = elim (Bool-cases (k == d)) [
      | inl this ↦
          let same : first.id ≡ timer.id = ground (arith, this) in
          let before = pause_all-source t _ timer.id c h in
          ground (arith, same, before, source-zero loop, source-remove first.id loop timer.id)
      | inr other ↦ pause_all-removes t _ d timer c (ground (arith, other)) h
    ]

    pause_all-idle :
        (timeouts : List (ℕ × TimeoutData)) (loop : L)
        → All (λ (e : ℕ × TimeoutData). e.1.id ≡ 0) (pause_all timeouts loop).0
    unfolding pause_all
    pause_all-idle [] loop = tt
    pause_all-idle ((d, timer) ∷ t) loop = (refl, pause_all-idle t _)

    module _ {G : Type 0} ⦃g : Signals G⦄ where
      -- While the polling is paused, no source polls a device, and the table is ready for the
      -- polling to go on: no entry remembers a source. Before, only the sources of the table poll.
      pub pause_poll-silent :
          (p : Poller L G) (i d : ℕ)
          → IsPolled p
          → let q = pause_poll p in
            (m.source i q.loop ≢ some (fire_timeout_callback d))
            × (q.polling.poll_paused ≡ true)
            × All (λ (e : ℕ × TimeoutData). e.1.id ≡ 0) q.polling.poll_timeouts
      unfolding pause_poll
      pause_poll-silent p i d k =
          let timeouts = p.polling.poll_timeouts in
          let c = fire_timeout_callback d in
          (
            λ h.
                let (timer, found, same) = k i d (pause_all-source timeouts p.loop i c h) in
                pause_all-removes timeouts p.loop d timer c found
                  (subst (λ j. m.source j (pause_all timeouts p.loop).1 ≡ some c) (sym same) h),
            refl,
            pause_all-idle timeouts p.loop,
          )

    resume_all-keeps :
        (level : ℕ → DeviceLevel) (timeouts : List (ℕ × TimeoutData)) (loop : L) (i : ℕ)
        (c : Callback)
        → m.source i loop ≡ some c
        → m.source i (resume_all level timeouts loop).1 ≡ some c
    unfolding resume_all enable_poll_for_device
    resume_all-keeps level [] loop i c e = e
    resume_all-keeps level ((d, timer) ∷ t) loop i c e =
        let s = calculate_timeout level d in
        let f = fire_timeout_callback d in
        resume_all-keeps level t _ i c
          (ground (arith, e, source-add s f loop i, add-fresh s f loop))

    resume_all-interval :
        (level : ℕ → DeviceLevel) (timeouts : List (ℕ × TimeoutData)) (loop : L) (i : ℕ)
        (c : Callback)
        → m.source i loop ≡ some c
        → m.interval i (resume_all level timeouts loop).1 ≡ m.interval i loop
    unfolding resume_all enable_poll_for_device
    resume_all-interval level [] loop i c e = refl
    resume_all-interval level ((d, timer) ∷ t) loop i c e =
        let s = calculate_timeout level d in
        let f = fire_timeout_callback d in
        resume_all-interval level t _ i c
          (ground (arith, e, source-add s f loop i, add-fresh s f loop))
        ∙ ground (arith, e, interval-add s f loop i, add-fresh s f loop)

    resume_all-IsRunning :
        (level : ℕ → DeviceLevel) (timeouts : List (ℕ × TimeoutData)) (loop : L)
        → let (running, resumed) = resume_all level timeouts loop in
          All (IsRunning level resumed) running
    unfolding resume_all enable_poll_for_device
    resume_all-IsRunning level [] loop = tt
    resume_all-IsRunning level ((d, timer) ∷ t) loop =
        let s = calculate_timeout level d in
        let f = fire_timeout_callback d in
        (
          (
            resume_all-keeps level t _ _ f (
                ground (arith, source-add s f loop (m.add s f loop).0, ==_refl (m.add s f loop).0)),
            resume_all-interval level t _ _ f (
                  ground
                    (arith, source-add s f loop (m.add s f loop).0, ==_refl (m.add s f loop).0))
                ∙ ground
                    (arith, interval-add s f loop (m.add s f loop).0, ==_refl (m.add s f loop).0),
            refl,
          ),
          resume_all-IsRunning level t _,
        )

    module _ {G : Type 0} ⦃g : Signals G⦄ where
      -- When the polling goes on, each device of the table has a source again, with the interval
      -- that its warning level asks for now.
      pub resume_poll-IsRunning :
          (level : ℕ → DeviceLevel) (p : Poller L G)
          → let q = resume_poll level p in
            (q.polling.poll_paused ≡ false) × All (IsRunning level q.loop) q.polling.poll_timeouts
      unfolding resume_poll
      resume_poll-IsRunning level p =
          (refl, resume_all-IsRunning level p.polling.poll_timeouts p.loop)
