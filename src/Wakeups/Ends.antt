-- ===== src/Wakeups/Ends.antt =====
-- src/up-wakeups.c: what is left in the main loop when the polling and the object end.
use upower.Prelude.{
  ℕ, ◌≡◌, refl, ◌∙◌, Bool, true, false, not, List, [], ◌∷◌, some, arith, if_both, if_known, ==_refl,
  ◌==◌,
}
use upower.MainLoop.{MainLoop, IsMainLoop, Callback, poll_kernel_cb, poll_userspace_cb, disable_cb}
use upower.Wakeups.{Wakeups}
use upower.Wakeups.Timerstats.{
  clear_source, timerstats_disable, disabled, restart_timeout, timerstats_enable, finalize,
}
use upower.Wakeups.Silent.{
  HasNone, IsTimed, clear-HasNone, clear-HasOnly, remove-HasOnly, enable-IsTimed,
}

-- Nothing in the loop calls the object at this address.
abbrev pub IsSilent : {L : Type 0} ⦃m : MainLoop L⦄ → ℕ → L → Type 0
IsSilent a l =
    HasNone (poll_kernel_cb a) l × HasNone (poll_userspace_cb a) l × HasNone (disable_cb a) l

-- What can happen to the object: a call of a client, its timeout, and a polling of the programs that
-- failed, whose source the loop takes away. The truth value is whether /proc/timer_stats opens.
pub data Event : Type 0 where
  called : Bool → Event
  timed_out : Bool → Event
  poll_failed : Event

module _ {D L : Type 0} ⦃m : MainLoop L⦄ where
  abbrev pub step : Event → Wakeups D L → Wakeups D L
  step (called opens) w = (timerstats_enable opens w).0
  step (timed_out opens) w = disabled opens w.priv.disable_id w
  step poll_failed w = record w { loop = m.remove w.priv.poll_userspace_id w.loop }

  abbrev pub run : List Event → Wakeups D L → Wakeups D L
  run [] w = w
  run (e ∷ es) w = run es (step e w)

module _ {L : Type 0} ⦃m : MainLoop L⦄ (laws : IsMainLoop L) where
  open laws use {source-zero, source-remove}

  clear-kept : (f : Callback) (j : ℕ) (l : L) → HasNone f l → HasNone f (clear_source j l)
  clear-kept f j l free =
      if_both (HasNone f) (not (j == 0)) {x = m.remove j l} {y = l}
        (λ i e. ground (arith, free i, source-remove j l i, e)) free

module _ {D L : Type 0} ⦃m : MainLoop L⦄ (laws : IsMainLoop L) where
  cleared-IsSilent :
      (w : Wakeups D L)
      → IsTimed w
      → IsSilent w.address (
          clear_source w.priv.disable_id
            (clear_source w.priv.poll_userspace_id (clear_source w.priv.poll_kernel_id w.loop)))
  cleared-IsSilent w t =
      let a = w.address in
      let p = w.priv in
      let one = clear_source p.poll_kernel_id w.loop in
      let two = clear_source p.poll_userspace_id one in
      (
        clear-kept laws (poll_kernel_cb a) p.disable_id two (
            clear-kept laws (poll_kernel_cb a) p.poll_userspace_id one
              (clear-HasNone laws (poll_kernel_cb a) p.poll_kernel_id w.loop t.kernel)),
        clear-kept laws (poll_userspace_cb a) p.disable_id two (
            clear-HasNone laws (poll_userspace_cb a) p.poll_userspace_id one (
              clear-HasOnly laws (poll_userspace_cb a) p.poll_userspace_id p.poll_kernel_id w.loop
                t.userspace)),
        clear-HasNone laws (disable_cb a) p.disable_id two (
            clear-HasOnly laws (disable_cb a) p.disable_id p.poll_userspace_id one
              (clear-HasOnly laws (disable_cb a) p.disable_id p.poll_kernel_id w.loop t.timeout)),
      )

  silent-IsTimed :
      (w : Wakeups D L)
      → IsSilent w.address w.loop
      → (w.priv.poll_kernel_id ≡ 0) × (w.priv.poll_userspace_id ≡ 0)
      → IsTimed w
  silent-IsTimed w (k, u, t) ids = record {
    kernel = λ i e. absurd (k i e);
    userspace = λ i e. absurd (u i e);
    timeout = λ i e. absurd (t i e);
    idle = λ off. ids;
  }

  without-IsTimed :
      (id : ℕ) (w : Wakeups D L) → IsTimed w → IsTimed (record w { loop = m.remove id w.loop })
  without-IsTimed id w t =
      let a = w.address in
      let p = w.priv in
      record {
        kernel = remove-HasOnly laws (poll_kernel_cb a) p.poll_kernel_id id w.loop t.kernel;
        userspace =
            remove-HasOnly laws (poll_userspace_cb a) p.poll_userspace_id id w.loop t.userspace;
        timeout = remove-HasOnly laws (disable_cb a) p.disable_id id w.loop t.timeout;
        idle = t.idle;
      }

  disable-IsTimed :
      (opens : Bool) (w : Wakeups D L) → IsTimed w → IsTimed (timerstats_disable opens w).0
  unfolding timerstats_disable
  disable-IsTimed opens w t =
      let P = λ (r : Wakeups D L × Bool). IsTimed r.0 in
      if_both P (not w.priv.polling_enabled) t (
        if_both P (not opens) (silent-IsTimed _ (cleared-IsSilent w t) (refl, refl))
          (silent-IsTimed _ (cleared-IsSilent w t) (refl, refl)))

  disabled-IsTimed :
      (opens : Bool) (id : ℕ) (w : Wakeups D L) → IsTimed w → IsTimed (disabled opens id w)
  unfolding disabled
  disabled-IsTimed opens id w t =
      without-IsTimed id (timerstats_disable opens w).0 (disable-IsTimed opens w t)

  step-IsTimed : (e : Event) (w : Wakeups D L) → IsTimed w → IsTimed (step e w)
  step-IsTimed (called opens) w t = enable-IsTimed laws opens w t
  step-IsTimed (timed_out opens) w t = disabled-IsTimed opens w.priv.disable_id w t
  step-IsTimed poll_failed w t = without-IsTimed w.priv.poll_userspace_id w t

  run-IsTimed : (es : List Event) (w : Wakeups D L) → IsTimed w → IsTimed (run es w)
  run-IsTimed [] w t = t
  run-IsTimed (e ∷ es) w t = run-IsTimed es (step e w) (step-IsTimed e w t)

  -- Whatever happened to an object that nothing called when it was made: if it polls when it is
  -- freed, no source is left that would call it, also where the file cannot be opened.
  pub finalize-run :
      (es : List Event) (w : Wakeups D L) (opens : Bool)
      → IsSilent w.address w.loop
      → (w.priv.poll_kernel_id ≡ 0) × (w.priv.poll_userspace_id ≡ 0)
      → (run es w).priv.polling_enabled ≡ true
      → IsSilent (run es w).address (finalize opens (run es w))
  unfolding finalize timerstats_disable
  finalize-run es w opens silent ids on =
      let v = run es w in
      let free = cleared-IsSilent v (run-IsTimed es w (silent-IsTimed w silent ids)) in
      let P = λ (r : Wakeups D L × Bool). IsSilent v.address r.0.loop in
      if_known P (not v.priv.polling_enabled) (λ off. absurd (ground (arith, on, off)))
        λ _. if_both P (not opens) free free

  enable_refused :
      (w : Wakeups D L)
      → w.priv.polling_enabled ≡ false
      → timerstats_enable false w ≡ (restart_timeout w, false)
  unfolding timerstats_enable
  enable_refused w off =
      if_known (λ r. r ≡ (restart_timeout w, false)) w.priv.polling_enabled
        (λ on. absurd (ground (arith, on, off))) λ _. refl

  disable_off :
      (opens : Bool) (w : Wakeups D L)
      → w.priv.polling_enabled ≡ false
      → timerstats_disable opens w ≡ (w, true)
  unfolding timerstats_disable
  disable_off opens w off =
      if_known (λ r. r ≡ (w, true)) (not w.priv.polling_enabled) (λ _. refl)
        λ on. absurd (ground (arith, on, off))

  -- If an object that does not poll gets a call and the file cannot be opened, its timeout stays in the
  -- loop when it is freed, and would then call it.
  finalize_leaves :
      (w : Wakeups D L) (opens : Bool)
      → w.priv.polling_enabled ≡ false
      → m.source (step (called false) w).priv.disable_id (finalize opens (step (called false) w))
        ≡ some (disable_cb w.address)
  unfolding finalize
  finalize_leaves w opens off =
      let l = clear_source w.priv.disable_id w.loop in
      let f = disable_cb w.address in
      rw (step, enable_refused w off)
        (rw (finalize, disable_off opens (restart_timeout w) off)
          (laws.source-add 30 f l (m.add 30 f l).0 ∙ rw (==_refl (m.add 30 f l).0) refl))
