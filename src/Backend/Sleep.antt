-- ===== src/Backend/Sleep.antt =====
-- src/linux/up-backend.c, `up_backend_prepare_for_sleep`: before and after the sleep.
use upower.Prelude.{
  ℕ, ◌≡◌, refl, ◌≢◌, Bool, Bool-cases, inl, inr, true, false, List, [], ◌∷◌, Option, none, some,
  All,
}
use upower.Prelude.Int.{ℤ, negsuc, ltb_ℤ, eqb_ℤ, eq_of_eqb_ℤ}
use upower.Prelude.{if◌then◌else◌}
use upower.MainLoop.{MainLoop, IsMainLoop, fire_timeout_callback}
use upower.Types.{DeviceLevel}
use upower.Daemon.{System}
use upower.Daemon.Poll.{Signals, Poller, pause_poll, resume_poll}
use upower.Daemon.Poll.Sources.{IsPolled, IsRunning, pause_poll-silent, resume_poll-IsRunning}
use upower.Backend.{Backend, with_objects}

-- logind's `Inhibit`, which gives a list of descriptors, or `none` for an error; and `close`.
pub record Inhibitor (O : Type 0) : Type 0 where
  pub inhibit : O → Option (List ℤ) × O
  pub close : ℤ → O → O

module _ {D L G O : Type 0} ⦃h : Inhibitor O⦄ where
  -- A reply with another number of descriptors than one is refused.
  abbrev pub take_fd : Backend D L G → O → Option (List ℤ) → Backend D L G × O
  take_fd b os (some (fd ∷ [])) = (record b { logind_inhibitor_fd = fd }, os)
  take_fd b os _ = (b, os)

  unfoldable pub inhibitor_lock_take : Backend D L G → O → Backend D L G × O
  inhibitor_lock_take b os =
      let (fds, asked) = h.inhibit os in
      if ltb_ℤ (negsuc 0) b.logind_inhibitor_fd then (b, os) else take_fd b asked fds

  unfoldable pub inhibitor_lock_release : Backend D L G → O → Backend D L G × O
  inhibitor_lock_release b os =
      if eqb_ℤ b.logind_inhibitor_fd (negsuc 0)
      then (b, os)
      else (record b { logind_inhibitor_fd = negsuc 0 }, h.close b.logind_inhibitor_fd os)

-- The loop over the devices; a refresh leaves the list as it is.
unfoldable pub refresh_all :
    {D L : Type 0} → (ℕ → System D L → System D L) → List ℕ → System D L → System D L
refresh_all refresh [] s = s
refresh_all refresh (d ∷ ds) s = refresh_all refresh ds (refresh d s)

module _ {D L G O : Type 0} ⦃h : Inhibitor O⦄ where
  release_gives :
      (b : Backend D L G) (os : O)
      → let (t, later) = inhibitor_lock_release b os in
        (t.logind_inhibitor_fd ≡ negsuc 0) × (t.objects ≡ b.objects)
  unfolding inhibitor_lock_release
  release_gives b os = elim (Bool-cases (eqb_ℤ b.logind_inhibitor_fd (negsuc 0))) [
    | inl free ↦ rw free (eq_of_eqb_ℤ b.logind_inhibitor_fd (negsuc 0) free, refl)
    | inr held ↦ rw held (refl, refl)
  ]

module _ {D L G : Type 0} where
  -- The polling of the daemon.
  abbrev pub poller : Backend D L G → Poller L G
  poller b = record {
    polling = b.objects.system.daemon.polling;
    loop = b.objects.system.loop;
    signals = b.signals;
  }

  -- The warning level of each device.
  abbrev pub level_of : Backend D L G → ℕ → DeviceLevel
  level_of b d = (b.objects.system.device d).skeleton.warning_level

  abbrev pub with_system : Backend D L G → System D L → Backend D L G
  with_system b s = with_objects b (record b.objects { system = s })

  abbrev pub with_poller : Backend D L G → Poller L G → Backend D L G
  with_poller b p =
      record (with_system b (record b.objects.system {
        daemon = record b.objects.system.daemon { polling = p.polling };
        loop = p.loop;
      })) { signals = p.signals }

module _ {D L G O : Type 0} ⦃m : MainLoop L⦄ ⦃g : Signals G⦄ ⦃h : Inhibitor O⦄ where
  -- `none` is a parameter that is no Boolean. The polling reads the warning levels as they are after
  -- the refreshes.
  unfoldable pub prepare_for_sleep :
      (ℕ → System D L → System D L) → Option Bool → Backend D L G → O → Backend D L G × O
  unfolding inhibitor_lock_take inhibitor_lock_release refresh_all
  prepare_for_sleep refresh none b os = (b, os)
  prepare_for_sleep refresh (some true) b os =
      inhibitor_lock_release (with_poller b (pause_poll (poller b))) os
  prepare_for_sleep refresh (some false) b os =
      let (locked, asked) = inhibitor_lock_take b os in
      let s = locked.objects.system in
      let refreshed = with_system locked (refresh_all refresh s.daemon.power_devices.array s) in
      (with_poller refreshed (resume_poll (level_of refreshed) (poller refreshed)), asked)

  pub prepare_for_sleep-quiet :
      (laws : IsMainLoop L) (refresh : ℕ → System D L → System D L) (b : Backend D L G) (os : O)
      (i d : ℕ)
      → IsPolled (poller b)
      → let (t, later) = prepare_for_sleep refresh (some true) b os in
        (t.logind_inhibitor_fd ≡ negsuc 0)
        × (m.source i t.objects.system.loop ≢ some (fire_timeout_callback d))
        × (t.objects.system.daemon.polling.poll_paused ≡ true)
  unfolding prepare_for_sleep
  prepare_for_sleep-quiet laws refresh b os i d k =
      let paused = with_poller b (pause_poll (poller b)) in
      let (gone, same) = release_gives paused os in
      let (silent, stopped, _) = pause_poll-silent laws (poller b) i d k in
      (gone, rw same silent, rw same stopped)

  -- After the sleep the polling goes on: every device of the table has a source in the main loop,
  -- with the interval that the warning level of the device, as it is then, asks for, and the table
  -- has the same interval.
  pub prepare_for_sleep-IsRunning :
      (laws : IsMainLoop L) (refresh : ℕ → System D L → System D L) (b : Backend D L G) (os : O)
      → let (t, later) = prepare_for_sleep refresh (some false) b os in
        (t.objects.system.daemon.polling.poll_paused ≡ false)
        × All
            (IsRunning (level_of t) t.objects.system.loop)
            t.objects.system.daemon.polling.poll_timeouts
  unfolding prepare_for_sleep
  prepare_for_sleep-IsRunning laws refresh b os = resume_poll-IsRunning laws _ _
