-- ===== src/Supply/Sound/Ends.antt =====
-- src/linux/up-device-supply.c: a device that starts is in order, and one that ends leaves no source.
use upower.Prelude.{
  ℕ, ◌≡◌, refl, ◌≢◌, subst, Bool, Option, none, some, Bool-cases, Option-cases, inl, inr, if_both,
  arith, ◌==◌, ◌&&◌, not, List,
}
use upower.Prelude.Text.{Text}
use upower.Floating.{Floating}
use upower.Storage.{Files}
use upower.MainLoop.{MainLoop, IsMainLoop, Callback, poll_unknown_battery, fire_timeout_callback}
use upower.Types.{DeviceLevel, DeviceKind}
use upower.Prelude.Int.{ℤ}
use upower.Daemon.Poll.{
  Signals, Poller, start_poll, calculate_timeout, stop_poll, table_lookup,
  disable_warning_level_notifications, enable_poll_for_device, enable_warning_level_notifications,
}
use upower.Daemon.Poll.Sources.{IsPolled}
use upower.Daemon.Poll.Start.{disable_keeps, stop_poll-silent}
use upower.Supply.{Supply, Surroundings, AsciiText}
use upower.Supply.Sysfs.{AsciiDouble}
use upower.Supply.Battery.{reset_values}
use upower.Supply.Refresh.{refresh}
use upower.Supply.Lifecycle.{
  coldplug, finalize, init, start_polling, set_kind, set_power_supply, polls, is_system,
  has_capacity, kind_of,
}
use upower.Supply.Battery.Kept.{IsRing_same}
use upower.Supply.Sound.{IsSound}
use upower.Supply.Sound.Refresh.{refresh-IsSound}

module _ {L G : Type 0} ⦃m : MainLoop L⦄ ⦃g : Signals G⦄ (laws : IsMainLoop L) where
  -- Ending the polling adds no source.
  stop_poll-source :
      (p : Poller L G) (d i : ℕ) (c : Callback)
      → m.source i (stop_poll p d).loop ≡ some c
      → m.source i p.loop ≡ some c
  unfolding stop_poll
  stop_poll-source p d i c e =
      let (same, paused, loop) = disable_keeps p d in
      elim (Option-cases (table_lookup d p.polling.poll_timeouts)) [
        | inl out ↦ ground (arith, e, out, loop)
        | inr (timer, found) ↦ ground (
          arith,
          e,
          found,
          loop,
          laws.source-remove timer.id (disable_warning_level_notifications p d).loop i,
        )
      ]

  -- The one source that a start adds is not a faster poll.
  start_poll-source :
      (level : ℕ → DeviceLevel) (p : Poller L G) (d callback i x : ℕ)
      → m.source i (start_poll level p d callback).loop ≡ some (poll_unknown_battery x)
      → m.source i p.loop ≡ some (poll_unknown_battery x)
  unfolding start_poll enable_poll_for_device enable_warning_level_notifications
  start_poll-source level p d callback i x e =
      elim (Option-cases (table_lookup d p.polling.poll_timeouts)) [
        | inl out ↦ ground (
          arith,
          e,
          out,
          laws.source-add (calculate_timeout level d) (fire_timeout_callback d) p.loop i,
        )
        | inr (timer, found) ↦ ground (arith, e, found)
      ]

module _ {D L G : Type 0} ⦃f : Floating D⦄ ⦃m : MainLoop L⦄ where
  -- An object that was just made: no source polls it, and its buffers hold anything.
  abbrev pub IsNew : Supply D L G → Type 0
  IsNew s =
      ((i : ℕ) → m.source i s.poller.loop ≢ some (poll_unknown_battery s.address))
      × (energies : List D) × (times : List ℤ) × (polls_not : Bool) × (s.priv
          ≡ init energies times polls_not)

  abbrev IsSoundStart : Option (Supply D L G × Bool) → Type 0
  IsSoundStart none = Unit
  IsSoundStart (some (t, ret)) = IsSound t

  reset-IsSound : (s : Supply D L G) → IsNew s → IsSound (reset_values s)
  unfolding reset_values
  reset-IsSound s (silent, _, _, _, new) = record {
    ring = record { energies = refl; times = refl; position = omega arith };
    single = λ i e. absurd (silent i e);
    retries = ground (arith, new);
  }

module _ {D S L G : Type 0} ⦃f : Floating D⦄ ⦃n : AsciiDouble D⦄ ⦃a : AsciiText⦄ ⦃fs : Files S⦄
    ⦃m : MainLoop L⦄ ⦃g : Signals G⦄ (laws : IsMainLoop L) where
  polled-IsSound :
      (env : Surroundings D S) (kind : DeviceKind) (supplies : Bool) (s : Supply D L G)
      → IsSound s
      → IsSound (start_polling env kind (set_kind kind (set_power_supply supplies s)))
  polled-IsSound env kind supplies s v =
      if_both IsSound (polls kind s.priv.disable_battery_poll)
        (record {
          ring = IsRing_same s.priv _ refl refl refl v.ring;
          single = λ i e. v.single i (
              start_poll-source laws env.level s.poller s.address env.refresh_function i s.address
                e);
          retries = v.retries;
        })
        (record {
          ring = IsRing_same s.priv _ refl refl refl v.ring;
          single = v.single;
          retries = v.retries;
        })

  refresh-IsSoundStart :
      (env : Surroundings D S) (path : Text) (s : Supply D L G)
      → IsSound s
      → (o : Option (Supply D L G × Bool)) → refresh env path s ≡ o
      → IsSoundStart o
  refresh-IsSoundStart env path s v none e = tt
  refresh-IsSoundStart env path s v (some (t, ret)) e = refresh-IsSound laws env path s t ret v e

  -- A device that was just made is in order when its start returns, whatever its memory held and
  -- whether it is accepted or not.
  coldplug-IsSound :
      (env : Surroundings D S) (path : Option Text) (s t : Supply D L G) (ret : Bool)
      → IsNew s
      → coldplug env path s ≡ some (t, ret)
      → IsSound t
  unfolding coldplug
  coldplug-IsSound env none s t ret new e = subst IsSoundStart e (reset-IsSound s new)
  coldplug-IsSound env (some path) s t ret new e =
      let supplies = is_system env.scope in
      let reset = reset-IsSound s new in
      let scoped : IsSound (set_power_supply supplies (reset_values s)) = record {
        ring = IsRing_same (reset_values s).priv _ refl refl refl reset.ring;
        single = reset.single;
        retries = reset.retries;
      } in
      subst IsSoundStart e (
        if_both IsSoundStart (not supplies && not (has_capacity env.disk path)) scoped (
          refresh-IsSoundStart env path _ (polled-IsSound env (kind_of env path) supplies _ reset) _
            refl))

module _ {D L G : Type 0} ⦃m : MainLoop L⦄ ⦃g : Signals G⦄ (laws : IsMainLoop L) where
  -- A device that is freed leaves no source that would call it: neither one that polls it as the
  -- daemon polls all devices, nor one that polls it faster.
  pub finalize-silent :
      (s : Supply D L G) (i : ℕ)
      → IsSound s
      → IsPolled s.poller
      → (m.source i (finalize s) ≢ some (poll_unknown_battery s.address))
        × (m.source i (finalize s) ≢ some (fire_timeout_callback s.address))
  unfolding finalize
  finalize-silent s i v polled =
      let stopped = (stop_poll s.poller s.address).loop in
      let (_, silent) = stop_poll-silent laws s.poller s.address i polled in
      let removed = laws.source-remove s.priv.poll_timer_id stopped i in
      let before = stop_poll-source laws s.poller s.address i (poll_unknown_battery s.address) in
      elim (Bool-cases (s.priv.poll_timer_id == 0)) [
        | inl zero ↦
            rw zero (
              λ e. ground (arith, zero, e, v.single i (before e), laws.source-zero stopped),
              silent,
            )
        | inr live ↦ rw live (
          λ e. ground (arith, e, removed, before, v.single i),
          λ e. silent (ground (arith, e, removed)),
        )
      ]
