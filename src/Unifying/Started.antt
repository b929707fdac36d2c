-- ===== src/Unifying/Started.antt =====
-- src/linux/up-device-unifying.c: which wireless devices are started.
use upower.Prelude.{
  ℕ, ◌%◌, ◌^◌, ◌≡◌, refl, Bool, true, false, not, ◌&&◌, [], Option, none, some, if_both,
}
use upower.Prelude.Text.{Text, codes, text_eq}
use upower.Floating.{Floating}
use upower.MainLoop.{MainLoop, IsMainLoop}
use upower.Device.{Skeleton}
use upower.Daemon.Poll.{Signals, table_lookup}
use upower.Daemon.Poll.Sources.{IsScheduled}
use upower.Daemon.Poll.Start.{start_poll-IsScheduled}
use upower.Supply.{AsciiText}
use upower.Hidpp.{Private, Hidraw, init, set_index}
use upower.Hidpp.Transport.{Error}
use upower.Hidpp.Refresh.{Outcome, returned, fault, out_of_fuel}
use upower.Unifying.{
  Unifying, Run, finished, crashed, endless, set_light, set_battery, warned, with_device, refreshed,
  refresh_device, refresh_unifying,
}
use upower.Unifying.Coldplug.{
  UnsignedText, HidrawNode, Surroundings, is_wireless, index_part, find_receiver, set_defaults,
  start, connected, connect_file, connect, indexed, typed, coldplug,
}

module _ {D L G O : Type 0} ⦃m : MainLoop L⦄ ⦃g : Signals G⦄ where
  -- What a start comes to, for the device it began with.
  abbrev pub Starts : Surroundings → Unifying D L G → Run D L G O → Type 0
  Starts env u (finished true v os) =
      (v.address ≡ u.address)
      × IsScheduled env.level u.address env.refresh_function v.poller
      × (v.skeleton.has_history ≡ true)
      × (v.skeleton.is_rechargeable ≡ true)
      × (v.skeleton.power_supply ≡ false)
  Starts env u (finished false v os) = (v.poller ≡ u.poller) × (v.skeleton ≡ u.skeleton)
  Starts env u crashed = Unit
  Starts env u endless = Unit

  record IsStarted (env : Surroundings) (u : Unifying D L G) (r : Run D L G O) : Type 0 where
    starts : Starts env u r

  refused-IsStarted :
      (env : Surroundings) (u : Unifying D L G) (p : Private D) (os : O)
      → IsStarted env u (finished false (with_device u p) os)
  refused-IsStarted env u p os = record { starts = (refl, refl) }

  warned-IsStarted :
      (env : Surroundings) (u : Unifying D L G) (o : Option Error) (r : Run D L G O)
      → IsStarted env u r
      → IsStarted env u (warned o r)
  warned-IsStarted env u none r h = record { starts = tt }
  warned-IsStarted env u (some e) r h = h

module _ {D L G O : Type 0} where
  -- A refresh leaves what the start has set.
  abbrev Keeps : Unifying D L G → Run D L G O → Type 0
  Keeps u (finished b v os) =
      (v.address ≡ u.address)
      × (v.poller ≡ u.poller)
      × (v.skeleton.has_history ≡ u.skeleton.has_history)
      × (v.skeleton.is_rechargeable ≡ u.skeleton.is_rechargeable)
      × (v.skeleton.power_supply ≡ u.skeleton.power_supply)
  Keeps u crashed = Unit
  Keeps u endless = Unit

  warned-Keeps :
      (u : Unifying D L G) (o : Option Error) (r : Run D L G O) → Keeps u r → Keeps u (warned o r)
  warned-Keeps u none r h = tt
  warned-Keeps u (some e) r h = h

light_keeps :
    {D : Type 0} ⦃f : Floating D⦄ (p : Private D) (s : Skeleton D)
    → let t = set_light p s in
      (t.has_history ≡ s.has_history)
      × (t.is_rechargeable ≡ s.is_rechargeable)
      × (t.power_supply ≡ s.power_supply)
light_keeps {D} ⦃f⦄ p s =
    let P = λ (t : Skeleton D).
      (t.has_history ≡ s.has_history)
      × (t.is_rechargeable ≡ s.is_rechargeable)
      × (t.power_supply ≡ s.power_supply) in
    if_both P (f.le (f.lit 0 1) p.lux) {x = record s { luminosity = p.lux }} {y = s}
      (refl, refl, refl) (refl, refl, refl)

module _ {D L G O : Type 0} ⦃f : Floating D⦄ where
  refreshed-Keeps :
      (real_time : ℕ) (u : Unifying D L G) (below : Outcome D O)
      → Keeps u (refreshed real_time u below)
  unfolding set_battery
  refreshed-Keeps real_time u (returned true s) =
      let (a, b, c) = light_keeps s.priv u.skeleton in (refl, refl, a, b, c)
  refreshed-Keeps real_time u (returned false s) =
      warned-Keeps u s.error _ (refl, refl, refl, refl, refl)
  refreshed-Keeps real_time u (fault s) = tt
  refreshed-Keeps real_time u out_of_fuel = tt

module _ {D L G O : Type 0} ⦃f : Floating D⦄ ⦃h : Hidraw O⦄ where
  refresh_device-Keeps :
      (fuel real_time : ℕ) (u : Unifying D L G) (o : Option (Private D)) (os : O)
      → Keeps u (refresh_device fuel real_time u o os)
  refresh_device-Keeps fuel real_time u none os = tt
  refresh_device-Keeps fuel real_time u (some p) os = refreshed-Keeps real_time u _

  refresh_unifying-Keeps :
      (fuel real_time : ℕ) (u : Unifying D L G) (os : O)
      → Keeps u (refresh_unifying fuel real_time u os)
  unfolding refresh_unifying
  refresh_unifying-Keeps fuel real_time u os =
      refresh_device-Keeps fuel real_time u u.hidpp_device os

module _ {D L G O : Type 0} ⦃m : MainLoop L⦄ ⦃g : Signals G⦄ (laws : IsMainLoop L)
    (env : Surroundings) (u : Unifying D L G)
    (new : table_lookup u.address u.poller.polling.poll_timeouts ≡ none) where
  start-IsStarted :
      (p : Private D) (r : Run D L G O)
      → Keeps (set_defaults env p u) r
      → IsStarted env u (start env r)
  unfolding set_defaults
  start-IsStarted p crashed k = record { starts = tt }
  start-IsStarted p endless k = record { starts = tt }
  start-IsStarted p (finished b v os) (address, kept, history, rechargeable, supply) = record {
    starts = (
      address,
      rw (address, kept)
          (start_poll-IsScheduled laws env.level u.poller u.address env.refresh_function new),
      history,
      rechargeable,
      supply,
    );
  }

module _ {D L G O : Type 0} ⦃f : Floating D⦄ ⦃m : MainLoop L⦄ ⦃g : Signals G⦄ ⦃h : Hidraw O⦄
    (laws : IsMainLoop L) (env : Surroundings) (u : Unifying D L G)
    (new : table_lookup u.address u.poller.polling.poll_timeouts ≡ none) where
  connected-IsStarted :
      (fuel : ℕ) (below : Outcome D O) → IsStarted env u (connected fuel env u below)
  connected-IsStarted fuel (returned true s) =
      start-IsStarted laws env u new s.priv _
        (refresh_unifying-Keeps fuel env.real_time (set_defaults env s.priv u) s.os)
  connected-IsStarted fuel (returned false s) =
      warned-IsStarted env u s.error _ (refused-IsStarted env u s.priv s.os)
  connected-IsStarted fuel (fault s) = record { starts = tt }
  connected-IsStarted fuel out_of_fuel = record { starts = tt }

  connect_file-IsStarted :
      (fuel : ℕ) (p : Private D) (os : O) (o : Option Text)
      → IsStarted env u (connect_file fuel env u p os o)
  connect_file-IsStarted fuel p os none = refused-IsStarted env u p os
  connect_file-IsStarted fuel p os (some file) = connected-IsStarted fuel _

  connect-IsStarted :
      (fuel : ℕ) (p : Private D) (os : O) (o : Option HidrawNode)
      → IsStarted env u (connect fuel env u p os o)
  unfolding connect
  connect-IsStarted fuel p os none = refused-IsStarted env u p os
  connect-IsStarted fuel p os (some node) = connect_file-IsStarted fuel p os node.device_file

module _ {D L G O : Type 0} ⦃f : Floating D⦄ ⦃a : AsciiText⦄ ⦃n : UnsignedText⦄ ⦃m : MainLoop L⦄
    ⦃g : Signals G⦄ ⦃h : Hidraw O⦄ (laws : IsMainLoop L) (env : Surroundings) (u : Unifying D L G)
    (new : table_lookup u.address u.poller.polling.poll_timeouts ≡ none) where
  indexed-IsStarted :
      (fuel : ℕ) (wireless : Bool) (os : O) (o : Option Text)
      → IsStarted env u (indexed fuel env u wireless os o)
  indexed-IsStarted fuel wireless os none = refused-IsStarted env u init os
  indexed-IsStarted fuel wireless os (some part) =
      let (index, endptr) = n.strtoull part in
      let p = set_index (index % 2 ^ 32) init in
      let node = find_receiver env wireless env.hidraw_list in
      if_both (IsStarted env u) wireless
        (connect-IsStarted laws env u new fuel (set_index 1 init) os node)
        (if_both (IsStarted env u) (not (text_eq endptr [])) (refused-IsStarted env u p os)
          (connect-IsStarted laws env u new fuel p os node))

  typed-IsStarted : (fuel : ℕ) (os : O) (o : Option Text) → IsStarted env u (typed fuel env u os o)
  typed-IsStarted fuel os none = record { starts = (refl, refl) }
  typed-IsStarted fuel os (some type) =
      if_both (IsStarted env u) (not (text_eq type (codes "unifying")) && not (is_wireless type))
        (record { starts = (refl, refl) })
        (indexed-IsStarted fuel (is_wireless type) os (index_part env.hid_phys))

  -- A device that the daemon does not poll yet and whose start returns TRUE is registered for the
  -- polling with the refresh function, and a source with the interval for its warning level is in the
  -- main loop, unless the polling is paused; it is shown with a history, as rechargeable, and not as
  -- a supply of the system. One that is refused is neither registered nor changed in what is shown
  -- of it. A start that crashes or does not end is not meant.
  pub coldplug-Starts : (fuel : ℕ) (os : O) → Starts env u (coldplug fuel env u os)
  unfolding coldplug
  coldplug-Starts fuel os = (typed-IsStarted fuel os env.type).starts
