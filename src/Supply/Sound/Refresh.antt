-- ===== src/Supply/Sound/Refresh.antt =====
-- src/linux/up-device-supply.c: every refresh keeps the invariant of a device.
use upower.Prelude.{
  ℕ, ◌≡◌, refl, sym, ap, ◌∙◌, subst, inl, inr, Bool, true, Option, none, some, Bool-cases, if_both,
  arith, ◌==◌,
}
use upower.Prelude.Text.{Text}
use upower.Floating.{Floating}
use upower.Storage.{Files}
use upower.MainLoop.{MainLoop, IsMainLoop, poll_unknown_battery}
use upower.Supply.{Supply, Surroundings, RefreshResult, AsciiText}
use upower.Supply.Sysfs.{AsciiDouble}
use upower.Supply.Poll.{with_loop, disable_unknown_poll}
use upower.Supply.Battery.{refresh_battery, refresh_present, reset_values, set_present}
use upower.Supply.Battery.Kept.{refreshed-IsCarried, IsRing_same}
use upower.Supply.Refresh.{
  fired, refresh_device, refresh_kind, finished, destroyed, refresh, poll_unknown,
}
use upower.Supply.Cases.{
  IsKept, refresh_kind-cases, refresh_line_power-IsKept, refresh_device-IsKept,
}
use upower.Supply.Sound.{
  IsSound, IsSoundBut, IsQuiet, setup-IsSoundBut, disable-IsQuiet, fired-IsQuiet, fired-IsSoundBut,
}

module _ {D L G : Type 0} ⦃m : MainLoop L⦄ where
  kept-IsSoundBut : (s t : Supply D L G) (id : ℕ) → IsKept s t → IsSoundBut id s → IsSoundBut id t
  kept-IsSoundBut s t id k v = record {
    ring = IsRing_same s.priv _ k.energy_old k.energy_old_timespec k.energy_old_first v.ring;
    among = λ i e.
        rw k.poll_timer_id
          (v.among i (rw (sym k.poller) (e ∙ ap (λ d. some (poll_unknown_battery d)) k.address)));
    retries = elim k.unknown_retries [
      | inl same ↦ rw same v.retries
      | inr zero ↦ omega (arith, zero)
    ];
  }

  abbrev IsSoundOutcome : ℕ → Option (Supply D L G × RefreshResult) → Type 0
  IsSoundOutcome id none = Unit
  IsSoundOutcome id (some (t, ret)) = IsSoundBut id t

  abbrev IsSoundAnswer : ℕ → Option (Supply D L G × Bool) → Type 0
  IsSoundAnswer id none = Unit
  IsSoundAnswer id (some (t, ret)) = IsSoundBut id t

  dated-IsSoundBut :
      (id now : ℕ) (s : Supply D L G)
      → IsSoundBut id s
      → IsSoundBut id (record s { skeleton = record s.skeleton { update_time = now } })
  dated-IsSoundBut id now s v = record { ring = v.ring; among = v.among; retries = v.retries }

  finished-IsSoundAnswer :
      (id now : ℕ) (o : Option (Supply D L G × RefreshResult))
      → IsSoundOutcome id o
      → IsSoundAnswer id (finished now o)
  finished-IsSoundAnswer id now none h = tt
  finished-IsSoundAnswer id now (some (s, ret)) v =
      if_both (IsSoundBut id) _ (dated-IsSoundBut id now s v) v

module _ {D L G : Type 0} ⦃m : MainLoop L⦄ (laws : IsMainLoop L) where
  zero-IsSoundBut : (s : Supply D L G) → IsSound s → IsSoundBut 0 s
  zero-IsSoundBut s v = record {
    ring = v.ring;
    among = λ i e. inr (v.single i e);
    retries = v.retries;
  }

  zero-IsSound : (s : Supply D L G) → IsSoundBut 0 s → IsSound s
  zero-IsSound s v = record {
    ring = v.ring;
    single = λ i e. elim (v.among i e) [
      | inl zero ↦ absurd (ground (arith, zero, e, laws.source-zero s.poller.loop))
      | inr same ↦ same
    ];
    retries = v.retries;
  }

module _ {D L G : Type 0} ⦃m : MainLoop L⦄ (laws : IsMainLoop L) where
  removed-IsSound :
      (id : ℕ) (s : Supply D L G)
      → IsSoundBut id s
      → IsSound (with_loop s (m.remove id s.poller.loop))
  removed-IsSound id s v = record {
    ring = v.ring;
    single = λ i e. elim (Bool-cases (i == id)) [
      | inl same ↦ absurd (ground (arith, same, e, laws.source-remove id s.poller.loop i))
      | inr other ↦
          elim (v.among i (ground (arith, other, e, laws.source-remove id s.poller.loop i))) [
            | inl same ↦ absurd (ground (arith, same, other))
            | inr timer ↦ timer
          ]
    ];
    retries = v.retries;
  }

  abbrev IsSoundEnd : Option (Supply D L G) → Type 0
  IsSoundEnd none = Unit
  IsSoundEnd (some t) = IsSound t

  destroyed-IsSoundEnd :
      (id : ℕ) (o : Option (Supply D L G × Bool)) → IsSoundAnswer id o → IsSoundEnd (destroyed id o)
  destroyed-IsSoundEnd id none h = tt
  destroyed-IsSoundEnd id (some (s, ret)) v = removed-IsSound id s v

module _ {D S L G : Type 0} ⦃f : Floating D⦄ ⦃n : AsciiDouble D⦄ ⦃a : AsciiText⦄ ⦃fs : Files S⦄
    ⦃m : MainLoop L⦄ (laws : IsMainLoop L) where
  refresh_battery-IsSoundBut :
      (env : Surroundings D S) (path : Text) (s : Supply D L G) (id : ℕ)
      → IsQuiet id s
      → IsSoundBut id (refresh_battery env path s)
  unfolding refresh_battery refresh_present reset_values
  refresh_battery-IsSoundBut env path s id q =
      if_both (IsSoundBut id) _
        (record {
          ring = record { energies = refl; times = refl; position = omega arith };
          among = λ i e. inl (q.only i e);
          retries = q.retries;
        })
        (let c = refreshed-IsCarried env path _ s.priv (set_present s true).skeleton in
          setup-IsSoundBut laws env _ _ id (record {
            ring = c.ring q.ring;
            only = q.only;
            retries = rw (c.poll.unknown_retries) q.retries;
          }))

  device-IsSoundOutcome :
      (env : Surroundings D S) (path : Text) (s : Supply D L G) (id : ℕ)
      → IsSoundBut id s
      → (o : Option (Supply D L G × RefreshResult)) → refresh_device env path s ≡ o
      → IsSoundOutcome id o
  device-IsSoundOutcome env path s id v none e = tt
  device-IsSoundOutcome env path s id v (some (t, ret)) e =
      kept-IsSoundBut s t id (refresh_device-IsKept env path s t ret e) v

  kind-IsSoundOutcome :
      (env : Surroundings D S) (path : Text) (s : Supply D L G) (id : ℕ)
      → IsSoundBut id s
      → IsQuiet id (disable_unknown_poll s)
      → IsSoundOutcome id (refresh_kind env path s s.skeleton.kind)
  kind-IsSoundOutcome env path s id v q = elim (refresh_kind-cases env path s s.skeleton.kind) [
    | inl line ↦ rw line (kept-IsSoundBut s _ id (refresh_line_power-IsKept env path s) v)
    | inr (inl battery) ↦ rw battery (refresh_battery-IsSoundBut env path _ id q)
    | inr (inr other) ↦ rw other (device-IsSoundOutcome env path s id v _ refl)
  ]

  refresh-IsSoundAnswer :
      (env : Surroundings D S) (path : Text) (s : Supply D L G) (id : ℕ)
      → IsSoundBut id s
      → IsQuiet id (disable_unknown_poll s)
      → IsSoundAnswer id (refresh env path s)
  unfolding refresh
  refresh-IsSoundAnswer env path s id v q =
      finished-IsSoundAnswer id env.real_time _ (kind-IsSoundOutcome env path s id v q)

  -- A refresh keeps a device in order, whatever the kernel reports: its buffer keeps its four places,
  -- at most one source polls it faster, the one that it remembers, and its counter of retries is not
  -- over five.
  pub refresh-IsSound :
      (env : Surroundings D S) (path : Text) (s t : Supply D L G) (ret : Bool)
      → IsSound s
      → refresh env path s ≡ some (t, ret)
      → IsSound t
  refresh-IsSound env path s t ret v e = zero-IsSound laws t (
      subst (IsSoundAnswer 0) e
        (refresh-IsSoundAnswer env path s 0 (zero-IsSoundBut laws s v) (disable-IsQuiet laws s v)))

  -- The source of the faster polling has gone when its callback is done, and the refresh that the
  -- callback makes leaves the device in order, with a new source at most.
  poll_unknown-IsSound :
      (env : Surroundings D S) (path : Text) (s t : Supply D L G)
      → IsSound s
      → poll_unknown env path s.priv.poll_timer_id s ≡ some t
      → IsSound t
  unfolding poll_unknown
  poll_unknown-IsSound env path s t v e =
      let id = s.priv.poll_timer_id in
      let answer =
        refresh-IsSoundAnswer env path (fired s) id (fired-IsSoundBut laws s v)
          (fired-IsQuiet laws s v) in
      subst (IsSoundEnd laws) e (destroyed-IsSoundEnd laws id _ answer)
