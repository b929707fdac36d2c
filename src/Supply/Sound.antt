-- ===== src/Supply/Sound.antt =====
-- src/linux/up-device-supply.c: the invariant of a device, and its sources.
pub mod Refresh
pub mod Ends
use upower.Prelude.{
  ℕ, ◌≤◌, ◌≡◌, refl, sym, ap, ◌∙◌, subst, ◌⊎◌, inl, inr, Bool, true, false, Option, none, some,
  Bool-cases, Option-cases, if_both, arith, ◌==◌, ==→eq, ltb,
}
use upower.Prelude.Text.{Text}
use upower.Floating.{Floating}
use upower.Storage.{Files}
use upower.MainLoop.{MainLoop, IsMainLoop, Callback, poll_unknown_battery}
use upower.Types.{DeviceKind, DeviceState}
use upower.Supply.{Supply, Surroundings, RefreshResult, AsciiText}
use upower.Supply.Sysfs.{AsciiDouble}
use upower.Supply.Rate.Ring.{IsRing}
use upower.Supply.Poll.{setup_unknown_poll, start_unknown_poll, disable_unknown_poll, max_retries}
use upower.Supply.Battery.{
  refresh_battery, refresh_present, reset_values, set_present, is_there, measure, remember, store,
}
use upower.Supply.Battery.Kept.{IsCarried, refreshed-IsCarried, IsRing_same}
use upower.Supply.Refresh.{
  fired, refresh_line_power, refresh_device, refresh_kind, finished, refresh, poll_unknown,
}
use upower.Supply.Cases.{
  IsKept, refresh_kind-cases, refresh_line_power-IsKept, refresh_device-IsKept,
}

module _ {D L G : Type 0} ⦃m : MainLoop L⦄ where
  -- The sources that poll this device are the one that it remembers and `id`.
  abbrev pub IsAmong : ℕ → Supply D L G → Type 0
  IsAmong id s =
      (i : ℕ)
      → m.source i s.poller.loop ≡ some (poll_unknown_battery s.address)
      → (i ≡ id) ⊎ (i ≡ s.priv.poll_timer_id)

  -- A device whose buffer is in order, which has at most one source that polls it faster, the one
  -- that it remembers, and which has not tried too often.
  pub record IsSound (s : Supply D L G) : Type 0 where
    pub ring : IsRing s.priv
    pub single :
        (i : ℕ)
        → m.source i s.poller.loop ≡ some (poll_unknown_battery s.address)
        → i ≡ s.priv.poll_timer_id
    pub retries : s.priv.unknown_retries ≤ max_retries

  -- As it is, with a second source beside the one that is remembered.
  pub record IsSoundBut (id : ℕ) (s : Supply D L G) : Type 0 where
    pub ring : IsRing s.priv
    pub among : IsAmong id s
    pub retries : s.priv.unknown_retries ≤ max_retries

  -- A device that only `id` polls.
  pub record IsQuiet (id : ℕ) (s : Supply D L G) : Type 0 where
    pub ring : IsRing s.priv
    pub only : (i : ℕ) → m.source i s.poller.loop ≡ some (poll_unknown_battery s.address) → i ≡ id
    pub retries : s.priv.unknown_retries ≤ max_retries

module _ {D S L G : Type 0} ⦃m : MainLoop L⦄ (laws : IsMainLoop L) where
  open laws use {source-zero, add-fresh, source-add, source-remove}

  start-IsAmong :
      (env : Surroundings D S) (s : Supply D L G) (id : ℕ)
      → ((i : ℕ) → m.source i s.poller.loop ≡ some (poll_unknown_battery s.address) → i ≡ id)
      → IsAmong id (start_unknown_poll env s)
  start-IsAmong env s id only i e =
      let new = (m.add 1 (poll_unknown_battery s.address) s.poller.loop).0 in
      let added = source-add 1 (poll_unknown_battery s.address) s.poller.loop i in
      elim (Bool-cases (i == new)) [
        | inl same ↦ inr (ground (arith, same))
        | inr other ↦ inl (only i (ground (arith, other, added, e)))
      ]

  start-IsSoundBut :
      (env : Surroundings D S) (s : Supply D L G) (id : ℕ)
      → IsQuiet id s
      → ltb s.priv.unknown_retries max_retries ≡ true
      → IsSoundBut id (start_unknown_poll env s)
  start-IsSoundBut env s id q few = record {
    ring = IsRing_same s.priv _ refl refl refl q.ring;
    among = start-IsAmong env s id q.only;
    retries = ground (arith, few);
  }

  pub setup-IsSoundBut :
      (env : Surroundings D S) (s : Supply D L G) (state : DeviceState) (id : ℕ)
      → IsQuiet id s
      → IsSoundBut id (setup_unknown_poll env s state)
  unfolding setup_unknown_poll
  setup-IsSoundBut env s state id q =
      let idle : IsSoundBut id s = record {
        ring = q.ring;
        among = λ i e. inl (q.only i e);
        retries = q.retries;
      } in
      let again : IsSoundBut id (record s { priv = record s.priv { unknown_retries = 0 } }) =
        record {
          ring = IsRing_same s.priv _ refl refl refl q.ring;
          among = λ i e. inl (q.only i e);
          retries = omega arith;
        } in
      if_both (IsSoundBut id) s.priv.disable_battery_poll idle
        (elim (Bool-cases (ltb s.priv.unknown_retries max_retries)) [
          | inl few ↦ if_both (IsSoundBut id) _ (start-IsSoundBut env s id q few) again
          | inr many ↦ rw many again
        ])

module _ {D L G : Type 0} ⦃m : MainLoop L⦄ (laws : IsMainLoop L) where
  open laws use {source-zero, source-remove}

  pub disable-IsQuiet : (s : Supply D L G) → IsSound s → IsQuiet 0 (disable_unknown_poll s)
  unfolding disable_unknown_poll
  disable-IsQuiet s v = elim (Bool-cases (s.priv.poll_timer_id == 0)) [
    | inl zero ↦ rw zero (record {
      ring = v.ring;
      only = λ i e. v.single i e ∙ ==→eq s.priv.poll_timer_id 0 zero;
      retries = v.retries;
    })
    | inr live ↦ rw live (record {
      ring = IsRing_same s.priv _ refl refl refl v.ring;
      only =
          λ i e. ground (arith, v.single i, source-remove s.priv.poll_timer_id s.poller.loop i, e);
      retries = v.retries;
    })
  ]

  pub fired-IsQuiet :
      (s : Supply D L G) → IsSound s → IsQuiet s.priv.poll_timer_id (disable_unknown_poll (fired s))
  unfolding disable_unknown_poll
  fired-IsQuiet s v = record {
    ring = IsRing_same s.priv _ refl refl refl v.ring;
    only = v.single;
    retries = v.retries;
  }

  pub fired-IsSoundBut : (s : Supply D L G) → IsSound s → IsSoundBut s.priv.poll_timer_id (fired s)
  fired-IsSoundBut s v = record {
    ring = IsRing_same s.priv _ refl refl refl v.ring;
    among = λ i e. inl (v.single i e);
    retries = v.retries;
  }
