-- ===== src/Supply/Refusals.antt =====
-- src/linux/up-device-supply.c: the devices that are refused when they start.
use upower.Prelude.{
  ◌≡◌, refl, ◌⊎◌, ◌∙◌, inl, inr, true, false, not, ◌&&◌, Option, none, some, Bool-cases, arith,
}
use upower.Prelude.Text.{Text}
use upower.Floating.{Floating}
use upower.Storage.{Files}
use upower.MainLoop.{MainLoop}
use upower.Daemon.Poll.{Signals}
use upower.Supply.{Supply, Surroundings, AsciiText}
use upower.Supply.Sysfs.{AsciiDouble}
use upower.Supply.Battery.{reset_values}
use upower.Supply.Refresh.{refresh}
use upower.Supply.Lifecycle.{
  coldplug, is_system, has_capacity, kind_of, start_polling, set_kind, set_power_supply,
}
use upower.Supply.Errors.{refresh-cases}

module _ {D S : Type 0} ⦃a : AsciiText⦄ ⦃fs : Files S⦄ where
  -- What `coldplug` does not take: a device without a path, and one that supplies another device
  -- and has no capacity of its own.
  abbrev pub IsRefused : Surroundings D S → Option Text → Type 0
  IsRefused env none = Unit
  IsRefused env (some path) = (is_system env.scope ≡ false) × (has_capacity env.disk path ≡ false)

module _ {D S L G : Type 0} ⦃f : Floating D⦄ ⦃n : AsciiDouble D⦄ ⦃a : AsciiText⦄ ⦃fs : Files S⦄
    ⦃m : MainLoop L⦄ ⦃g : Signals G⦄ where
  -- The device whose refresh ends the start.
  abbrev plugged : Surroundings D S → Text → Supply D L G → Supply D L G
  plugged env path s =
      let kind = kind_of env path in
      start_polling env kind
        (set_kind kind (set_power_supply (is_system env.scope) (reset_values s)))

  coldplug-refresh :
      (env : Surroundings D S) (path : Text) (s : Supply D L G)
      → (not (is_system env.scope) && not (has_capacity env.disk path)) ≡ false
      → coldplug env (some path) s ≡ refresh env path (plugged env path s)
  unfolding coldplug
  coldplug-refresh env path s e = rw e refl

  taken :
      (env : Surroundings D S) (path : Text) (s : Supply D L G)
      → (not (is_system env.scope) && not (has_capacity env.disk path)) ≡ false
      → ((t : Supply D L G) × (coldplug env (some path) s ≡ some (t, true)))
        ⊎ (coldplug env (some path) s ≡ none)
  taken env path s e = elim (refresh-cases env path (plugged env path s)) [
    | inl (t, ok, _) ↦ inl (t, coldplug-refresh env path s e ∙ ok)
    | inr (_, crash) ↦ inr (coldplug-refresh env path s e ∙ crash)
  ]

  accept :
      (env : Surroundings D S) (path : Text) (s : Supply D L G)
      → (not (is_system env.scope) && not (has_capacity env.disk path)) ≡ false
      → ¬ IsRefused env (some path)
      → ((¬ IsRefused env (some path))
          × ((t : Supply D L G) × (coldplug env (some path) s ≡ some (t, true))))
        ⊎ ((¬ IsRefused env (some path)) × (coldplug env (some path) s ≡ none))
  accept env path s e ok = elim (taken env path s e) [
    | inl t ↦ inl (ok, t)
    | inr crash ↦ inr (ok, crash)
  ]

  -- A device is refused for these two reasons only, and is then not polled. Any other device is
  -- taken, if its refresh does not write out of bounds.
  coldplug-cases :
      (env : Surroundings D S) (path : Option Text) (s : Supply D L G)
      → (IsRefused env path
          × ((t : Supply D L G) × (coldplug env path s ≡ some (t, false)) × (t.poller ≡ s.poller)))
        ⊎ ((¬ IsRefused env path) × ((t : Supply D L G) × (coldplug env path s ≡ some (t, true))))
        ⊎ ((¬ IsRefused env path) × (coldplug env path s ≡ none))
  unfolding coldplug reset_values
  coldplug-cases env none s = inl (tt, (reset_values s, refl, refl))
  coldplug-cases env (some path) s = elim (Bool-cases (is_system env.scope)) [
    | inl system ↦ inr (accept env path s (rw system refl) (λ (h, _). ground (arith, h, system)))
    | inr other ↦ elim (Bool-cases (has_capacity env.disk path)) [
      | inl there ↦
          inr (accept env path s (rw (other, there) refl) (λ (_, h). ground (arith, h, there)))
      | inr missing ↦ inl (
        (other, missing),
        (set_power_supply (is_system env.scope) (reset_values s), rw (other, missing) refl, refl),
      )
    ]
  ]
