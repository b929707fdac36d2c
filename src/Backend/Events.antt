-- ===== src/Backend/Events.antt =====
-- src/linux/up-backend.c: what the events of udev do to the devices that the daemon knows.
use upower.Prelude.{
  ℕ, suc, ◌+◌, ◌≤◌, ◌≡◌, ◌⊎◌, inl, inr, refl, ap, sym, ◌∙◌, none, Option-cases, subst, some, arith,
  ◌==◌, if◌then◌else◌,
}
use upower.Prelude.Text.{Text, codes}
use upower.Floating.{Floating}
use upower.MainLoop.{MainLoop}
use upower.DeviceList.{object_ref, lookup}
use upower.DeviceList.Lookup.{lookup_found, lookup_same, lookup_missing, lookup-remove}
use upower.DeviceList.References.{held}
use upower.Daemon.Devices.{device_removed_cb}
use upower.Daemon.Devices.Held.{device_removed_cb-held, device_removed_cb-power_devices}
use upower.Backend.{
  Backend, Native, Surroundings, uevent, add_and_change, device_add, device_changed, known,
  add_known, change_known, device_remove, with_objects, drop,
}

-- The daemon has the device `d` for this device of udev.
abbrev pub IsKnown : {D L G : Type 0} → Backend D L G → Native → ℕ → Type 0
IsKnown b native d =
    (lookup b.objects.system.daemon.power_devices native.native_path b.objects.refs).0 ≡ some d

module _ {D L G : Type 0} ⦃f : Floating D⦄ ⦃m : MainLoop L⦄ where
  -- The references to `x` before, and those that are left when the device `d` is gone.
  abbrev pub AreGiven : ℕ → ℕ → Backend D L G → Backend D L G → Type 0
  AreGiven d x b t =
      t.objects.refs x + held b.objects.system.daemon.power_devices x + (if x == d then 1 else 0)
      ≡ b.objects.refs x + held t.objects.system.daemon.power_devices x

  removed : ℕ → Text → ℕ → Backend D L G → Backend D L G
  removed d path now b = drop d (
      with_objects b (
        device_removed_cb (some path) d now
          (record b.objects { refs = object_ref d b.objects.refs })))

  removed-unknown :
      (native : Native) (path : Text) (d now : ℕ) (b : Backend D L G)
      → ¬ IsKnown (removed d path now b) native d
  unfolding removed
  removed-unknown native path d now b e =
      let q = (removed d path now b).objects.refs in
      let o = record b.objects { refs = object_ref d b.objects.refs } in
      lookup-remove o.system.daemon.power_devices native.native_path d o.refs q (
        subst (λ list. (lookup list native.native_path q).0 ≡ some d)
          (device_removed_cb-power_devices path d now o) e)

  removed-AreGiven :
      (path : Text) (d now : ℕ) (b : Backend D L G) (x : ℕ)
      → held b.objects.system.daemon.power_devices x + 1 ≤ b.objects.refs x
      → AreGiven d x b (removed d path now b)
  unfolding removed
  removed-AreGiven path d now b x h =
      let o = record b.objects { refs = object_ref d b.objects.refs } in
      ground (
        arith,
        device_removed_cb-held path d now o x (ground (arith, h)),
        ap (λ list. held list x) (device_removed_cb-power_devices path d now o),
        h,
      )

  remove-removed :
      (env : Surroundings D L G) (native : Native) (path : Text) (d now : ℕ) (b : Backend D L G)
      → IsKnown b native d
      → env.object_path d ≡ some path
      → uevent env (codes "remove") native now b ≡ removed d path now b
  unfolding uevent device_remove removed
  remove-removed env native path d now b k p =
      let list = b.objects.system.daemon.power_devices in
      rw (k, lookup_found list native.native_path d b.objects.refs k, p) refl

  -- When udev tells that a device is gone that the daemon knows, it knows the device no more, and
  -- each object has lost exactly the references that the list held to it and does not hold any
  -- more, and the device one more, the one that came with it: that of the lookup is given back. The
  -- device has an object path, and the references are those that are held.
  pub uevent-removed :
      (env : Surroundings D L G) (native : Native) (path : Text) (d now : ℕ) (b : Backend D L G)
      (x : ℕ)
      → IsKnown b native d
      → env.object_path d ≡ some path
      → held b.objects.system.daemon.power_devices x + 1 ≤ b.objects.refs x
      → let t = uevent env (codes "remove") native now b in
        (¬ IsKnown t native d) × AreGiven d x b t
  uevent-removed env native path d now b x k p h =
      subst (λ t. (¬ IsKnown t native d) × AreGiven d x b t)
        (sym (remove-removed env native path d now b k p))
        (removed-unknown native path d now b, removed-AreGiven path d now b x h)

  -- A device that the daemon knows is refreshed when udev tells of it, whether it calls it new or
  -- changed: nothing is started, and no reference is kept.
  pub uevent-refreshed :
      (env : Surroundings D L G) (native : Native) (d now : ℕ) (b : Backend D L G) (action : Text)
      → (action ≡ codes "add") ⊎ (action ≡ codes "change")
      → IsKnown b native d
      → let t = uevent env action native now b in
        (t.objects.system ≡ env.refresh d b.objects.system)
        × (t.signals ≡ b.signals)
        × ((x : ℕ) → t.objects.refs x ≡ b.objects.refs x)
  unfolding uevent add_and_change device_add device_changed
  uevent-refreshed env native d now b action (inl e) k =
      let list = b.objects.system.daemon.power_devices in
      let refs = object_ref d b.objects.refs in
      let found = lookup_same list native.native_path refs b.objects.refs ∙ k in
      rw
        (
          e,
          k,
          lookup_found list native.native_path d b.objects.refs k,
          found,
          lookup_found list native.native_path d refs found,
        )
        (refl, refl, λ x. ground arith)
  uevent-refreshed env native d now b action (inr e) k =
      rw
        (
          e,
          k,
          lookup_found b.objects.system.daemon.power_devices native.native_path d b.objects.refs k,
        )
        (refl, refl, λ x. ground arith)

  -- The two functions call each other once at most: more fuel than two changes nothing.
  pub add_and_change_enough :
      (fuel : ℕ) (env : Surroundings D L G) (native : Native) (b : Backend D L G)
      → ((add_and_change (suc (suc fuel)) env native).0 b ≡ (add_and_change 2 env native).0 b)
        × ((add_and_change (suc (suc fuel)) env native).1 b ≡ (add_and_change 2 env native).1 b)
  unfolding add_and_change device_add device_changed
  add_and_change_enough fuel env native b =
      let list = b.objects.system.daemon.power_devices in
      let refs = b.objects.refs in
      elim (Option-cases (lookup list native.native_path refs).0) [
        | inl out ↦
            let gone : known native b ≡ (none, b) =
              rw (out, lookup_missing list native.native_path refs out) refl in
            let same = λ (x y : Backend D L G → Backend D L G).
              ap (add_known env native x) gone ∙ sym (ap (add_known env native y) gone) in
            (
              same (add_and_change (suc fuel) env native).1 (add_and_change 1 env native).1,
              ap (change_known env (add_and_change (suc fuel) env native).0) gone
                  ∙ same (add_and_change fuel env native).1 (add_and_change 0 env native).1
                  ∙ sym (ap (change_known env (add_and_change 1 env native).0) gone),
            )
        | inr (d, k) ↦
            let found = lookup_same list native.native_path (object_ref d refs) refs ∙ k in
            rw (k, lookup_found list native.native_path d refs k, found) (refl, refl)
      ]
