-- ===== src/Supply/Errors.antt =====
-- src/linux/up-device-supply.c: the refreshes that fail, and the devices that are refused.
use upower.Prelude.{
  ℕ, ◌≡◌, refl, ◌≢◌, ◌⊎◌, subst, sym, ◌∙◌, inl, inr, true, false, [], Option, none, some,
  Bool-cases, Option-cases, arith,
}
use upower.Prelude.Text.{Text}
use upower.Floating.{Floating}
use upower.Storage.{Files}
use upower.MainLoop.{MainLoop}
use upower.Types.{DeviceKind, DeviceLevel}
use upower.Supply.{Supply, Surroundings, RefreshResult, success, no_data, AsciiText}
use upower.Supply.Sysfs
use upower.Supply.Sysfs.{AsciiDouble, get_double_with_error, file_exists}
use upower.Supply.Attributes.{get_capacity_level}
use upower.Supply.Refresh.{
  refresh_line_power, show_percentage, name_device, refresh_device, refresh_kind, refresh, finished,
}
use upower.Supply.Cases.{refresh_kind-cases, refresh_kind_other}

-- The attributes of a device that make the refresh write in front of an empty text: no capacity,
-- and a level that is there and cannot be read, or is empty.
abbrev pub IsCrash :
    (D : Type 0) {S : Type 0} ⦃f : Floating D⦄ ⦃n : AsciiDouble D⦄ ⦃fs : Files S⦄
    → S
    → Text
    → Type 0
IsCrash D disk path =
    (get_double_with_error {D = D} disk path "capacity" ≡ none)
    × (file_exists disk path "capacity_level" ≡ true)
    × (Sysfs.get_string disk path "capacity_level" ≡ [])

module _ {D S : Type 0} ⦃f : Floating D⦄ ⦃fs : Files S⦄ where
  -- The level is read unless its text is there and empty.
  get_capacity_level-cases :
      (disk : S) (path : Text)
      → ((get_capacity_level {D = D} disk path ≡ none)
          × (file_exists disk path "capacity_level" ≡ true)
          × (Sysfs.get_string disk path "capacity_level" ≡ []))
        ⊎ ((r : D × DeviceLevel) × (get_capacity_level disk path ≡ some r)
            × ((file_exists disk path "capacity_level" ≡ false)
                ⊎ (Sysfs.get_string disk path "capacity_level" ≢ [])))
  unfolding get_capacity_level
  get_capacity_level-cases disk path = elim (Option-cases (get_capacity_level {D = D} disk path)) [
    | inl crash ↦ inl (crash, (crashed crash).0, (crashed crash).1)
    | inr (r, e) ↦ inr (
      r,
      e,
      elim (Bool-cases (file_exists disk path "capacity_level")) [
        | inl there ↦ inr (λ blank. ground (arith, e, there, blank))
        | inr missing ↦ inl missing
      ],
    )
  ]
    where
      crashed :
          get_capacity_level {D = D} disk path ≡ none
          → (file_exists disk path "capacity_level" ≡ true)
            × (Sysfs.get_string disk path "capacity_level" ≡ [])
      crashed e = ground (arith, e)

module _ {D L G : Type 0} where
  abbrev IsAnswered : Option (Supply D L G × RefreshResult) → Type 0
  IsAnswered o =
      (t : Supply D L G) × (ret : RefreshResult) × (o ≡ some (t, ret))
      × ((ret ≡ success) ⊎ (ret ≡ no_data))

module _ {D S L G : Type 0} ⦃f : Floating D⦄ ⦃n : AsciiDouble D⦄ ⦃a : AsciiText⦄
    ⦃fs : Files S⦄ where
  answered :
      (env : Surroundings D S) (path : Text) (s : Supply D L G) (percentage : D)
      (level : DeviceLevel)
      → IsAnswered (some (show_percentage env path s percentage level))
  answered env path s percentage level =
      let (t, ret) = show_percentage env path s percentage level in (t, ret, refl, ground arith)

  refresh_device-cases :
      (env : Surroundings D S) (path : Text) (s : Supply D L G)
      → (IsCrash D env.disk path × (refresh_device env path s ≡ none))
        ⊎ ((¬ IsCrash D env.disk path)
            × ((t : Supply D L G) × (ret : RefreshResult) × (refresh_device env path s
                  ≡ some (t, ret))
                × ((ret ≡ success) ⊎ (ret ≡ no_data))))
  unfolding refresh_device
  refresh_device-cases env path s =
      elim (Option-cases (get_double_with_error {D = D} env.disk path "capacity")) [
        | inr (percentage, e) ↦ inr (
          λ (out, _, _). ground (arith, out, e),
          rw e (answered env path (name_device env path s) percentage DeviceLevel.none),
        )
        | inl out ↦ elim (get_capacity_level-cases {D = D} env.disk path) [
          | inl (crash, there, blank) ↦ inl ((out, there, blank), rw (out, crash) refl)
          | inr ((percentage, level), e, ok) ↦ inr (
            λ (_, there, blank). elim ok [
              | inl missing ↦ ground (arith, missing, there)
              | inr text ↦ text blank
            ],
            rw (out, e) (answered env path (name_device env path s) percentage level),
          )
        ]
      ]

module _ {D L G : Type 0} where
  done :
      (now : ℕ) (t : Supply D L G) (ret : RefreshResult)
      → (ret ≡ success) ⊎ (ret ≡ no_data)
      → (u : Supply D L G) × (finished now (some (t, ret)) ≡ some (u, true))
  done now t RefreshResult.success known = (_, refl)
  done now t RefreshResult.no_data known = (_, refl)
  done now t RefreshResult.failure (inl e) = absurd (ground (arith, e))
  done now t RefreshResult.failure (inr e) = absurd (ground (arith, e))

  finished-IsTrue :
      (now : ℕ) (o : Option (Supply D L G × RefreshResult))
      → IsAnswered o
      → (u : Supply D L G) × (finished now o ≡ some (u, true))
  finished-IsTrue now o (t, ret, e, known) =
      subst (λ x. (u : Supply D L G) × (finished now x ≡ some (u, true))) (sym e)
        (done now t ret known)

module _ {D S L G : Type 0} ⦃f : Floating D⦄ ⦃n : AsciiDouble D⦄ ⦃fs : Files S⦄ where
  -- A device of another kind than these two, with attributes that make the refresh fail.
  abbrev pub IsFault : Surroundings D S → Text → Supply D L G → Type 0
  IsFault env path s =
      IsCrash D env.disk path
      × (s.skeleton.kind ≢ DeviceKind.line_power)
      × (s.skeleton.kind ≢ DeviceKind.battery)

module _ {D S L G : Type 0} ⦃f : Floating D⦄ ⦃n : AsciiDouble D⦄ ⦃a : AsciiText⦄ ⦃fs : Files S⦄
    ⦃m : MainLoop L⦄ where
  crash_kind :
      (env : Surroundings D S) (path : Text) (s : Supply D L G) (kind : DeviceKind)
      → refresh_kind env path s kind ≡ none
      → (kind ≢ DeviceKind.line_power) × (kind ≢ DeviceKind.battery)
  unfolding refresh_kind
  crash_kind env path s kind e = (
    λ h. ground (arith, subst (λ k. refresh_kind env path s k ≡ none) h e),
    λ h. ground (arith, subst (λ k. refresh_kind env path s k ≡ none) h e),
  )

  fault_crashes :
      (env : Surroundings D S) (path : Text) (s : Supply D L G)
      → IsFault env path s
      → refresh env path s ≡ none
  unfolding refresh
  fault_crashes env path s (crash, line, battery) =
      let other = refresh_kind_other env path s s.skeleton.kind line battery in
      elim (refresh_device-cases env path s) [
        | inl (_, e) ↦ rw (other, e) refl
        | inr (fine, _) ↦ absurd (fine crash)
      ]

  answered-IsFine :
      (env : Surroundings D S) (path : Text) (s t : Supply D L G)
      → refresh env path s ≡ some (t, true)
      → ¬ IsFault env path s
  answered-IsFine env path s t e fault = ground (arith, e, fault_crashes env path s fault)

  succeeds :
      (env : Surroundings D S) (path : Text) (s : Supply D L G)
      → (t : Supply D L G) × (refresh env path s ≡ some (t, true))
      → (t : Supply D L G) × (refresh env path s ≡ some (t, true)) × (¬ IsFault env path s)
  succeeds env path s (t, e) = (t, e, answered-IsFine env path s t e)

  -- A refresh succeeds, also where the device has no data, in all cases but one, and in that one it
  -- never does: the device is neither line power nor a battery, its capacity cannot be read, and its
  -- capacity level is there and empty. There the code writes in front of a text, and the model has
  -- no result.
  pub refresh-cases :
      (env : Surroundings D S) (path : Text) (s : Supply D L G)
      → ((t : Supply D L G) × (refresh env path s ≡ some (t, true)) × (¬ IsFault env path s))
        ⊎ (IsFault env path s × (refresh env path s ≡ none))
  unfolding refresh refresh_line_power
  refresh-cases env path s =
      let kind = s.skeleton.kind in
      elim (refresh_kind-cases env path s kind) [
        | inl line ↦
            inl (succeeds env path s (finished-IsTrue env.real_time _ (_, success, line, inl refl)))
        | inr (inl battery) ↦
            inl (
              succeeds env path s (finished-IsTrue env.real_time _ (_, success, battery, inl refl)))
        | inr (inr device) ↦ elim (refresh_device-cases env path s) [
          | inl (crash, e) ↦ inr (
            (
              crash,
              (crash_kind env path s kind (device ∙ e)).0,
              (crash_kind env path s kind (device ∙ e)).1,
            ),
            rw (device, e) refl,
          )
          | inr (_, (t, ret, e, known)) ↦
              inl
                (succeeds env path s (finished-IsTrue env.real_time _ (t, ret, device ∙ e, known)))
        ]
      ]
