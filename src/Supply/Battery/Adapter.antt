-- ===== src/Supply/Battery/Adapter.antt =====
-- src/linux/up-device-supply.c: the power line that the guess of a state goes by.
use upower.Prelude.{◌≡◌, refl, ◌⊎◌, Bool, true, false, List, [], ◌∷◌, ◌++◌, none, some, All, arith}
use upower.Floating.{Floating}
use upower.Types.{DeviceState}
use upower.Device.{UpDevice, get_online}
use upower.Supply.Battery.Guess.{find_ac, guess_state, correct_state}

module _ {D : Type 0} where
  -- Devices that are no power lines.
  abbrev pub HaveNoAc : List (UpDevice D) → Type 0
  HaveNoAc = All (λ d. get_online d ≡ none)

  find_ac-first :
      (before : List (UpDevice D)) (ac : UpDevice D) (after : List (UpDevice D)) (online : Bool)
      → HaveNoAc before
      → get_online ac ≡ some online
      → find_ac (before ++ (ac ∷ after)) ≡ some online
  unfolding find_ac
  find_ac-first [] ac after online h e = rw e refl
  find_ac-first (d ∷ ds) ac after online (h, hs) e = rw h (find_ac-first ds ac after online hs e)

module _ {D : Type 0} ⦃f : Floating D⦄ where
  -- Only the first power line of the list counts for the guess: if it is offline, a battery that
  -- does not report its state is taken for empty or discharging, whichever power lines follow.
  correct_state-first_ac :
      (before : List (UpDevice D)) (ac : UpDevice D) (after : List (UpDevice D))
      (percentage energy : D)
      → HaveNoAc before
      → get_online ac ≡ some false
      → let state =
          correct_state (before ++ (ac ∷ after)) true DeviceState.unknown percentage energy in
        (state ≡ DeviceState.empty) ⊎ (state ≡ DeviceState.discharging)
  unfolding correct_state guess_state
  correct_state-first_ac before ac after percentage energy h e =
      let found = find_ac-first before ac after false h e in ground (arith, found)
