-- ===== src/Hidpp/Contract/Battery.antt =====
-- src/linux/hidpp-device.c: the result and the error of the battery part of `hidpp_device_refresh`.
use upower.Prelude.{
  ℕ, ◌%◌, ◌^◌, ◌≡◌, refl, Bool-cases, true, not, List, [], ◌∷◌, Option, none, some, inl, inr, arith,
  ◌==◌, if_both, if_known, Always, none-Always, some-Always,
}
use upower.Floating.{Floating}
use upower.Hidpp.{
  FeatureMap, HidppMessage, device_idx, feature_idx, function_idx, is_error, map_get_by_feature,
  Hidraw,
}
use upower.Hidpp.Transport.{Error}
use upower.Hidpp.Queries.{Refresh, ◌>>=◌, ask, command, checked_error}
use upower.Hidpp.Battery.{
  await, read_registers, exact_error, exact_answered, is_approx_answer, set_level, set_light,
  register_request, ask_exact, ask_approx, version1_step, ask_level, level_request, light_request,
  level_step, ask_light, light_step, battery_step,
}
use upower.Hidpp.Responses.{Fits, cmd-Fits}
use upower.Hidpp.Time.{IsPunctual, cmd-ends}
use upower.Hidpp.Contract.{
  has_error_index, Good, Settles, next-Settles, failed-Settles, bind-Settles, when-Settles, IsPlain,
  response-Good, IsEnough, command-Settles, await-Settles,
}
use upower.Hidpp.Contract.Steps.{with_priv-Good}

-- A map that has the index of the errors is found in the table.
error-index :
    (feature : ℕ) (maps : List FeatureMap)
    → Always
        (λ (map : FeatureMap). map.idx % 2 ^ 8 == 0x8f ≡ true → has_error_index maps ≡ true)
        (map_get_by_feature feature maps)
unfolding map_get_by_feature
error-index feature [] = none-Always _
error-index feature (map ∷ maps) =
    let P =
      λ (m : FeatureMap). m.idx % 2 ^ 8 == 0x8f ≡ true → has_error_index (map ∷ maps) ≡ true in
    if_both (Always P) (map.feature == feature) (some-Always P map λ e. ground (arith, e)) (record {
      always = λ m e k. let h = (error-index feature maps).always m e k in ground (arith, h);
    })

module _ {D O : Type 0} where
  exact_error-Settles :
      (s : Refresh D O) (error : Option Error)
      → s.error ≡ error
      → (error ≡ none → Good s)
      → Settles (exact_error s error)
  unfolding is_error
  exact_error-Settles s none q k = next-Settles s (k refl)
  exact_error-Settles s (some e) q k =
      if_known Settles (is_approx_answer s)
        (λ h. next-Settles _ (record { no_error = refl; reached = inl (ground (arith, h)) }))
        λ _. failed-Settles s e q

  exact_asked-Settles :
      (feature function device : ℕ) (s : Refresh D O) (msg : HidppMessage) (error : Option Error)
      (os : O)
      → Fits device feature function error msg
      → IsPlain feature s
      → Settles (exact_error (record s { msg = msg; error = error; os = os }) error)
  exact_asked-Settles feature function device s msg none os fits plain =
      next-Settles _ (response-Good device feature function s msg os fits plain)
  exact_asked-Settles feature function device s msg (some e) os fits plain =
      exact_error-Settles (record s { msg = msg; error = some e; os = os }) (some e) refl
        λ q. absurd (ground (arith, q))

module _ {D O : Type 0} where
  -- The index that the device gave for the feature.
  index-IsPlain :
      (feature : ℕ) (map : FeatureMap) (s : Refresh D O)
      → map_get_by_feature feature s.priv.feature_index ≡ some map
      → IsPlain (map.idx % 2 ^ 8) s
  index-IsPlain feature map s e = elim (Bool-cases (map.idx % 2 ^ 8 == 0x8f)) [
    | inl k ↦ inr ((error-index feature s.priv.feature_index).always map e k)
    | inr k ↦ inl k
  ]

module _ {D O : Type 0} ⦃h : Hidraw O⦄ (laws : IsPunctual O) (fuel : ℕ)
    (enough : IsEnough laws fuel) where
  ask_exact-Settles : (s : Refresh D O) → Good s → Settles (ask_exact fuel s)
  ask_exact-Settles s good =
      let request = register_request 0x0d s in
      let (a, e) = cmd-ends laws fuel s.priv.fd request s.os enough.three_seconds enough.messages in
      when-Settles (not s.priv.batt_is_approx)
        (λ t. exact_answered (ask fuel (register_request 0x0d t) t)) s good
        (rw e (
          exact_asked-Settles (feature_idx request) (function_idx request) (device_idx request) s
            a.message a.error a.os (cmd-Fits fuel s.priv.fd request s.os a e).0 (inl refl)))

  ask_approx-Settles : (s : Refresh D O) → Good s → Settles (ask_approx fuel s)
  ask_approx-Settles s good =
      when-Settles s.priv.batt_is_approx (λ t. command fuel (register_request 0x07 t) t) s good
        (command-Settles laws fuel (register_request 0x07 s) s enough (inl refl))

  version1_step-Settles : (s : Refresh D O) → Good s → Settles (version1_step fuel s)
  unfolding version1_step
  version1_step-Settles s good =
      bind-Settles _ read_registers
        (bind-Settles _ (ask_approx fuel) (ask_exact-Settles s good) ask_approx-Settles)
        λ t k. next-Settles _ (with_priv-Good _ t refl refl refl k)

  ask_level-Settles :
      (o : Option FeatureMap) (s : Refresh D O)
      → map_get_by_feature 0x1000 s.priv.feature_index ≡ o
      → Good s
      → Settles (ask_level fuel o s)
  ask_level-Settles none s e good = next-Settles s good
  ask_level-Settles (some map) s e good =
      bind-Settles _ set_level
        (command-Settles laws fuel (level_request map s) s enough (index-IsPlain 0x1000 map s e))
        λ t k. next-Settles _ (with_priv-Good _ t refl refl refl k)

  level_step-Settles : (s : Refresh D O) → Good s → Settles (level_step fuel s)
  unfolding level_step
  level_step-Settles s good = ask_level-Settles _ s refl good

  light_asked-Settles :
      (idx : ℕ) (s : Refresh D O) (msg : HidppMessage) (error : Option Error) (os : O)
      → IsPlain (idx % 2 ^ 8) s
      → Settles
          (checked_error (record s { msg = msg; error = error; os = os }) error >>= await fuel idx)
  light_asked-Settles idx s msg none os plain =
      await-Settles laws fuel idx (record s { msg = msg; error = none; os = os }) enough plain
  light_asked-Settles idx s msg (some e) os plain = failed-Settles _ e refl

module _ {D O : Type 0} ⦃f : Floating D⦄ ⦃h : Hidraw O⦄ (laws : IsPunctual O) (fuel : ℕ)
    (enough : IsEnough laws fuel) where
  ask_light-Settles :
      (o : Option FeatureMap) (s : Refresh D O)
      → map_get_by_feature 0x4301 s.priv.feature_index ≡ o
      → Good s
      → Settles (ask_light fuel o s)
  ask_light-Settles none s e good = next-Settles s good
  ask_light-Settles (some map) s known good =
      let request = light_request map s in
      let (a, e) = cmd-ends laws fuel s.priv.fd request s.os enough.three_seconds enough.messages in
      let plain = index-IsPlain 0x4301 map s known in
      bind-Settles _ set_light
        (rw e (light_asked-Settles laws fuel enough map.idx s a.message a.error a.os plain))
        λ t k. next-Settles _ (with_priv-Good _ t refl refl refl k)

  light_step-Settles : (s : Refresh D O) → Good s → Settles (light_step fuel s)
  unfolding light_step
  light_step-Settles s good = ask_light-Settles _ s refl good

  pub battery_step-Settles : (s : Refresh D O) → Good s → Settles (battery_step fuel s)
  unfolding battery_step
  battery_step-Settles s good =
      if_both Settles (s.priv.version == 1) (version1_step-Settles laws fuel enough s good) (
        if_both Settles (s.priv.version == 2)
          (bind-Settles _ (level_step fuel) (light_step-Settles s good)
            (level_step-Settles laws fuel enough))
          (next-Settles s good))
