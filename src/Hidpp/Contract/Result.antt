-- ===== src/Hidpp/Contract/Result.antt =====
-- src/linux/hidpp-device.c: what the caller of `hidpp_device_refresh` gets.
use upower.Prelude.{
  ℕ, ◌≡◌, refl, Bool-cases, true, false, ◌&&◌, ◌||◌, drop, none, some, ◌⊎◌, inl, inr, arith, ltb,
  if_both,
}
use upower.Floating.{Floating}
use upower.Hidpp.{Private, param, is_error, Hidraw}
use upower.Hidpp.Transport.{Error}
use upower.Hidpp.Queries.{
  Flags, Refresh, Flow, next, failed, crashed, stuck, when, version_step, features_step, kind_step,
  model_step, serial_step, printed,
}
use upower.Hidpp.Battery.{battery_step}
use upower.Hidpp.Refresh.{
  Outcome, returned, fault, out_of_fuel, set_present, at_out, ended, start, requests, refresh,
}
use upower.Hidpp.Time.{IsPunctual}
use upower.Hidpp.Contract.{
  has_error_index, is_unreachable, Good, Holds, Settles, next-Settles, bind-Settles, when-Settles,
  IsEnough,
}
use upower.Hidpp.Contract.Steps.{
  with_priv-Good, open_step-Settles, version_step-Settles, features_step-Settles, kind_step-Settles,
  model_step-Settles, serial_step-Settles,
}
use upower.Hidpp.Contract.Battery.{battery_step-Settles}

module _ {D O : Type 0} where
  -- What holds of the result.
  abbrev pub Reports : Outcome D O → Type 0
  Reports (returned true s) = s.error ≡ none
  Reports (returned false s) = (e : Error) × (s.error ≡ some e)
  Reports (fault s) =
      (has_error_index s.priv.feature_index ≡ true)
      ⊎ (printed (param 1 s.msg) (drop 6 s.msg) ≡ none)
  Reports out_of_fuel = ⊥

  start-Good : (flags : Flags) (p : Private D) (os : O) → Good (start flags p os)
  unfolding is_error
  start-Good flags p os = record { no_error = refl; reached = inl refl }

  set_present-Settles : (s : Refresh D O) → Good s → Settles (set_present s)
  set_present-Settles s good =
      if_both (λ (t : Refresh D O). Settles (next t))
        (ltb 0 s.priv.version && (s.flags.model || s.flags.battery))
        (next-Settles _ (with_priv-Good _ s refl refl refl good)) (next-Settles s good)

  at_out-Reports : (s : Refresh D O) → Good s → Reports (at_out true s)
  at_out-Reports s good = elim (Bool-cases (is_unreachable s.msg)) [
    | inr e ↦ rw e good.no_error
    | inl e ↦ elim good.reached [
      | inl k ↦ absurd (ground (arith, e, k))
      | inr k ↦ rw (e, good.no_error) (inl k)
    ]
  ]

  failed-Reports : (s : Refresh D O) (e : Error) → s.error ≡ some e → Reports (at_out false s)
  failed-Reports s e q = elim (Bool-cases (is_unreachable s.msg)) [
    | inr k ↦ rw k (e, q)
    | inl k ↦ rw (k, q) refl
  ]

  ended-Reports : (r : Flow D O) → Holds r → Reports (ended r)
  ended-Reports (next s) h = at_out-Reports s h
  ended-Reports (failed s) h = failed-Reports s h.0 h.1
  ended-Reports (crashed s) h = inr h
  ended-Reports stuck h = h

module _ {D O : Type 0} ⦃f : Floating D⦄ ⦃h : Hidraw O⦄ (laws : IsPunctual O) (fuel : ℕ)
    (enough : IsEnough laws fuel) where
  requests-Settles : (s : Refresh D O) → Good s → Settles (requests fuel s)
  unfolding requests
  requests-Settles s good =
      let opened = open_step-Settles s good in
      let versioned =
        bind-Settles _ (λ t. when t.flags.version (version_step fuel) t) opened
          λ t k.
            when-Settles t.flags.version (version_step fuel) t k
              (version_step-Settles laws fuel enough t) in
      let mapped =
        bind-Settles _ (λ t. when t.flags.features (features_step fuel) t) versioned
          λ t k.
            when-Settles t.flags.features (features_step fuel) t k
              (features_step-Settles laws fuel enough t k) in
      let sorted =
        bind-Settles _ (λ t. when t.flags.kind (kind_step fuel) t) mapped
          λ t k.
            when-Settles t.flags.kind (kind_step fuel) t k
              (kind_step-Settles laws fuel enough t k) in
      let named =
        bind-Settles _ (λ t. when t.flags.model (model_step fuel) t) sorted
          λ t k.
            when-Settles t.flags.model (model_step fuel) t k
              (model_step-Settles laws fuel enough t k) in
      let numbered =
        bind-Settles _ (λ t. when t.flags.serial (serial_step fuel) t) named
          λ t k.
            when-Settles t.flags.serial (serial_step fuel) t k
              (serial_step-Settles laws fuel enough t) in
      let charged =
        bind-Settles _ (λ t. when t.flags.battery (battery_step fuel) t) numbered
          λ t k.
            when-Settles t.flags.battery (battery_step fuel) t k
              (battery_step-Settles laws fuel enough t k) in
      bind-Settles _ set_present charged set_present-Settles

  -- Where the clock goes on and the queue is bounded, a refresh comes to an end whatever the device
  -- answers: it returns TRUE and no error is set, or it returns FALSE and an error is set. It
  -- crashes only if the device has a feature by the index of the error messages, or names its model
  -- by a text that runs over the message.
  pub refresh-Reports : (flags : Flags) (p : Private D) (os : O) → Reports (refresh fuel flags p os)
  unfolding refresh
  refresh-Reports flags p os =
      ended-Reports (requests fuel (start flags p os))
        (requests-Settles (start flags p os) (start-Good flags p os)).holds
