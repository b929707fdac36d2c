-- ===== src/Hidpp/Contract/Steps.antt =====
-- src/linux/hidpp-device.c: the result and the error of each part of `hidpp_device_refresh`.
use upower.Prelude.{
  ℕ, ◌%◌, ◌^◌, ◌≡◌, refl, ◌∙◌, Bool-cases, true, ◌&&◌, ◌||◌, List, [], ◌∷◌, ◌++◌, drop, Option,
  none, some, inl, inr, arith, ◌==◌, ◌/◌, ltb, leb, if_both,
}
use upower.Prelude.Int.{ℤ, pos, ltb_ℤ}
use upower.Prelude.Text.{Text, codes}
use upower.Hidpp.{
  FeatureMap, HidppMessage, no_message, short_request, param, is_error, error_code, Hidraw,
}
use upower.Hidpp.Transport.{Error, Answer}
use upower.Hidpp.Queries.{
  Refresh, next, ◌>>=◌, open_device, opened_file, open_step, after_version, recovered, pinged,
  version_step, mapped, map_add, features_step, set_kind, set_model, name_model, set_serial,
  is_known, ask_receiver, kind_step, model_step, serial_step, printed,
}
use upower.Hidpp.Responses.{Fits, cmd-Fits}
use upower.Hidpp.Time.{IsPunctual, cmd-ends}
use upower.Hidpp.Contract.{
  has_error_index, Good, Settles, next-Settles, failed-Settles, bind-Settles, when-Settles,
  response-Good, IsEnough, command-Settles,
}

append-error-index :
    (maps more : List FeatureMap)
    → has_error_index maps ≡ true
    → has_error_index (maps ++ more) ≡ true
append-error-index [] more h = absurd (ground (arith, h))
append-error-index (map ∷ maps) more h = elim (Bool-cases (map.idx % 2 ^ 8 == 0x8f)) [
  | inl e ↦ ground (arith, e)
  | inr e ↦ let ih = append-error-index maps more (ground (arith, e, h)) in ground (arith, ih)
]

module _ {D O : Type 0} where
  -- The message is no error, so that the end is not taken for a device out of reach.
  pub with_priv-Good :
      (s t : Refresh D O)
      → s.error ≡ t.error
      → s.msg ≡ t.msg
      → s.priv.feature_index ≡ t.priv.feature_index
      → Good t
      → Good s
  with_priv-Good s t e m i good = record {
    no_error = e ∙ good.no_error;
    reached = rw (m, i) good.reached;
  }

  name_model-Settles :
      (s : Refresh D O) (o : Option Text)
      → printed (param 1 s.msg) (drop 6 s.msg) ≡ o
      → Good s
      → Settles (name_model s o)
  name_model-Settles s none e good = record { holds = e }
  name_model-Settles s (some model) e good = next-Settles _ (with_priv-Good _ s refl refl refl good)

  recovered-Settles : (s : Refresh D O) (e : Error) → s.error ≡ some e → Settles (recovered s)
  unfolding is_error
  recovered-Settles s e q =
      if_both Settles (is_error s.msg && (error_code s.msg == 0x01 || error_code s.msg == 0x09))
        (next-Settles _ (record { no_error = refl; reached = inl refl })) (failed-Settles s e q)

  after_version-Settles : (old : ℕ) (s : Refresh D O) → Good s → Settles (after_version old s)
  after_version-Settles old s good =
      if_both (λ (t : Refresh D O). Settles (next t)) (ltb old 2 && leb 2 s.priv.version)
        (next-Settles _ (with_priv-Good _ s refl refl refl good)) (next-Settles s good)

module _ {D O : Type 0} ⦃h : Hidraw O⦄ where
  open_device-Settles :
      (s : Refresh D O) (fd : ℤ) (os : O) → Good s → Settles (open_device s (fd, os))
  open_device-Settles s fd os good =
      if_both Settles (ltb_ℤ fd (pos 0)) (failed-Settles _ Error.cannot_open refl)
        (next-Settles _ (with_priv-Good _ s refl refl refl good))

  pub open_step-Settles : (s : Refresh D O) → Good s → Settles (open_step s)
  unfolding open_step
  open_step-Settles s good =
      let (fd, os) = opened_file s.priv.hidraw_device s.os in
      if_both Settles (ltb_ℤ s.priv.fd (pos 0)) (open_device-Settles s fd os good)
        (next-Settles s good)

module _ {D O : Type 0} ⦃h : Hidraw O⦄ (laws : IsPunctual O) (fuel : ℕ)
    (enough : IsEnough laws fuel) where
  pinged-Settles :
      (s : Refresh D O) (msg : HidppMessage) (error : Option Error) (os : O)
      → Fits (s.priv.device_idx % 2 ^ 8) 0x00 0x10 error msg
      → Settles (pinged (record s { msg = msg; error = error; os = os }) error)
  pinged-Settles s msg none os fits = next-Settles _ (
      with_priv-Good _ (record s { msg = msg; error = none; os = os }) refl refl refl
        (response-Good (s.priv.device_idx % 2 ^ 8) 0x00 0x10 s msg os fits (inl refl)))
  pinged-Settles s msg (some e) os fits = recovered-Settles _ e refl

  pub version_step-Settles : (s : Refresh D O) → Settles (version_step fuel s)
  unfolding version_step
  version_step-Settles s =
      let request = short_request s.priv.device_idx 0x00 0x10 0x00 0x00 0x42 s.msg in
      let (a, e) = cmd-ends laws fuel s.priv.fd request s.os enough.three_seconds enough.messages in
      rw e (
        bind-Settles _ (after_version s.priv.version)
          (pinged-Settles s a.message a.error a.os (cmd-Fits fuel s.priv.fd request s.os a e).0)
          (after_version-Settles s.priv.version))

  mapped-Good :
      (feature : ℕ) (name : Text) (s : Refresh D O) (a : Answer O) (error : Option Error)
      → Good s
      → Good (mapped feature name s a error)
  mapped-Good feature name s a (some e) good = with_priv-Good _ s refl refl refl good
  mapped-Good feature name s a none good =
      if_both Good (param 0 a.message == 0) (with_priv-Good _ s refl refl refl good) (record {
        no_error = good.no_error;
        reached = elim good.reached [
          | inl e ↦ inl e
          | inr e ↦ inr (append-error-index s.priv.feature_index _ e)
        ];
      })

  map_add-Settles :
      (feature : ℕ) (name : Text) (s : Refresh D O) → Good s → Settles (map_add fuel feature name s)
  unfolding map_add
  map_add-Settles feature name s good =
      let request =
        short_request s.priv.device_idx 0x00 0x00 (feature / 2 ^ 8) feature 0x00 no_message in
      let (a, e) = cmd-ends laws fuel s.priv.fd request s.os enough.three_seconds enough.messages in
      rw e (next-Settles _ (mapped-Good feature name s a a.error good))

  pub features_step-Settles : (s : Refresh D O) → Good s → Settles (features_step fuel s)
  unfolding features_step
  features_step-Settles s good =
      bind-Settles _ _ (map_add-Settles 0x1000 (codes "BatteryLevelStatus") s good)
        (map_add-Settles 0x4301 (codes "SolarDashboard"))

  ask_receiver-Settles : (base : ℕ) (s : Refresh D O) → Settles (ask_receiver fuel base s)
  ask_receiver-Settles base s = command-Settles laws fuel _ s enough (inl refl)

  pub kind_step-Settles : (s : Refresh D O) → Good s → Settles (kind_step fuel s)
  unfolding kind_step
  kind_step-Settles s good =
      when-Settles (is_known s) (λ t. ask_receiver fuel 0x20 t >>= set_kind) s good
        (bind-Settles _ set_kind (ask_receiver-Settles 0x20 s)
          λ t h. next-Settles _ (with_priv-Good _ t refl refl refl h))

  pub model_step-Settles : (s : Refresh D O) → Good s → Settles (model_step fuel s)
  unfolding model_step
  model_step-Settles s good =
      when-Settles (is_known s) (λ t. ask_receiver fuel 0x40 t >>= set_model) s good
        (bind-Settles _ set_model (ask_receiver-Settles 0x40 s)
          λ t h. name_model-Settles t _ refl h)

  pub serial_step-Settles : (s : Refresh D O) → Settles (serial_step fuel s)
  unfolding serial_step
  serial_step-Settles s =
      bind-Settles _ set_serial (ask_receiver-Settles 0x30 s)
        λ t h. next-Settles _ (with_priv-Good _ t refl refl refl h)
