-- ===== src/Hidpp/Contract.antt =====
-- src/linux/hidpp-device.c: the result and the `GError` of `hidpp_device_refresh`.
pub mod Steps
pub mod Battery
pub mod Result
use upower.Prelude.{
  ℕ, ◌+◌, ◌≤◌, ◌<◌, ◌%◌, ◌^◌, ◌≡◌, refl, ◌∙◌, ap, Bool, true, false, not, ◌&&◌, ◌||◌, List, [], ◌∷◌,
  ◌++◌, drop, Option, none, some, ◌⊎◌, inl, inr, arith, ◌==◌, if◌then◌else◌, if_both, if_known,
  Always, none-Always, some-Always,
}
use upower.Prelude.Int.{ℤ}
use upower.Hidpp.{
  FeatureMap, HidppMessage, device_idx, feature_idx, function_idx, param, is_error, error_code,
  map_get_by_feature, Hidraw,
}
use upower.Hidpp.Transport.{Error, Answer, cmd, read_resp}
use upower.Hidpp.Queries.{
  Refresh, Flow, next, failed, crashed, stuck, ◌>>=◌, answered, checked, checked_error, when, ask,
  command, printed,
}
use upower.Hidpp.Battery.{await}
use upower.Hidpp.Responses.{Fits, FitsRequest, cmd-Fits, read_resp-Fits}
use upower.Hidpp.Time.{IsPunctual, cmd-ends, read_resp-ends}

-- Does the device know a feature by the index of the error messages?
abbrev pub has_error_index : List FeatureMap → Bool
has_error_index [] = false
has_error_index (map ∷ maps) = let rest = has_error_index maps in map.idx % 2 ^ 8 == 0x8f || rest

-- A message that says that the device is out of reach.
abbrev pub is_unreachable : HidppMessage → Bool
is_unreachable msg = is_error msg && error_code msg == 0x09

module _ {D O : Type 0} where
  -- No error is set, and the last message is no error that is taken for one at the end.
  pub record Good (s : Refresh D O) : Type 0 where
    pub no_error : s.error ≡ none
    pub reached : (is_unreachable s.msg ≡ false) ⊎ (has_error_index s.priv.feature_index ≡ true)

  abbrev pub Holds : Flow D O → Type 0
  Holds (next s) = Good s
  Holds (failed s) = (e : Error) × (s.error ≡ some e)
  Holds (crashed s) = printed (param 1 s.msg) (drop 6 s.msg) ≡ none
  Holds stuck = ⊥

  pub record Settles (r : Flow D O) : Type 0 where
    pub holds : Holds r

  pub next-Settles : (s : Refresh D O) → Good s → Settles (next s)
  next-Settles s good = record { holds = good }

  pub failed-Settles : (s : Refresh D O) (e : Error) → s.error ≡ some e → Settles (failed s)
  failed-Settles s e q = record { holds = (e, q) }

  pub bind-Settles :
      (r : Flow D O) (f : Refresh D O → Flow D O)
      → Settles r
      → ((s : Refresh D O) → Good s → Settles (f s))
      → Settles (r >>= f)
  bind-Settles (next s) f h k = k s h.holds
  bind-Settles (failed s) f h k = record { holds = h.holds }
  bind-Settles (crashed s) f h k = record { holds = h.holds }
  bind-Settles stuck f h k = absurd h.holds

  pub when-Settles :
      (b : Bool) (f : Refresh D O → Flow D O) (s : Refresh D O)
      → Good s
      → Settles (f s)
      → Settles (when b f s)
  when-Settles b f s good h = if_both Settles b h (next-Settles s good)

  -- A feature whose index is not the one of the errors.
  abbrev pub IsPlain : ℕ → Refresh D O → Type 0
  IsPlain feature s = (feature == 0x8f ≡ false) ⊎ (has_error_index s.priv.feature_index ≡ true)

plain-reached :
    (feature : ℕ) (msg : HidppMessage)
    → feature_idx msg ≡ feature
    → feature == 0x8f ≡ false
    → is_unreachable msg ≡ false
unfolding is_error
plain-reached feature msg e plain = ground (arith, e, plain)

module _ {D O : Type 0} where
  -- A response without an error is no message of an error.
  pub response-Good :
      (device feature function : ℕ) (s : Refresh D O) (msg : HidppMessage) (os : O)
      → Fits device feature function none msg
      → IsPlain feature s
      → Good (record s { msg = msg; error = none; os = os })
  response-Good device feature function s msg os fits (inl plain) = record {
    no_error = refl;
    reached = inl (plain-reached feature msg fits.2 plain);
  }
  response-Good device feature function s msg os fits (inr h) = record {
    no_error = refl;
    reached = inr h;
  }

  checked-Settles :
      (device feature function : ℕ) (s : Refresh D O) (msg : HidppMessage) (error : Option Error)
      (os : O)
      → Fits device feature function error msg
      → IsPlain feature s
      → Settles (checked_error (record s { msg = msg; error = error; os = os }) error)
  checked-Settles device feature function s msg none os fits plain =
      next-Settles _ (response-Good device feature function s msg os fits plain)
  checked-Settles device feature function s msg (some e) os fits plain = failed-Settles _ e refl

-- The fuel is enough for a request.
pub record IsEnough {O : Type 0} ⦃h : Hidraw O⦄ (laws : IsPunctual O) (fuel : ℕ) : Type 0 where
  pub three_seconds : 3000000 ≤ fuel
  pub messages : laws.most < fuel

module _ {D O : Type 0} ⦃h : Hidraw O⦄ (laws : IsPunctual O) (fuel : ℕ) where
  pub command-Settles :
      (request : HidppMessage) (s : Refresh D O)
      → IsEnough laws fuel
      → IsPlain (feature_idx request) s
      → Settles (command fuel request s)
  command-Settles request s enough plain =
      let (a, e) = cmd-ends laws fuel s.priv.fd request s.os enough.three_seconds enough.messages in
      rw e (
        checked-Settles (device_idx request) (feature_idx request) (function_idx request) s
          a.message a.error a.os (cmd-Fits fuel s.priv.fd request s.os a e).0 plain)

  pub await-Settles :
      (idx : ℕ) (s : Refresh D O)
      → IsEnough laws fuel
      → IsPlain (idx % 2 ^ 8) s
      → Settles (await fuel idx s)
  await-Settles idx s enough plain =
      let device = s.priv.device_idx % 2 ^ 8 in
      let feature = idx % 2 ^ 8 in
      let (a, e) =
        read_resp-ends laws fuel s.priv.fd device feature 0x10 s.msg s.os enough.three_seconds in
      rw e (
        checked-Settles device feature 0x10 s a.message a.error a.os
          (read_resp-Fits fuel s.priv.fd device feature 0x10 s.msg s.os a e).0 plain)
