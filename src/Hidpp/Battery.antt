-- ===== src/Hidpp/Battery.antt =====
-- src/linux/hidpp-device.c: the requests of `hidpp_device_refresh` for the battery.
use upower.Prelude.{
  ℕ, ◌+◌, ◌*◌, ◌%◌, ◌^◌, Bool, true, not, ◌&&◌, ◌||◌, Option, none, some, ◌==◌, if◌then◌else◌,
}
use upower.Floating.{Floating}
use upower.Hidpp.{
  BattStatus, FeatureMap, HidppMessage, function_idx, param, short_request, is_error, error_code,
  map_get_by_feature, Hidraw,
}
use upower.Hidpp.Transport.{Error, read_resp}
use upower.Hidpp.Queries.{
  Refresh, Flow, next, failed, stuck, ◌>>=◌, answered, checked, with_priv, when, ask, command,
}

-- The level of a device that knows its charge roughly; another value leaves the old one.
abbrev pub approx_percentage : ℕ → ℕ → ℕ
approx_percentage level old =
    if level == 1
    then 5
    else if level == 3
    then 20
    else if level == 5
    then 55
    else if level == 7
    then 90
    else old

abbrev pub approx_status : ℕ → BattStatus → BattStatus
approx_status status old =
    if status == 0x00
    then BattStatus.discharging
    else if status == 0x22 || status == 0x26
    then BattStatus.charged
    else if status == 0x25
    then BattStatus.charging
    else old

-- The status of HID++ 2.0.
abbrev pub level_status : ℕ → BattStatus → BattStatus
level_status status old =
    if status == 0
    then BattStatus.discharging
    else if status == 1 || (status == 2 || status == 4)
    then BattStatus.charging
    else if status == 3
    then BattStatus.charged
    else old

module _ {D O : Type 0} where
  -- The register of the exact charge, or the one of the approximate charge.
  abbrev pub read_registers : Refresh D O → Flow D O
  read_registers s =
      let exact = function_idx s.msg == 0x0d in
      next (
        with_priv s (record s.priv {
          batt_percentage =
              if exact
              then param 0 s.msg
              else approx_percentage (param 0 s.msg) s.priv.batt_percentage;
          batt_status =
              if exact
              then BattStatus.discharging
              else approx_status (param 1 s.msg) s.priv.batt_status;
        }))

  -- A device that does not have the exact register is asked for the other one from then on.
  abbrev pub is_approx_answer : Refresh D O → Bool
  is_approx_answer s = is_error s.msg && error_code s.msg == 0x02

  abbrev pub exact_error : Refresh D O → Option Error → Flow D O
  exact_error s none = next s
  exact_error s (some e) =
      if is_approx_answer s
      then next (record s { priv = record s.priv { batt_is_approx = true }; error = none })
      else failed s

  abbrev pub exact_answered : Option (Refresh D O) → Flow D O
  exact_answered none = stuck
  exact_answered (some s) = exact_error s s.error

  -- A percentage of 0 is unknown, and a full battery has 100.
  abbrev pub level_percentage : Refresh D O → ℕ
  level_percentage s =
      if not (param 0 s.msg == 0)
      then param 0 s.msg
      else if param 2 s.msg == 3
      then 100
      else s.priv.batt_percentage

  abbrev pub set_level : Refresh D O → Flow D O
  set_level s = next (
      with_priv s (record s.priv {
        batt_percentage = level_percentage s;
        batt_status = level_status (param 2 s.msg) s.priv.batt_status;
      }))

module _ {D O : Type 0} ⦃f : Floating D⦄ where
  -- More than 200 lux charge the battery.
  abbrev pub set_light : Refresh D O → Flow D O
  set_light s =
      let lux = f.of_nat (param 1 s.msg * 256 + param 2 s.msg) in
      next (
        with_priv s (record s.priv {
          batt_percentage = param 0 s.msg;
          lux = lux;
          batt_status =
              if f.lt (f.lit 200 1) lux then BattStatus.charging else BattStatus.discharging;
        }))

module _ {D O : Type 0} ⦃h : Hidraw O⦄ where
  -- `HIDPP_READ_SHORT_REGISTER`
  abbrev pub register_request : ℕ → Refresh D O → HidppMessage
  register_request register s = short_request s.priv.device_idx 0x81 register 0x00 0x00 0x00 s.msg

  abbrev pub ask_exact : ℕ → Refresh D O → Flow D O
  ask_exact fuel s =
      when (not s.priv.batt_is_approx) (λ s. exact_answered (ask fuel (register_request 0x0d s) s))
        s

  abbrev pub ask_approx : ℕ → Refresh D O → Flow D O
  ask_approx fuel s = when s.priv.batt_is_approx (λ s. command fuel (register_request 0x07 s) s) s

  unfoldable pub version1_step : ℕ → Refresh D O → Flow D O
  version1_step fuel s = ask_exact fuel s >>= ask_approx fuel >>= read_registers

  -- The event that follows the request has another function.
  abbrev pub await : ℕ → ℕ → Refresh D O → Flow D O
  await fuel idx s = checked (
      answered s
        (read_resp fuel s.priv.fd (s.priv.device_idx % 2 ^ 8) (idx % 2 ^ 8) 0x10 s.msg s.os))

  -- The third parameter stays what it was.
  abbrev pub light_request : FeatureMap → Refresh D O → HidppMessage
  light_request map s = short_request s.priv.device_idx map.idx 0x00 0x01 0x01 (param 2 s.msg) s.msg

  abbrev pub level_request : FeatureMap → Refresh D O → HidppMessage
  level_request map s = short_request s.priv.device_idx map.idx 0x02 0x00 0x00 0x00 s.msg

  abbrev pub ask_level : ℕ → Option FeatureMap → Refresh D O → Flow D O
  ask_level fuel none s = next s
  ask_level fuel (some map) s = command fuel (level_request map s) s >>= set_level

  unfoldable pub level_step : ℕ → Refresh D O → Flow D O
  level_step fuel s = ask_level fuel (map_get_by_feature 0x1000 s.priv.feature_index) s

module _ {D O : Type 0} ⦃f : Floating D⦄ ⦃h : Hidraw O⦄ where
  abbrev pub ask_light : ℕ → Option FeatureMap → Refresh D O → Flow D O
  ask_light fuel none s = next s
  ask_light fuel (some map) s =
      command fuel (light_request map s) s >>= await fuel map.idx >>= set_light

  unfoldable pub light_step : ℕ → Refresh D O → Flow D O
  light_step fuel s = ask_light fuel (map_get_by_feature 0x4301 s.priv.feature_index) s

  unfoldable pub battery_step : ℕ → Refresh D O → Flow D O
  battery_step fuel s =
      if s.priv.version == 1
      then version1_step fuel s
      else if s.priv.version == 2
      then light_step fuel s >>= level_step fuel
      else next s
