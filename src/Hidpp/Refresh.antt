-- ===== src/Hidpp/Refresh.antt =====
-- src/linux/hidpp-device.c: `hidpp_device_refresh`.
use upower.Prelude.{ℕ, Bool, true, false, ◌&&◌, ◌||◌, Option, none, some, ltb, ◌==◌, if◌then◌else◌}
use upower.Floating.{Floating}
use upower.Hidpp.{Private, no_message, is_error, error_code, Hidraw}
use upower.Hidpp.Transport.{Error}
use upower.Hidpp.Queries.{
  Flags, Refresh, Flow, next, failed, crashed, stuck, ◌>>=◌, when, with_priv, open_step,
  version_step, features_step, kind_step, model_step, serial_step,
}
use upower.Hidpp.Battery.{battery_step}

-- What the function comes to: its result with the state; a crash; or the fuel is out.
pub data Outcome (D O : Type 0) : Type 0 where
  returned : Bool → Refresh D O → Outcome D O
  fault : Refresh D O → Outcome D O
  out_of_fuel : Outcome D O

module _ {D O : Type 0} where
  abbrev pub set_present : Refresh D O → Flow D O
  set_present s = next (
      if ltb 0 s.priv.version && (s.flags.model || s.flags.battery)
      then with_priv s (record s.priv { is_present = true })
      else s)

  -- The text of the error is read, so that there has to be one.
  abbrev pub unreachable : Refresh D O → Option Error → Outcome D O
  unreachable s none = fault s
  unreachable s (some e) =
      returned true (record s { priv = record s.priv { is_present = false }; error = none })

  -- At `out`. A device that is out of reach is no failure.
  abbrev pub at_out : Bool → Refresh D O → Outcome D O
  at_out ret s =
      if is_error s.msg && error_code s.msg == 0x09 then unreachable s s.error else returned ret s

  abbrev pub ended : Flow D O → Outcome D O
  ended (next s) = at_out true s
  ended (failed s) = at_out false s
  ended (crashed s) = fault s
  ended stuck = out_of_fuel

  abbrev pub start : Flags → Private D → O → Refresh D O
  start flags p os = record { priv = p; flags = flags; msg = no_message; error = none; os = os }

module _ {D O : Type 0} ⦃f : Floating D⦄ ⦃h : Hidraw O⦄ where
  unfoldable pub requests : ℕ → Refresh D O → Flow D O
  requests fuel s =
      open_step s
      >>= (λ s. when s.flags.version (version_step fuel) s)
      >>= (λ s. when s.flags.features (features_step fuel) s)
      >>= (λ s. when s.flags.kind (kind_step fuel) s)
      >>= (λ s. when s.flags.model (model_step fuel) s)
      >>= (λ s. when s.flags.serial (serial_step fuel) s)
      >>= (λ s. when s.flags.battery (battery_step fuel) s)
      >>= set_present

  unfoldable pub refresh : ℕ → Flags → Private D → O → Outcome D O
  unfolding requests
  refresh fuel flags p os = ended (requests fuel (start flags p os))
