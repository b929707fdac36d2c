-- ===== src/Supply/Refresh.antt =====
-- src/linux/up-device-supply.c: the methods of the class, and the refresh of line power and of the
-- batteries of other devices.
use upower.Prelude.{ℕ, Bool, true, false, not, Option, none, some, if◌then◌else◌}
use upower.Prelude.Int.{pos, eqb_ℤ}
use upower.Prelude.Text.{Text}
use upower.Floating.{Floating}
use upower.Storage.{Files}
use upower.MainLoop.{MainLoop}
use upower.Types.{DeviceKind, DeviceState, DeviceLevel, kind_eq, state_eq}
use upower.Device.{Skeleton, DeviceClass}
use upower.Supply.{
  Supply, Surroundings, RefreshResult, success, no_data, failure, AsciiText, UdevDevice,
}
use upower.Supply.Sysfs.{AsciiDouble, get_int, get_double_with_error}
use upower.Supply.Texts.{get_string, make_safe_string, get_state}
use upower.Supply.Attributes.{get_capacity_level, get_sibling}
use upower.Supply.Poll.{with_loop, disable_unknown_poll}
use upower.Supply.Battery.{refresh_battery}

module _ {D : Type 0} where
  unfoldable pub get_on_battery : Skeleton D → Option Bool
  get_on_battery s =
      if not s.power_supply
      then none
      else if not (kind_eq s.kind DeviceKind.battery)
      then none
      else if state_eq s.state DeviceState.unknown
      then none
      else if not s.is_present
      then none
      else some (state_eq s.state DeviceState.discharging)

  unfoldable pub get_online : Skeleton D → Option Bool
  get_online s = if not (kind_eq s.kind DeviceKind.line_power) then none else some s.online

  -- `up_device_supply_class_init`
  abbrev pub supply_class : DeviceClass D
  supply_class = record { on_battery_method = some get_on_battery; online_method = some get_online }

module _ {D S L G : Type 0} ⦃fs : Files S⦄ where
  -- A `gint` that is stored in a boolean property.
  unfoldable pub refresh_line_power :
      Surroundings D S → Text → Supply D L G → Supply D L G × RefreshResult
  refresh_line_power env path s = (
    record s {
      skeleton = record s.skeleton {
        power_supply = s.priv.is_power_supply;
        online = not (eqb_ℤ (get_int env.disk path "online") (pos 0));
      };
    },
    success,
  )

module _ {S : Type 0} ⦃a : AsciiText⦄ ⦃fs : Files S⦄ where
  -- The model and the serial number, or those of the input device beside it.
  abbrev names_of_sibling : S → Option UdevDevice → Option Text × Option Text
  names_of_sibling disk none = (none, none)
  names_of_sibling disk (some d) =
      (get_string disk d.sysfs_path "name", get_string disk d.sysfs_path "uniq")

  abbrev names_or_sibling :
      S → Option UdevDevice → Option Text → Option Text → Option Text × Option Text
  names_or_sibling disk sibling none none = names_of_sibling disk sibling
  names_or_sibling disk sibling model serial = (model, serial)

  unfoldable pub get_names : S → Text → Option UdevDevice → Option Text × Option Text
  get_names disk path sibling =
      names_or_sibling disk sibling (get_string disk path "model_name")
        (get_string disk path "serial_number")

module _ {D S L G : Type 0} ⦃a : AsciiText⦄ ⦃fs : Files S⦄ where
  abbrev pub name_device : Surroundings D S → Text → Supply D L G → Supply D L G
  name_device env path s =
      let (model, serial) = get_names env.disk path (get_sibling env.parent env.inputs) in
      if s.priv.has_coldplug_values then s else record s {
        priv = record s.priv { has_coldplug_values = true };
        skeleton = record s.skeleton {
          is_present = true;
          model = make_safe_string model;
          serial = make_safe_string serial;
          is_rechargeable = true;
          has_history = true;
          has_statistics = true;
          power_supply = s.priv.is_power_supply;
        };
      }

module _ {D S L G : Type 0} ⦃f : Floating D⦄ ⦃n : AsciiDouble D⦄ ⦃a : AsciiText⦄
    ⦃fs : Files S⦄ where
  -- What a percentage and a level lead to; a negative percentage is no data.
  abbrev pub show_percentage :
      Surroundings D S → Text → Supply D L G → D → DeviceLevel → Supply D L G × RefreshResult
  show_percentage env path s percentage level =
      let reported = get_state env.disk path in
      let state = if f.eq percentage (f.lit 100 1) then DeviceState.fully_charged else reported in
      if f.lt percentage (f.lit 0 1)
      then (record s { skeleton = record s.skeleton { state = DeviceState.unknown } }, no_data)
      else (
        record s {
          priv = record s.priv {
            unknown_retries =
                if not (state_eq state DeviceState.unknown) then 0 else s.priv.unknown_retries;
          };
          skeleton = record s.skeleton {
            percentage = percentage;
            battery_level = level;
            state = state;
          };
        },
        success,
      )

  abbrev show_capacity_level :
      Surroundings D S
      → Text
      → Supply D L G
      → Option (D × DeviceLevel)
      → Option (Supply D L G × RefreshResult)
  show_capacity_level env path s none = none
  show_capacity_level env path s (some (percentage, level)) =
      some (show_percentage env path s percentage level)

  abbrev show_capacity :
      Surroundings D S → Text → Supply D L G → Option D → Option (Supply D L G × RefreshResult)
  show_capacity env path s (some percentage) =
      some (show_percentage env path s percentage DeviceLevel.none)
  show_capacity env path s none = show_capacity_level env path s (get_capacity_level env.disk path)

  -- `none` is a write out of bounds, for the text of the capacity level.
  unfoldable pub refresh_device :
      Surroundings D S → Text → Supply D L G → Option (Supply D L G × RefreshResult)
  refresh_device env path s =
      show_capacity env path (name_device env path s)
        (get_double_with_error env.disk path "capacity")

abbrev has_data : RefreshResult → Bool
has_data success = true
has_data _ = false

abbrev not_failed : RefreshResult → Bool
not_failed failure = false
not_failed _ = true

module _ {D L G : Type 0} where
  -- The update time of a refresh that got data, and what it returns.
  abbrev pub finished : ℕ → Option (Supply D L G × RefreshResult) → Option (Supply D L G × Bool)
  finished now none = none
  finished now (some (s, ret)) = some (
    if has_data ret then record s { skeleton = record s.skeleton { update_time = now } } else s,
    not_failed ret,
  )

module _ {D L G : Type 0} where
  -- The source that fires is no longer remembered.
  abbrev pub fired : Supply D L G → Supply D L G
  fired s = record s { priv = record s.priv { poll_timer_id = 0 } }

module _ {D L G : Type 0} ⦃m : MainLoop L⦄ where
  -- The source whose callback is done is destroyed, since the callback returns `FALSE`.
  abbrev pub destroyed : ℕ → Option (Supply D L G × Bool) → Option (Supply D L G)
  destroyed id none = none
  destroyed id (some (s, ret)) = some (with_loop s (m.remove id s.poller.loop))

module _ {D S L G : Type 0} ⦃f : Floating D⦄ ⦃n : AsciiDouble D⦄ ⦃a : AsciiText⦄ ⦃fs : Files S⦄
    ⦃m : MainLoop L⦄ where
  unfoldable pub refresh_kind :
      Surroundings D S → Text → Supply D L G → DeviceKind → Option (Supply D L G × RefreshResult)
  refresh_kind env path s DeviceKind.line_power = some (refresh_line_power env path s)
  refresh_kind env path s DeviceKind.battery =
      some (refresh_battery env path (disable_unknown_poll s), success)
  refresh_kind env path s _ = refresh_device env path s

  unfoldable pub refresh : Surroundings D S → Text → Supply D L G → Option (Supply D L G × Bool)
  refresh env path s = finished env.real_time (refresh_kind env path s s.skeleton.kind)

  -- `up_device_supply_poll_unknown_battery`, run by the loop for the source `id`.
  unfoldable pub poll_unknown : Surroundings D S → Text → ℕ → Supply D L G → Option (Supply D L G)
  poll_unknown env path id s = destroyed id (refresh env path (fired s))
