-- ===== src/Examples/Identities.antt =====
-- The identifiers and notifications of src/up-device.c for concrete devices.
use upower.Prelude.{◌≡◌, refl, some, arith}
use upower.Prelude.Text.{codes}
use upower.Floating.{Milli, milli_floating}
use upower.Storage.{Free}
use upower.Types.{DeviceState}
use upower.Device.{Skeleton}
use upower.Device.Identity.{get_id, IsSafe, base_name-get_id}
use upower.History.Recorder.{base_name}
use upower.MainLoop.{sources_loop}
use upower.Storage.{memory_files}
use upower.Examples.World.{battery, milli_text}

-- A battery whose maker put a slash and a space into its model.
abbrev odd_battery : Skeleton Milli
odd_battery = record (battery DeviceState.charging 20 50) {
  model = some (codes "A/B 12");
  serial = some (codes "77.1");
}

odd_battery_id : get_id odd_battery ≡ some (codes "A_B_12-77_1")
unfolding get_id
odd_battery_id = refl

base_name-get_id_example :
    IsSafe (codes "A_B_12-77_1") × Free b'/' (base_name (codes "charge") (codes "A_B_12-77_1"))
base_name-get_id_example =
    base_name-get_id odd_battery (codes "A_B_12-77_1") (codes "charge") odd_battery_id (omega arith)
