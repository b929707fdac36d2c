-- ===== src/Examples/DeviceLists.antt =====
-- src/up-device-list.c on concrete lists.
use upower.Prelude.{[], ◌∷◌}
use upower.DeviceList.{DeviceList, Refs}

abbrev list : DeviceList
list = record { array = 7 ∷ []; map_native_path_to_device = ("BAT0", 7) ∷ [] }

abbrev refs : Refs
refs d = 3
