-- ===== src/Device/Lifecycle.antt =====
-- src/up-device.c: the start, the refresh and the end of a device.
pub mod Started
use upower.Prelude.{
  ℕ, ◌≡◌, refl, Bool, Bool-cases, true, false, not, String, ◌++◌, Option, none, some, ◌⊎◌, inl, inr,
  if◌then◌else◌, if_both, if_known,
}
use upower.Prelude.Text.{Text, codes}
use upower.Floating.{Floating}
use upower.Storage.{FloatText, Splitter, Files}
use upower.MainLoop.{MainLoop}
use upower.Types.{DeviceKind}
use upower.History.Recorder
use upower.History.Recorder.{Recorder, set_id}
use upower.Device.{Skeleton, new_skeleton}
use upower.Device.Identity.{get_id, object_name}

-- `UpDevicePrivate` with the exported properties, the state `X` that a kind of device adds, and the
-- path under which the device is on the bus. The daemon and the native object are numbers.
pub record Object (D L S X : Type 0) : Type 0 where
  pub daemon : Option ℕ
  pub history : Recorder D L S
  pub native : Option ℕ
  pub has_ever_refresh : Bool
  pub skeleton : Skeleton D
  pub own : X
  pub object_path : Option Text

-- The methods of `UpDeviceClass` that a kind of device may leave out. They change the properties and
-- the own state, and, by the notifications, the history.
pub record Methods (D L S X : Type 0) : Type 0 where
  pub coldplug_method : Option (Object D L S X → Object D L S X × Bool)
  pub refresh_method : Option (Object D L S X → Object D L S X × Bool)

-- `UP_DEVICES_DBUS_PATH`, and a name below it.
abbrev pub devices_path : Text → Text
devices_path name = codes "/org/freedesktop/UPower/devices/" ++ name

module _ {D L S X : Type 0} where
  abbrev pub call :
      Option (Object D L S X → Object D L S X × Bool)
      → Bool
      → Object D L S X
      → Object D L S X × Bool
  call none missing o = (o, missing)
  call (some method) missing o = method o

  -- A device without the method is not refreshed.
  unfoldable pub refresh_internal : Methods D L S X → Object D L S X → Object D L S X × Bool
  refresh_internal klass o =
      let (refreshed, ret) = call klass.refresh_method false o in
      if not ret then (refreshed, false) else (record refreshed { has_ever_refresh = true }, true)

  -- `up_device_export_skeleton`, where `bus` is whether an export under a path succeeds. A failure is
  -- only logged.
  abbrev pub export_skeleton : (Text → Bool) → Text → Object D L S X → Object D L S X
  export_skeleton bus path o = if bus path then record o { object_path = some path } else o

  unfoldable pub register_device : (Text → Bool) → Text → Object D L S X → Object D L S X × Bool
  register_device bus basename o =
      (export_skeleton bus (devices_path (object_name o.skeleton.kind basename)) o, true)

  unfoldable pub register_display_device :
      (Text → Bool) → ℕ → Object D L S X → Object D L S X × Bool
  register_display_device bus daemon o = (
    export_skeleton bus (devices_path (codes "DisplayDevice")) (record o { daemon = some daemon }),
    true,
  )

  unfoldable pub unplug : Object D L S X → Object D L S X
  unplug o = record o { daemon = none }

module _ {D L S X : Type 0} ⦃f : Floating D⦄ ⦃x : FloatText D⦄ ⦃sp : Splitter⦄ ⦃fs : Files S⦄
    ⦃m : MainLoop L⦄ where
  -- The old history is loaded only if the first refresh succeeds and the device has an identifier.
  abbrev pub with_history : ℕ → Object D L S X → Option Text → Object D L S X
  with_history now o none = o
  with_history now o (some id) = record o { history = (set_id o.history (some id) now).0 }

  abbrev pub registered : (Text → Bool) → ℕ → Text → Object D L S X × Bool → Object D L S X × Bool
  registered bus now basename (o, ret) =
      register_device bus basename (if not ret then o else with_history now o (get_id o.skeleton))

  abbrev pub plugged :
      (Text → Bool) → Methods D L S X → ℕ → Text → Object D L S X × Bool → Object D L S X × Bool
  plugged bus klass now basename (o, ret) =
      if not ret then (o, false) else registered bus now basename (refresh_internal klass o)

  abbrev pub saved : ℕ → ℕ → Option String → Object D L S X → Object D L S X
  saved daemon native native_path o = record o {
    native = some native;
    daemon = some daemon;
    skeleton = record o.skeleton { native_path = native_path };
  }

  -- `basename` is the last part of the native path.
  unfoldable pub coldplug :
      (Text → Bool)
      → Methods D L S X
      → ℕ
      → ℕ
      → Option String
      → Text
      → ℕ
      → Object D L S X
      → Object D L S X × Bool
  unfolding register_device refresh_internal
  coldplug bus klass daemon native native_path basename now o =
      plugged bus klass now basename
        (call klass.coldplug_method true (saved daemon native native_path o))

module _ {D L S X : Type 0} ⦃f : Floating D⦄ where
  -- A new object has a new history, and GObject clears the rest.
  abbrev pub init : Recorder D L S → X → Object D L S X
  init history own = record {
    daemon = none;
    history = history;
    native = none;
    has_ever_refresh = false;
    skeleton = new_skeleton;
    own = own;
    object_path = none;
  }

module _ {D L S X : Type 0} ⦃x : FloatText D⦄ ⦃fs : Files S⦄ ⦃f : Floating D⦄ ⦃m : MainLoop L⦄ where
  -- The object holds the only reference to its history, which saves its points.
  unfoldable pub finalize : Object D L S X → ℕ → L × S
  finalize o now = upower.History.Recorder.finalize o.history now
