-- ===== src/Unifying/Coldplug.antt =====
-- src/linux/up-device-unifying.c: a device is found behind its receiver, and started.
use upower.Prelude.{
  ℕ, ◌%◌, ◌^◌, Bool, true, false, not, ◌&&◌, List, [], ◌∷◌, take, Option, none, some, ◌==◌,
  if◌then◌else◌,
}
use upower.Prelude.Text.{Text, codes, text_eq}
use upower.Floating.{Floating}
use upower.MainLoop.{MainLoop}
use upower.Types.{DeviceLevel}
use upower.Daemon.Poll.{Signals, start_poll}
use upower.Supply.{AsciiText}
use upower.Hidpp.{Private, Hidraw, init, set_index, set_hidraw_device}
use upower.Hidpp.Queries.{Flags}
use upower.Hidpp.Refresh.{Outcome, returned, fault, out_of_fuel, refresh}
use upower.Unifying.{
  Unifying, Run, finished, crashed, endless, get_device_kind, no_flags, warned, with_device,
  refresh_unifying,
}

-- `g_ascii_strtoull` with base 10: the number, and the text from `endptr` on.
pub record UnsignedText : Type 0 where
  pub strtoull : Text → ℕ × Text

-- A hidraw device of udev: the path of its parent, and its file.
pub record HidrawNode : Type 0 where
  pub parent_path : Option Text
  pub device_file : Option Text

-- What the start finds around the device: the device of udev, with its properties and its parent,
-- the hidraw devices, the names in the directory `usbmisc` of the parent, if it can be opened, and
-- the daemon.
pub record Surroundings : Type 0 where
  pub type : Option Text
  pub hid_phys : Option Text
  pub upower_vendor : Option Text
  pub id_vendor : Option Text
  pub sysfs_path : Option Text
  pub parent_path : Option Text
  pub hidraw_list : List HidrawNode
  pub usbmisc : Option (List Text)
  pub level : ℕ → DeviceLevel
  pub refresh_function : ℕ
  pub real_time : ℕ

-- `g_strcmp0`, where it finds two texts equal.
unfoldable pub same_path : Option Text → Option Text → Bool
same_path none none = true
same_path (some s) (some t) = text_eq s t
same_path _ _ = false

abbrev pub is_wireless : Text → Bool
is_wireless type = text_eq type (codes "lg-wireless")

-- What stands behind the last colon.
abbrev pub or_here : Bool → Text → Option Text → Option Text
or_here b cs none = if b then some cs else none
or_here b cs (some t) = some t

unfoldable pub after_colon : Text → Option Text
after_colon [] = none
after_colon (c ∷ cs) = or_here (c == b':') cs (after_colon cs)

abbrev pub index_part : Option Text → Option Text
index_part none = none
index_part (some bus_address) = after_colon bus_address

-- The loop over the names: it stops at the first one that begins with "hiddev".
unfoldable pub find_hiddev : ⦃a : AsciiText⦄ → List Text → Bool → Bool
find_hiddev [] found = found
find_hiddev ⦃a⦄ (filename ∷ names) found =
    let rest = find_hiddev names found in
    if a.strcasecmp (take 6 filename) (codes "hiddev") then true else rest

module _ ⦃a : AsciiText⦄ where
  abbrev pub in_usbmisc : Option (List Text) → Bool → Bool
  in_usbmisc none found = false
  in_usbmisc (some names) found = find_hiddev names found

  unfoldable pub is_receiver : Surroundings → Bool → HidrawNode → Bool
  unfolding same_path find_hiddev
  is_receiver env wireless node =
      let found = same_path env.sysfs_path node.parent_path in
      if wireless
      then (if not found then false else in_usbmisc env.usbmisc found)
      else same_path env.parent_path node.parent_path

  unfoldable pub find_receiver : Surroundings → Bool → List HidrawNode → Option HidrawNode
  unfolding is_receiver
  find_receiver env wireless [] = none
  find_receiver env wireless (node ∷ nodes) =
      let rest = find_receiver env wireless nodes in
      if is_receiver env wireless node then some node else rest

abbrev pub coldplug_flags : Flags
coldplug_flags = record no_flags { version = true; kind = true; serial = true; model = true }

abbrev pub vendor_of : Option Text → Option Text → Option Text
vendor_of none id_vendor = id_vendor
vendor_of (some vendor) id_vendor = some vendor

module _ {D L G : Type 0} where
  unfoldable pub set_defaults : Surroundings → Private D → Unifying D L G → Unifying D L G
  unfolding get_device_kind
  set_defaults env p u = record (with_device u p) {
    skeleton = record u.skeleton {
      vendor = vendor_of env.upower_vendor env.id_vendor;
      kind = get_device_kind p.kind;
      model = p.model;
      serial = p.serial;
      has_history = true;
      is_rechargeable = true;
      power_supply = false;
    };
  }

module _ {D L G O : Type 0} ⦃m : MainLoop L⦄ ⦃g : Signals G⦄ where
  -- The device is polled after its first refresh.
  abbrev pub start : Surroundings → Run D L G O → Run D L G O
  start env (finished b u os) =
      finished true
        (record u { poller = start_poll env.level u.poller u.address env.refresh_function }) os
  start env crashed = crashed
  start env endless = endless

module _ {D L G O : Type 0} ⦃f : Floating D⦄ ⦃m : MainLoop L⦄ ⦃g : Signals G⦄ ⦃h : Hidraw O⦄ where
  abbrev pub connected : ℕ → Surroundings → Unifying D L G → Outcome D O → Run D L G O
  connected fuel env u (returned true s) =
      start env (refresh_unifying fuel env.real_time (set_defaults env s.priv u) s.os)
  connected fuel env u (returned false s) =
      warned s.error (finished false (with_device u s.priv) s.os)
  connected fuel env u (fault s) = crashed
  connected fuel env u out_of_fuel = endless

  abbrev pub connect_file :
      ℕ → Surroundings → Unifying D L G → Private D → O → Option Text → Run D L G O
  connect_file fuel env u p os none = finished false (with_device u p) os
  connect_file fuel env u p os (some device_file) =
      connected fuel env u (refresh fuel coldplug_flags (set_hidraw_device device_file p) os)

  unfoldable pub connect :
      ℕ → Surroundings → Unifying D L G → Private D → O → Option HidrawNode → Run D L G O
  unfolding refresh_unifying set_defaults
  connect fuel env u p os none = finished false (with_device u p) os
  connect fuel env u p os (some receiver) = connect_file fuel env u p os receiver.device_file

module _ {D L G O : Type 0} ⦃f : Floating D⦄ ⦃a : AsciiText⦄ ⦃n : UnsignedText⦄ ⦃m : MainLoop L⦄
    ⦃g : Signals G⦄ ⦃h : Hidraw O⦄ where
  abbrev pub search : ℕ → Surroundings → Unifying D L G → Bool → Private D → O → Run D L G O
  search fuel env u wireless p os =
      connect fuel env u p os (find_receiver env wireless env.hidraw_list)

  -- A wireless device is the first one of its receiver. The index is set before the text is found to
  -- be malformed, as a `guint`.
  abbrev pub indexed : ℕ → Surroundings → Unifying D L G → Bool → O → Option Text → Run D L G O
  indexed fuel env u wireless os none = finished false (with_device u init) os
  indexed fuel env u wireless os (some part) =
      let (index, endptr) = n.strtoull part in
      let p = set_index (index % 2 ^ 32) init in
      if wireless
      then search fuel env u wireless (set_index 1 init) os
      else if not (text_eq endptr [])
      then finished false (with_device u p) os
      else search fuel env u wireless p os

  abbrev pub typed : ℕ → Surroundings → Unifying D L G → O → Option Text → Run D L G O
  typed fuel env u os none = finished false u os
  typed fuel env u os (some type) =
      if not (text_eq type (codes "unifying")) && not (is_wireless type)
      then finished false u os
      else indexed fuel env u (is_wireless type) os (index_part env.hid_phys)

  unfoldable pub coldplug : ℕ → Surroundings → Unifying D L G → O → Run D L G O
  unfolding after_colon find_receiver connect
  coldplug fuel env u os = typed fuel env u os env.type
