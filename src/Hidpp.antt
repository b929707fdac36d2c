-- ===== src/Hidpp.antt =====
-- src/linux/hidpp-device.c and hidpp-device.h: a wireless device of Logitech behind its receiver,
-- which is asked by messages of HID++.
pub mod Transport
pub mod Queries
pub mod Battery
pub mod Refresh
pub mod Responses
pub mod Time
pub mod Contract
use upower.Prelude.{
  ℕ, ◌%◌, ◌^◌, Bool, true, false, ◌&&◌, List, [], ◌∷◌, drop, replicate, get_or, Option, none, some,
  ltb, ◌==◌, if◌then◌else◌,
}
use upower.Prelude.Int.{ℤ, pos, negsuc, ltb_ℤ}
use upower.Prelude.Text.{Text, codes}
use upower.Floating.{Floating}
use upower.MainLoop.{MainLoop}

-- `HidppDeviceKind` and `HidppDeviceBattStatus`
pub data HidppKind : Type 0 where
  keyboard mouse touchpad trackball tablet unknown : HidppKind

pub data BattStatus : Type 0 where
  charging discharging charged unknown : BattStatus

-- `HidppDeviceMap`: the index by which the device knows a feature.
pub record FeatureMap : Type 0 where
  pub idx : ℕ
  pub feature : ℕ
  pub name : Text

-- `HidppDevicePrivate`; the channel is never opened.
pub record Private (D : Type 0) : Type 0 where
  pub enable_debug : Bool
  pub hidraw_device : Option Text
  pub model : Option Text
  pub feature_index : List FeatureMap
  pub batt_percentage : ℕ
  pub channel_source_id : ℕ
  pub device_idx : ℕ
  pub version : ℕ
  pub batt_status : BattStatus
  pub batt_is_approx : Bool
  pub kind : HidppKind
  pub fd : ℤ
  pub is_present : Bool
  pub serial : Option Text
  pub lux : D

-- `HidppMessage` by its 20 bytes: the type, the three indices, and the parameters, of which a short
-- message has three and a long one sixteen.
abbrev pub HidppMessage : Type 0
HidppMessage = List ℕ

abbrev pub no_message : HidppMessage
no_message = replicate 20 0

abbrev pub msg_type : HidppMessage → ℕ
msg_type msg = get_or msg 0 0

abbrev pub device_idx : HidppMessage → ℕ
device_idx msg = get_or msg 1 0

abbrev pub feature_idx : HidppMessage → ℕ
feature_idx msg = get_or msg 2 0

abbrev pub function_idx : HidppMessage → ℕ
function_idx msg = get_or msg 3 0

abbrev pub param : ℕ → HidppMessage → ℕ
param n msg = get_or (drop 4 msg) n 0

-- A short request is written over the message that was there; a field has 8 bits.
abbrev pub short_request : ℕ → ℕ → ℕ → ℕ → ℕ → ℕ → HidppMessage → HidppMessage
short_request device feature function p0 p1 p2 msg =
    0x10
    ∷ (device % 2 ^ 8)
    ∷ (feature % 2 ^ 8)
    ∷ (function % 2 ^ 8)
    ∷ (p0 % 2 ^ 8)
    ∷ (p1 % 2 ^ 8)
    ∷ (p2 % 2 ^ 8)
    ∷ drop 7 msg

-- A message of the protocol that says that a request has failed, with its code.
unfoldable pub is_error : HidppMessage → Bool
is_error msg = msg_type msg == 0x10 && feature_idx msg == 0x8f

abbrev pub error_code : HidppMessage → ℕ
error_code msg = param 1 msg

unfoldable pub map_get_by_feature : ℕ → List FeatureMap → Option FeatureMap
map_get_by_feature feature [] = none
map_get_by_feature feature (map ∷ maps) =
    let later = map_get_by_feature feature maps in
    if map.feature == feature then some map else later

module _ {D : Type 0} where
  abbrev pub set_hidraw_device : Text → Private D → Private D
  set_hidraw_device hidraw_device p = record p { hidraw_device = some hidraw_device }

  abbrev pub set_index : ℕ → Private D → Private D
  set_index device_idx p = record p { device_idx = device_idx }

  abbrev pub set_enable_debug : Bool → Private D → Private D
  set_enable_debug enable_debug p = record p { enable_debug = enable_debug }

module _ {D : Type 0} ⦃f : Floating D⦄ where
  -- A new device knows the root feature only.
  abbrev pub init : Private D
  init = record {
    enable_debug = false;
    hidraw_device = none;
    model = none;
    feature_index = record { idx = 0; feature = 0; name = codes "Root" } ∷ [];
    batt_percentage = 0;
    channel_source_id = 0;
    device_idx = 0;
    version = 0;
    batt_status = BattStatus.unknown;
    batt_is_approx = false;
    kind = HidppKind.unknown;
    fd = negsuc 0;
    is_present = false;
    serial = none;
    lux = f.of_int (negsuc 0);
  }

-- What became of a wait for a file, and of a read; `true` where a signal interrupted it.
pub data Polled : Type 0 where
  ready nothing : Polled
  poll_failed : Bool → Polled

pub data ReadResult : Type 0 where
  bytes : List ℕ → ReadResult
  read_failed : Bool → ReadResult

-- The hidraw files of the kernel, and the clock, in microseconds. `poll` waits for as many
-- milliseconds, and `open` gives a negative number where it fails.
pub record Hidraw (O : Type 0) : Type 0 where
  pub open_rdwr : Text → O → ℤ × O
  pub write : ℤ → List ℕ → O → ℤ × O
  pub poll : ℤ → ℕ → O → Polled × O
  pub read : ℤ → ℕ → O → ReadResult × O
  pub monotonic_time : O → ℕ × O
  pub close : ℤ → O → O

module _ {D L O : Type 0} ⦃m : MainLoop L⦄ ⦃h : Hidraw O⦄ where
  -- The descriptor 0 is not closed.
  unfoldable pub finalize : Private D → L → O → L × O
  finalize p loop os = (
    if ltb 0 p.channel_source_id then m.remove p.channel_source_id loop else loop,
    if ltb_ℤ (pos 0) p.fd then h.close p.fd os else os,
  )
