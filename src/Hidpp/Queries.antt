-- ===== src/Hidpp/Queries.antt =====
-- src/linux/hidpp-device.c: the requests of `hidpp_device_refresh` but those for the battery.
use upower.Prelude.{
  ℕ, zero, suc, ◌+◌, ◌-◌, ◌/◌, ◌%◌, ◌^◌, Bool, true, ◌&&◌, ◌||◌, List, [], ◌∷◌, ◌++◌, drop, Option,
  none, some, ltb, leb, ◌==◌, if◌then◌else◌,
}
use Prim.Native.Nat.{bit_or}
use upower.Prelude.Int.{ℤ, pos, negsuc, ltb_ℤ}
use upower.Prelude.Text.{Text, codes}
use upower.Hidpp.{
  HidppKind, FeatureMap, Private, HidppMessage, no_message, param, short_request, is_error,
  error_code, Hidraw,
}
use upower.Hidpp.Transport.{Error, Answer, cmd}

-- `HidppRefreshFlags`
pub record Flags : Type 0 where
  pub version : Bool
  pub kind : Bool
  pub battery : Bool
  pub model : Bool
  pub features : Bool
  pub serial : Bool

-- The device and the files while it is refreshed, with the message, the flags, and the `GError` that
-- the caller gets.
pub record Refresh (D O : Type 0) : Type 0 where
  pub priv : Private D
  pub flags : Flags
  pub msg : HidppMessage
  pub error : Option Error
  pub os : O

-- How a part of the function ends: it goes on behind it, or goes to `out` with `ret` FALSE, or reads
-- behind the end of a message, or the fuel is out.
pub data Flow (D O : Type 0) : Type 0 where
  next : Refresh D O → Flow D O
  failed : Refresh D O → Flow D O
  crashed : Refresh D O → Flow D O
  stuck : Flow D O

infixl 5 ◌>>=◌
abbrev pub ◌>>=◌ : {D O : Type 0} → Flow D O → (Refresh D O → Flow D O) → Flow D O
next s >>= f = f s
failed s >>= f = failed s
crashed s >>= f = crashed s
stuck >>= f = stuck

module _ {D O : Type 0} where
  abbrev pub answered : Refresh D O → Option (Answer O) → Option (Refresh D O)
  answered s none = none
  answered s (some a) = some (record s { msg = a.message; error = a.error; os = a.os })

  -- After a request: on, or to the end with its error.
  abbrev pub checked_error : Refresh D O → Option Error → Flow D O
  checked_error s none = next s
  checked_error s (some e) = failed s

  abbrev pub checked : Option (Refresh D O) → Flow D O
  checked none = stuck
  checked (some s) = checked_error s s.error

  abbrev pub with_priv : Refresh D O → Private D → Refresh D O
  with_priv s p = record s { priv = p }

  abbrev pub when : Bool → (Refresh D O → Flow D O) → Refresh D O → Flow D O
  when b f s = if b then f s else next s

  abbrev pub after_version : ℕ → Refresh D O → Flow D O
  after_version old s = next (
      if ltb old 2 && leb 2 s.priv.version
      then record s { flags = record s.flags { features = true } }
      else s)

  -- An answer that a device of version 1 gives, or that says that no device is there.
  abbrev pub recovered : Refresh D O → Flow D O
  recovered s =
      let known = error_code s.msg == 0x01 in
      if is_error s.msg && (known || error_code s.msg == 0x09)
      then next (record s {
        priv = record s.priv { version = if known then 1 else s.priv.version; is_present = known };
        msg = no_message;
        error = none;
      })
      else failed s

  abbrev pub pinged : Refresh D O → Option Error → Flow D O
  pinged s none = next (with_priv s (record s.priv { version = param 0 s.msg; is_present = true }))
  pinged s (some e) = recovered s

  abbrev pub ping_answered : ℕ → Option (Refresh D O) → Flow D O
  ping_answered old none = stuck
  ping_answered old (some s) = pinged s s.error >>= after_version old

  -- The index 0 says that the device does not have the feature; an error is not reported.
  abbrev pub mapped : ℕ → Text → Refresh D O → Answer O → Option Error → Refresh D O
  mapped feature name s a (some e) = record s { os = a.os }
  mapped feature name s a none =
      let map : FeatureMap = record { idx = param 0 a.message; feature = feature; name = name } in
      if param 0 a.message == 0 then record s { os = a.os } else record s {
        priv = record s.priv { feature_index = s.priv.feature_index ++ (map ∷ []) };
        os = a.os;
      }

  abbrev pub map_answered : ℕ → Text → Refresh D O → Option (Answer O) → Flow D O
  map_answered feature name s none = stuck
  map_answered feature name s (some a) = next (mapped feature name s a a.error)

-- `open` of a `NULL` path fails.
abbrev pub opened_file : {O : Type 0} ⦃h : Hidraw O⦄ → Option Text → O → ℤ × O
opened_file ⦃h⦄ none os = (negsuc 0, os)
opened_file ⦃h⦄ (some path) os = h.open_rdwr path os

module _ {D O : Type 0} ⦃h : Hidraw O⦄ where
  abbrev pub ask : ℕ → HidppMessage → Refresh D O → Option (Refresh D O)
  ask fuel request s = answered s (cmd fuel s.priv.fd request s.os)

  abbrev pub command : ℕ → HidppMessage → Refresh D O → Flow D O
  command fuel request s = checked (ask fuel request s)

  abbrev pub open_device : Refresh D O → ℤ × O → Flow D O
  open_device s (fd, os) =
      let opened = record s { priv = record s.priv { fd = fd }; os = os } in
      if ltb_ℤ fd (pos 0)
      then failed (record opened { error = some Error.cannot_open })
      else next opened

  unfoldable pub open_step : Refresh D O → Flow D O
  open_step s =
      if ltb_ℤ s.priv.fd (pos 0)
      then open_device s (opened_file s.priv.hidraw_device s.os)
      else next s

  -- The data of the ping is arbitrary.
  unfoldable pub version_step : ℕ → Refresh D O → Flow D O
  version_step fuel s =
      ping_answered s.priv.version
        (ask fuel (short_request s.priv.device_idx 0x00 0x10 0x00 0x00 0x42 s.msg) s)

  -- Its message is another one, of which the first seven bytes are set.
  unfoldable pub map_add : ℕ → ℕ → Text → Refresh D O → Flow D O
  map_add fuel feature name s = map_answered feature name s (
      cmd fuel s.priv.fd
        (short_request s.priv.device_idx 0x00 0x00 (feature / 2 ^ 8) feature 0x00 no_message) s.os)

  unfoldable pub features_step : ℕ → Refresh D O → Flow D O
  features_step fuel s =
      map_add fuel 0x1000 (codes "BatteryLevelStatus") s
      >>= map_add fuel 0x4301 (codes "SolarDashboard")

-- The number of the device at its receiver counts from one; the difference wraps around.
abbrev pub register_of : ℕ → ℕ → ℕ
register_of base device_idx = bit_or base ((device_idx + (2 ^ 32 - 1)) % 2 ^ 32)

-- The kind by the type of a device, the kind that it had where the type is not known here.
unfoldable pub kind_of_type : ℕ → HidppKind → HidppKind
kind_of_type type old =
    if type == 0x1 || (type == 0x3 || type == 0x7)
    then HidppKind.keyboard
    else if type == 0x2 || (type == 0x8 || (type == 0x9 || type == 0x4))
    then HidppKind.mouse
    else if type == 0xa
    then HidppKind.tablet
    else if type == 0xb || type == 0xc
    then HidppKind.unknown
    else old

abbrev before : ℕ → Option Text → Option Text
before c none = none
before c (some t) = some (c ∷ t)

-- `%.*s`: the text up to a zero or the length; `none` where the message ends before.
abbrev pub printed : ℕ → List ℕ → Option Text
printed zero bytes = some []
printed (suc len) [] = none
printed (suc len) (c ∷ cs) = if c == 0 then some [] else before c (printed len cs)

-- `%X` of one digit, and of a byte with two.
abbrev hex_digit : ℕ → ℕ
hex_digit n = if ltb n 10 then n + b'0' else n + 55

abbrev hex_byte : ℕ → Text
hex_byte b = hex_digit (b / 16 % 16) ∷ hex_digit (b % 16) ∷ []

-- `%08X` of four bytes, the first one first.
unfoldable pub serial_of : HidppMessage → Text
serial_of msg =
    hex_byte (param 1 msg)
    ++ hex_byte (param 2 msg)
    ++ hex_byte (param 3 msg)
    ++ hex_byte (param 4 msg)

module _ {D O : Type 0} where
  abbrev pub set_kind : Refresh D O → Flow D O
  set_kind s =
      next (with_priv s (record s.priv { kind = kind_of_type (param 7 s.msg) s.priv.kind }))

  abbrev pub name_model : Refresh D O → Option Text → Flow D O
  name_model s none = crashed s
  name_model s (some model) = next (with_priv s (record s.priv { model = some model }))

  abbrev pub set_model : Refresh D O → Flow D O
  set_model s = name_model s (printed (param 1 s.msg) (drop 6 s.msg))

  abbrev pub set_serial : Refresh D O → Flow D O
  set_serial s = next (with_priv s (record s.priv { serial = some (serial_of s.msg) }))

  -- The receiver knows the kind and the model of these.
  abbrev pub is_known : Refresh D O → Bool
  is_known s = leb s.priv.version 1 || s.priv.version == 2

module _ {D O : Type 0} ⦃h : Hidraw O⦄ where
  abbrev pub ask_receiver : ℕ → ℕ → Refresh D O → Flow D O
  ask_receiver fuel base s =
      command fuel
        (short_request 0xff 0x83 0xb5 (register_of base s.priv.device_idx) 0x00 0x00 s.msg) s

  unfoldable pub kind_step : ℕ → Refresh D O → Flow D O
  unfolding kind_of_type
  kind_step fuel s = when (is_known s) (λ s. ask_receiver fuel 0x20 s >>= set_kind) s

  unfoldable pub model_step : ℕ → Refresh D O → Flow D O
  model_step fuel s = when (is_known s) (λ s. ask_receiver fuel 0x40 s >>= set_model) s

  unfoldable pub serial_step : ℕ → Refresh D O → Flow D O
  serial_step fuel s = ask_receiver fuel 0x30 s >>= set_serial
