-- ===== src/Hidpp/Transport.antt =====
-- src/linux/hidpp-device.c: a request and the wait for its response.
use upower.Prelude.{
  ℕ, zero, suc, ◌+◌, ◌-◌, ◌/◌, ◌%◌, ◌^◌, Bool, true, false, not, ◌&&◌, ◌||◌, [], ◌∷◌, ◌++◌, length,
  take, drop, Option, none, some, ◌==◌, if◌then◌else◌,
}
use upower.Prelude.Int.{ℤ, pos, pos_part, ltb_ℤ, leb_ℤ, eqb_ℤ}
use upower.Supply.Sysfs.{signed_int}
use upower.Hidpp.{
  HidppMessage, msg_type, device_idx, feature_idx, function_idx, param, is_error, error_code,
  Polled, ready, nothing, poll_failed, ReadResult, bytes, read_failed, Hidraw,
}

-- What the `GError` says.
pub data Error : Type 0 where
  cannot_open failed_to_write response_timeout poll_error poll_timeout unable_to_read : Error
  could_not_fully_write : ℤ → Error
  hidpp_error : ℕ → Error

-- What comes back: the error, if any, the message as it is then, and the files.
pub record Answer (O : Type 0) : Type 0 where
  pub error : Option Error
  pub message : HidppMessage
  pub os : O

-- One round of a loop that waits: it goes on, or it ends.
pub data Round (O : Type 0) : Type 0 where
  again : HidppMessage → O → Round O
  done : Answer O → Round O

-- What a message is to the one who waits.
pub data Verdict : Type 0 where
  response ignored : Verdict
  refused : ℕ → Verdict

abbrev pub is_hidpp : HidppMessage → Bool
is_hidpp msg = msg_type msg == 0x10 || msg_type msg == 0x11

unfoldable pub verdict_of : ℕ → ℕ → ℕ → HidppMessage → Verdict
verdict_of device feature function msg =
    if not (is_hidpp msg)
    then ignored
    else if not (device_idx msg == device)
    then ignored
    else if feature_idx msg == feature && function_idx msg == function
    then response
    else if is_error msg && (function_idx msg == feature && param 0 msg == function)
    then refused (error_code msg)
    else ignored

module _ {O : Type 0} where
  abbrev pub stop : Error → HidppMessage → O → Round O
  stop e msg os = done (record { error = some e; message = msg; os = os })

  abbrev pub judged : Verdict → HidppMessage → O → Round O
  judged response msg os = done (record { error = none; message = msg; os = os })
  judged (refused code) msg os = stop (hidpp_error code) msg os
  judged ignored msg os = again msg os

  -- The bytes that were read stand over the old ones.
  abbrev pub arrived : ℕ → ℕ → ℕ → HidppMessage → ReadResult → O → Round O
  arrived device feature function msg (read_failed interrupted) os =
      if interrupted then again msg os else stop unable_to_read msg os
  arrived device feature function msg (bytes []) os = stop unable_to_read msg os
  arrived device feature function msg (bytes (b ∷ bs)) os =
      let now = (b ∷ bs) ++ drop (length (b ∷ bs)) msg in
      judged (verdict_of device feature function now) now os

-- The milliseconds that are left of three seconds, as the `gint` that the difference is put in.
abbrev pub remaining_time : ℕ → ℕ → ℤ
remaining_time begin_time now =
    signed_int (
      ((2 ^ 64 + 3000) - ((now / 1000 + (2 ^ 64 - begin_time % 2 ^ 64)) % 2 ^ 64))
      % 2 ^ 64
      % 2 ^ 32)

-- Is there a message to discard, or an interrupted read to try again?
abbrev pub discarded : ReadResult → Bool
discarded (bytes bs) = true
discarded (read_failed interrupted) = interrupted

abbrev pub has_message : Polled → Bool
has_message ready = true
has_message nothing = false
has_message (poll_failed interrupted) = false

-- `HIDPP_MSG_LENGTH`
abbrev pub msg_length : HidppMessage → ℕ
msg_length msg = if msg_type msg == 0x10 then 7 else 20

abbrev pub write_error : ℤ → Error
write_error wrote = if ltb_ℤ wrote (pos 0) then failed_to_write else could_not_fully_write wrote

module _ {O : Type 0} ⦃h : Hidraw O⦄ where
  abbrev pub waited : ℤ → ℕ → ℕ → ℕ → HidppMessage → Polled → O → Round O
  waited fd device feature function msg (poll_failed interrupted) os =
      if interrupted then again msg os else stop poll_error msg os
  waited fd device feature function msg nothing os = stop poll_timeout msg os
  waited fd device feature function msg ready os =
      let (result, next) = h.read fd 20 os in arrived device feature function msg result next

  unfoldable pub round : ℤ → ℕ → ℕ → ℕ → ℕ → HidppMessage → O → Round O
  unfolding verdict_of
  round fd device feature function begin_time msg os =
      let (now, timed) = h.monotonic_time os in
      let remaining = remaining_time begin_time now in
      let (result, polled) = h.poll fd (pos_part remaining) timed in
      if leb_ℤ remaining (pos 0)
      then stop response_timeout msg timed
      else waited fd device feature function msg result polled

  -- `none` where the fuel is out.
  unfoldable pub rounds : ℕ → ℤ → ℕ → ℕ → ℕ → ℕ → HidppMessage → O → Option (Answer O)
  rounds zero fd device feature function begin_time msg os = none
  rounds (suc fuel) fd device feature function begin_time msg os =
      elim (round fd device feature function begin_time msg os) [
        | again next later ↦ rounds fuel fd device feature function begin_time next later
        | done answer ↦ some answer
      ]

  unfoldable pub read_resp : ℕ → ℤ → ℕ → ℕ → ℕ → HidppMessage → O → Option (Answer O)
  read_resp fuel fd device feature function msg os =
      let (begin_time, timed) = h.monotonic_time os in
      rounds fuel fd device feature function (begin_time / 1000) msg timed

  unfoldable pub discard_messages : ℕ → ℤ → O → Option O
  discard_messages zero fd os = none
  discard_messages (suc fuel) fd os =
      let (result, polled) = h.poll fd 0 os in
      let (got, next) = h.read fd 1 polled in
      elim (has_message result) [
        | false ↦ some polled
        | true ↦ elim (discarded got) [ true ↦ discard_messages fuel fd next | false ↦ some next ]
      ]

  abbrev pub send : ℕ → ℤ → HidppMessage → Option O → Option (Answer O)
  send fuel fd msg none = none
  send fuel fd msg (some os) =
      let (wrote, written) = h.write fd (take (msg_length msg) msg) os in
      let answer =
        read_resp fuel fd (device_idx msg) (feature_idx msg) (function_idx msg) msg written in
      if not (eqb_ℤ wrote (pos (msg_length msg)))
      then some (record { error = some (write_error wrote); message = msg; os = written })
      else answer

  -- The response is written over the request.
  unfoldable pub cmd : ℕ → ℤ → HidppMessage → O → Option (Answer O)
  cmd fuel fd msg os = send fuel fd msg (discard_messages fuel fd os)
