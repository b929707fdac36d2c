-- ===== src/Hidpp/Responses.antt =====
-- src/linux/hidpp-device.c: which message ends the wait for a response.
use upower.Prelude.{
  ℕ, zero, ◌/◌, take, Always, none-Always, some-Always, some_inj, suc, ◌≡◌, refl, sym, ◌∙◌, ap,
  subst, true, not, ◌&&◌, List, [], ◌∷◌, ◌++◌, length, drop, Option, none, some, ◌⊎◌, inl, inr,
  arith, ◌==◌, if_both, if_known,
}
use upower.Prelude.Int.{ℤ, pos, pos_part, leb_ℤ, ltb_ℤ, eqb_ℤ}
use upower.Hidpp.{
  HidppMessage, device_idx, feature_idx, function_idx, param, is_error, error_code, Polled, ready,
  nothing, poll_failed, ReadResult, bytes, read_failed, Hidraw,
}
use upower.Hidpp.Transport.{
  Error, hidpp_error, Answer, Round, again, done, Verdict, response, ignored, refused, is_hidpp,
  verdict_of, judged, arrived, waited, remaining_time, round, rounds, read_resp, send, cmd,
  discard_messages, write_error, msg_length,
}

-- A message of the device that answers the request.
abbrev pub IsResponse : ℕ → ℕ → ℕ → HidppMessage → Type 0
IsResponse device feature function msg =
    (is_hidpp msg ≡ true)
    × (device_idx msg ≡ device)
    × (feature_idx msg ≡ feature)
    × (function_idx msg ≡ function)

-- A message of the device that refuses the request, with the code.
abbrev pub IsRefusal : ℕ → ℕ → ℕ → ℕ → HidppMessage → Type 0
IsRefusal device feature function code msg =
    (is_error msg ≡ true)
    × (device_idx msg ≡ device)
    × (function_idx msg ≡ feature)
    × (param 0 msg ≡ function)
    × (error_code msg ≡ code)

-- What is known of the message, by the error.
abbrev pub Fits : ℕ → ℕ → ℕ → Option Error → HidppMessage → Type 0
Fits device feature function none msg = IsResponse device feature function msg
Fits device feature function (some (hidpp_error code)) msg =
    IsRefusal device feature function code msg
Fits device feature function (some _) msg = Unit

module _ {O : Type 0} ⦃h : Hidraw O⦄ where
  -- The message is what was read last: at least one byte that the device sent, over what the buffer
  -- held before.
  pub record IsHeard (fd : ℤ) (msg : HidppMessage) (os : O) : Type 0 where
    pub before : O
    pub held : HidppMessage
    pub first : ℕ
    pub rest : List ℕ
    pub sent : h.read fd 20 before ≡ (bytes (first ∷ rest), os)
    pub over : msg ≡ (first ∷ rest) ++ drop (length (first ∷ rest)) held

  -- With an answer, and with an error of HID++, comes a message that was read.
  abbrev pub Hears : ℤ → Option Error → HidppMessage → O → Type 0
  Hears fd none msg os = IsHeard fd msg os
  Hears fd (some (hidpp_error code)) msg os = IsHeard fd msg os
  Hears fd (some _) msg os = Unit

abbrev VerdictFits : ℕ → ℕ → ℕ → Verdict → HidppMessage → Type 0
VerdictFits device feature function response msg = IsResponse device feature function msg
VerdictFits device feature function (refused code) msg = IsRefusal device feature function code msg
VerdictFits device feature function ignored msg = Unit

verdict-Fits :
    (device feature function : ℕ) (msg : HidppMessage)
    → VerdictFits device feature function (verdict_of device feature function msg) msg
unfolding verdict_of
verdict-Fits device feature function msg =
    let P = λ (v : Verdict). VerdictFits device feature function v msg in
    if_known P (not (is_hidpp msg)) (λ _. tt)
      λ typed.
        if_known P (not (device_idx msg == device)) (λ _. tt)
          λ ours.
            if_known P (feature_idx msg == feature && function_idx msg == function)
              (λ same. (
                ground (arith, typed),
                ground (arith, ours),
                ground (arith, same),
                ground (arith, same),
              ))
              λ _.
                if_known P
                  (is_error msg && (function_idx msg == feature && param 0 msg == function))
                  (λ bad. (
                    ground (arith, bad),
                    ground (arith, ours),
                    ground (arith, bad),
                    ground (arith, bad),
                    refl,
                  ))
                  λ _. tt

pub Round-cases :
    {O : Type 0} (r : Round O)
    → ((msg : HidppMessage) × (os : O) × (r ≡ again msg os)) ⊎ ((a : Answer O) × (r ≡ done a))
Round-cases (again msg os) = inl (msg, os, refl)
Round-cases (done a) = inr (a, refl)

module _ {O : Type 0} ⦃h : Hidraw O⦄ (fd : ℤ) (device feature function : ℕ) where
  -- The answer fits, and was read.
  abbrev IsAnswer : Answer O → Type 0
  IsAnswer a = Fits device feature function a.error a.message × Hears fd a.error a.message a.os

  -- An end of the wait fits.
  record RoundFits (r : Round O) : Type 0 where
    fits : (a : Answer O) → r ≡ done a → IsAnswer a

  answer_of : Answer O → Round O → Answer O
  answer_of a (again msg os) = a
  answer_of a (done b) = b

  done-RoundFits : (a : Answer O) → IsAnswer a → RoundFits (done a)
  unfolding answer_of
  done-RoundFits a k = record { fits = λ b e. subst IsAnswer (ap (answer_of a) e) k }

  again-RoundFits : (msg : HidppMessage) (os : O) → RoundFits (again msg os)
  again-RoundFits msg os = record { fits = λ a e. absurd (ground (arith, e)) }

  judged-RoundFits :
      (v : Verdict) (msg : HidppMessage) (os : O)
      → VerdictFits device feature function v msg
      → IsHeard fd msg os
      → RoundFits (judged v msg os)
  judged-RoundFits response msg os k heard = done-RoundFits _ (k, heard)
  judged-RoundFits (refused code) msg os k heard = done-RoundFits _ (k, heard)
  judged-RoundFits ignored msg os k heard = again-RoundFits msg os

  arrived-RoundFits :
      (before : O) (msg : HidppMessage) (result : ReadResult) (os : O)
      → h.read fd 20 before ≡ (result, os)
      → RoundFits (arrived device feature function msg result os)
  arrived-RoundFits before msg (read_failed interrupted) os e =
      if_both RoundFits interrupted (again-RoundFits msg os) (done-RoundFits _ (tt, tt))
  arrived-RoundFits before msg (bytes []) os e = done-RoundFits _ (tt, tt)
  arrived-RoundFits before msg (bytes (b ∷ bs)) os e =
      let now = (b ∷ bs) ++ drop (length (b ∷ bs)) msg in
      judged-RoundFits (verdict_of device feature function now) now os
        (verdict-Fits device feature function now)
        (record { before = before; held = msg; first = b; rest = bs; sent = e; over = refl })

  waited-RoundFits :
      (msg : HidppMessage) (result : Polled) (os : O)
      → RoundFits (waited fd device feature function msg result os)
  waited-RoundFits msg (poll_failed interrupted) os =
      if_both RoundFits interrupted (again-RoundFits msg os) (done-RoundFits _ (tt, tt))
  waited-RoundFits msg nothing os = done-RoundFits _ (tt, tt)
  waited-RoundFits msg ready os =
      let (result, next) = h.read fd 20 os in arrived-RoundFits os msg result next refl

  round-RoundFits :
      (begin_time : ℕ) (msg : HidppMessage) (os : O)
      → RoundFits (round fd device feature function begin_time msg os)
  unfolding round
  round-RoundFits begin_time msg os =
      let (now, timed) = h.monotonic_time os in
      let remaining = remaining_time begin_time now in
      let (result, polled) = h.poll fd (pos_part remaining) timed in
      if_both RoundFits (leb_ℤ remaining (pos 0)) (done-RoundFits _ (tt, tt))
        (waited-RoundFits msg result polled)

  pub step-again :
      (fuel begin_time : ℕ) (msg : HidppMessage) (os : O) (next : HidppMessage) (later : O)
      → round fd device feature function begin_time msg os ≡ again next later
      → rounds (suc fuel) fd device feature function begin_time msg os
        ≡ rounds fuel fd device feature function begin_time next later
  unfolding rounds
  step-again fuel begin_time msg os next later q = rw (q, rounds) refl

  pub step-done :
      (fuel begin_time : ℕ) (msg : HidppMessage) (os : O) (a : Answer O)
      → round fd device feature function begin_time msg os ≡ done a
      → rounds (suc fuel) fd device feature function begin_time msg os ≡ some a
  unfolding rounds
  step-done fuel begin_time msg os a q = rw (q, rounds) refl

  rounds-Fits :
      (fuel begin_time : ℕ) (msg : HidppMessage) (os : O) (a : Answer O)
      → rounds fuel fd device feature function begin_time msg os ≡ some a
      → IsAnswer a
  unfolding rounds
  rounds-Fits zero begin_time msg os a e = absurd (ground (arith, e))
  rounds-Fits (suc fuel) begin_time msg os a e =
      elim (Round-cases (round fd device feature function begin_time msg os)) [
        | inl (next, later, q) ↦
            rounds-Fits fuel begin_time next later a
              (sym (step-again fuel begin_time msg os next later q) ∙ e)
        | inr (b, q) ↦
            (round-RoundFits begin_time msg os).fits a
              (q ∙ ap done (some_inj b (sym (step-done fuel begin_time msg os b q) ∙ e)))
      ]

-- The parts of a request.
abbrev pub FitsRequest : HidppMessage → Option Error → HidppMessage → Type 0
FitsRequest request error msg =
    Fits (device_idx request) (feature_idx request) (function_idx request) error msg

module _ {O : Type 0} ⦃h : Hidraw O⦄ where
  write_error-Fits :
      (fd : ℤ) (request : HidppMessage) (os : O) (wrote : ℤ)
      → FitsRequest request (some (write_error wrote)) request
        × Hears fd (some (write_error wrote)) request os
  write_error-Fits fd request os wrote =
      if_both (λ (e : Error). FitsRequest request (some e) request × Hears fd (some e) request os)
        (ltb_ℤ wrote (pos 0)) (tt, tt) (tt, tt)

module _ {O : Type 0} ⦃h : Hidraw O⦄ where
  pub read_resp-Fits :
      (fuel : ℕ) (fd : ℤ) (device feature function : ℕ) (msg : HidppMessage) (os : O) (a : Answer O)
      → read_resp fuel fd device feature function msg os ≡ some a
      → Fits device feature function a.error a.message × Hears fd a.error a.message a.os
  unfolding read_resp
  read_resp-Fits fuel fd device feature function msg os a e =
      let (begin_time, timed) = h.monotonic_time os in
      rounds-Fits fd device feature function fuel (begin_time / 1000) msg timed a e

  send-Fits :
      (fuel : ℕ) (fd : ℤ) (msg : HidppMessage) (o : Option O)
      → Always
          (λ (a : Answer O). FitsRequest msg a.error a.message × Hears fd a.error a.message a.os)
          (send fuel fd msg o)
  send-Fits fuel fd msg none = none-Always _
  send-Fits fuel fd msg (some os) =
      let P =
        λ (a : Answer O). FitsRequest msg a.error a.message × Hears fd a.error a.message a.os in
      let (wrote, written) = h.write fd (take (msg_length msg) msg) os in
      let answer =
        read_resp fuel fd (device_idx msg) (feature_idx msg) (function_idx msg) msg written in
      if_both (Always P) (not (eqb_ℤ wrote (pos (msg_length msg))))
        (some-Always P (record { error = some (write_error wrote); message = msg; os = written })
          (write_error-Fits fd msg written wrote))
        (record {
          always =
              read_resp-Fits fuel fd (device_idx msg) (feature_idx msg) (function_idx msg) msg
                written;
        })

  -- A request is answered only when the device sent at least one byte: the answer is what it sent,
  -- over what the buffer held, and the result is a message with the index of the device that was
  -- asked, the feature and the function that were asked for. An error of HID++ is reported only for
  -- such a message, if it refuses this request with this code.
  pub cmd-Fits :
      (fuel : ℕ) (fd : ℤ) (msg : HidppMessage) (os : O) (a : Answer O)
      → cmd fuel fd msg os ≡ some a
      → FitsRequest msg a.error a.message × Hears fd a.error a.message a.os
  unfolding cmd
  cmd-Fits fuel fd msg os a e = (send-Fits fuel fd msg (discard_messages fuel fd os)).always a e
