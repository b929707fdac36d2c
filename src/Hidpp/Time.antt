-- ===== src/Hidpp/Time.antt =====
-- src/linux/hidpp-device.c: a request comes to an end.
use upower.Prelude.{
  ℕ, zero, suc, ◌++◌, [], take, not, ◌∷◌, length, drop, ap, if_known, ◌+◌, ◌*◌, ◌/◌, ◌≤◌, ◌<◌, ◌≡◌,
  refl, ◌∙◌, subst, true, false, Option, some, inl, inr, arith, Bool-cases, if_both,
}
use upower.Prelude.Int.{ℤ, pos, pos_part, leb_ℤ, eqb_ℤ}
use upower.Hidpp.{
  HidppMessage, device_idx, feature_idx, function_idx, Polled, ready, nothing, poll_failed,
  ReadResult, bytes, read_failed, Hidraw,
}
use upower.Hidpp.Transport.{
  Answer, Round, again, done, Verdict, response, ignored, refused, verdict_of, judged, arrived,
  waited, remaining_time, discarded, has_message, round, rounds, read_resp, send, cmd,
  discard_messages, msg_length,
}
use upower.Hidpp.Responses.{Round-cases, step-again, step-done}

-- A call of the clock, a wait or a read takes its time: less than 27 hours more than it may.
abbrev pub slack : ℕ
slack = 100000000000

-- The clock, in microseconds, never shows the same time twice. What a device has sent fits a queue;
-- each message that is discarded, and each interrupted read, is gone.
pub record IsPunctual (O : Type 0) ⦃h : Hidraw O⦄ : Type 0 where
  pub now : O → ℕ
  pub queued : O → ℕ
  pub most : ℕ
  pub time-now : (os : O) → (h.monotonic_time os).0 ≡ now os
  pub ticks : (os : O) → now os < now (h.monotonic_time os).1
  pub time-soon : (os : O) → now (h.monotonic_time os).1 ≤ now os + slack
  pub poll-later : (fd : ℤ) (t : ℕ) (os : O) → now os ≤ now (h.poll fd t os).1
  pub poll-soon : (fd : ℤ) (t : ℕ) (os : O) → now (h.poll fd t os).1 ≤ now os + (1000 * t + slack)
  pub read-later : (fd : ℤ) (n : ℕ) (os : O) → now os ≤ now (h.read fd n os).1
  pub read-soon : (fd : ℤ) (n : ℕ) (os : O) → now (h.read fd n os).1 ≤ now os + slack
  pub queued-le-most : (os : O) → queued os ≤ most
  pub queued-poll : (fd : ℤ) (t : ℕ) (os : O) → queued (h.poll fd t os).1 ≤ queued os
  pub queued-read :
      (fd : ℤ) (n : ℕ) (os : O)
      → discarded (h.read fd n os).0 ≡ true
      → queued (h.read fd n os).1 < queued os

-- The end of the wait, in microseconds, and the last time at which a round can begin.
abbrev deadline : ℕ → ℕ
deadline begin_time = (begin_time + 3000) * 1000

abbrev latest : ℕ → ℕ
latest begin_time = deadline begin_time + 300003000000

remaining-pos :
    (begin_time now : ℕ)
    → begin_time * 1000 ≤ now
    → now ≤ latest begin_time
    → leb_ℤ (remaining_time begin_time now) (pos 0) ≡ false
    → (now < deadline begin_time) × (pos_part (remaining_time begin_time now) ≤ 3000)
remaining-pos begin_time now h k e = ground arith

module _ {O : Type 0} ⦃h : Hidraw O⦄ (laws : IsPunctual O) (fd : ℤ)
    (device feature function : ℕ) where
  open laws use {now, time-now, ticks, time-soon, poll-later, poll-soon, read-later, read-soon}

  -- Where a round begins.
  record IsSoon (begin_time : ℕ) (os : O) : Type 0 where
    after : begin_time * 1000 ≤ now os
    before : now os ≤ latest begin_time

  -- A round after which the loop goes on begins before the deadline and ends in this span of time.
  record Goes (d t u : ℕ) (r : Round O) : Type 0 where
    goes : (msg : HidppMessage) (os : O) → r ≡ again msg os → (t < d) × (t < now os) × (now os ≤ u)

  os_of : O → Round O → O
  os_of os (again msg later) = later
  os_of os (done a) = os

  again-Goes :
      (d t u : ℕ) (msg : HidppMessage) (os : O)
      → t < d
      → t < now os
      → now os ≤ u
      → Goes d t u (again msg os)
  unfolding os_of
  again-Goes d t u msg os b h k = record {
    goes = λ next later e.
        subst (λ (o : O). (t < d) × (t < now o) × (now o ≤ u)) (ap (os_of os) e) (b, h, k);
  }

  done-Goes : (d t u : ℕ) (a : Answer O) → Goes d t u (done a)
  done-Goes d t u a = record { goes = λ next later e. absurd (ground (arith, e)) }

  judged-Goes :
      (d t u : ℕ) (v : Verdict) (msg : HidppMessage) (os : O)
      → t < d
      → t < now os
      → now os ≤ u
      → Goes d t u (judged v msg os)
  judged-Goes d t u response msg os b h k = done-Goes d t u _
  judged-Goes d t u (refused code) msg os b h k = done-Goes d t u _
  judged-Goes d t u ignored msg os b h k = again-Goes d t u msg os b h k

  arrived-Goes :
      (d t u : ℕ) (msg : HidppMessage) (result : ReadResult) (os : O)
      → t < d
      → t < now os
      → now os ≤ u
      → Goes d t u (arrived device feature function msg result os)
  arrived-Goes d t u msg (read_failed interrupted) os b h k =
      if_both (Goes d t u) interrupted (again-Goes d t u msg os b h k) (done-Goes d t u _)
  arrived-Goes d t u msg (bytes []) os b h k = done-Goes d t u _
  arrived-Goes d t u msg (bytes (c ∷ cs)) os b h k =
      let next = (c ∷ cs) ++ drop (length (c ∷ cs)) msg in
      judged-Goes d t u (verdict_of device feature function next) next os b h k

  waited-Goes :
      (d t u : ℕ) (msg : HidppMessage) (result : Polled) (os : O)
      → t < d
      → t < now os
      → now os + slack ≤ u
      → Goes d t u (waited fd device feature function msg result os)
  waited-Goes d t u msg (poll_failed interrupted) os b l k =
      if_both (Goes d t u) interrupted (again-Goes d t u msg os b l (omega (arith, k)))
        (done-Goes d t u _)
  waited-Goes d t u msg nothing os b l k = done-Goes d t u _
  waited-Goes d t u msg ready os b l k =
      let (result, next) = h.read fd 20 os in
      arrived-Goes d t u msg result next b (omega (arith, l, read-later fd 20 os))
        (omega (arith, k, read-soon fd 20 os))

  round-Goes :
      (begin_time : ℕ) (msg : HidppMessage) (os : O)
      → IsSoon begin_time os
      → Goes
          (deadline begin_time)
          (now os)
          (latest begin_time)
          (round fd device feature function begin_time msg os)
  unfolding round
  round-Goes begin_time msg os soon =
      let (shown, timed) = h.monotonic_time os in
      let remaining = remaining_time begin_time shown in
      let (result, polled) = h.poll fd (pos_part remaining) timed in
      if_known (Goes (deadline begin_time) (now os) (latest begin_time)) (leb_ℤ remaining (pos 0))
        (λ _. done-Goes (deadline begin_time) (now os) (latest begin_time) _)
        λ e.
          let (early, short) =
            remaining-pos begin_time shown (omega (arith, soon.after, time-now os))
              (omega (arith, soon.before, time-now os)) e in
          let t = pos_part remaining in
          waited-Goes (deadline begin_time) (now os) (latest begin_time) msg result polled
            (omega (arith, early, time-now os)) (omega (arith, ticks os, poll-later fd t timed))
            (omega (arith, early, short, time-now os, time-soon os, poll-soon fd t timed))

  rounds-ends :
      (fuel begin_time : ℕ) (msg : HidppMessage) (os : O)
      → IsSoon begin_time os
      → deadline begin_time < now os + fuel
      → 0 < fuel
      → (a : Answer O) × (rounds fuel fd device feature function begin_time msg os ≡ some a)
  rounds-ends zero begin_time msg os soon enough some_fuel = absurd (omega (arith, some_fuel))
  rounds-ends (suc fuel) begin_time msg os soon enough _ =
      elim (Round-cases (round fd device feature function begin_time msg os)) [
        | inl (next, later, q) ↦
            let (early, onward, soon_after) =
              (round-Goes begin_time msg os soon).goes next later q in
            let (a, e) =
              rounds-ends fuel begin_time next later
                (record { after = omega (arith, soon.after, onward); before = soon_after })
                (omega (arith, enough, onward)) (omega (arith, enough, early)) in
            (a, step-again fd device feature function fuel begin_time msg os next later q ∙ e)
        | inr (a, q) ↦ (a, step-done fd device feature function fuel begin_time msg os a q)
      ]

module _ {O : Type 0} ⦃h : Hidraw O⦄ (laws : IsPunctual O) where
  open laws use {queued, most, time-now, ticks, time-soon, queued-le-most, queued-poll, queued-read}

  pub read_resp-ends :
      (fuel : ℕ) (fd : ℤ) (device feature function : ℕ) (msg : HidppMessage) (os : O)
      → 3000000 ≤ fuel
      → (a : Answer O) × (read_resp fuel fd device feature function msg os ≡ some a)
  unfolding read_resp
  read_resp-ends fuel fd device feature function msg os enough =
      let (shown, timed) = h.monotonic_time os in
      rounds-ends laws fd device feature function fuel (shown / 1000) msg timed
        (record {
          after = omega (arith, time-now os, ticks os);
          before = omega (arith, time-now os, time-soon os);
        })
        (omega (arith, time-now os, ticks os, enough)) (omega (arith, enough))

  discard_messages-ends :
      (fuel : ℕ) (fd : ℤ) (os : O)
      → queued os < fuel
      → (later : O) × (discard_messages fuel fd os ≡ some later)
  unfolding discard_messages
  discard_messages-ends zero fd os enough = absurd (omega (arith, enough))
  discard_messages-ends (suc fuel) fd os enough =
      let (result, polled) = h.poll fd 0 os in
      let (got, next) = h.read fd 1 polled in
      elim (Bool-cases (has_message result)) [
        | inr e ↦ rw (e, discard_messages) (polled, refl)
        | inl e ↦ elim (Bool-cases (discarded got)) [
          | inr k ↦ rw (e, k, discard_messages) (next, refl)
          | inl k ↦
              let (later, q) =
                discard_messages-ends fuel fd next
                  (omega (arith, enough, queued-poll fd 0 os, queued-read fd 1 polled k)) in
              rw (e, k, discard_messages) (later, q)
        ]
      ]

  send-ends :
      (fuel : ℕ) (fd : ℤ) (msg : HidppMessage) (os : O)
      → 3000000 ≤ fuel
      → (a : Answer O) × (send fuel fd msg (some os) ≡ some a)
  send-ends fuel fd msg os enough =
      let (wrote, written) = h.write fd (take (msg_length msg) msg) os in
      if_both (λ (o : Option (Answer O)). (a : Answer O) × (o ≡ some a))
        (not (eqb_ℤ wrote (pos (msg_length msg)))) (_, refl)
        (read_resp-ends fuel fd (device_idx msg) (feature_idx msg) (function_idx msg) msg written
          enough)

  -- A request comes to an end, with an answer or with an error, however the device and the signals
  -- behave: where the clock goes on and fewer messages than the fuel are queued, the fuel for the
  -- three seconds of the wait, a microsecond a round, is never used up.
  pub cmd-ends :
      (fuel : ℕ) (fd : ℤ) (msg : HidppMessage) (os : O)
      → 3000000 ≤ fuel
      → most < fuel
      → (a : Answer O) × (cmd fuel fd msg os ≡ some a)
  unfolding cmd
  cmd-ends fuel fd msg os enough room =
      let (later, e) = discard_messages-ends fuel fd os (omega (arith, queued-le-most os, room)) in
      rw e (send-ends fuel fd msg later enough)
