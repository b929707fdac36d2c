-- ===== src/Supply/Battery/Kept.antt =====
-- src/linux/up-device-supply.c: what the refresh of a battery keeps of its private state.
use upower.Prelude.{◌≡◌, refl, ◌∙◌, if_both, arith}
use upower.Prelude.Int.{ℤ}
use upower.Prelude.Text.{Text}
use upower.Floating.{Floating}
use upower.Storage.{Files}
use upower.Types.{DeviceState}
use upower.Device.{Skeleton}
use upower.Supply.{Private, Surroundings, AsciiText}
use upower.Supply.Sysfs.{AsciiDouble}
use upower.Supply.Rate.{push_new_energy, calculate_rate}
use upower.Supply.Rate.Ring.{IsRing, push_new_energy-IsRing, calculate_rate-IsRing}
use upower.Supply.Battery.{Reading, clear_energies, choose_rate, measure, remember}
use upower.Supply.Battery.Initial.{InitialValues, initial, initial_values, known_values}

-- The fields of the faster polling.
pub record IsSamePoll {D : Type 0} (p q : Private D) : Type 0 where
  pub poll_timer_id : q.poll_timer_id ≡ p.poll_timer_id
  pub unknown_retries : q.unknown_retries ≡ p.unknown_retries
  pub last_unknown_retry : q.last_unknown_retry ≡ p.last_unknown_retry
  pub disable_battery_poll : q.disable_battery_poll ≡ p.disable_battery_poll

module _ {D : Type 0} where
  trans : {p q r : Private D} → IsSamePoll p q → IsSamePoll q r → IsSamePoll p r
  trans a b = record {
    poll_timer_id = b.poll_timer_id ∙ a.poll_timer_id;
    unknown_retries = b.unknown_retries ∙ a.unknown_retries;
    last_unknown_retry = b.last_unknown_retry ∙ a.last_unknown_retry;
    disable_battery_poll = b.disable_battery_poll ∙ a.disable_battery_poll;
  }

  -- The rings of two states that share the buffer.
  pub IsRing_same :
      (p q : Private D)
      → q.energy_old ≡ p.energy_old
      → q.energy_old_timespec ≡ p.energy_old_timespec
      → q.energy_old_first ≡ p.energy_old_first
      → IsRing p
      → IsRing q
  IsRing_same p q e t i v = record {
    energies = rw e v.energies;
    times = rw t v.times;
    position = rw i v.position;
  }

-- The polling and the ring at once.
pub record IsCarried {D : Type 0} (p q : Private D) : Type 0 where
  pub poll : IsSamePoll p q
  pub ring : IsRing p → IsRing q

module _ {D : Type 0} where
  carry_same :
      (p q : Private D)
      → q.poll_timer_id ≡ p.poll_timer_id
      → q.unknown_retries ≡ p.unknown_retries
      → q.last_unknown_retry ≡ p.last_unknown_retry
      → q.disable_battery_poll ≡ p.disable_battery_poll
      → (IsRing p → IsRing q)
      → IsCarried p q
  carry_same p q id retries last disabled ring = record {
    poll = record {
      poll_timer_id = id;
      unknown_retries = retries;
      last_unknown_retry = last;
      disable_battery_poll = disabled;
    };
    ring = ring;
  }

  carry_on : {p q r : Private D} → IsCarried p q → IsCarried q r → IsCarried p r
  carry_on a b = record { poll = trans a.poll b.poll; ring = λ v. b.ring (a.ring v) }

module _ {D : Type 0} ⦃f : Floating D⦄ where
  push-IsSamePoll :
      (p : Private D) (energy : D) (time : ℤ) → IsSamePoll p (push_new_energy p energy time).0
  unfolding push_new_energy
  push-IsSamePoll p energy time = record {
    poll_timer_id = ground arith;
    unknown_retries = ground arith;
    last_unknown_retry = ground arith;
    disable_battery_poll = ground arith;
  }

  calculate-IsSamePoll :
      (p : Private D) (energy : D) (time : ℤ) → IsSamePoll p (calculate_rate p energy time).0
  unfolding calculate_rate
  calculate-IsSamePoll p energy time =
      let same = push-IsSamePoll p energy time in
      record {
        poll_timer_id = ground (arith, same.poll_timer_id);
        unknown_retries = ground (arith, same.unknown_retries);
        last_unknown_retry = ground (arith, same.last_unknown_retry);
        disable_battery_poll = ground (arith, same.disable_battery_poll);
      }

  choose_rate-IsCarried :
      (p : Private D) (reported energy : D) (time : ℤ)
      → IsCarried p (choose_rate p reported energy time).0
  unfolding choose_rate
  choose_rate-IsCarried p reported energy time =
      if_both (λ (q : Private D × D). IsCarried p q.0) _ {x = calculate_rate p energy time}
        (record {
          poll = calculate-IsSamePoll p energy time;
          ring = calculate_rate-IsRing p energy time;
        })
        (carry_same p p refl refl refl refl (λ v. v))

  clear-IsCarried : (p : Private D) → IsCarried p (clear_energies p)
  clear-IsCarried p =
      carry_same p _ refl refl refl refl
        (λ v. record { energies = refl; times = refl; position = omega arith })

  rated-IsCarried :
      (r : Reading D) (p : Private D) → IsCarried p (record p { rate_old = r.energy_rate })
  rated-IsCarried r p = carry_same p _ refl refl refl refl (IsRing_same p _ refl refl refl)

  remember-IsCarried :
      (old : DeviceState) (r : Reading D) (time : ℤ) (p : Private D)
      → IsCarried p (remember old r time p)
  unfolding remember
  remember-IsCarried old r time p =
      let pushed : IsCarried p (push_new_energy p r.energy time).0 = record {
        poll = push-IsSamePoll p r.energy time;
        ring = push_new_energy-IsRing p r.energy time;
      } in
      let rated =
        if_both (IsCarried p) (push_new_energy p r.energy time).1
          (carry_on pushed (rated-IsCarried r _)) pushed in
      if_both (IsCarried p) _ (carry_on rated (clear-IsCarried _)) rated

module _ {D S : Type 0} ⦃f : Floating D⦄ ⦃n : AsciiDouble D⦄ ⦃a : AsciiText⦄ ⦃fs : Files S⦄ where
  initial_values-IsCarried :
      (disk : S) (path : Text) (charge_full : D) (p : Private D) (s : Skeleton D)
      → IsCarried p (initial_values disk path charge_full p s).priv
  unfolding initial_values
  initial_values-IsCarried disk path charge_full p s =
      carry_same p _ refl refl refl refl (IsRing_same p _ refl refl refl)

  initial-IsCarried :
      (disk : S) (path : Text) (charge_full : D) (p : Private D) (s : Skeleton D)
      → IsCarried p (initial disk path charge_full p s).priv
  unfolding initial
  initial-IsCarried disk path charge_full p s =
      if_both (λ (i : InitialValues D). IsCarried p i.priv) _ {x = known_values p s}
        {y = initial_values disk path charge_full p s} (carry_same p p refl refl refl refl (λ v. v))
        (initial_values-IsCarried disk path charge_full p s)

  -- From the state before the refresh to the one that the faster polling starts from.
  pub refreshed-IsCarried :
      (env : Surroundings D S) (path : Text) (charge_full : D) (p : Private D) (s : Skeleton D)
      → let i = initial env.disk path charge_full p s in
        let (q, r) = measure env path charge_full i in
        IsCarried p (remember i.skeleton.state r env.push_time q)
  unfolding measure
  refreshed-IsCarried env path charge_full p s =
      carry_on (initial-IsCarried env.disk path charge_full p s) (
        carry_on (choose_rate-IsCarried _ _ _ env.rate_time)
          (remember-IsCarried _ _ env.push_time _))
