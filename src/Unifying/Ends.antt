-- ===== src/Unifying/Ends.antt =====
-- src/linux/up-device-unifying.c: a refresh of a wireless device comes to an end.
use upower.Prelude.{ℕ, ◌≡◌, refl, true, false, some, ◌⊎◌, inl, inr}
use upower.Floating.{Floating}
use upower.Hidpp.{Private, Hidraw}
use upower.Hidpp.Queries.{Refresh}
use upower.Hidpp.Refresh.{Outcome, returned, fault, out_of_fuel, refresh}
use upower.Hidpp.Time.{IsPunctual}
use upower.Hidpp.Contract.{IsEnough}
use upower.Hidpp.Contract.Result.{Reports, refresh-Reports}
use upower.Unifying.{Unifying, Run, finished, crashed, refresh_flags, refreshed, refresh_unifying}

module _ {D L G O : Type 0} ⦃f : Floating D⦄ where
  -- A function that returns TRUE, or a device below that crashes.
  pub record Ends (r : Run D L G O) (below : Outcome D O) : Type 0 where
    pub ends :
        ((u : Unifying D L G) × (os : O) × (r ≡ finished true u os))
        ⊎ ((r ≡ crashed) × (s : Refresh D O) × (below ≡ fault s))

  refreshed-Ends :
      (real_time : ℕ) (u : Unifying D L G) (below : Outcome D O)
      → Reports below
      → Ends (refreshed real_time u below) below
  refreshed-Ends real_time u (returned true s) h = record { ends = inl (_, _, refl) }
  refreshed-Ends real_time u (returned false s) h = rw h.1 (record { ends = inl (_, _, refl) })
  refreshed-Ends real_time u (fault s) h = record { ends = inr (refl, s, refl) }
  refreshed-Ends real_time u out_of_fuel h = absurd h

module _ {D L G O : Type 0} ⦃f : Floating D⦄ ⦃h : Hidraw O⦄ (laws : IsPunctual O) (fuel : ℕ)
    (enough : IsEnough laws fuel) where
  -- The refresh of a started device comes to an end and returns TRUE, whatever the device answers,
  -- also if the refresh below failed: the text of its error, which is printed then, is always there.
  -- The one exception is a crash in the device below. The clock goes on and the queue is bounded.
  pub refresh_unifying-Ends :
      (real_time : ℕ) (u : Unifying D L G) (p : Private D) (os : O)
      → u.hidpp_device ≡ some p
      → Ends (refresh_unifying fuel real_time u os) (refresh fuel (refresh_flags p) p os)
  unfolding refresh_unifying
  refresh_unifying-Ends real_time u p os e =
      let below = refresh fuel (refresh_flags p) p os in
      simp e
        (refreshed-Ends real_time u below (refresh-Reports laws fuel enough (refresh_flags p) p os))
