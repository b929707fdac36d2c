-- ===== src/History/Recorder/Points.antt =====
-- src/up-history.c: the four functions that add a point to a history, and the one for the state.
use upower.Prelude.{ℕ, Bool, true, false, not, [], ◌∷◌, ◌++◌, if◌then◌else◌}
use upower.Prelude.Int.{ℤ, pos, ltb_ℤ, eqb_ℤ}
use upower.Floating.{Floating}
use upower.Storage.{FloatText, Files}
use upower.MainLoop.{MainLoop}
use upower.Types.{DeviceState, state_eq}
use upower.History.Item.{HistoryItem, new_item, set_time_to_present}
use upower.History.Recorder.{History, Recorder, has_id, schedule_save}

module _ {D : Type 0} ⦃f : Floating D⦄ where
  abbrev pub new_point : D → DeviceState → ℕ → HistoryItem D
  new_point value state now = record (set_time_to_present new_item now) {
    value = value;
    state = state;
  }

  -- Whether a value is taken: the history has an identifier and a state, and the value is not the
  -- one before.
  abbrev pub takes : History D → Bool → Bool
  takes h same =
      if not (has_id h)
      then false
      else if state_eq h.state DeviceState.unknown
      then false
      else if same
      then false
      else true

  -- The tests of the two functions for times, one of which refuses a time below 0.
  abbrev pub takes_time : History D → ℤ → ℤ → Bool
  takes_time h time_s last =
      if not (has_id h)
      then false
      else if state_eq h.state DeviceState.unknown
      then false
      else if ltb_ℤ time_s (pos 0)
      then false
      else if eqb_ℤ last time_s
      then false
      else true

module _ {D L S : Type 0} where
  unfoldable pub set_state : Recorder D L S → DeviceState → Recorder D L S × Bool
  set_state r state =
      if not (has_id r.history)
      then (r, false)
      else (record r { history = record r.history { state = state } }, true)

module _ {D L S : Type 0} ⦃f : Floating D⦄ ⦃x : FloatText D⦄ ⦃fs : Files S⦄ ⦃m : MainLoop L⦄ where
  unfoldable pub set_charge_data : Recorder D L S → D → ℕ → Recorder D L S × Bool
  set_charge_data r percentage now =
      let h = r.history in
      let item = new_point percentage h.state now in
      let added =
        schedule_save
          (record r { history = record h { data_charge = h.data_charge ++ (item ∷ []) } }) now in
      if not (takes h (f.eq h.percentage_last percentage))
      then (r, false)
      else (record added { history = record added.history { percentage_last = percentage } }, true)

  unfoldable pub set_rate_data : Recorder D L S → D → ℕ → Recorder D L S × Bool
  set_rate_data r rate now =
      let h = r.history in
      let item = new_point rate h.state now in
      let added =
        schedule_save (record r { history = record h { data_rate = h.data_rate ++ (item ∷ []) } })
          now in
      if not (takes h (f.eq h.rate_last rate))
      then (r, false)
      else (record added { history = record added.history { rate_last = rate } }, true)

  unfoldable pub set_time_full_data : Recorder D L S → ℤ → ℕ → Recorder D L S × Bool
  set_time_full_data r time_s now =
      let h = r.history in
      let item = new_point (f.of_int time_s) h.state now in
      let added =
        schedule_save
          (record r { history = record h { data_time_full = h.data_time_full ++ (item ∷ []) } })
          now in
      if not (takes_time h time_s h.time_full_last)
      then (r, false)
      else (record added { history = record added.history { time_full_last = time_s } }, true)

  unfoldable pub set_time_empty_data : Recorder D L S → ℤ → ℕ → Recorder D L S × Bool
  set_time_empty_data r time_s now =
      let h = r.history in
      let item = new_point (f.of_int time_s) h.state now in
      let added =
        schedule_save
          (record r { history = record h { data_time_empty = h.data_time_empty ++ (item ∷ []) } })
          now in
      if not (takes_time h time_s h.time_empty_last)
      then (r, false)
      else (record added { history = record added.history { time_empty_last = time_s } }, true)
