-- ===== src/History/Recorder/Pending.antt =====
-- The timer of src/up-history.c that saves a history: at most one, and none that outlives it.
use upower.Prelude.{
  ℕ, ◌≡◌, refl, ◌≢◌, Bool, true, false, not, Option, none, some, arith, ◌==◌, if◌then◌else◌,
  Bool-cases, inl, inr,
}
use upower.Prelude.Int.{ℤ}
use upower.Prelude.Text.{Text}
use upower.Floating.{Floating}
use upower.Storage.{Splitter, FloatText, Files}
use upower.MainLoop.{MainLoop, IsMainLoop, schedule_save_cb}
use upower.Types.{DeviceState}
use upower.History.Recorder.{
  Recorder, save_interval, is_low_power, save_data, has_id, read_files, add_marker, schedule_save,
  fire_save, finalize, load_data, set_id, set_directory, set_max_data_age, new,
}
use upower.History.Recorder.Points.{
  set_state, set_charge_data, set_rate_data, set_time_full_data, set_time_empty_data, takes,
  takes_time,
}

-- The source that the history remembers is in the loop, and no other source would save it.
pub record IsScheduled {L : Type 0} ⦃m : MainLoop L⦄ (self save_id : ℕ) (loop : L) : Type 0 where
  pub live : save_id ≢ 0 → m.source save_id loop ≡ some (schedule_save_cb self)
  pub single : (i : ℕ) → m.source i loop ≡ some (schedule_save_cb self) → i ≡ save_id

abbrev pub IsKept : {D L S : Type 0} ⦃m : MainLoop L⦄ → Recorder D L S → Type 0
IsKept r = IsScheduled r.self r.history.save_id r.loop

-- The first component of a conditional keeps what both its branches keep.
by_test :
    {D L S : Type 0} ⦃m : MainLoop L⦄ (r t : Recorder D L S) (b : Bool)
    → IsKept r
    → IsKept t
    → let (u, ret) : Recorder D L S × Bool = if b then (r, false) else (t, true) in IsKept u
by_test r t true k l = k
by_test r t false k l = l

module _ (D : Type 0) {L S : Type 0} ⦃f : Floating D⦄ ⦃fs : Files S⦄ ⦃m : MainLoop L⦄ where
  new-IsKept :
      (self : ℕ) (dir : Text) (loop : L) (disk : S)
      → ((i : ℕ) → m.source i loop ≢ some (schedule_save_cb self))
      → IsKept (new {D = D} self dir loop disk)
  unfolding new set_directory
  new-IsKept self dir loop disk clear = record {
    live = λ h. absurd (h refl);
    single = λ i h. absurd (clear i h);
  }

module _ {D L S : Type 0} ⦃f : Floating D⦄ ⦃x : FloatText D⦄ ⦃s : Splitter⦄ ⦃fs : Files S⦄
    ⦃m : MainLoop L⦄ where
  -- What can happen to a history: the calls of its functions, and the loop's.
  pub data Step : Recorder D L S → Recorder D L S → Type 0 where
    identify : (r : Recorder D L S) (id : Option Text) (now : ℕ) → Step r (set_id r id now).0
    change_state : (r : Recorder D L S) (state : DeviceState) → Step r (set_state r state).0
    add_charge : (r : Recorder D L S) (value : D) (now : ℕ) → Step r (set_charge_data r value now).0
    add_rate : (r : Recorder D L S) (value : D) (now : ℕ) → Step r (set_rate_data r value now).0
    add_full : (r : Recorder D L S) (time : ℤ) (now : ℕ) → Step r (set_time_full_data r time now).0
    add_empty :
        (r : Recorder D L S) (time : ℤ) (now : ℕ) → Step r (set_time_empty_data r time now).0
    save : (r : Recorder D L S) (now : ℕ) → Step r (save_data r now).0
    move : (r : Recorder D L S) (dir : Text) → Step r (set_directory r dir)
    limit_age : (r : Recorder D L S) (age : ℕ) → Step r (set_max_data_age r age)
    fire :
        (r : Recorder D L S) (now i : ℕ)
        → m.source i r.loop ≡ some (schedule_save_cb r.self)
        → Step r (fire_save r now i)

  pub data Reaches : Recorder D L S → Recorder D L S → Type 0 where
    start : (r : Recorder D L S) → Reaches r r
    next : (r u t : Recorder D L S) → Reaches r u → Step u t → Reaches r t

  module _ (laws : IsMainLoop L) where
    open laws use {source-zero, add-fresh, add-positive, source-add, source-remove}

    schedule_save-IsKept : (r : Recorder D L S) (now : ℕ) → IsKept r → IsKept (schedule_save r now)
    unfolding schedule_save save_data
    schedule_save-IsKept r now k =
        let c = schedule_save_cb r.self in
        elim (Bool-cases (is_low_power r.history)) [
          | inl low ↦ rw low k
          | inr high ↦ elim (Bool-cases (r.history.save_id == 0)) [
            | inl idle ↦ rw high (
                rw idle (record {
                  live = λ h.
                      ground
                        (arith, source-add save_interval c r.loop (m.add save_interval c r.loop).0);
                  single = λ i h.
                      ground (
                        arith,
                        k.single i,
                        source-zero r.loop,
                        source-add save_interval c r.loop i,
                      );
                }))
            | inr busy ↦ rw high (rw busy k)
          ]
        ]

    fire_save-IsKept :
        (r : Recorder D L S) (now i : ℕ)
        → m.source i r.loop ≡ some (schedule_save_cb r.self)
        → IsKept r
        → IsKept (fire_save r now i)
    unfolding fire_save save_data
    fire_save-IsKept r now i e k = record {
      live = λ h. absurd (h refl);
      single = λ j h. ground (arith, k.single i e, k.single j, source-remove i r.loop j);
    }

    set_id-IsKept :
        (r : Recorder D L S) (id : Option Text) (now : ℕ) → IsKept r → IsKept (set_id r id now).0
    unfolding set_id load_data read_files add_marker
    set_id-IsKept r none now k = k
    set_id-IsKept r (some id) now k =
        by_test _ _ (has_id r.history) k (schedule_save-IsKept _ now k)

    Step-IsKept : {r t : Recorder D L S} → Step r t → IsKept r → IsKept t
    unfolding set_state set_charge_data set_rate_data set_time_full_data set_time_empty_data
        save_data set_directory set_max_data_age
    Step-IsKept (identify r id now) k = set_id-IsKept r id now k
    Step-IsKept (change_state r state) k = by_test _ _ (not (has_id r.history)) k k
    Step-IsKept (add_charge r value now) k =
        by_test _ _ (not (takes r.history (f.eq r.history.percentage_last value))) k
          (schedule_save-IsKept _ now k)
    Step-IsKept (add_rate r value now) k =
        by_test _ _ (not (takes r.history (f.eq r.history.rate_last value))) k
          (schedule_save-IsKept _ now k)
    Step-IsKept (add_full r time now) k =
        by_test _ _ (not (takes_time r.history time r.history.time_full_last)) k
          (schedule_save-IsKept _ now k)
    Step-IsKept (add_empty r time now) k =
        by_test _ _ (not (takes_time r.history time r.history.time_empty_last)) k
          (schedule_save-IsKept _ now k)
    Step-IsKept (save r now) k = k
    Step-IsKept (move r dir) k = k
    Step-IsKept (limit_age r age) k = k
    Step-IsKept (fire r now i e) k = fire_save-IsKept r now i e k

    Reaches-IsKept : {r t : Recorder D L S} → Reaches r t → IsKept r → IsKept t
    Reaches-IsKept (start r) k = k
    Reaches-IsKept (next r u t path step) k = Step-IsKept step (Reaches-IsKept path k)

    -- Whatever a new history goes through, at most one source of the loop saves it, and that is
    -- the one that it remembers; when it is freed, no source is left that would call it. The
    -- address of the history is one that no source calls when the history is made.
    pub finalize-calls :
        (self : ℕ) (dir : Text) (loop : L) (disk : S) (r : Recorder D L S) (now i : ℕ)
        → ((i : ℕ) → m.source i loop ≢ some (schedule_save_cb self))
        → Reaches (new self dir loop disk) r
        → IsKept r × (m.source i (finalize r now).0 ≢ some (schedule_save_cb r.self))
    unfolding finalize
    finalize-calls self dir loop disk r now i clear path =
        let k = Reaches-IsKept path (new-IsKept D self dir loop disk clear) in
        (
          k,
          λ h.
              ground
                (arith, k.single i, source-zero r.loop, source-remove r.history.save_id r.loop i),
        )
