-- ===== src/History/Recorder/Accepted.antt =====
-- src/up-history.c: what becomes of a point that a history takes, and of one that it refuses.
use upower.Prelude.{
  ℕ, ◌≡◌, refl, ◌⊎◌, inl, inr, Bool, true, false, ◌==◌, ==_refl, [], ◌∷◌, ◌++◌, some, arith,
  Bool-cases, ap,
}
use upower.Prelude.Int.{ℤ, pos, ltb_ℤ, eqb_ℤ_refl}
use upower.Floating.{Floating}
use upower.Storage.{FloatText, Files}
use upower.MainLoop.{MainLoop, IsMainLoop, schedule_save_cb}
use upower.Types.{DeviceState, state_eq}
use upower.History.Recorder.{
  History, Recorder, has_id, save_data, schedule_save, is_low_power, save_interval,
}
use upower.History.Recorder.Pending.{IsKept}
use upower.History.Recorder.Points.{takes, takes_time, new_point, set_charge_data}

module _ {D : Type 0} ⦃f : Floating D⦄ where
  takes_same : (h : History D) (same : Bool) → same ≡ true → takes h same ≡ false
  takes_same h same e = elim (Bool-cases (has_id h)) [
    | inl named ↦ elim (Bool-cases (state_eq h.state DeviceState.unknown)) [
      | inl unknown ↦ rw (named, unknown) refl
      | inr known ↦ rw (named, known, e) refl
    ]
    | inr nameless ↦ rw nameless refl
  ]

  takes_time_same : (h : History D) (time : ℤ) → takes_time h time time ≡ false
  takes_time_same h time = elim (Bool-cases (has_id h)) [
    | inl named ↦ elim (Bool-cases (state_eq h.state DeviceState.unknown)) [
      | inl unknown ↦ rw (named, unknown) refl
      | inr known ↦ elim (Bool-cases (ltb_ℤ time (pos 0))) [
        | inl below ↦ rw (named, known, below) refl
        | inr above ↦ rw (named, known, above, eqb_ℤ_refl time) refl
      ]
    ]
    | inr nameless ↦ rw nameless refl
  ]

module _ {D L S : Type 0} ⦃f : Floating D⦄ ⦃x : FloatText D⦄ ⦃fs : Files S⦄ ⦃m : MainLoop L⦄ where
  pub schedule_save_keeps :
      (r : Recorder D L S) (now : ℕ)
      → (schedule_save r now).history
        ≡ record r.history { save_id = (schedule_save r now).history.save_id }
  unfolding schedule_save save_data
  schedule_save_keeps r now = elim (Bool-cases (is_low_power r.history)) [
    | inl low ↦ rw low refl
    | inr high ↦ elim (Bool-cases (r.history.save_id == 0)) [
      | inl idle ↦ rw (high, idle) refl
      | inr busy ↦ rw (high, busy) refl
    ]
  ]

  module _ (laws : IsMainLoop L) where
    -- What a scheduled save comes to.
    abbrev IsSaving : Recorder D L S → Recorder D L S → ℕ → Type 0
    IsSaving r t now =
        ((is_low_power r.history ≡ false)
          × (m.source t.history.save_id t.loop ≡ some (schedule_save_cb r.self))
          × (t.disk ≡ r.disk))
        ⊎ ((is_low_power r.history ≡ true)
            × (t.disk ≡ (save_data r now).0.disk)
            × (t.history.save_id ≡ r.history.save_id)
            × (t.loop ≡ r.loop))

    schedule_save-IsSaving :
        (r : Recorder D L S) (now : ℕ) → IsKept r → IsSaving r (schedule_save r now) now
    unfolding schedule_save save_data
    schedule_save-IsSaving r now k =
        let c = schedule_save_cb r.self in
        elim (Bool-cases (is_low_power r.history)) [
          | inl low ↦ rw low (inr (refl, refl, refl, refl))
          | inr high ↦ elim (Bool-cases (r.history.save_id == 0)) [
            | inl idle ↦
                rw (high, idle)
                  (inl (
                    refl,
                    ground (
                      arith,
                      laws.source-add save_interval c r.loop (m.add save_interval c r.loop).0,
                    ),
                    refl,
                  ))
            | inr busy ↦ rw (high, busy) (inl (refl, k.live (λ e. ground (arith, ==_refl 0)), refl))
          ]
        ]

    -- A percentage that is taken is the last point of its array, the value that the next one is
    -- compared with, and on its way to the disk: while the battery is not low, nothing is written and
    -- a source of the loop will save the history; if it is low, the saving is tried at once, and no
    -- source is added. The rest of the history stays as it was. The
    -- source that the history remembers, if any, is in the loop before.
    pub set_charge_data_saves :
        (r : Recorder D L S) (percentage : D) (now : ℕ)
        → IsKept r
        → (set_charge_data r percentage now).1 ≡ true
        → let h = r.history in
          let t = (set_charge_data r percentage now).0 in
          let item = new_point percentage h.state now in
          let added = record h { data_charge = h.data_charge ++ (item ∷ []) } in
          (t.history ≡ record added { percentage_last = percentage; save_id = t.history.save_id })
          × IsSaving (record r { history = added }) t now
    unfolding set_charge_data
    set_charge_data_saves r percentage now k e =
        let item = new_point percentage r.history.state now in
        let added = record r {
          history = record r.history { data_charge = r.history.data_charge ++ (item ∷ []) };
        } in
        elim (Bool-cases (takes r.history (f.eq r.history.percentage_last percentage))) [
          | inl taken ↦ rw taken (
            ap (λ (g : History D). record g { percentage_last = percentage })
                (schedule_save_keeps added now),
            schedule_save-IsSaving added now k,
          )
          | inr refused ↦ absurd (ground (arith, refused))
        ]
