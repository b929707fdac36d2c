-- ===== src/Wakeups/Silent.antt =====
-- src/up-wakeups.c: the sources of the main loop that call the object.
use upower.Prelude.{
  ℕ, ◌≡◌, ◌≢◌, Bool, true, false, not, some, Bool-cases, inl, inr, arith, ◌==◌, if_both, if_known,
  ==→eq,
}
use upower.MainLoop.{MainLoop, IsMainLoop, Callback, poll_kernel_cb, poll_userspace_cb, disable_cb}
use upower.Wakeups.{Wakeups}
use upower.Wakeups.Timerstats.{clear_source, restart_timeout, start_polls, timerstats_enable}

module _ {L : Type 0} ⦃m : MainLoop L⦄ where
  -- No source runs the callback.
  abbrev pub HasNone : Callback → L → Type 0
  HasNone f l = (i : ℕ) → m.source i l ≢ some f

  -- A source that runs the callback has this identifier.
  abbrev pub HasOnly : Callback → ℕ → L → Type 0
  HasOnly f k l = (i : ℕ) → m.source i l ≡ some f → i ≡ k

module _ {L : Type 0} ⦃m : MainLoop L⦄ (laws : IsMainLoop L) where
  open laws use {source-zero, source-add, source-remove}

  pub clear-HasNone : (f : Callback) (k : ℕ) (l : L) → HasOnly f k l → HasNone f (clear_source k l)
  clear-HasNone f k l only i e = elim (Bool-cases (k == 0)) [
    | inl zero ↦ ground (arith, zero, only i, source-zero l, e)
    | inr live ↦ ground (arith, live, only i, source-remove k l i, e)
  ]

  pub remove-HasOnly : (f : Callback) (k j : ℕ) (l : L) → HasOnly f k l → HasOnly f k (m.remove j l)
  remove-HasOnly f k j l only i e = ground (arith, only i, source-remove j l i, e)

  pub clear-HasOnly :
      (f : Callback) (k j : ℕ) (l : L) → HasOnly f k l → HasOnly f k (clear_source j l)
  clear-HasOnly f k j l only =
      if_both (HasOnly f k) (not (j == 0)) {x = m.remove j l} {y = l} (remove-HasOnly f k j l only)
        only

  zero-HasNone : (f : Callback) (k : ℕ) (l : L) → k ≡ 0 → HasOnly f k l → HasNone f l
  zero-HasNone f k l zero only i e = ground (arith, zero, only i e, source-zero l, e)

  pub add-HasOnly :
      (s : ℕ) (f : Callback) (l : L) → HasNone f l → HasOnly f (m.add s f l).0 (m.add s f l).1
  add-HasOnly s f l free i e = elim (Bool-cases (i == (m.add s f l).0)) [
    | inl same ↦ ==→eq i _ same
    | inr other ↦ absurd (free i (ground (arith, source-add s f l i, other, e)))
  ]

  add-HasOnly_ne :
      (s : ℕ) (f g : Callback) (k : ℕ) (l : L) → g ≢ f → HasOnly f k l → HasOnly f k (m.add s g l).1
  add-HasOnly_ne s f g k l ne only i e = elim (Bool-cases (i == (m.add s g l).0)) [
    | inl same ↦ absurd (ne (ground (arith, source-add s g l i, same, e)))
    | inr other ↦ only i (ground (arith, source-add s g l i, other, e))
  ]

module _ {D L : Type 0} ⦃m : MainLoop L⦄ where
  -- A source that calls the object is one that it remembers, in the place for what it does; no place
  -- for the polling is taken while nothing is polled.
  pub record IsTimed (w : Wakeups D L) : Type 0 where
    pub kernel : HasOnly (poll_kernel_cb w.address) w.priv.poll_kernel_id w.loop
    pub userspace : HasOnly (poll_userspace_cb w.address) w.priv.poll_userspace_id w.loop
    pub timeout : HasOnly (disable_cb w.address) w.priv.disable_id w.loop
    pub idle :
        w.priv.polling_enabled ≡ false
        → (w.priv.poll_kernel_id ≡ 0) × (w.priv.poll_userspace_id ≡ 0)

-- The three callbacks differ.
kernel_ne : (a b : ℕ) → (disable_cb a ≢ poll_kernel_cb b) × (poll_userspace_cb a ≢ poll_kernel_cb b)
kernel_ne a b = ((λ e. ground (arith, e)), λ e. ground (arith, e))

userspace_ne :
    (a b : ℕ) → (disable_cb a ≢ poll_userspace_cb b) × (poll_kernel_cb a ≢ poll_userspace_cb b)
userspace_ne a b = ((λ e. ground (arith, e)), λ e. ground (arith, e))

timeout_ne : (a b : ℕ) → (poll_kernel_cb a ≢ disable_cb b) × (poll_userspace_cb a ≢ disable_cb b)
timeout_ne a b = ((λ e. ground (arith, e)), λ e. ground (arith, e))

module _ {D L : Type 0} ⦃m : MainLoop L⦄ (laws : IsMainLoop L) where
  restart-IsTimed : (w : Wakeups D L) → IsTimed w → IsTimed (restart_timeout w)
  restart-IsTimed w t =
      let a = w.address in
      let p = w.priv in
      let rest = clear_source p.disable_id w.loop in
      let f = disable_cb a in
      record {
        kernel =
            add-HasOnly_ne laws 30 (poll_kernel_cb a) f p.poll_kernel_id rest (kernel_ne a a).0
              (clear-HasOnly laws (poll_kernel_cb a) p.poll_kernel_id p.disable_id w.loop t.kernel);
        userspace =
            add-HasOnly_ne laws 30 (poll_userspace_cb a) f p.poll_userspace_id rest
              (userspace_ne a a).0
              (clear-HasOnly laws (poll_userspace_cb a) p.poll_userspace_id p.disable_id w.loop
                t.userspace);
        timeout = add-HasOnly laws 30 f rest (clear-HasNone laws f p.disable_id w.loop t.timeout);
        idle = t.idle;
      }

  polls-IsTimed :
      (w : Wakeups D L) → w.priv.polling_enabled ≡ false → IsTimed w → IsTimed (start_polls w)
  polls-IsTimed w off t =
      let a = w.address in
      let p = w.priv in
      let (k, l) = m.add 2 (poll_kernel_cb a) w.loop in
      let (no_kernel, no_userspace) = t.idle off in
      record {
        kernel =
            add-HasOnly_ne laws 2 (poll_kernel_cb a) (poll_userspace_cb a) k l (kernel_ne a a).1 (
              add-HasOnly laws 2 (poll_kernel_cb a) w.loop
                (zero-HasNone laws (poll_kernel_cb a) p.poll_kernel_id w.loop no_kernel t.kernel));
        userspace = add-HasOnly laws 2 (poll_userspace_cb a) l (
            zero-HasNone laws (poll_userspace_cb a) p.poll_userspace_id l no_userspace (
              add-HasOnly_ne laws 2 (poll_userspace_cb a) (poll_kernel_cb a) p.poll_userspace_id
                w.loop (userspace_ne a a).1 t.userspace));
        timeout =
            add-HasOnly_ne laws 2 (disable_cb a) (poll_userspace_cb a) p.disable_id l
              (timeout_ne a a).1
              (add-HasOnly_ne laws 2 (disable_cb a) (poll_kernel_cb a) p.disable_id w.loop
                (timeout_ne a a).0 t.timeout);
        idle = λ e. absurd (ground (arith, e));
      }

  pub enable-IsTimed :
      (opens : Bool) (w : Wakeups D L) → IsTimed w → IsTimed (timerstats_enable opens w).0
  unfolding timerstats_enable
  enable-IsTimed opens w t =
      let timed = restart_timeout w in
      let v = restart-IsTimed w t in
      let P = λ (r : Wakeups D L × Bool). IsTimed r.0 in
      if_known P w.priv.polling_enabled {x = (timed, true)} (λ on. v)
        λ off.
          if_both P (not opens) {x = (timed, false)} {y = (start_polls timed, true)} v
            (polls-IsTimed timed off v)
