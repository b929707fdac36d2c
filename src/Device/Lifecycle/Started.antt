-- ===== src/Device/Lifecycle/Started.antt =====
-- src/up-device.c: which devices are on the bus, and whose history they have.
use upower.Prelude.{
  ℕ, ◌≡◌, refl, ◌∙◌, Bool, true, false, String, Option, none, some, ◌⊎◌, inl, inr, Bool-cases,
  if◌then◌else◌, if_known, sym,
}
use upower.Prelude.Text.{Text}
use upower.Floating.{Floating}
use upower.Storage.{FloatText, Splitter, Files}
use upower.MainLoop.{MainLoop}
use upower.History.Recorder.{Recorder, set_id}
use upower.Device.Identity.{get_id, object_name}
use upower.Device.Lifecycle.{
  Object, Methods, devices_path, call, refresh_internal, register_device, registered, with_history,
  plugged, coldplug, saved,
}

if_is_true {ℓ} : {A : Type ℓ} (b : Bool) (x y : A) → b ≡ true → (if b then x else y) ≡ x
if_is_true b x y e = rw e refl

if_is_false {ℓ} : {A : Type ℓ} (b : Bool) (x y : A) → b ≡ false → (if b then x else y) ≡ y
if_is_false b x y e = rw e refl

module _ {D L S X : Type 0} where
  -- Where a device is: on the bus, and in a daemon.
  abbrev IsSame : Object D L S X → Object D L S X → Type 0
  IsSame before o = (o.object_path ≡ before.object_path) × (o.daemon ≡ before.daemon)

  -- What the kinds of device rely on: their methods do not put the device on the bus.
  pub record IsPlaceless (klass : Methods D L S X) : Type 0 where
    pub coldplug_same :
        (method : Object D L S X → Object D L S X × Bool) (o : Object D L S X)
        → klass.coldplug_method ≡ some method
        → IsSame o (method o).0
    pub refresh_same :
        (method : Object D L S X → Object D L S X × Bool) (o : Object D L S X)
        → klass.refresh_method ≡ some method
        → IsSame o (method o).0

  call-IsSame :
      (method : Option (Object D L S X → Object D L S X × Bool)) (missing : Bool)
      (o : Object D L S X)
      → ((f : Object D L S X → Object D L S X × Bool) → method ≡ some f → IsSame o (f o).0)
      → IsSame o (call method missing o).0
  call-IsSame none missing o same = (refl, refl)
  call-IsSame (some method) missing o same = same method refl

  refresh_internal-IsSame :
      (klass : Methods D L S X) (o : Object D L S X)
      → IsPlaceless klass
      → IsSame o (refresh_internal klass o).0
  unfolding refresh_internal
  refresh_internal-IsSame klass o placeless =
      let same =
        call-IsSame klass.refresh_method false o (λ method e. placeless.refresh_same method o e) in
      elim (Bool-cases (call klass.refresh_method false o).1) [
        | inl ok ↦ rw ok same
        | inr failed ↦ rw failed same
      ]

module _ {D L S X : Type 0} ⦃f : Floating D⦄ ⦃x : FloatText D⦄ ⦃sp : Splitter⦄ ⦃fs : Files S⦄
    ⦃m : MainLoop L⦄ where
  -- The history after a first refresh, with its result.
  abbrev IsLoaded : ℕ → Object D L S X × Bool → Recorder D L S → Type 0
  IsLoaded now (refreshed, ok) history =
      ((ok ≡ false) × (history ≡ refreshed.history))
      ⊎ ((ok ≡ true) × (get_id refreshed.skeleton ≡ none) × (history ≡ refreshed.history))
      ⊎ ((ok ≡ true)
          × ((id : Text) × (get_id refreshed.skeleton ≡ some id)
              × (history ≡ (set_id refreshed.history (some id) now).0)))

  -- What holds after a start: the device before, with the result of its own start, and the device
  -- after, with the result.
  abbrev pub IsOnBus :
      (Text → Bool)
      → Methods D L S X
      → Text
      → ℕ
      → ℕ
      → Object D L S X
      → Object D L S X × Bool
      → Object D L S X × Bool
      → Type 0
  IsOnBus bus klass basename now daemon before (called, true) (o, result) =
      let path = devices_path (object_name o.skeleton.kind basename) in
      (result ≡ true)
      × (o.object_path ≡ (if bus path then some path else before.object_path))
      × (o.daemon ≡ some daemon)
      × IsLoaded now (refresh_internal klass called) o.history
  IsOnBus bus klass basename now daemon before (called, false) (o, result) =
      (result ≡ false) × (o ≡ called) × (o.object_path ≡ before.object_path)

  module _ (bus : Text → Bool) (klass : Methods D L S X) (basename : Text) (now daemon : ℕ)
      (before : Object D L S X) where
    abbrev IsPlaced : Object D L S X × Bool → Object D L S X × Bool → Type 0
    IsPlaced r (o, result) =
        let path = devices_path (object_name o.skeleton.kind basename) in
        (result ≡ true)
        × (o.object_path ≡ (if bus path then some path else before.object_path))
        × (o.daemon ≡ some daemon)
        × IsLoaded now r o.history

    register_device-IsPlaced :
        (r : Object D L S X × Bool) (o : Object D L S X)
        → o.object_path ≡ before.object_path
        → o.daemon ≡ some daemon
        → IsLoaded now r o.history
        → IsPlaced r (register_device bus basename o)
    unfolding register_device
    register_device-IsPlaced r o p d loaded =
        let path = devices_path (object_name o.skeleton.kind basename) in
        if_known (λ (t : Object D L S X). IsPlaced r (t, true)) (bus path)
          {x = record o { object_path = some path }} {y = o}
          (λ put. (refl, sym (if_is_true (bus path) _ _ put), d, loaded))
          λ failed. (refl, p ∙ sym (if_is_false (bus path) _ _ failed), d, loaded)

    loaded-IsPlaced :
        (o : Object D L S X) (id : Option Text)
        → get_id o.skeleton ≡ id
        → o.object_path ≡ before.object_path
        → o.daemon ≡ some daemon
        → IsPlaced (o, true) (register_device bus basename (with_history now o id))
    loaded-IsPlaced o none nameless p d =
        register_device-IsPlaced (o, true) o p d (inr (inl (refl, nameless, refl)))
    loaded-IsPlaced o (some id) named p d =
        register_device-IsPlaced (o, true) (with_history now o (some id)) p d
          (inr (inr (refl, (id, named, refl))))

    registered-IsPlaced :
        (o : Object D L S X) (ret : Bool)
        → o.object_path ≡ before.object_path
        → o.daemon ≡ some daemon
        → IsPlaced (o, ret) (registered bus now basename (o, ret))
    registered-IsPlaced o false p d = register_device-IsPlaced (o, false) o p d (inl (refl, refl))
    registered-IsPlaced o true p d = loaded-IsPlaced o (get_id o.skeleton) refl p d

    plugged-IsOnBus :
        (called : Object D L S X) (ret : Bool)
        → IsPlaceless klass
        → called.object_path ≡ before.object_path
        → called.daemon ≡ some daemon
        → IsOnBus bus klass basename now daemon before
            (called, ret)
            (plugged bus klass now basename (called, ret))
    plugged-IsOnBus called false placeless p d = (refl, refl, p)
    plugged-IsOnBus called true placeless p d =
        let (path, known) = refresh_internal-IsSame klass called placeless in
        let (refreshed, ok) = refresh_internal klass called in
        registered-IsPlaced refreshed ok (path ∙ p) (known ∙ d)

  -- A device is started exactly if its own start succeeds, even if its first refresh fails, or the
  -- bus refuses it: it is then with the daemon that started it, and on the bus under the path of its
  -- kind and its native path, unless the bus refuses that. Its history is loaded under its own
  -- identifier exactly if the refresh succeeds and there is an identifier, and otherwise is as the
  -- refresh left it. A device that is refused is as its own start left it, and not put on the bus.
  -- The methods of the kinds of device do not put the device on the bus.
  pub coldplug-IsOnBus :
      (bus : Text → Bool) (klass : Methods D L S X) (daemon native : ℕ)
      (native_path : Option String) (basename : Text) (now : ℕ) (o : Object D L S X)
      → IsPlaceless klass
      → IsOnBus bus klass basename now daemon o
          (call klass.coldplug_method true (saved daemon native native_path o))
          (coldplug bus klass daemon native native_path basename now o)
  unfolding coldplug
  coldplug-IsOnBus bus klass daemon native native_path basename now o placeless =
      let before = saved daemon native native_path o in
      let (path, known) =
        call-IsSame klass.coldplug_method true before
          (λ method e. placeless.coldplug_same method before e) in
      let (called, ret) = call klass.coldplug_method true before in
      plugged-IsOnBus bus klass basename now daemon o called ret placeless path known
