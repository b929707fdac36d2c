-- ===== src/Device/Identity.antt =====
-- src/up-device.c: the identifier of a device, which names its history, and its object path.
use upower.Prelude.{
  ℕ, ◌≡◌, subst, ◌≢◌, Bool, false, not, ◌||◌, [], ◌∷◌, ◌++◌, length, without_last, map, Option,
  none, some, ltb, ◌==◌, if◌then◌else◌, All, All-append, All-map, arith, Bool-cases, inl, inr,
}
use upower.Prelude.Text.{Text, codes}
use upower.Prelude.Text.Decimal.{print_int}
use upower.Floating.{Floating}
use upower.Types.{DeviceKind, kind_eq}
use upower.Types.Names.{kind_to_string}
use upower.Storage.{Free}
use upower.History.Recorder.{base_name}
use upower.Device.{Skeleton}

-- The characters that `g_strdelimit` replaces.
abbrev pub delimiters : Text
delimiters = b'\\' ∷ 9 ∷ 34 ∷ b'?' ∷ 39 ∷ b' ' ∷ b'/' ∷ b',' ∷ b'.' ∷ []

abbrev pub contains : Text → ℕ → Bool
contains [] c = false
contains (d ∷ ds) c = (c == d) || contains ds c

abbrev replace_delimiter : ℕ → ℕ
replace_delimiter c = if contains delimiters c then b'_' else c

-- A part of the identifier, and the dash after it.
abbrev dashed : Text → Text
dashed part = part ++ (b'-' ∷ [])

abbrev long_part : Option Text → Text
long_part none = []
long_part (some s) = if ltb 2 (length s) then dashed s else []

abbrev any_part : Option Text → Text
any_part none = []
any_part (some s) = dashed s

-- The trailing dash goes; nothing at all becomes a generic name.
abbrev sane : Text → Text
sane [] = codes "generic_id"
sane (c ∷ cs) = without_last (c ∷ cs)

module _ {D : Type 0} ⦃f : Floating D⦄ where
  battery_name : Skeleton D → Text
  battery_name s =
      let design = s.energy_full_design in
      long_part s.model
      ++ ((if f.lt (f.lit 0 1) design then dashed (print_int (f.to_uint design)) else [])
          ++ long_part s.serial)

  generic_name : Skeleton D → Text
  generic_name s = any_part s.vendor ++ (any_part s.model ++ any_part s.serial)

  -- `none` is `NULL`: power lines and batteries that are not there have no identifier.
  unfoldable pub get_id : Skeleton D → Option Text
  unfolding battery_name generic_name
  get_id s =
      if kind_eq s.kind DeviceKind.line_power
      then none
      else if kind_eq s.kind DeviceKind.battery
      then (if not s.is_present then none else some (map replace_delimiter (sane (battery_name s))))
      else some (map replace_delimiter (sane (generic_name s)))

-- The four tests of the loop, one after the other.
abbrev valid_byte : ℕ → ℕ
valid_byte c =
    let c1 = if c == b'-' then b'_' else c in
    let c2 = if c1 == b'.' then b'x' else c1 in
    let c3 = if c2 == b':' then b'o' else c2 in if c3 == b'@' then b'_' else c3

-- The last part of the object path, after `UP_DEVICES_DBUS_PATH`; `basename` is the last part of
-- the native path, as `g_path_get_basename` gives it.
unfoldable pub object_name : DeviceKind → Text → Text
object_name kind basename = map valid_byte (kind_to_string kind ++ (b'_' ∷ basename))

abbrev pub IsSafe : Text → Type 0
IsSafe = All (λ c. contains delimiters c ≡ false)

replaced-IsSafe : (t : Text) → IsSafe (map replace_delimiter t)
replaced-IsSafe [] = tt
replaced-IsSafe (c ∷ t) = (ground arith, replaced-IsSafe t)

all_valid :
    (t : Text) → All (λ c. contains (b'-' ∷ b'.' ∷ b':' ∷ b'@' ∷ []) c ≡ false) (map valid_byte t)
all_valid [] = tt
all_valid (c ∷ t) = (ground arith, all_valid t)

module _ {D : Type 0} ⦃f : Floating D⦄ where
  get_id-IsSafe : (s : Skeleton D) (id : Text) → get_id s ≡ some id → IsSafe id
  unfolding get_id
  get_id-IsSafe s id e = elim (Bool-cases (kind_eq s.kind DeviceKind.line_power)) [
    | inl power ↦ absurd (ground (arith, power))
    | inr other ↦ elim (Bool-cases (kind_eq s.kind DeviceKind.battery)) [
      | inl battery ↦ elim (Bool-cases s.is_present) [
        | inl present ↦
            let same : map replace_delimiter (sane (battery_name s)) ≡ id =
              ground (arith, other, battery, present) in
            subst IsSafe same (replaced-IsSafe (sane (battery_name s)))
        | inr gone ↦ absurd (ground (arith, other, battery, gone))
      ]
      | inr generic ↦
          let same : map replace_delimiter (sane (generic_name s)) ≡ id =
            ground (arith, other, generic) in
          subst IsSafe same (replaced-IsSafe (sane (generic_name s)))
    ]
  ]

  -- The files of a device's history stay in the directory of the histories: whatever the device
  -- reports as its vendor, model and serial number, its identifier holds none of the characters
  -- that are replaced, and the names of its files hold no slash. The type is one that has none.
  pub base_name-get_id :
      (s : Skeleton D) (id type : Text)
      → get_id s ≡ some id
      → Free b'/' type
      → IsSafe id × Free b'/' (base_name type id)
  base_name-get_id s id type e plain =
      let safe = get_id-IsSafe s id e in
      let P = λ (c : ℕ). c ≢ b'/' in
      let no_slash : Free b'/' id = All-map id (λ c h k. ground (arith, h, k)) safe in
      (
        safe,
        All-append P (codes "history-") _ (omega arith) (
            All-append P type _ plain (
              All-append P (codes "-") _ (omega arith)
                (All-append P id (codes ".dat") no_slash (omega arith)))),
      )
