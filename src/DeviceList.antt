-- ===== src/DeviceList.antt =====
-- src/up-device-list.c: the devices that the daemon knows, with the references that the list
-- holds. A device is a number, its address; `Refs` counts the references to each.
pub mod Lookup
pub mod References
use text.Mathlib.Text.{◌==◌ as str_eq}
use upower.Prelude.{
  ℕ, ◌+◌, ◌-◌, Bool, true, false, String, Option, none, some, List, [], ◌∷◌, ◌++◌, ltb, ◌==◌,
  if◌then◌else◌,
}

abbrev pub Refs : Type 0
Refs = ℕ → ℕ

abbrev pub object_ref : ℕ → Refs → Refs
object_ref d r = λ x. if x == d then r x + 1 else r x

abbrev pub object_unref : ℕ → Refs → Refs
object_unref d r = λ x. if x == d then r x - 1 else r x

-- `UpDeviceListPrivate`; the hash table is a list with one entry for each path.
pub record DeviceList : Type 0 where
  pub array : List ℕ
  pub map_native_path_to_device : List (String × ℕ)

unfoldable pub map_lookup : String → List (String × ℕ) → Option ℕ
map_lookup path [] = none
map_lookup path ((p, d) ∷ m) = if str_eq p path then some d else map_lookup path m

-- `g_hash_table_insert` replaces the value of a key that is there, and drops its reference.
map_insert : String → ℕ → List (String × ℕ) → Refs → List (String × ℕ) × Refs
map_insert path d [] r = ((path, d) ∷ [], r)
map_insert path d ((p, e) ∷ m) r =
    let rest = map_insert path d m r in
    if str_eq p path then ((p, d) ∷ m, object_unref e r) else ((p, e) ∷ rest.0, rest.1)

-- `g_hash_table_foreach_remove` with `up_device_list_remove_cb`.
map_remove : ℕ → List (String × ℕ) → Refs → List (String × ℕ) × Refs
map_remove d [] r = ([], r)
map_remove d ((p, e) ∷ m) r =
    let rest = map_remove d m r in
    if e == d then (rest.0, object_unref e rest.1) else ((p, e) ∷ rest.0, rest.1)

-- `g_ptr_array_remove` takes out the first occurrence.
array_remove : ℕ → List ℕ → Refs → List ℕ × Refs
array_remove d [] r = ([], r)
array_remove d (x ∷ xs) r =
    let rest = array_remove d xs r in
    if x == d then (xs, object_unref x r) else (x ∷ rest.0, rest.1)

unref_all : List ℕ → Refs → Refs
unref_all [] r = r
unref_all (x ∷ xs) r = unref_all xs (object_unref x r)

unref_values : List (String × ℕ) → Refs → Refs
unref_values [] r = r
unref_values ((p, d) ∷ m) r = unref_values m (object_unref d r)

take_ref : Option ℕ → Refs → Option ℕ × Refs
take_ref none r = (none, r)
take_ref (some d) r = (some d, object_ref d r)

unfoldable pub new : DeviceList
new = record { array = []; map_native_path_to_device = [] }

-- The path is that of the native object, `none` where it has none.
unfoldable pub lookup : DeviceList → Option String → Refs → Option ℕ × Refs
unfolding take_ref map_lookup
lookup list none r = (none, r)
lookup list (some path) r = take_ref (map_lookup path list.map_native_path_to_device) r

unfoldable pub insert : DeviceList → Option String → ℕ → Refs → DeviceList × Refs × Bool
unfolding map_insert
insert list none device r = (list, r, false)
insert list (some path) device r =
    let (m, r') = map_insert path device list.map_native_path_to_device (object_ref device r) in
    (
      record { array = list.array ++ (device ∷ []); map_native_path_to_device = m },
      object_ref device r',
      true,
    )

-- The result is `false` where the last reference to the device was the list's own.
unfoldable pub remove : DeviceList → ℕ → Refs → DeviceList × Refs × Bool
unfolding map_remove array_remove
remove list device r =
    let (m, r') = map_remove device list.map_native_path_to_device r in
    let (a, r'') = array_remove device list.array r' in
    (record { array = a; map_native_path_to_device = m }, r'', ltb 0 (r'' device))

unfoldable pub clear : DeviceList → Bool → Refs → DeviceList × Refs
unfolding unref_all unref_values
clear list unref_it r =
    let r' = if unref_it then unref_all list.array r else r in
    (
      record { array = []; map_native_path_to_device = [] },
      unref_all list.array (unref_values list.map_native_path_to_device r'),
    )
