-- ===== src/DeviceList/References.antt =====
-- The references that the operations of src/up-device-list.c take and give back.
use upower.Prelude.{
  ℕ, ◌+◌, ◌-◌, ◌≤◌, ◌≡◌, refl, String, List, [], ◌∷◌, ◌++◌, arith, ◌==◌, if◌then◌else◌,
}
use upower.DeviceList.{
  DeviceList, Refs, map_insert, map_remove, array_remove, unref_all, unref_values, remove,
}

abbrev pub in_array : ℕ → List ℕ → ℕ
in_array x [] = 0
in_array x (d ∷ l) = (if x == d then 1 else 0) + in_array x l

abbrev pub in_map : ℕ → List (String × ℕ) → ℕ
in_map x [] = 0
in_map x ((p, d) ∷ m) = (if x == d then 1 else 0) + in_map x m

-- The references to a device that the list holds.
abbrev pub held : DeviceList → ℕ → ℕ
held list x = in_array x list.array + in_map x list.map_native_path_to_device

in_array-append : (x : ℕ) (l k : List ℕ) → in_array x (l ++ k) ≡ in_array x l + in_array x k
in_array-append x [] k = omega arith
in_array-append x (d ∷ l) k = omega (arith, in_array-append x l k)

map_insert_refs :
    (path : String) (d : ℕ) (m : List (String × ℕ)) (r : Refs) (x : ℕ)
    → in_map x m ≤ r x
    → (map_insert path d m r).1 x + in_map x m + (if x == d then 1 else 0)
      ≡ r x + in_map x (map_insert path d m r).0
unfolding map_insert
map_insert_refs path d [] r x h = ground arith
map_insert_refs path d ((p, e) ∷ m) r x h = ground (arith, map_insert_refs path d m r x)

map_remove_refs :
    (d : ℕ) (m : List (String × ℕ)) (r : Refs) (x : ℕ)
    → in_map x m ≤ r x
    → (map_remove d m r).1 x + in_map x m ≡ r x + in_map x (map_remove d m r).0
unfolding map_remove
map_remove_refs d [] r x h = refl
map_remove_refs d ((p, e) ∷ m) r x h = ground (arith, map_remove_refs d m r x)

array_remove_refs :
    (d : ℕ) (l : List ℕ) (r : Refs) (x : ℕ)
    → in_array x l ≤ r x
    → (array_remove d l r).1 x + in_array x l ≡ r x + in_array x (array_remove d l r).0
unfolding array_remove
array_remove_refs d [] r x h = refl
array_remove_refs d (e ∷ l) r x h = ground (arith, array_remove_refs d l r x)

unref_all_refs :
    (l : List ℕ) (r : Refs) (x : ℕ) → in_array x l ≤ r x → unref_all l r x + in_array x l ≡ r x
unfolding unref_all
unref_all_refs [] r x h = omega arith
unref_all_refs (d ∷ l) r x h =
    ground (arith, unref_all_refs l (λ y. if y == d then r y - 1 else r y) x)

unref_values_refs :
    (m : List (String × ℕ)) (r : Refs) (x : ℕ)
    → in_map x m ≤ r x
    → unref_values m r x + in_map x m ≡ r x
unfolding unref_values
unref_values_refs [] r x h = omega arith
unref_values_refs ((p, d) ∷ m) r x h =
    ground (arith, unref_values_refs m (λ y. if y == d then r y - 1 else r y) x)

-- A removal gives back exactly the references that the list no longer holds.
pub remove-held :
    (list : DeviceList) (d : ℕ) (r : Refs) (x : ℕ)
    → held list x ≤ r x
    → let (list', r', alive) = remove list d r in r' x + held list x ≡ r x + held list' x
unfolding remove
remove-held list d r x h = ground (
  arith,
  map_remove_refs d list.map_native_path_to_device r x,
  array_remove_refs d list.array (map_remove d list.map_native_path_to_device r).1 x,
)
