-- ===== src/DeviceList/Lookup.antt =====
-- What `up_device_list_lookup` finds after the other operations of src/up-device-list.c.
use text.Mathlib.Text.{◌==◌ as str_eq}
use text.Mathlib.TextEquality.{eq_iff}
use upower.Prelude.{
  ℕ, ◌≡◌, refl, ◌≢◌, String, Option, none, some, List, [], ◌∷◌, arith, ◌∙◌, sym, if◌then◌else◌,
}
use upower.DeviceList.{
  DeviceList, Refs, object_ref, map_lookup, map_insert, map_remove, take_ref, lookup, remove,
}

map_lookup-map_insert :
    (path key : String) (d : ℕ) (m : List (String × ℕ)) (r : Refs)
    → map_lookup key (map_insert path d m r).0
      ≡ (if str_eq path key then some d else map_lookup key m)
unfolding map_lookup map_insert
map_lookup-map_insert path key d [] r = refl
map_lookup-map_insert path key d ((p, e) ∷ m) r =
    ground
      (arith, eq_iff path key, eq_iff p path, eq_iff p key, map_lookup-map_insert path key d m r)

take_ref_found : (o : Option ℕ) (r : Refs) → (take_ref o r).0 ≡ o
unfolding take_ref
take_ref_found none r = refl
take_ref_found (some d) r = refl

map_lookup-map_remove :
    (d : ℕ) (key : String) (m : List (String × ℕ)) (r : Refs)
    → map_lookup key (map_remove d m r).0 ≢ some d
unfolding map_lookup map_remove
map_lookup-map_remove d key [] r h = cc
map_lookup-map_remove d key ((p, e) ∷ m) r h = ground (arith, map_lookup-map_remove d key m r)

take_ref_taken : (o : Option ℕ) (d : ℕ) (r : Refs) → o ≡ some d → (take_ref o r).1 ≡ object_ref d r
unfolding take_ref
take_ref_taken o d r e = rw e refl

-- A lookup that finds a device takes a reference to it.
pub lookup_found :
    (list : DeviceList) (path : Option String) (d : ℕ) (r : Refs)
    → (lookup list path r).0 ≡ some d
    → (lookup list path r).1 ≡ object_ref d r
unfolding lookup take_ref
lookup_found list none d r e = absurd cc
lookup_found list (some path) d r e =
    let found = map_lookup path list.map_native_path_to_device in
    take_ref_taken found d r (sym (take_ref_found found r) ∙ e)

take_ref_same : (o : Option ℕ) (r q : Refs) → (take_ref o r).0 ≡ (take_ref o q).0
take_ref_same o r q = take_ref_found o r ∙ sym (take_ref_found o q)

-- What is found does not depend on the references.
pub lookup_same :
    (list : DeviceList) (path : Option String) (r q : Refs)
    → (lookup list path r).0 ≡ (lookup list path q).0
unfolding lookup
lookup_same list none r q = refl
lookup_same list (some path) r q = take_ref_same _ r q

pub lookup_missing :
    (list : DeviceList) (path : Option String) (r : Refs)
    → (lookup list path r).0 ≡ none
    → (lookup list path r).1 ≡ r
unfolding lookup take_ref
lookup_missing list none r e = refl
lookup_missing list (some path) r e =
    let found = map_lookup path list.map_native_path_to_device in
    rw (sym (take_ref_found found r) ∙ e) refl

pub lookup-remove :
    (list : DeviceList) (path : Option String) (d : ℕ) (r q : Refs)
    → (lookup (remove list d r).0 path q).0 ≢ some d
unfolding lookup remove
lookup-remove list none d r q e = cc
lookup-remove list (some path) d r q e =
    map_lookup-map_remove d path list.map_native_path_to_device r (sym (take_ref_found _ q) ∙ e)
