-- ===== src/Backend/Critical.antt =====
-- src/linux/up-backend.c, `up_backend_get_critical_action`: what is done when the battery is empty.
use upower.Prelude.{
  ◌≡◌, refl, ◌⊎◌, inl, inr, Bool, true, false, not, List, [], ◌∷◌, Option, none, some,
  if◌then◌else◌, if_both, if_known,
}
use upower.Prelude.Text.{Text, codes, text_eq}

-- `actions`: the methods of logind, with the method that tells whether it can be used.
abbrev pub actions : List (Text × Option Text)
actions =
    (codes "HybridSleep", some (codes "CanHybridSleep"))
    ∷ (codes "Hibernate", some (codes "CanHibernate"))
    ∷ (codes "PowerOff", none)
    ∷ []

-- The reply of logind, if there is one.
unfoldable pub check_action_result : Option Text → Bool
check_action_result none = false
check_action_result (some s) = text_eq s (codes "yes")

-- The actions from the configured one on, or all of them for a text that is none.
abbrev pub or_all : List (Text × Option Text) → List (Text × Option Text)
or_all [] = actions
or_all (first ∷ rest) = first ∷ rest

unfoldable pub from_method : Text → List (Text × Option Text) → List (Text × Option Text)
from_method action [] = []
from_method action ((method, can) ∷ rest) =
    let later = from_method action rest in
    if text_eq method action then (method, can) ∷ rest else later

abbrev pub configured : Option Text → List (Text × Option Text)
configured none = actions
configured (some action) = or_all (from_method action actions)

abbrev pub can_use : (Text → Option Text) → Option Text → Bool
can_use logind none = true
can_use logind (some can) = check_action_result (logind can)

-- `none` is the assertion that the end is not reached.
unfoldable pub first_available : (Text → Option Text) → List (Text × Option Text) → Option Text
first_available logind [] = none
first_available logind ((method, can) ∷ rest) =
    let later = first_available logind rest in if can_use logind can then some method else later

-- `connected` is whether there is a proxy of logind.
unfoldable pub get_critical_action : Bool → (Text → Option Text) → Option Text → Option Text
unfolding first_available from_method check_action_result
get_critical_action connected logind action =
    if not connected then none else first_available logind (configured action)

-- A method that logind says it can do, or the one that is always there.
abbrev pub IsPossible : (Text → Option Text) → Text → Type 0
IsPossible logind method =
    (method ≡ codes "PowerOff")
    ⊎ ((method ≡ codes "HybridSleep") × (can_use logind (some (codes "CanHybridSleep")) ≡ true))
    ⊎ ((method ≡ codes "Hibernate") × (can_use logind (some (codes "CanHibernate")) ≡ true))

abbrev IsFound : (Text → Option Text) → Option Text → Type 0
IsFound logind found = (method : Text) × (found ≡ some method) × IsPossible logind method

abbrev Finds : (Text → Option Text) → List (Text × Option Text) → Type 0
Finds logind list = IsFound logind (first_available logind list)

last_found : (logind : Text → Option Text) → Finds logind ((codes "PowerOff", none) ∷ [])
unfolding first_available
last_found logind = (codes "PowerOff", refl, inl refl)

hibernate_found :
    (logind : Text → Option Text)
    → Finds logind
        ((codes "Hibernate", some (codes "CanHibernate")) ∷ (codes "PowerOff", none) ∷ [])
unfolding first_available
hibernate_found logind =
    if_known (IsFound logind) (can_use logind (some (codes "CanHibernate")))
      {x = some (codes "Hibernate")} {y = first_available logind ((codes "PowerOff", none) ∷ [])}
      (λ can. (codes "Hibernate", refl, inr (inr (refl, can)))) λ _. last_found logind

any_found : (logind : Text → Option Text) → Finds logind actions
unfolding first_available
any_found logind =
    if_known (IsFound logind) (can_use logind (some (codes "CanHybridSleep")))
      {x = some (codes "HybridSleep")}
      {y = first_available logind
        ((codes "Hibernate", some (codes "CanHibernate")) ∷ (codes "PowerOff", none) ∷ [])}
      (λ can. (codes "HybridSleep", refl, inr (inl (refl, can)))) λ _. hibernate_found logind

configured-Finds :
    (logind : Text → Option Text) (action : Option Text) → Finds logind (configured action)
unfolding from_method
configured-Finds logind none = any_found logind
configured-Finds logind (some action) =
    let P = λ (list : List (Text × Option Text)). Finds logind (or_all list) in
    let power_off = (codes "PowerOff", none) ∷ [] in
    let hibernate = (codes "Hibernate", some (codes "CanHibernate")) ∷ power_off in
    let last : P (if text_eq (codes "PowerOff") action then power_off else []) =
      if_both P (text_eq (codes "PowerOff") action) {x = power_off} {y = []} (last_found logind)
        (any_found logind) in
    let later : P (from_method action hibernate) =
      if_both P (text_eq (codes "Hibernate") action) {x = hibernate} (hibernate_found logind)
        last in
    if_both P (text_eq (codes "HybridSleep") action) {x = actions} (any_found logind) later

-- While logind is there, an action is always found, whatever is configured and whatever logind
-- answers: one that logind says it can do, or to power off.
pub get_critical_action-IsPossible :
    (logind : Text → Option Text) (action : Option Text)
    → (method : Text) × (get_critical_action true logind action ≡ some method)
      × IsPossible logind method
unfolding get_critical_action
get_critical_action-IsPossible logind action = configured-Finds logind action

-- The configured action is the one that is taken, if it is possible.
get_critical_action-configured :
    (logind : Text → Option Text) (action : Text)
    → IsPossible logind action
    → get_critical_action true logind (some action) ≡ some action
unfolding get_critical_action first_available from_method
get_critical_action-configured logind action (inl e) = rw e refl
get_critical_action-configured logind action (inr (inl (e, can))) = rw (e, can) refl
get_critical_action-configured logind action (inr (inr (e, can))) = rw (e, can) refl
