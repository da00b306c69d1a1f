-- ===== src/Device/Listeners.antt =====
-- Listeners: registration, and the notices of a change.
pub mod Registered
use dlight_client.Common.{ℕ, Bool, true, false, ◌||◌, List, [], ◌∷◌, ◌++◌, map, eqb, if◌then◌else◌}
use dlight_client.Json.{Json, json_eq}
use dlight_client.Device.State.{Device, Notice}

abbrev pub listed : ℕ → List ℕ → Bool
listed callback [] = false
listed callback (c ∷ cs) = eqb c callback || listed callback cs

-- `self._state_listeners.remove(callback)`: the first that is equal
unfoldable pub without : ℕ → List ℕ → List ℕ
without callback [] = []
without callback (c ∷ cs) =
    let rest = without callback cs in if eqb c callback then cs else c ∷ rest

unfoldable pub on_state_change : ℕ → Device → Device
on_state_change callback d =
    if listed callback d.listeners then d else record d { listeners = d.listeners ++ callback ∷ [] }

unfoldable pub remove_state_listener : ℕ → Device → Device
unfolding without
remove_state_listener callback d = record d { listeners = without callback d.listeners }

abbrev pub is_nil {ℓ} : {A : Type ℓ} → List A → Bool
is_nil [] = true
is_nil (x ∷ xs) = false

abbrev pub notice : Json → Json → ℕ → Notice
notice old new callback = record { callback = callback; old = old; new = new }

-- `_emit_state_change`. A callback that raises is logged, and the next one is called all the same.
unfoldable pub emit_state_change : Json → Json → Device → Device
emit_state_change old new d =
    if is_nil d.listeners || json_eq old new
    then d
    else record d { notified = d.notified ++ map (notice old new) d.listeners }
