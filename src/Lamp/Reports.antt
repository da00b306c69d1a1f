-- ===== src/Lamp/Reports.antt =====
-- tools/fake_dlight_server.py: what the lamp reports after the commands of client.py.
use dlight_client.Common.{ℕ, ◌≡◌, refl, ap, ◌∙◌, Option, Bool, String, List, [], ◌∷◌, ℤ, suc}
use dlight_client.Errors.{ok}
use dlight_client.Json.{obj, Fields, get, put}
use dlight_client.Models.{acknowledged, command_type_query_device_states}
use dlight_client.Client.Commands.{
  on_change, brightness_change, temperature_change, execute_command, query_command,
}
use dlight_client.Lamp.{Info, Light, states, handle_command, apply, apply_all, when_key, subscript}

-- What a client can ask of a lamp.
pub data Change : Type 0 where
  on_off : Bool → Change
  brightness : ℤ → Change
  temperature : ℤ → Change

abbrev pub change_fields : Change → Fields
change_fields (on_off b) = on_change b
change_fields (brightness z) = brightness_change z
change_fields (temperature z) = temperature_change z

-- The value that was asked for last, for each of the three.
abbrev pub last_on : Bool → List Change → Bool
last_on old [] = old
last_on old (on_off b ∷ cs) = last_on b cs
last_on old (_ ∷ cs) = last_on old cs

abbrev pub last_brightness : ℤ → List Change → ℤ
last_brightness old [] = old
last_brightness old (brightness z ∷ cs) = last_brightness z cs
last_brightness old (_ ∷ cs) = last_brightness old cs

abbrev pub last_temperature : ℤ → List Change → ℤ
last_temperature old [] = old
last_temperature old (temperature z ∷ cs) = last_temperature z cs
last_temperature old (_ ∷ cs) = last_temperature old cs

abbrev pub last_light : Light → List Change → Light
last_light l cs = record {
  on = last_on l.on cs;
  brightness = last_brightness l.brightness cs;
  temperature = last_temperature l.temperature cs;
}

pub last_light-cons :
    (l : Light) (c : Change) (cs : List Change)
    → last_light (last_light l (c ∷ [])) cs ≡ last_light l (c ∷ cs)
last_light-cons l (on_off b) cs = refl
last_light-cons l (brightness z) cs = refl
last_light-cons l (temperature z) cs = refl

module _ (int_of : String → Option ℤ) (info : Info) (device_id : String) where
  -- The lamp handles one EXECUTE command after another; the numbers of the commands do not matter.
  abbrev pub after_changes : (ℕ → String) → List Change → Light → Light
  after_changes ids [] l = l
  after_changes ids (c ∷ cs) l =
      after_changes (λ n. ids (suc n)) cs
        (handle_command int_of info (execute_command (ids 0) device_id (change_fields c)) l).1

  pub after_change :
      (id : String) (c : Change) (l : Light)
      → handle_command int_of info (execute_command id device_id (change_fields c)) l
        ≡ (ok acknowledged, last_light l (c ∷ []))
  unfolding handle_command apply_all apply when_key subscript get
  after_change id (on_off b) l = refl
  after_change id (brightness z) l = refl
  after_change id (temperature z) l = refl

  after_changes_lem :
      (ids : ℕ → String) (cs : List Change) (l : Light) → after_changes ids cs l ≡ last_light l cs
  after_changes_lem ids [] l = refl
  after_changes_lem ids (c ∷ cs) l =
      ap (λ r. after_changes (λ n. ids (suc n)) cs r.1) (after_change (ids 0) c l)
      ∙ (after_changes_lem (λ n. ids (suc n)) cs (last_light l (c ∷ [])) ∙ last_light-cons l c cs)

-- After any commands that a client encodes, a state query is answered with the values that were asked
-- for last, and with the old value of what was not asked for; the query changes nothing.
pub query-after_changes :
    (int_of : String → Option ℤ) (info : Info) (device_id query_id : String) (ids : ℕ → String)
    (cs : List Change) (l : Light)
    → handle_command int_of info
        (query_command command_type_query_device_states query_id device_id)
        (after_changes int_of info device_id ids cs l)
      ≡ (ok (put "states" (obj (states (last_light l cs))) acknowledged), last_light l cs)
unfolding handle_command get
query-after_changes int_of info device_id query_id ids cs l =
    ap
      (λ l'.
        handle_command int_of info
          (query_command command_type_query_device_states query_id device_id) l')
      (after_changes_lem int_of info device_id ids cs l)
