-- ===== src/Examples/Wire.antt =====
-- The theorems on frames and JSON.
use dlight_client.Common.{
  ◌+◌, ◌≤◌, ◌≡◌, refl, none, some, [], ◌∷◌, length, ◌==◌, ◌||◌, if◌then◌else◌,
}
use dlight_client.Json.{obj, str, Fields, end, field, get, put}
use dlight_client.Json.Equality.{IsUnique}
use dlight_client.Frame.{stalled, read_response, mask_command, masked_value}
use dlight_client.Frame.Masking.{hidden, get-mask_command}
use dlight_client.Frame.Failures.{IsOutcome, read_response-IsOutcome}
use dlight_client.Examples.Samples.{sample_codec, full_state}

-- A lamp that stalls in the header.
read_response-IsOutcome_example :
    IsOutcome sample_codec
      (read_response sample_codec none (record { bytes = 0 ∷ []; ending = stalled })).0
    × (1
        ≤ length
            (read_response sample_codec none (record { bytes = 0 ∷ []; ending = stalled })).1.bytes
          + 10244)
read_response-IsOutcome_example =
    read_response-IsOutcome sample_codec none (record { bytes = 0 ∷ []; ending = stalled })

abbrev credentials : Fields
credentials = field "ssid" (str "home") (field "password" (str "secret") end)

password_hidden : get "password" (mask_command credentials) ≡ some masked_value
unfolding mask_command get put
password_hidden = refl

get-mask_command_example : get "password" (mask_command credentials) ≡ (
    if "password" == "password" || "ssid" == "password"
    then hidden (get "password" credentials)
    else get "password" credentials)
get-mask_command_example = get-mask_command "password" credentials

pub full_state-IsUnique : IsUnique (obj full_state)
unfolding IsUnique get
full_state-IsUnique = (refl, tt, (refl, tt, (refl, (refl, tt, tt), tt)))
