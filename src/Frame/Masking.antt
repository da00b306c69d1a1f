-- ===== src/Frame/Masking.antt =====
-- What `mask_command` of _frame.py lets through to the log.
use dlight_client.Common.{◌≡◌, String, Option, none, some, ◌||◌, arith, ◌==◌, eq_iff, if◌then◌else◌}
use dlight_client.Json.{Json, Fields, get}
use dlight_client.Json.Dict.{get-put}
use dlight_client.Frame.{masked_value, mask_key, mask_command}

abbrev pub hidden : Option Json → Option Json
hidden none = none
hidden (some v) = some masked_value

get-mask_key :
    (key j : String) (fs : Fields)
    → get j (mask_key key fs) ≡ (if key == j then hidden (get j fs) else get j fs)
get-mask_key key j fs = ground (arith, get-put key j masked_value fs, eq_iff key j)

-- Under every key the masked command holds what the command held, but that a `password` and an
-- `ssid` that are there are replaced by asterisks. A missing key stays missing.
pub get-mask_command :
    (j : String) (command : Fields)
    → get j (mask_command command)
      ≡ (if "password" == j || "ssid" == j then hidden (get j command) else get j command)
unfolding mask_command
get-mask_command j command = ground (
  arith,
  get-mask_key "ssid" j (mask_key "password" command),
  get-mask_key "password" j command,
  eq_iff "password" j,
  eq_iff "ssid" j,
)
