-- ===== src/Device/Overlap/Refresh.antt =====
-- A state query that is answered while a method waits.
use dlight_client.Common.{Option, none, some, String}
use dlight_client.Errors.{ok, err, key_error, Result}
use dlight_client.Json.{Json, Fields, put}

-- What a rollback over the lamp's own report comes to.
abbrev pub rolled_back : String → Option Json → Fields → Result Fields
rolled_back k none fs = err key_error
rolled_back k (some v) fs = ok (put k v fs)
