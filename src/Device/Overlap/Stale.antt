-- ===== src/Device/Overlap/Stale.antt =====
-- Two methods that write the same key at a time.
use dlight_client.Common.{◌≡◌, ap, some, ℤ}
use dlight_client.Errors.{Result, ok, and_then}
use dlight_client.Json.{num, Fields, get, put}
use dlight_client.Json.Keys.{HasUniqueKeys, put-HasUniqueKeys}
use dlight_client.Device.State.{not_none}
use dlight_client.Device.Overlap.Agreement.{revert-eq}
use dlight_client.Device.Overlap.Plain.{put_self}
use dlight_client.Device.Overlap.{Method, brightness, key_of, value_of, saved, revert}

-- The cache after a method has started.
abbrev pub started : Method → Fields → Fields
started m fs = put (key_of m) (value_of m fs) fs

-- A rollback of a method that was started over the first cache, over the second.
abbrev pub fall_back : Method → Fields → Fields → Result Fields
fall_back m before fs = and_then (saved m before) λ old. revert (not_none old) (key_of m) fs

-- The rollback of the second of two: it writes what the first had written.
second-fall_back :
    (a b : ℤ) (fs now : Fields)
    → fall_back (brightness b) (started (brightness a) fs) now ≡ ok (put "brightness" (num a) now)
second-fall_back a b fs now =
    ap (λ old. revert (not_none old) "brightness" now) (put_self "brightness" (num a) fs)

-- If a `set_brightness` is started while another one waits, and both fail in the order in which they
-- were started, neither rollback raises, and the cache is left with the brightness of the first,
-- whatever was cached before and though the lamp has accepted neither.
pub overlap_stale :
    (a b : ℤ) (fs : Fields)
    → HasUniqueKeys fs
    → (fs1 fs2 : Fields) × (fall_back
          (brightness a)
          fs
          (started (brightness b) (started (brightness a) fs))
        ≡ ok fs1)
      × (fall_back (brightness b) (started (brightness a) fs) fs1 ≡ ok fs2)
      × (get "brightness" fs2 ≡ some (num a))
overlap_stale a b fs u =
    let one : Fields = started (brightness a) fs in
    let (fs1, back, _, _, _) =
      revert-eq (not_none (get "brightness" fs)) "brightness" (num b) (started (brightness b) one)
        (put-HasUniqueKeys "brightness" (num b) one (put-HasUniqueKeys "brightness" (num a) fs u))
        (put_self "brightness" (num b) one) in
    (
      fs1,
      put "brightness" (num a) fs1,
      back,
      second-fall_back a b fs fs1,
      put_self "brightness" (num a) fs1,
    )
