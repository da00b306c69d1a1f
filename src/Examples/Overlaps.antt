-- ===== src/Examples/Overlaps.antt =====
-- A lamp is switched on and dimmed at the same time: the dimming fails, the switching does not.
use dlight_client.Common.{◌≡◌, refl, none, some, true, false, pos}
use dlight_client.Errors.{ok}
use dlight_client.Json.{Json, bool, num, Fields, get, put}
use dlight_client.Lamp.{states, initial_light}
use dlight_client.Device.Overlap.{switch, brightness, Pending, Shared, begun, set_pending}
use dlight_client.Device.Overlap.Stale.{overlap_stale, started, fall_back}

abbrev quiet : Shared
quiet = record {
  cache = states initial_light;
  known = states initial_light;
  pending = λ k. none;
  in_doubt = λ k. false;
}

abbrev both : Shared
both =
    begun (brightness (pos 5)) (some (num (pos 100)))
      (begun (switch true) (some (bool false)) quiet)

abbrev dimming : Pending
dimming = record { written = num (pos 5); old = some (num (pos 100)) }

abbrev undone : Shared
undone = record both {
  cache = put "on" (bool true) (states initial_light);
  pending = set_pending "brightness" none both.pending;
}

abbrev switching : Pending
switching = record { written = bool true; old = some (bool false) }

overlap_stale_example :
    (fs1 fs2 : Fields) × (fall_back
        (brightness (pos 130))
        (states initial_light)
        (started (brightness (pos 140)) (started (brightness (pos 130)) (states initial_light)))
      ≡ ok fs1)
    × (fall_back (brightness (pos 140)) (started (brightness (pos 130)) (states initial_light)) fs1
        ≡ ok fs2)
    × (get "brightness" fs2 ≡ some (num (pos 130)))
unfolding get
overlap_stale_example =
    overlap_stale (pos 130) (pos 140) (states initial_light) (refl, (refl, (refl, tt)))
