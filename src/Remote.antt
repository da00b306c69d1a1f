-- ===== src/Remote.antt =====
-- `AsyncDLightClient` as `DLightDevice` uses it: five methods over a state of their own.
pub mod Network
pub mod Lamp
pub mod Wire
use dlight_client.Common.{ℕ, String, Option, Bool, List}
use dlight_client.Errors.{Action}
use dlight_client.Json.{Json, Fields}

pub record Remote : Type 1 where
  pub World : Type 0
  pub set_light_state : List ℕ → String → Bool → Action World Fields
  pub set_brightness : List ℕ → String → Json → Action World Fields
  pub set_color_temperature : List ℕ → String → Json → Action World Fields
  pub query_device_state : List ℕ → String → Action World Fields
  pub query_device_info : List ℕ → String → Option ℕ → Action World Fields
