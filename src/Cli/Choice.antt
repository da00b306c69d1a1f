-- ===== src/Cli/Choice.antt =====
-- cli.py: which action is chosen, and how the tool ends.
use dlight_client.Common.{
  ℕ, ◌≡◌, ◌≢◌, refl, sym, ap, ◌∙◌, Option, none, some, Bool, true, false, ◌&&◌, ◌||◌, String, List,
  [], ◌∷◌, codes, arith, ◌==◌, if◌then◌else◌, ◌⊎◌, inl, inr,
}
use dlight_client.Errors.{Error, cancelled, Result, ok, err, is_exception}
use dlight_client.Json.{Json, str, obj, end, Fields, get}
use dlight_client.Json.Dict.{get-put}
use dlight_client.Codec.{Codec}
use dlight_client.Client.{Client, Session, Network}
use dlight_client.Device.State.{Device, new_device}
use dlight_client.Discovery.{parse_device, as_device, decode_datagram}
use dlight_client.Remote.{Remote}
use dlight_client.Remote.Network.{over_network}
use dlight_client.Cli.{
  Args, Task, interaction, wifi, odd_id, usage_error, nothing, nothing_found, nothing_usable,
  choose, first_of, interact_with, or_else, is_given, or_empty, swallow, run_interaction, tour,
  exit_of, run_discovery, after_discovery, new_client, new_session, run_wifi_connect, with_device,
  raised, run_task, main, Exit,
}

abbrev pub fresh_device : List ℕ → String → Device
fresh_device ip device_id = record {
  ip = ip;
  id = device_id;
  state = obj end;
  listeners = [];
  notified = [];
}

new_device_ok :
    (ip : List ℕ) (device_id : String) (c : ℕ) (cs : List ℕ)
    → (device_id == "") ≡ false
    → ip ≡ c ∷ cs
    → new_device ip device_id true ≡ ok (fresh_device ip device_id)
unfolding new_device
new_device_ok ip device_id c cs h e = rw e (rw h refl)

codes-IsNotEmpty :
    (ip : String) → (ip == "") ≡ false → (c : ℕ) × (cs : List ℕ) × (codes ip ≡ c ∷ cs)
codes-IsNotEmpty String.[] h = absurd (cc)
codes-IsNotEmpty (String.◌∷◌ c s) h = (_, _, refl)

-- One of the two is no text.
abbrev pub AreNoTexts : Json → Json → Type 0
AreNoTexts (str ip) (str device_id) = ⊥
AreNoTexts _ _ = Unit

-- Both parts of an interaction are texts that are not empty, or it is marked as odd.
abbrev AreGiven : Task → Type 0
AreGiven (interaction ip device_id) = ((ip == "") ≡ false) × ((device_id == "") ≡ false)
AreGiven (odd_id ip device_id) = AreNoTexts ip device_id
AreGiven _ = Unit

interact_with-AreGiven : (ip device_id : Option Json) → AreGiven (interact_with ip device_id)
interact_with-AreGiven (some (str ip)) (some (str device_id)) = ground arith
interact_with-AreGiven _ _ = ground arith

first_of-AreGiven : (devices : List Fields) → AreGiven (first_of devices)
first_of-AreGiven [] = tt
first_of-AreGiven (device ∷ devices) =
    interact_with-AreGiven (get "ip_address" device)
      (or_else (get "deviceId" device) (get "deviceid" device))

if-AreGiven :
    (b : Bool) (x y : Task) → (b ≡ true → AreGiven x) → AreGiven y → AreGiven (if b then x else y)
if-AreGiven true x y p q = p refl
if-AreGiven false x y p q = q

or_empty-IsNotEmpty : (o : Option String) → is_given o ≡ true → (or_empty o == "") ≡ false
or_empty-IsNotEmpty none h = cc
or_empty-IsNotEmpty (some s) h = ground arith

both-AreGiven :
    (ip device_id : Option String)
    → (is_given ip && is_given device_id) ≡ true
    → AreGiven (interaction (or_empty ip) (or_empty device_id))
both-AreGiven ip device_id h =
    (or_empty-IsNotEmpty ip (ground arith), or_empty-IsNotEmpty device_id (ground arith))

choose-AreGiven : (args : Args) (devices : List Fields) → AreGiven (choose args devices)
unfolding choose
choose-AreGiven args devices =
    if-AreGiven args.discover _ _
      (λ _. if-AreGiven args.first _ _ (λ _. first_of-AreGiven devices) tt)
      (if-AreGiven args.connect_wifi _ _
        (λ _.
          if-AreGiven (is_given args.device_id && (is_given args.ssid && is_given args.password))
            (wifi (or_empty args.device_id) (or_empty args.ssid) (or_empty args.password))
            usage_error (λ _. tt) tt)
        (if-AreGiven _ _ _ (both-AreGiven args.ip args.device_id) (
          if-AreGiven (is_given args.ip || is_given args.device_id) usage_error nothing (λ _. tt)
            tt)))

-- An interaction with parts that are no texts is chosen for what a discovery found only.
odd-IsFirst :
    (args : Args) (devices : List Fields) (ip device_id : Json)
    → choose args devices ≡ odd_id ip device_id
    → (args.discover ≡ true) × (args.first ≡ true)
unfolding choose
odd-IsFirst args devices ip device_id h = ground arith

-- An interaction that is chosen has a device to interact with: its constructor raises nothing.
pub interaction_starts :
    (ip device_id : String)
    → (ip == "") ≡ false
    → (device_id == "") ≡ false
    → new_device (codes ip) device_id true ≡ ok (fresh_device (codes ip) device_id)
interaction_starts ip device_id hi hd =
    let (c, cs, e) = codes-IsNotEmpty ip hi in new_device_ok (codes ip) device_id c cs hd e

swallow_error : {A : Type 0} (r : Result A) (e : Error) → swallow r ≡ err e → e ≡ cancelled
swallow_error (ok a) e h = cc
swallow_error (err x) e h = ground arith

exit_of_error :
    (r : Result (Unit {0}) × Session) (e : Error) → (exit_of r).0 ≡ raised e → r.0 ≡ err e
exit_of_error (ok _, s) e h = cc
exit_of_error (err x, s) e h = cc

found_error :
    (discover : Bool) (found : Result (List Fields)) (x : Error)
    → (if discover then run_discovery found else ok []) ≡ err x
    → x ≡ cancelled
found_error false found x h = cc
found_error true (ok devices) x h = cc
found_error true (err e) x h = ground arith

abbrev error_of : Exit → Error
error_of (raised e) = e
error_of _ = cancelled

raised_cancelled : (e : Error) → is_exception e ≡ true → ¬ (e ≡ cancelled)
raised_cancelled e x h = ground arith

module _ (codec : Codec) (network : Network) (command_ids : ℕ → String) where
  run_interaction_error :
      (R : Remote) (ip device_id : String) (w : R.World) (e : Error)
      → AreGiven (interaction ip device_id)
      → (run_interaction R ip device_id w).0 ≡ err e
      → e ≡ cancelled
  unfolding run_interaction
  run_interaction_error R ip device_id w e g h =
      swallow_error (tour R (record { device = fresh_device (codes ip) device_id; world = w })).0 e
        (sym (ap (λ r. (with_device R r w).0) (interaction_starts ip device_id g.0 g.1)) ∙ h)

  -- A run that is followed raises no `Exception`; one that is not has an id that is no text.
  abbrev Contained : Option (Exit × Session) → Type 0 → Type 0
  Contained none odd = odd
  Contained (some out) odd = (e : Error) → out.0 ≡ raised e → e ≡ cancelled

  run_task-Contained :
      (client : Client) (task : Task) (s : Session)
      → AreGiven task
      → Contained (run_task codec network command_ids client task s) (
          (ip : Json) × (device_id : Json) × AreNoTexts ip device_id × (task ≡ odd_id ip device_id))
  unfolding run_wifi_connect
  run_task-Contained client (interaction ip device_id) s g = λ e h.
      run_interaction_error (over_network codec network client command_ids) ip device_id s e g
        (exit_of_error _ e h)
  run_task-Contained client (wifi device_id ssid password) s g =
      λ e h. swallow_error _ e (exit_of_error _ e h)
  run_task-Contained client (odd_id ip device_id) s g = (ip, device_id, g, refl)
  run_task-Contained client usage_error s g = λ e h. cc
  run_task-Contained client nothing s g = λ e h. cc
  run_task-Contained client nothing_found s g = λ e h. cc
  run_task-Contained client nothing_usable s g = λ e h. cc

  Contained-map :
      {A B : Type 0} (r : Option (Exit × Session)) → (A → B) → Contained r A → Contained r B
  Contained-map none f c = f c
  Contained-map (some out) f c = c

  -- An interaction with an address or an id that is no text is what is to be done with the devices.
  abbrev pub IsOdd : Args → Result (List Fields) → Type 0
  IsOdd args found =
      (devices : List Fields) × (ip : Json) × (device_id : Json) × (found ≡ ok devices)
      × AreNoTexts ip device_id
      × (choose args devices ≡ odd_id ip device_id)

  after_discovery-Contained :
      (args : Args) (client : Client) (found : Result (List Fields)) (s : Session)
      → ((x : Error) → found ≡ err x → x ≡ cancelled)
      → Contained (after_discovery codec network command_ids args client found s) (IsOdd args found)
  after_discovery-Contained args client (ok devices) s f =
      Contained-map (run_task codec network command_ids client (choose args devices) s)
        (λ (ip, device_id, odd, h). (devices, ip, device_id, refl, odd, h))
        (run_task-Contained client (choose args devices) s (choose-AreGiven args devices))
  after_discovery-Contained args client (err x) s f = λ e h. sym (ap error_of h) ∙ f x refl

  settled :
      {A : Type 0} (r : Option (Exit × Session)) (e : Error)
      → is_exception e ≡ true
      → Contained r A
      → A ⊎ ((out : Exit × Session) × (r ≡ some out) × (out.0 ≢ raised e))
  settled none e x c = inl c
  settled (some out) e x c = inr (out, refl, λ h. raised_cancelled e x (c e h))

-- Whatever the arguments, the network and the discovery do, `main` ends and raises no `Exception`: it
-- returns, leaves by `parser.error`, or is cancelled. The one exception is an interaction, after
-- `--discover --first`, with an address or an id that is no text.
pub main_error :
    (codec : Codec) (network : Network) (command_ids : ℕ → String) (args : Args) (context_id : ℕ)
    (found : Result (List Fields)) (e : Error)
    → is_exception e ≡ true
    → ((args.discover ≡ true)
        × (args.first ≡ true)
        × (devices : List Fields) × (ip : Json) × (device_id : Json) × (run_discovery found
            ≡ ok devices)
        × AreNoTexts ip device_id
        × (choose args devices ≡ odd_id ip device_id))
      ⊎ ((out : Exit × Session) × (main codec network command_ids args context_id found ≡ some out)
          × (out.0 ≢ raised e))
unfolding main
main_error codec network command_ids args context_id found e x =
    let given : Result (List Fields) = if args.discover then run_discovery found else ok [] in
    let contained =
      after_discovery-Contained codec network command_ids args (new_client args context_id) given
        new_session (found_error args.discover found) in
    elim (settled codec network command_ids
      (after_discovery codec network command_ids args (new_client args context_id) given
        new_session)
      e x contained) [
        | inl (devices, ip, device_id, got, odd, h) ↦
            let (discovers, first) = odd-IsFirst args devices ip device_id h in
            inl (discovers, first, devices, ip, device_id, sym (rw discovers refl) ∙ got, odd, h)
        | inr out ↦ inr out
      ]

get-as_device :
    (ip : String) (x : Option Json) (device : Fields)
    → as_device ip x ≡ some device
    → get "ip_address" device ≡ some (str ip)
get-as_device ip (some (obj fs)) device h =
    ground (arith, get-put "ip_address" "ip_address" (str ip) fs)
get-as_device ip _ device h = ground arith

get-parse_device :
    (codec : Codec) (ip : String) (bytes : List ℕ) (device : Fields)
    → parse_device codec ip bytes ≡ some device
    → get "ip_address" device ≡ some (str ip)
unfolding parse_device
get-parse_device codec ip bytes device =
    get-as_device ip (decode_datagram codec (codec.decode_utf8 bytes)) device

-- With `--discover --first` the lamp that is approached is at the address that the first answer came
-- from, whatever address the answer itself states, under the id that it states.
pub choose-parse_device :
    (codec : Codec) (args : Args) (ip device_id : String) (bytes : List ℕ) (device : Fields)
    (devices : List Fields)
    → args.discover ≡ true
    → args.first ≡ true
    → parse_device codec ip bytes ≡ some device
    → get "deviceId" device ≡ some (str device_id)
    → (ip == "") ≡ false
    → (device_id == "") ≡ false
    → choose args (device ∷ devices) ≡ interaction ip device_id
unfolding choose
choose-parse_device codec args ip device_id bytes device devices d f p i hi hd = rw d (
    rw f (
      ap (λ x. interact_with x (or_else (get "deviceId" device) (get "deviceid" device)))
        (get-parse_device codec ip bytes device p)
      ∙ (ap (λ x. interact_with (some (str ip)) (or_else x (get "deviceid" device))) i
          ∙ ground arith)))
