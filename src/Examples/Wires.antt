-- ===== src/Examples/Wires.antt =====
-- Commands and answers in the JSON of Python, and a lamp that is turned on over the wire.
use dlight_client.Common.{
  eqb, if◌then◌else◌, ℕ, ◌≡◌, ◌≤◌, refl, none, some, true, false, List, [], ◌∷◌, ◌++◌, pos, length,
  take, drop, arith,
}
use dlight_client.Errors.{err, value_error, timeout_error, ok, Result}
use dlight_client.Json.{obj, Fields, json_eq, get}
use dlight_client.Json.Equality.{IsUnique}
use dlight_client.Models.{acknowledged, max_payload_size}
use dlight_client.Codec.Printer.{print, escape_all, escape}
use dlight_client.Codec.Python.{python}
use dlight_client.Frame.{
  closed, is_success, encode_command, decode_command, encode_response, read_response,
}
use dlight_client.Frame.Exchange.{framed, command_received, response_received}
use dlight_client.Pool.{late, connected}
use dlight_client.Client.{Network, Session}
use dlight_client.Client.Commands.{execute_command, brightness_change}
use dlight_client.Lamp.{initial_light}
use dlight_client.Lamp.Server.Script.{joined, calm}
use dlight_client.Lamp.Reports.{Change, on_off, brightness}
use dlight_client.Remote.Network.{over_network}
use dlight_client.Remote.Lamp.{Link, to_lamp}
use dlight_client.Remote.Wire.{handled, Wired}
use dlight_client.Remote.Wire.Changes.{exchange_change}
use dlight_client.Remote.Wire.Requests.{ask, command_of}
use dlight_client.Remote.Wire.Conversation.{Conversation, over, refused, obeyed, lost}
use dlight_client.Client.{initial_session}
use dlight_client.Device.Operations.{Home}
use dlight_client.Lamp.{states}
use dlight_client.Lamp.Control.{Lamp}
use dlight_client.Device.Coherence.Networked.{online, perform_all, perform_all-states}
use dlight_client.Examples.Fakes.{no_int, fake_info}
use dlight_client.Examples.Samples.{attempt, sample_client, host, ids}

abbrev dimming : Fields
dimming = execute_command "id" "lamp" (brightness_change (pos 30))

dimming-IsUnique : IsUnique (obj dimming)
unfolding IsUnique get
dimming-IsUnique = (refl, tt, (refl, tt, (refl, tt, (refl, ((refl, tt, tt), tt), tt))))

acknowledged-IsUnique : IsUnique (obj acknowledged)
unfolding IsUnique get
acknowledged-IsUnique = (refl, tt, tt)

long : 7 ≤ length (print (obj dimming))
unfolding print escape_all escape
long = omega arith

command_received_example :
    (encode_command python dimming ≡ ok (print (obj dimming)))
    × (decode_command python (print (obj dimming) ++ 32 ∷ 123 ∷ [])
        ≡ (some (obj dimming), 32 ∷ 123 ∷ []))
    × (decode_command python (take 6 (print (obj dimming))) ≡ (none, take 6 (print (obj dimming))))
command_received_example =
    command_received dimming (32 ∷ 123 ∷ []) 6 dimming-IsUnique (omega arith) long

short : length (print (obj acknowledged)) ≤ max_payload_size
unfolding print escape_all escape
short = omega arith

is_reply : is_success (get "status" acknowledged) ≡ true
unfolding json_eq get
is_reply = refl

no_echo : json_eq (obj acknowledged) (obj dimming) ≡ false
unfolding json_eq
no_echo = refl

response_received_example :
    (encode_response python acknowledged ≡ ok (framed acknowledged))
    × (read_response python
          (some dimming)
          (record { bytes = framed acknowledged ++ 0 ∷ []; ending = closed })
        ≡ (ok acknowledged, record { bytes = 0 ∷ []; ending = closed }))
response_received_example =
    response_received (some dimming) acknowledged (0 ∷ []) closed acknowledged-IsUnique short
      is_reply no_echo

abbrev dim : Change
dim = brightness (pos 30)

-- The bytes of the client come in two pieces.
abbrev cut : List (List ℕ)
cut = take 6 (print (obj dimming)) ∷ drop 6 (print (obj dimming)) ∷ []

abbrev before : Lamp
before = calm (pos 500) initial_light

-- The first attempt is too slow, the second one gets through.
abbrev answering : Network
answering n timeout =
    if eqb n 0
    then attempt late []
    else attempt connected (handled no_int fake_info cut before).0.sent

abbrev one_shot : Session
one_shot = initial_session false 60000

cut-Wired :
    (answer : List ℕ)
    → answer ≡ (handled no_int fake_info cut before).0.sent
    → Wired no_int fake_info (attempt connected answer) cut before
unfolding print escape_all escape
cut-Wired answer e = record { dials = refl; drains = refl; arrives = e; nonempty = omega arith }

rejoined : joined cut ≡ print (obj dimming)
unfolding print escape_all escape
rejoined = refl

exchange_change_example :
    let direct : Result Fields × Link =
      ask
        (to_lamp no_int fake_info "id")
        dim
        host
        "lamp"
        (record { light = initial_light; faults = [] }) in
    let over : Result Fields × Session =
      ask (over_network python answering sample_client ids) dim host "lamp" one_shot in
    (over.0 ≡ direct.0)
    × (over.1.wire ≡ (0, joined cut) ∷ [])
    × ((handled no_int fake_info cut before).1 ≡ calm (pos 500) direct.1.light)
exchange_change_example =
    exchange_change no_int fake_info answering sample_client ids host "lamp" 2 refl dim one_shot 1
      cut (pos 500) initial_light refl (omega arith) (refl, refl) (refl, tt) (cut-Wired _ refl)
      rejoined

-- A device that dims its lamp, tries a value that is too high, turns the lamp on in vain, and turns it
-- on again.
abbrev wishes : List Change
wishes = dim ∷ brightness (pos 130) ∷ on_off true ∷ on_off true ∷ []

abbrev turning_on : List (List ℕ)
turning_on = print (obj (command_of "id" "lamp" (on_off true))) ∷ []

abbrev dimmed : Lamp
dimmed = (handled no_int fake_info cut before).1

abbrev switched : Lamp
switched = (handled no_int fake_info turning_on dimmed).1

-- The attempts 0, 2, 3 and 4 are too slow.
abbrev shaky : Network
shaky n timeout =
    if eqb n 1
    then attempt connected (handled no_int fake_info cut before).0.sent
    else if eqb n 5
    then attempt connected (handled no_int fake_info turning_on dimmed).0.sent
    else attempt late []

abbrev wired_home : Home (online shaky sample_client ids)
wired_home = record {
  device = record {
    ip = host;
    id = "lamp";
    state = obj (states initial_light);
    listeners = [];
    notified = [];
  };
  world = one_shot;
}

abbrev came_to : List (Result Fields)
came_to = ok acknowledged ∷ err value_error ∷ err timeout_error ∷ ok acknowledged ∷ []

turning_on-Wired :
    (answer : List ℕ)
    → answer ≡ (handled no_int fake_info turning_on dimmed).0.sent
    → Wired no_int fake_info (attempt connected answer) turning_on dimmed
unfolding print escape_all escape
turning_on-Wired answer e = record {
  dials = refl;
  drains = refl;
  arrives = e;
  nonempty = omega arith;
}

talk_through :
    Conversation no_int fake_info shaky sample_client ids "lamp" 2 wishes came_to
      (dim ∷ on_off true ∷ [])
      0
      0
      before
      switched
unfolding print escape_all escape
talk_through =
    obeyed 1 cut refl (omega arith) (refl, tt) (cut-Wired _ refl) rejoined
      (refused refl (
        lost tt (refl, (refl, tt)) refl
          (obeyed 0 turning_on tt (omega arith) tt (turning_on-Wired _ refl) refl over)))

perform_all-states_example :
    ((perform_all (online shaky sample_client ids) wishes wired_home).0 ≡ came_to)
    × (switched
        ≡ calm (pos 500) (record { on = true; brightness = pos 30; temperature = pos 4000 }))
    × ((perform_all (online shaky sample_client ids) wishes wired_home).1.device.state
        ≡ obj (states switched.light))
perform_all-states_example =
    perform_all-states no_int fake_info shaky sample_client ids "lamp" 2 refl wishes
      (dim ∷ on_off true ∷ []) came_to wired_home initial_light (pos 500) switched
      (record { cached = refl; named = refl; unpooled = (refl, refl) }) talk_through
