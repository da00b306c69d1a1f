-- ===== src/Lamp/Control.antt =====
-- tools/fake_dlight_server.py: the control port, which sets failure modes and changes the state of
-- the lamp. The words of a line are given. Python's `int`, `float` and `lower` are parameters, and
-- a delay is in milliseconds.
pub mod Sessions
use dlight_client.Common.{
  ◌≡◌, refl, Option, none, some, Bool, true, false, String, List, [], ◌∷◌, ℤ, pos, ◌==◌, arith,
  if◌then◌else◌,
}
use dlight_client.Lamp.{Mode, normal, hang, reset, drop, FailureModes, set_mode, Light}

pub record Lamp : Type 0 where
  pub failures : FailureModes
  pub delay : ℤ
  pub light : Light

-- The kinds of reply, without their texts.
pub data Reply : Type 0 where
  done status help bad_arguments unknown_command empty_command : Reply

abbrev pub is_error : Reply → Bool
is_error done = false
is_error status = false
is_error help = false
is_error _ = true

-- What a step does with an argument that is missing or is no number: nothing, and the reply is an
-- error.
abbrev pub with_number : Option ℤ → (ℤ → Lamp) → Lamp → Reply × Lamp
with_number none next l = (bad_arguments, l)
with_number (some z) next l = (done, next z)

-- `f(args[0])`; no argument is an `IndexError`
abbrev pub first : (String → Option ℤ) → List String → Option ℤ
first f [] = none
first f (x ∷ xs) = f x

module _ (lower : String → String) (int_of float_of : String → Option ℤ) where
  -- `int(args[0]) if args else None`
  abbrev pub fail : Mode → List String → Lamp → Reply × Lamp
  fail mode [] l = (done, record l { failures = set_mode mode none })
  fail mode (x ∷ xs) l =
      with_number (int_of x) (λ z. record l { failures = set_mode mode (some z) }) l

  abbrev pub change_light : String → List String → Lamp → Reply × Lamp
  change_light cmd args l =
      if cmd == "on"
      then (done, record l { light = record l.light { on = true } })
      else if cmd == "off"
      then (done, record l { light = record l.light { on = false } })
      else if cmd == "brightness"
      then with_number (first int_of args)
          (λ z. record l { light = record l.light { brightness = z } }) l
      else if cmd == "temperature"
      then with_number (first int_of args)
          (λ z. record l { light = record l.light { temperature = z } }) l
      else (unknown_command, l)

  abbrev pub perform : String → List String → Lamp → Reply × Lamp
  perform cmd args l =
      if cmd == "status"
      then (status, l)
      else if cmd == "help"
      then (help, l)
      else if cmd == "normal"
      then (done, record l { failures = set_mode normal none; delay = pos 0 })
      else if cmd == "hang"
      then fail hang args l
      else if cmd == "reset"
      then fail reset args l
      else if cmd == "drop"
      then fail drop args l
      else if cmd == "delay"
      then with_number (first float_of args) (λ z. record l { delay = z }) l
      else change_light cmd args l

  unfoldable pub control_command : List String → Lamp → Reply × Lamp
  control_command [] l = (empty_command, l)
  control_command (word ∷ args) l = perform (lower word) args l

-- An error leaves the lamp as it was.
abbrev Spares : Lamp → Reply × Lamp → Type 0
Spares l (reply, after) = is_error reply ≡ true → after ≡ l

with_number-Spares : (z : Option ℤ) (next : ℤ → Lamp) (l : Lamp) → Spares l (with_number z next l)
with_number-Spares none next l h = refl
with_number-Spares (some z) next l h = absurd (ground arith)

if-Spares :
    (b : Bool) (l : Lamp) (x y : Reply × Lamp)
    → Spares l x
    → Spares l y
    → Spares l (if b then x else y)
if-Spares true l x y p q = p
if-Spares false l x y p q = q

done-Spares : (l after : Lamp) → Spares l (done, after)
done-Spares l after h = absurd (ground arith)

module _ (lower : String → String) (int_of float_of : String → Option ℤ) where
  fail-Spares :
      (m : Mode) (args : List String) (l : Lamp) → Spares l (fail lower int_of float_of m args l)
  fail-Spares m [] l = done-Spares l (record l { failures = set_mode m none })
  fail-Spares m (x ∷ xs) l =
      with_number-Spares (int_of x) (λ z. record l { failures = set_mode m (some z) }) l

  change_light-Spares :
      (cmd : String) (args : List String) (l : Lamp)
      → Spares l (change_light lower int_of float_of cmd args l)
  change_light-Spares cmd args l = if-Spares (cmd == "on") l _ _ (done-Spares l _) (
      if-Spares (cmd == "off") l _ _ (done-Spares l _) (
        if-Spares (cmd == "brightness") l _ _ (with_number-Spares (first int_of args) _ l) (
          if-Spares (cmd == "temperature") l _ _ (with_number-Spares (first int_of args) _ l)
            (λ _. refl))))

  perform-Spares :
      (cmd : String) (args : List String) (l : Lamp)
      → Spares l (perform lower int_of float_of cmd args l)
  perform-Spares cmd args l =
      if-Spares (cmd == "status") l _ _ (λ _. refl)
        (if-Spares (cmd == "help") l _ _ (λ _. refl)
          (if-Spares (cmd == "normal") l _ _ (done-Spares l _) (
            if-Spares (cmd == "hang") l _ _ (fail-Spares hang args l) (
              if-Spares (cmd == "reset") l _ _ (fail-Spares reset args l) (
                if-Spares (cmd == "drop") l _ _ (fail-Spares drop args l) (
                  if-Spares (cmd == "delay") l _ _ (with_number-Spares (first float_of args) _ l)
                    (change_light-Spares cmd args l)))))))

-- A line of the control port that is answered with an error changes neither the failure modes nor the
-- state of the lamp.
pub control_command_error :
    (lower : String → String) (int_of float_of : String → Option ℤ) (words : List String) (l : Lamp)
    → is_error (control_command lower int_of float_of words l).0 ≡ true
    → (control_command lower int_of float_of words l).1 ≡ l
unfolding control_command
control_command_error lower int_of float_of [] l h = refl
control_command_error lower int_of float_of (word ∷ args) l h =
    perform-Spares lower int_of float_of (lower word) args l h
