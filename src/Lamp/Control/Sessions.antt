-- ===== src/Lamp/Control/Sessions.antt =====
-- tools/fake_dlight_server.py: `_handle_control`, a connection to the control port.
use dlight_client.Common.{
  suc, ◌≡◌, refl, sym, ap, ◌∙◌, Option, Bool, String, List, [], ◌∷◌, ℤ, length, Bool-cases, inl,
  inr, if◌then◌else◌,
}
use dlight_client.Lamp.Control.{Lamp, Reply, is_error, control_command, control_command_error}

-- A line, and whether `drain` returns after its reply was written. If it does not, the connection was
-- reset or the task is cancelled.
pub record Line : Type 0 where
  pub words : List String
  pub drained : Bool

-- The lines that are handled: those up to the first whose reply does not get out.
abbrev pub heard : List Line → List (List String)
heard [] = []
heard (line ∷ lines) =
    let rest = heard lines in if line.drained then line.words ∷ rest else line.words ∷ []

module _ (lower : String → String) (int_of float_of : String → Option ℤ) where
  abbrev pub reply_then : Reply → List Reply × Lamp → List Reply × Lamp
  reply_then reply (replies, l) = (reply ∷ replies, l)

  -- The replies that are written, and the lamp when the writer is closed: after the last line, when
  -- `readline` returns nothing or raises, or after a reply that does not get out.
  unfoldable pub handle_control : List Line → Lamp → List Reply × Lamp
  unfolding control_command
  handle_control [] l = ([], l)
  handle_control (line ∷ lines) l =
      let (reply, after) = control_command lower int_of float_of line.words l in
      let rest = handle_control lines after in
      reply_then reply (if line.drained then rest else ([], after))

  -- The lamp after lines of which the bad ones are passed over.
  abbrev pub obey : List (List String) → Lamp → Lamp
  obey [] l = l
  obey (words ∷ lines) l =
      let (reply, after) = control_command lower int_of float_of words l in
      let skipped = obey lines l in
      let obeyed = obey lines after in if is_error reply then skipped else obeyed

  obey_next :
      (words : List String) (lines : List (List String)) (l : Lamp)
      → obey (words ∷ lines) l ≡ obey lines (control_command lower int_of float_of words l).1
  obey_next words lines l =
      elim (Bool-cases (is_error (control_command lower int_of float_of words l).0)) [
        | inl bad ↦
            rw bad (ap (obey lines) (sym (control_command_error lower int_of float_of words l bad)))
        | inr good ↦ rw good refl
      ]

-- A connection to the control port gets one reply for each line, up to the first reply that does not
-- get out, and leaves the lamp as those lines do when the ones that are answered with an error are
-- passed over.
pub handle_control_lem :
    (lower : String → String) (int_of float_of : String → Option ℤ) (lines : List Line) (l : Lamp)
    → (length (handle_control lower int_of float_of lines l).0 ≡ length (heard lines))
      × ((handle_control lower int_of float_of lines l).1
          ≡ obey lower int_of float_of (heard lines) l)
unfolding handle_control
handle_control_lem lower int_of float_of [] l = (refl, refl)
handle_control_lem lower int_of float_of (line ∷ lines) l =
    let after = (control_command lower int_of float_of line.words l).1 in
    let rest = handle_control_lem lower int_of float_of lines after in
    elim (Bool-cases line.drained) [
      | inl drained ↦
          rw drained (
            ap suc rest.0,
            rest.1 ∙ sym (obey_next lower int_of float_of line.words (heard lines) l),
          )
      | inr broken ↦ rw broken (refl, sym (obey_next lower int_of float_of line.words [] l))
    ]
