-- ===== src/Codec/Reader/Prefix.antt =====
-- A reader inside a container reads the same when more text follows.
use dlight_client.Common.{
  ◌≢◌, ◌≡◌, refl, sym, ap, ◌∙◌, arith, ℕ, Bool, true, false, String, Option, none, some, List, [],
  ◌∷◌, ◌++◌,
}
use dlight_client.Json.{Json, num, arr, obj, str}
use dlight_client.Codec.Reader.{
  Frame, items, fields, Mode, value, key, colon, after, word, minus, number, string, escaped, hex,
  State, reading, done, deliver, signed, close_items, close_fields, next, named, delivered, settle,
  finish, step, run,
}
use dlight_client.Codec.Characters.{text_of}

-- Whether a value is complete, or in a container that is not closed yet.
unfoldable pub is_inside : State → Bool
is_inside (done x) = true
is_inside (reading [] m) = false
is_inside (reading (f ∷ frames) m) = true

all_inside : Option State → Bool
all_inside none = true
all_inside (some state) = is_inside state

deliver_inside : (x : Json) (frames : List Frame) → is_inside (deliver x frames) ≡ true
unfolding is_inside deliver
deliver_inside x [] = refl
deliver_inside x (items xs ∷ frames) = refl
deliver_inside x (fields fs k ∷ frames) = refl

close_items_inside : (frames : List Frame) → all_inside (close_items frames) ≡ true
unfolding all_inside
close_items_inside [] = refl
close_items_inside (items xs ∷ frames) = deliver_inside (arr xs) frames
close_items_inside (fields fs k ∷ frames) = refl

close_fields_inside : (frames : List Frame) → all_inside (close_fields frames) ≡ true
unfolding all_inside
close_fields_inside [] = refl
close_fields_inside (items xs ∷ frames) = refl
close_fields_inside (fields fs k ∷ frames) = deliver_inside (obj fs) frames

next_inside : (frames : List Frame) → all_inside (next frames) ≡ true
unfolding all_inside is_inside
next_inside [] = refl
next_inside (items xs ∷ frames) = refl
next_inside (fields fs k ∷ frames) = refl

named_inside : (t : Option String) (frames : List Frame) → all_inside (named t frames) ≡ true
unfolding all_inside is_inside
named_inside none frames = refl
named_inside (some k) [] = refl
named_inside (some k) (items xs ∷ frames) = refl
named_inside (some k) (fields fs j ∷ frames) = refl

delivered_inside :
    (t : Option String) (frames : List Frame) → all_inside (delivered t frames) ≡ true
unfolding all_inside
delivered_inside none frames = refl
delivered_inside (some s) frames = deliver_inside (str s) frames

step_inside :
    (f : Frame) (frames : List Frame) (m : Mode) (c : ℕ) → all_inside (step (f ∷ frames) m c) ≡ true
unfolding step all_inside is_inside
step_inside f frames (value closing) c = ground (arith, close_items_inside (f ∷ frames))
step_inside f frames (key closing) c = ground (arith, close_fields_inside (f ∷ frames))
step_inside f frames colon c = ground arith
step_inside f frames after c = ground (
  arith,
  next_inside (f ∷ frames),
  close_items_inside (f ∷ frames),
  close_fields_inside (f ∷ frames),
)
step_inside f frames (word [] x) c = refl
step_inside f frames (word (w ∷ []) x) c = ground (arith, deliver_inside x (f ∷ frames))
step_inside f frames (word (w ∷ v ∷ ws) x) c = ground arith
step_inside f frames minus c = ground arith
step_inside f frames (number negative more n) c = ground arith
step_inside f frames (string true buffer) c =
    ground (arith, named_inside (text_of buffer "") (f ∷ frames))
step_inside f frames (string false buffer) c =
    ground (arith, delivered_inside (text_of buffer "") (f ∷ frames))
step_inside f frames (escaped is_key buffer) c = ground arith
step_inside f frames (hex is_key buffer left u) c = ground arith

settle_inside : (state : State) (c : ℕ) → is_inside state ≡ true → is_inside (settle state c) ≡ true
unfolding is_inside
settle_inside (done x) c h = refl
settle_inside (reading frames (number negative more n)) c h =
    ground (arith, deliver_inside (num (signed negative n)) frames, h)
settle_inside (reading frames _) c h = h

-- The text has ended in the middle of a container.
finish-none : (f : Frame) (frames : List Frame) (m : Mode) → finish (reading (f ∷ frames) m) ≡ none
unfolding deliver
finish-none (items xs) frames (number negative more n) = refl
finish-none (fields fs k) frames (number negative more n) = refl
finish-none f frames _ = refl

run_done : (x : Json) (rest : List ℕ) → run (done x) rest ≡ some (x, rest)
unfolding run
run_done x [] = refl
run_done x (c ∷ cs) = refl

-- The two cases of `run` at a character.
abbrev taken : State → ℕ → List ℕ → Option (Json × List ℕ)
taken (done x) c cs = some (x, c ∷ cs)
taken (reading frames m) c cs = elim (step frames m c) [ none ↦ none | some state ↦ run state cs ]

run_cons : (state : State) (c : ℕ) (cs : List ℕ) → run state (c ∷ cs) ≡ taken (settle state c) c cs
unfolding run
run_cons state c cs = go (settle state c)
  where
    go :
        (t : State)
        → elim t [
          | done x ↦ some (x, c ∷ cs)
          | reading frames m ↦ elim (step frames m c) [ none ↦ none | some state' ↦ run state' cs ]
        ]
          ≡ taken t c cs
    go (done x) = refl
    go (reading frames m) = refl

abbrev extend : List ℕ → Option (Json × List ℕ) → Option (Json × List ℕ)
extend more none = none
extend more (some (x, rest)) = some (x, rest ++ more)

none-ne-some {ℓ} : {A : Type ℓ} {a : A} → none ≢ some a
none-ne-some h = ground (arith, h)

-- One character, if the rest of the text is read the same with more after it.
module _ (c : ℕ) (cs more : List ℕ) (x : Json) (rest : List ℕ)
    (later : (t : State)
      → is_inside t ≡ true
      → run t cs ≡ some (x, rest)
      → run t (cs ++ more) ≡ some (x, rest ++ more)) where
  step_extends :
      (o : Option State)
      → all_inside o ≡ true
      → elim o [ none ↦ none | some t ↦ run t cs ] ≡ some (x, rest)
      → elim o [ none ↦ none | some t ↦ run t (cs ++ more) ] ≡ some (x, rest ++ more)
  unfolding all_inside
  step_extends none i r = absurd (none-ne-some r)
  step_extends (some t) i r = later t i r

  taken_extends :
      (t : State)
      → is_inside t ≡ true
      → taken t c cs ≡ some (x, rest)
      → taken t c (cs ++ more) ≡ some (x, rest ++ more)
  unfolding is_inside
  taken_extends (done y) k q = ap (extend more) q
  taken_extends (reading [] m) k q = absurd (ground (arith, k))
  taken_extends (reading (f ∷ frames) m) k q =
      step_extends (step (f ∷ frames) m c) (step_inside f frames m c) q

-- What was read inside a container is read when more text follows.
pub run_extends :
    (text more : List ℕ) (state : State) (x : Json) (rest : List ℕ)
    → is_inside state ≡ true
    → run state text ≡ some (x, rest)
    → run state (text ++ more) ≡ some (x, rest ++ more)
unfolding run is_inside
run_extends [] more (done y) x rest h e = run_done y more ∙ ap (extend more) e
run_extends [] more (reading [] m) x rest h e = absurd (ground (arith, h))
run_extends [] more (reading (f ∷ frames) m) x rest h e =
    absurd (none-ne-some (sym (finish-none f frames m) ∙ e))
run_extends (c ∷ cs) more state x rest h e =
    run_cons state c (cs ++ more)
    ∙ taken_extends c cs more x rest (λ t. run_extends cs more t x rest) (settle state c)
        (settle_inside state c h) (sym (run_cons state c cs) ∙ e)
