-- ===== src/Codec/Python.antt =====
-- The codec that Python's `json` and UTF-8 make, and what it carries.
use mathlib.Core.Path.{subst}
use mathlib.Core.List.{append-nil}
use dlight_client.Common.{
  Option, ◌≡◌, refl, sym, ap, ◌∙◌, arith, ℕ, ◌-◌, zero, suc, ◌<◌, true, false, none, some, List, [],
  ◌∷◌, ◌++◌, length, length-append, length-drop, take, drop, Option-cases, inl, inr,
}
use dlight_client.Errors.{Result, ok, err, json_decode_error}
use dlight_client.Json.{Json, obj, Fields, end, field}
use dlight_client.Json.Equality.{IsUnique}
use dlight_client.Codec.{Codec, Carries, Delimits, IsUtf8}
use dlight_client.Codec.Printer.{print}
use dlight_client.Codec.Printer.Ascii.{print-IsAscii}
use dlight_client.Codec.Reader.{
  State, reading, fields, key, deliver, only, with_end, step, loads, raw_decode, run, start,
}
use dlight_client.Codec.Reader.RoundTrip.{run-print}
use dlight_client.Codec.Reader.Prefix.{is_inside, run_extends}
use dlight_client.Codec.Utf8.{encode_utf8, decode_utf8, encode_utf8_ascii, decode_utf8_ascii}

abbrev pub decoded : Option Json → Result Json
decoded none = err json_decode_error
decoded (some x) = ok x

-- Without the interpreter's limits on the digits of an integer and on the depth of brackets.
abbrev pub python : Codec
python = record {
  dumps = λ x. some (print x);
  loads = λ text. decoded (loads text);
  raw_decode = raw_decode;
  encode_utf8 = encode_utf8;
  decode_utf8 = decode_utf8;
}

take-drop {ℓ} : {A : Type ℓ} (n : ℕ) (xs : List A) → take n xs ++ drop n xs ≡ xs
take-drop zero xs = refl
take-drop (suc n) [] = refl
take-drop (suc n) (x ∷ xs) = ap (x ∷◌) (take-drop n xs)

pub python-IsUtf8 : IsUtf8 python
python-IsUtf8 = record { encode_ascii = encode_utf8_ascii; decode_ascii = decode_utf8_ascii }

-- A value at the end of a text.
run_whole : (x : Json) → IsUnique x → run start (print x) ≡ some (x, [])
unfolding run deliver
run_whole x u =
    subst (λ text. run start text ≡ some (x, [])) (append-nil (print x))
      (run-print x u [] false [] tt)

-- Any value without repeated keys goes over the wire and comes back.
pub python-Carries : (x : Json) → IsUnique x → Carries python x (print x)
unfolding loads
python-Carries x u = record {
  dumped = refl;
  survives =
      ap decode_utf8 (encode_utf8_ascii (print x) (print-IsAscii x))
      ∙ decode_utf8_ascii (print x) (print-IsAscii x);
  loaded = ap (λ r. decoded (only r)) (run_whole x u);
}

-- The text of a dict begins with a brace.
brace : (fs : Fields) → (tail : List ℕ) × (print (obj fs) ≡ b'{' ∷ tail)
unfolding print
brace end = (_, refl)
brace (field k v fs) = (_, refl)

raw_decode_run :
    (text tail : List ℕ)
    → text ≡ b'{' ∷ tail
    → raw_decode text ≡ with_end (length text) (run start text)
unfolding raw_decode
raw_decode_run text tail e =
    subst (λ t. raw_decode t ≡ with_end (length t) (run start t)) (sym e) refl

-- A reader behind the first brace.
abbrev inside : State
inside = reading (fields end "" ∷ []) (key true)

run_tail :
    (fs : Fields) (tail : List ℕ)
    → IsUnique (obj fs)
    → print (obj fs) ≡ b'{' ∷ tail
    → run inside tail ≡ some (obj fs, [])
unfolding run step
run_tail fs tail u e = subst (λ t. run start t ≡ some (obj fs, [])) e (run_whole (obj fs) u)

-- A dict is read from the head of a text, whatever follows.
run_head :
    (fs : Fields) (tail rest : List ℕ)
    → IsUnique (obj fs)
    → print (obj fs) ≡ b'{' ∷ tail
    → run start (b'{' ∷ (tail ++ rest)) ≡ some (obj fs, rest)
unfolding run step is_inside
run_head fs tail rest u e = run_extends tail rest inside (obj fs) [] refl (run_tail fs tail u e)

-- The braces of a dict are not closed before its text ends.
unclosed :
    (fs : Fields) (tail : List ℕ) (m : ℕ)
    → IsUnique (obj fs)
    → print (obj fs) ≡ b'{' ∷ tail
    → m < length tail
    → run start (b'{' ∷ take m tail) ≡ none
unfolding run step is_inside
unclosed fs tail m u e h = elim (Option-cases (run inside (take m tail))) [
  | inl nothing ↦ nothing
  | inr ((y, rest), read) ↦
      let longer : run inside tail ≡ some (y, rest ++ drop m tail) =
        subst (λ t. run inside t ≡ some (y, rest ++ drop m tail)) (take-drop m tail)
          (run_extends (take m tail) (drop m tail) inside y rest refl read) in
      let over : rest ++ drop m tail ≡ [] = cc (longer, run_tail fs tail u e) in
      absurd (omega (arith, length-append rest (drop m tail), length-drop m tail, ap length over))
]

cut_short :
    (fs : Fields) (tail : List ℕ)
    → IsUnique (obj fs)
    → print (obj fs) ≡ b'{' ∷ tail
    → (n : ℕ) → 0 < n
    → n < length (print (obj fs))
    → raw_decode (take n (print (obj fs))) ≡ none
cut_short fs tail u e zero p h = absurd (omega arith)
cut_short fs tail u e (suc m) p h =
    let cut : take (suc m) (print (obj fs)) ≡ b'{' ∷ take m tail = ap (take (suc m)) e in
    raw_decode_run (take (suc m) (print (obj fs))) (take m tail) cut
    ∙ ap (with_end (length (take (suc m) (print (obj fs)))))
        (ap (run start) cut ∙ unclosed fs tail m u e (omega (arith, h, ap length e)))

-- The text of a dict without repeated keys shows its own end.
pub python-Delimits : (fs : Fields) → IsUnique (obj fs) → Delimits python (obj fs) (print (obj fs))
python-Delimits fs u =
    let text : List ℕ = print (obj fs) in
    let (tail, e) = brace fs in
    record {
      dumped = refl;
      ascii = print-IsAscii (obj fs);
      not_empty = omega (arith, ap length e);
      complete = λ rest a.
          raw_decode_run (text ++ rest) (tail ++ rest) (ap (◌++ rest) e)
          ∙ ap (with_end (length (text ++ rest)))
              (ap (λ t. run start (t ++ rest)) e ∙ run_head fs tail rest u e)
          ∙ ap (λ n. some (obj fs, n)) {x = length (text ++ rest) - length rest}
              (omega (arith, length-append text rest));
      partial = cut_short fs tail u e;
    }
