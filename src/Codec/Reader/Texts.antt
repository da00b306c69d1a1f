-- ===== src/Codec/Reader/Texts.antt =====
-- Reading a text that was printed.
use Prim.Native.Char.{char, code}
use Prim.Native.String.{String}
use mathlib.Core.List.{append_assoc}
use dlight_client.Common.{
  ◌≡◌, refl, sym, ap, ◌∙◌, inl, inr, Bool-cases, arith, eqb_iff, ℕ, ◌+◌, ◌-◌, ◌*◌, ◌/◌, ◌%◌, ◌<◌,
  Bool, true, false, some, List, [], ◌∷◌, ◌++◌, ltb, eqb,
}
use dlight_client.Json.{str, Fields}
use dlight_client.Codec.Printer.{
  hex_digit, unicode_escape, long_escape, is_plain, escape, escape_all, quoted,
}
use dlight_client.Codec.Reader.{
  Frame, fields, Mode, string, escaped, hex, colon, State, reading, deliver, unit_done, settle,
  close_string, delivered, named, value, key, step, run,
}
use dlight_client.Codec.Characters.Laws.{
  scalar-IsCode, hex_value-hex_digit, push_short, push_high, long-bounds, push_pair, push_codes,
  text_of_codes, IsCode,
}
use dlight_client.Codec.Characters.{push_unit}

-- One step of a reader that is not in a number.
pub run_next :
    (frames : List Frame) (m : Mode) (c : ℕ) (cs : List ℕ) (state : State)
    → settle (reading frames m) c ≡ reading frames m
    → step frames m c ≡ some state
    → run (reading frames m) (c ∷ cs) ≡ run state cs
unfolding run
run_next frames m c cs state e f = rw (e, run, f) refl

module _ (frames : List Frame) (is_key : Bool) where
  run_hex :
      (buffer : List ℕ) (left u d : ℕ) (rest : List ℕ)
      → d < 16
      → run (reading frames (hex is_key buffer left u)) (hex_digit d ∷ rest)
        ≡ run (reading frames (unit_done is_key buffer left (u * 16 + d))) rest
  unfolding step
  run_hex buffer left u d rest h =
      run_next frames (hex is_key buffer left u) (hex_digit d) rest _ refl
        (rw (hex_value-hex_digit d h, step) refl)

  run-unicode_escape :
      (buffer : List ℕ) (u : ℕ) (rest : List ℕ)
      → u < 65536
      → run (reading frames (string is_key buffer)) (unicode_escape u ++ rest)
        ≡ run (reading frames (string is_key (push_unit u buffer))) rest
  unfolding step
  run-unicode_escape buffer u rest h =
      let a : ℕ = u / 4096 % 16 in
      let b : ℕ = u / 256 % 16 in
      let c : ℕ = u / 16 % 16 in
      let d : ℕ = u % 16 in
      let whole : ((((0 * 16 + a) * 16 + b) * 16 + c) * 16 + d) ≡ u = omega arith in
      run_next frames (string is_key buffer) b'\\' _ (reading frames (escaped is_key buffer)) refl
        refl
      ∙ run_next frames (escaped is_key buffer) b'u' _ (reading frames (hex is_key buffer 3 0)) refl
          refl
      ∙ run_hex buffer 3 0 a _ (omega arith)
      ∙ run_hex buffer 2 (0 * 16 + a) b _ (omega arith)
      ∙ run_hex buffer 1 ((0 * 16 + a) * 16 + b) c _ (omega arith)
      ∙ run_hex buffer 0 (((0 * 16 + a) * 16 + b) * 16 + c) d _ (omega arith)
      ∙ ap (λ n. run (reading frames (string is_key (push_unit n buffer))) rest) whole

  run-long_escape :
      (buffer : List ℕ) (c : ℕ) (rest : List ℕ)
      → IsCode c
      → run (reading frames (string is_key buffer)) (long_escape c ++ rest)
        ≡ run (reading frames (string is_key (c ∷ buffer))) rest
  run-long_escape buffer c rest code = elim (Bool-cases (ltb c 65536)) [
    | inl short ↦ rw short (
        run-unicode_escape buffer c rest (ground arith)
        ∙ ap (λ b. run (reading frames (string is_key b)) rest)
            (push_short c buffer code (ground arith)))
    | inr long ↦
        let high : ℕ = 55296 + (c - 65536) / 1024 in
        let low : ℕ = 56320 + (c - 65536) % 1024 in
        rw (long, append_assoc (unicode_escape high) (unicode_escape low) rest)
          (run-unicode_escape buffer high (unicode_escape low ++ rest)
              (omega (arith, (long-bounds c code long).1))
            ∙ ap (λ b. run (reading frames (string is_key b)) (unicode_escape low ++ rest))
                (push_high high buffer (omega (arith, (long-bounds c code long).1)))
            ∙ run-unicode_escape (high ∷ buffer) low rest (omega arith)
            ∙ ap (λ b. run (reading frames (string is_key b)) rest)
                (push_pair c buffer (long-bounds c code long)))
  ]

  -- A character after a backslash.
  run_short :
      (buffer : List ℕ) (d e c : ℕ) (rest : List ℕ)
      → c ≡ d
      → step frames (escaped is_key buffer) e ≡ some (reading frames (string is_key (d ∷ buffer)))
      → run (reading frames (string is_key buffer)) (b'\\' ∷ e ∷ rest)
        ≡ run (reading frames (string is_key (c ∷ buffer))) rest
  unfolding step
  run_short buffer d e c rest same taken =
      run_next frames (string is_key buffer) b'\\' (e ∷ rest)
        (reading frames (escaped is_key buffer)) refl refl
      ∙ run_next frames (escaped is_key buffer) e rest _ refl taken
      ∙ ap (λ n. run (reading frames (string is_key (n ∷ buffer))) rest) (sym same)

  run_plain :
      (buffer : List ℕ) (c : ℕ) (rest : List ℕ)
      → is_plain c ≡ true
      → eqb c b'"' ≡ false
      → eqb c b'\\' ≡ false
      → run (reading frames (string is_key buffer)) (c ∷ rest)
        ≡ run (reading frames (string is_key (c ∷ buffer))) rest
  unfolding step
  run_plain buffer c rest plain quote backslash =
      let shown : ltb c 32 ≡ false = ground arith in
      run_next frames (string is_key buffer) c rest _ refl (rw (quote, backslash, shown) refl)

  run-escape :
      (buffer : List ℕ) (c : ℕ) (rest : List ℕ)
      → IsCode c
      → run (reading frames (string is_key buffer)) (escape c ++ rest)
        ≡ run (reading frames (string is_key (c ∷ buffer))) rest
  unfolding escape step
  run-escape buffer c rest code = elim (Bool-cases (eqb c b'"')) [
    | inl h ↦ rw (h) (run_short buffer b'"' b'"' c rest ((eqb_iff c b'"').0 h) refl)
    | inr n0 ↦ elim (Bool-cases (eqb c b'\\')) [
      | inl h ↦ rw (n0, h) (run_short buffer b'\\' b'\\' c rest ((eqb_iff c b'\\').0 h) refl)
      | inr n1 ↦ elim (Bool-cases (is_plain c)) [
        | inl h ↦ rw (n0, n1, h) (run_plain buffer c rest h n0 n1)
        | inr p ↦ elim (Bool-cases (eqb c 10)) [
          | inl h ↦ rw (n0, n1, p, h) (run_short buffer 10 b'n' c rest ((eqb_iff c 10).0 h) refl)
          | inr n3 ↦ elim (Bool-cases (eqb c 13)) [
            | inl h ↦
                rw (n0, n1, p, n3, h) (run_short buffer 13 b'r' c rest ((eqb_iff c 13).0 h) refl)
            | inr n4 ↦ elim (Bool-cases (eqb c 9)) [
              | inl h ↦
                  rw (n0, n1, p, n3, n4, h)
                    (run_short buffer 9 b't' c rest ((eqb_iff c 9).0 h) refl)
              | inr n5 ↦ elim (Bool-cases (eqb c 12)) [
                | inl h ↦
                    rw (n0, n1, p, n3, n4, n5, h)
                      (run_short buffer 12 b'f' c rest ((eqb_iff c 12).0 h) refl)
                | inr n6 ↦ elim (Bool-cases (eqb c 8)) [
                  | inl h ↦
                      rw (n0, n1, p, n3, n4, n5, n6, h)
                        (run_short buffer 8 b'b' c rest ((eqb_iff c 8).0 h) refl)
                  | inr n7 ↦ rw (n0, n1, p, n3, n4, n5, n6, n7) (run-long_escape buffer c rest code)
                ]
              ]
            ]
          ]
        ]
      ]
    ]
  ]

module _ (frames : List Frame) (is_key : Bool) where
  run-escape_all :
      (s : String) (buffer rest : List ℕ)
      → run (reading frames (string is_key buffer)) (escape_all s ++ rest)
        ≡ run (reading frames (string is_key (push_codes s buffer))) rest
  unfolding escape_all push_codes
  run-escape_all String.[] buffer rest = refl
  run-escape_all (String.◌∷◌ (char n p) s) buffer rest =
      ap (run (reading frames (string is_key buffer))) (append_assoc (escape n) (escape_all s) rest)
      ∙ run-escape frames is_key buffer n (escape_all s ++ rest) (scalar-IsCode n p)
      ∙ run-escape_all s (n ∷ buffer) rest

  -- A text up to its closing quote.
  run_closed :
      (s : String) (rest : List ℕ) (state : State)
      → close_string is_key (push_codes s []) frames ≡ some state
      → run (reading frames (string is_key [])) (escape_all s ++ b'"' ∷ rest) ≡ run state rest
  unfolding step
  run_closed s rest state closed =
      run-escape_all s [] (b'"' ∷ rest)
      ∙ run_next frames (string is_key (push_codes s [])) b'"' rest state refl closed

-- A text that was printed is read back as a value, and as a key.
pub run-quoted :
    (frames : List Frame) (closing : Bool) (s : String) (rest : List ℕ)
    → run (reading frames (value closing)) (quoted s ++ rest) ≡ run (deliver (str s) frames) rest
unfolding step
run-quoted frames closing s rest =
    run_next frames (value closing) b'"' _ (reading frames (string false [])) refl refl
    ∙ ap (run (reading frames (string false []))) (append_assoc (escape_all s) (b'"' ∷ []) rest)
    ∙ run_closed frames false s rest (deliver (str s) frames)
        (ap (λ t. delivered t frames) (text_of_codes s))

pub run_key :
    (fs : Fields) (j : String) (frames : List Frame) (closing : Bool) (k : String) (rest : List ℕ)
    → run (reading (fields fs j ∷ frames) (key closing)) (quoted k ++ rest)
      ≡ run (reading (fields fs k ∷ frames) colon) rest
unfolding step
run_key fs j frames closing k rest =
    run_next (fields fs j ∷ frames) (key closing) b'"' _
      (reading (fields fs j ∷ frames) (string true [])) refl refl
    ∙ ap (run (reading (fields fs j ∷ frames) (string true [])))
        (append_assoc (escape_all k) (b'"' ∷ []) rest)
    ∙ run_closed (fields fs j ∷ frames) true k rest (reading (fields fs k ∷ frames) colon)
        (ap (λ t. named t (fields fs j ∷ frames)) (text_of_codes k))
