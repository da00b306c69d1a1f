-- ===== src/Codec/Printer/Ascii.antt =====
-- `dumps` writes ASCII, whatever the texts hold.
use Prim.Native.Char.{code}
use Prim.Native.String.{String}
use dlight_client.Common.{
  ◌≡◌, refl, arith, ℕ, suc, ◌+◌, ◌-◌, ◌/◌, ◌%◌, ◌<◌, inl, inr, Bool-cases, Bool, true, false, List,
  [], ◌∷◌, ◌++◌, All, All-append, ℤ, pos, negsuc, decimal, decimal-IsDigit, IsDigit, eqb, ltb,
  if◌then◌else◌,
}
use dlight_client.Json.{Json, null, bool, num, str, arr, obj, Items, nil, cons, Fields, end, field}
use dlight_client.Codec.{IsAscii}
use dlight_client.Codec.Printer.{
  is_plain, hex_digit, unicode_escape, long_escape, escape, escape_all, quoted, number_text, print,
  print_items, print_fields,
}

append-IsAscii : (xs ys : List ℕ) → IsAscii xs → IsAscii ys → IsAscii (xs ++ ys)
append-IsAscii = All-append (λ b. b < 128)

digits-IsAscii : (ds : List ℕ) → All IsDigit ds → IsAscii ds
digits-IsAscii [] h = tt
digits-IsAscii (d ∷ ds) h = (omega (arith, h.0), digits-IsAscii ds h.1)

number_text-IsAscii : (z : ℤ) → IsAscii (number_text z)
number_text-IsAscii (pos n) = digits-IsAscii (decimal n) (decimal-IsDigit n)
number_text-IsAscii (negsuc n) =
    (omega arith, digits-IsAscii (decimal (suc n)) (decimal-IsDigit (suc n)))

hex_digit-small : (d : ℕ) → d < 16 → hex_digit d < 128
hex_digit-small d h = ground arith

unicode_escape-IsAscii : (u : ℕ) → IsAscii (unicode_escape u)
unicode_escape-IsAscii u = (
  omega arith,
  (
    omega arith,
    (
      hex_digit-small (u / 4096 % 16) (omega arith),
      (
        hex_digit-small (u / 256 % 16) (omega arith),
        (hex_digit-small (u / 16 % 16) (omega arith), (hex_digit-small (u % 16) (omega arith), tt)),
      ),
    ),
  ),
)

long_escape-IsAscii : (c : ℕ) → IsAscii (long_escape c)
long_escape-IsAscii c = elim (Bool-cases (ltb c 65536)) [
  | inl short ↦ rw short (unicode_escape-IsAscii c)
  | inr long ↦ rw long (
      append-IsAscii (unicode_escape (55296 + (c - 65536) / 1024))
        (unicode_escape (56320 + (c - 65536) % 1024)) (unicode_escape-IsAscii _)
        (unicode_escape-IsAscii _))
]

if-IsAscii :
    (b : Bool) (xs ys : List ℕ)
    → (b ≡ true → IsAscii xs)
    → IsAscii ys
    → IsAscii (if b then xs else ys)
if-IsAscii true xs ys p q = p refl
if-IsAscii false xs ys p q = q

escape-IsAscii : (c : ℕ) → IsAscii (escape c)
unfolding escape
escape-IsAscii c =
    if-IsAscii (eqb c b'"') _ _ (λ _. (omega arith, (omega arith, tt)))
      (if-IsAscii (eqb c b'\\') _ _ (λ _. (omega arith, (omega arith, tt)))
        (if-IsAscii (is_plain c) _ _ (λ h. (ground (arith, h), tt))
          (if-IsAscii (eqb c 10) _ _ (λ _. (omega arith, (omega arith, tt)))
            (if-IsAscii (eqb c 13) _ _ (λ _. (omega arith, (omega arith, tt)))
              (if-IsAscii (eqb c 9) _ _ (λ _. (omega arith, (omega arith, tt)))
                (if-IsAscii (eqb c 12) _ _ (λ _. (omega arith, (omega arith, tt)))
                  (if-IsAscii (eqb c 8) _ _ (λ _. (omega arith, (omega arith, tt)))
                    (long_escape-IsAscii c))))))))

escape_all-IsAscii : (s : String) → IsAscii (escape_all s)
unfolding escape_all
escape_all-IsAscii String.[] = tt
escape_all-IsAscii (String.◌∷◌ c s) =
    append-IsAscii (escape (code c)) (escape_all s) (escape-IsAscii (code c)) (escape_all-IsAscii s)

quoted-IsAscii : (s : String) → IsAscii (quoted s)
quoted-IsAscii s = (
  omega arith,
  append-IsAscii (escape_all s) (b'"' ∷ []) (escape_all-IsAscii s) (omega arith, tt),
)

abbrev comma_space : (text : List ℕ) → IsAscii text → IsAscii (b',' ∷ b' ' ∷ text)
comma_space text a = (omega arith, (omega arith, a))

entry-IsAscii :
    (k : String) (text more : List ℕ)
    → IsAscii text
    → IsAscii more
    → IsAscii (quoted k ++ b':' ∷ b' ' ∷ (text ++ more))
entry-IsAscii k text more a b =
    append-IsAscii (quoted k) (b':' ∷ b' ' ∷ (text ++ more)) (quoted-IsAscii k)
      (omega arith, (omega arith, append-IsAscii text more a b))

mutual
  unfolding print print_items print_fields

  pub print-IsAscii : (x : Json) → IsAscii (print x)
  print-IsAscii null = ground arith
  print-IsAscii (bool true) = ground arith
  print-IsAscii (bool false) = ground arith
  print-IsAscii (num z) = number_text-IsAscii z
  print-IsAscii (str s) = quoted-IsAscii s
  print-IsAscii (arr nil) = (omega arith, (omega arith, tt))
  print-IsAscii (arr (cons x xs)) =
      (omega arith, append-IsAscii (print x) (print_items xs) (print-IsAscii x) (items-IsAscii xs))
  print-IsAscii (obj end) = (omega arith, (omega arith, tt))
  print-IsAscii (obj (field k v fs)) = (
    omega arith,
    entry-IsAscii k (print v) (print_fields fs) (print-IsAscii v) (fields-IsAscii fs),
  )

  items-IsAscii : (xs : Items) → IsAscii (print_items xs)
  items-IsAscii nil = (omega arith, tt)
  items-IsAscii (cons x xs) =
      comma_space (print x ++ print_items xs)
        (append-IsAscii (print x) (print_items xs) (print-IsAscii x) (items-IsAscii xs))

  fields-IsAscii : (fs : Fields) → IsAscii (print_fields fs)
  fields-IsAscii end = (omega arith, tt)
  fields-IsAscii (field k v fs) =
      comma_space (quoted k ++ b':' ∷ b' ' ∷ (print v ++ print_fields fs))
        (entry-IsAscii k (print v) (print_fields fs) (print-IsAscii v) (fields-IsAscii fs))
