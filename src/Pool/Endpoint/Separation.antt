-- ===== src/Pool/Endpoint/Separation.antt =====
-- Connections of different endpoints are kept under different keys.
use dlight_client.Common.{
  ℕ, ◌≡◌, ◌≢◌, refl, true, false, List, [], ◌∷◌, ◌++◌, arith, decimal, decimal_injective,
  decimal-IsDigit, All, All-append, IsDigit, codes,
}
use dlight_client.Pool.Endpoint.{
  SslArg, absent, flag, context, Key, ssl_identifier, pool_key, same_key,
}

pub same_key_refl : (a : Key) → same_key a a ≡ true
unfolding same_key
same_key_refl [] = refl
same_key_refl (x ∷ a) = ground (arith, same_key_refl a)

pub same_key_comm : (a b : Key) → same_key a b ≡ same_key b a
unfolding same_key
same_key_comm [] [] = refl
same_key_comm [] (y ∷ b) = refl
same_key_comm (x ∷ a) [] = refl
same_key_comm (x ∷ a) (y ∷ b) = ground (arith, same_key_comm a b)

pub same_key→eq : (a b : Key) → same_key a b ≡ true → a ≡ b
unfolding same_key
same_key→eq [] [] h = refl
same_key→eq [] (y ∷ b) h = ground arith
same_key→eq (x ∷ a) [] h = ground arith
same_key→eq (x ∷ a) (y ∷ b) h = ground (arith, same_key→eq a b)

abbrev NotColon : ℕ → Type 0
NotColon c = c ≢ 58

no_colon : (xs ys : List ℕ) → All NotColon (xs ++ 58 ∷ ys) → ⊥
no_colon [] ys h = h.0 refl
no_colon (x ∷ xs) ys h = no_colon xs ys h.1

-- The last colon of a text is where it is, if no part after it has one.
split_unique :
    (xs ys s t : List ℕ)
    → All NotColon s
    → All NotColon t
    → xs ++ 58 ∷ s ≡ ys ++ 58 ∷ t
    → (xs ≡ ys) × (s ≡ t)
split_unique [] [] s t hs ht e = ground arith
split_unique [] (y ∷ ys) s t hs ht e =
    let p : s ≡ ys ++ 58 ∷ t = ground arith in absurd (no_colon ys t (rw p at hs))
split_unique (x ∷ xs) [] s t hs ht e =
    let p : t ≡ xs ++ 58 ∷ s = ground arith in absurd (no_colon xs s (rw p at ht))
split_unique (x ∷ xs) (y ∷ ys) s t hs ht e = ground (arith, split_unique xs ys s t hs ht)

digits-NotColon : (xs : List ℕ) → All IsDigit xs → All NotColon xs
digits-NotColon [] h = tt
digits-NotColon (x ∷ xs) h = (omega arith, digits-NotColon xs h.1)

ssl_identifier-NotColon : (s : SslArg) → All NotColon (ssl_identifier s)
unfolding ssl_identifier
ssl_identifier-NotColon absent = omega arith
ssl_identifier-NotColon (flag true) = omega arith
ssl_identifier-NotColon (flag false) = omega arith
ssl_identifier-NotColon (context id) =
    All-append NotColon (codes "ctx_") (decimal id) (omega arith)
      (digits-NotColon (decimal id) (decimal-IsDigit id))

ssl_identifier_injective : (s t : SslArg) → ssl_identifier s ≡ ssl_identifier t → s ≡ t
unfolding ssl_identifier
ssl_identifier_injective absent t h = ground arith
ssl_identifier_injective (flag b) t h = ground arith
ssl_identifier_injective (context id) absent h = ground arith
ssl_identifier_injective (context id) (flag b) h = ground arith
ssl_identifier_injective (context id) (context id') h = ground (arith, decimal_injective id id')

-- Two endpoints share a key only if host, port and TLS setting are the same, whatever the hosts
-- contain: distinct `SSLContext`s, and TLS and plain text, never share a connection.
pub pool_key_injective :
    (host host' : List ℕ) (port port' : ℕ) (ssl ssl' : SslArg)
    → pool_key host port ssl ≡ pool_key host' port' ssl'
    → (host ≡ host') × (port ≡ port') × (ssl ≡ ssl')
unfolding pool_key
pool_key_injective host host' port port' ssl ssl' h =
    let outer : (host ++ 58 ∷ decimal port ≡ host' ++ 58 ∷ decimal port')
        × (ssl_identifier ssl ≡ ssl_identifier ssl') =
      split_unique _ _ (ssl_identifier ssl) (ssl_identifier ssl') (ssl_identifier-NotColon ssl)
        (ssl_identifier-NotColon ssl') h in
    let inner : (host ≡ host') × (decimal port ≡ decimal port') =
      split_unique host host' (decimal port) (decimal port')
        (digits-NotColon _ (decimal-IsDigit port)) (digits-NotColon _ (decimal-IsDigit port'))
        outer.0 in
    (inner.0, decimal_injective port port' inner.1, ssl_identifier_injective ssl ssl' outer.1)
