-- ===== src/Frame/Prefix.antt =====
-- The length prefix of a response, and exact reads from a stream.
use dlight_client.Common.{
  ℕ, ◌^◌, ◌<◌, ◌≡◌, refl, List, [], ◌∷◌, ◌++◌, arith, length, length-append, take-length_append,
  drop-length_append,
}
use dlight_client.Frame.{pack_length, unpack_length, Ending, got, read_exactly}

-- Unpacking a packed length gives the length back, for every length of 32 bits.
pub unpack_length-pack_length : (n : ℕ) → n < 2 ^ 32 → unpack_length (pack_length n) ≡ n
unfolding pack_length unpack_length
unpack_length-pack_length n h = omega arith

pub length-pack_length : (n : ℕ) → length (pack_length n) ≡ 4
unfolding pack_length
length-pack_length n = refl

-- A four-byte header of bytes announces less than 2 ** 32 bytes, and packs to itself.
pub pack_length-unpack_length :
    (a b c d : ℕ)
    → a < 256
    → b < 256
    → c < 256
    → d < 256
    → pack_length (unpack_length (a ∷ b ∷ c ∷ d ∷ [])) ≡ a ∷ b ∷ c ∷ d ∷ []
unfolding pack_length unpack_length
pack_length-unpack_length a b c d ha hb hc hd = ground arith

-- A read of as many bytes as the first part has takes that part and leaves the rest.
pub read_exactly-append :
    (n : ℕ) (xs rest : List ℕ) (ending : Ending)
    → length xs ≡ n
    → read_exactly n (record { bytes = xs ++ rest; ending = ending })
      ≡ (got xs, record { bytes = rest; ending = ending })
unfolding read_exactly
read_exactly-append n xs rest ending h =
    rw (← h) (
      ground (arith, length-append xs rest, take-length_append xs rest, drop-length_append xs rest))
