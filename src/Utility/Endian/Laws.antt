-- ===== src/Utility/Endian/Laws.antt =====
-- A word and its bytes determine one another; swapping the bytes twice changes nothing.
use tactmon.Prelude.{
  ℕ, zero, suc, ◌+◌, ◌*◌, ◌/◌, ◌%◌, ◌^◌, ◌<◌, ◌≡◌, refl, ap, ◌∙◌, [], ◌∷◌, reverse, arith, Bytes,
  IsByte, AreBytes, length, length-reverse, All-append,
}
use tactmon.Utility.Endian.{Endian, little, big, to_bytes, of_bytes, byteswap, to_endianness}
use mathlib.Core.List.{reverse-reverse, reverse-append}

pub length-to_bytes : (k v : ℕ) → length (to_bytes k v) ≡ k
unfolding to_bytes
length-to_bytes zero v = refl
length-to_bytes (suc k) v = ap suc (length-to_bytes k (v / 256))

pub to_bytes-AreBytes : (k v : ℕ) → AreBytes (to_bytes k v)
unfolding to_bytes
to_bytes-AreBytes zero v = tt
to_bytes-AreBytes (suc k) v = (omega arith, to_bytes-AreBytes k (v / 256))

pub of_bytes-to_bytes : (k v : ℕ) → v < 256 ^ k → of_bytes (to_bytes k v) ≡ v
unfolding to_bytes of_bytes
of_bytes-to_bytes zero v h = omega arith
of_bytes-to_bytes (suc k) v h = omega (arith, of_bytes-to_bytes k (v / 256) (omega arith))

pub to_bytes-of_bytes :
    (k : ℕ) (bs : Bytes) → length bs ≡ k → AreBytes bs → to_bytes k (of_bytes bs) ≡ bs
unfolding to_bytes of_bytes
to_bytes-of_bytes zero [] e h = refl
to_bytes-of_bytes zero (b ∷ bs) e h = absurd (omega arith)
to_bytes-of_bytes (suc k) [] e h = absurd (omega arith)
to_bytes-of_bytes (suc k) (b ∷ bs) e (hb, hs) =
    let d : (b + 256 * of_bytes bs) / 256 ≡ of_bytes bs = omega arith in
    let m : (b + 256 * of_bytes bs) % 256 ≡ b = omega arith in
    rw (d, m) (ap (◌∷◌ b) (to_bytes-of_bytes k bs (omega arith) hs))

pub of_bytes-lt : (k : ℕ) (bs : Bytes) → length bs ≡ k → AreBytes bs → of_bytes bs < 256 ^ k
unfolding of_bytes
of_bytes-lt zero [] e h = omega arith
of_bytes-lt zero (b ∷ bs) e h = absurd (omega arith)
of_bytes-lt (suc k) [] e h = absurd (omega arith)
of_bytes-lt (suc k) (b ∷ bs) e (hb, hs) = omega (arith, of_bytes-lt k bs (omega arith) hs)

pub reverse-AreBytes : (bs : Bytes) → AreBytes bs → AreBytes (reverse bs)
reverse-AreBytes [] h = tt
reverse-AreBytes (b ∷ bs) (hb, hs) =
    rw (reverse-append (b ∷ []) bs)
      (All-append IsByte (reverse bs) (b ∷ []) (reverse-AreBytes bs hs) (hb, tt))

pub byteswap-lt : (k v : ℕ) → byteswap k v < 256 ^ k
unfolding byteswap
byteswap-lt k v =
    of_bytes-lt k _ (length-reverse _ ∙ length-to_bytes k v)
      (reverse-AreBytes _ (to_bytes-AreBytes k v))

-- The bytes of the swapped word are the bytes of the word, backwards.
pub to_bytes-byteswap : (k v : ℕ) → to_bytes k (byteswap k v) ≡ reverse (to_bytes k v)
unfolding byteswap
to_bytes-byteswap k v =
    to_bytes-of_bytes k _ (length-reverse _ ∙ length-to_bytes k v)
      (reverse-AreBytes _ (to_bytes-AreBytes k v))

-- `byteswap` undoes itself on every word of `k` bytes.
pub byteswap_involutive : (k v : ℕ) → v < 256 ^ k → byteswap k (byteswap k v) ≡ v
byteswap_involutive k v h =
    let e : of_bytes (reverse (to_bytes k (byteswap k v))) ≡ v =
      rw (to_bytes-byteswap k v, reverse-reverse (to_bytes k v)) (of_bytes-to_bytes k v h) in
    unfold byteswap in e

-- Conversion to another byte order and back gives the word.
pub to_endianness_inverse :
    (k v : ℕ) (a b : Endian) → v < 256 ^ k → to_endianness k (to_endianness k v a b) b a ≡ v
unfolding to_endianness
to_endianness_inverse k v little little h = refl
to_endianness_inverse k v little big h = byteswap_involutive k v h
to_endianness_inverse k v big little h = byteswap_involutive k v h
to_endianness_inverse k v big big h = refl
