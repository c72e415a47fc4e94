-- ===== src/Tact/Data/FileLocation.antt =====
-- src/libtactmon/libtactmon/tact/data/FileLocation.hpp and FileLocation.cpp.
use tactmon.Prelude.{
  ℕ, zero, suc, ◌+◌, ◌*◌, ◌/◌, ◌≤◌, ◌<◌, ◌≡◌, refl, sym, ap, ◌∙◌, false, ◌||◌, some, List, [], ◌∷◌,
  ◌++◌, arith, Bytes, ltb, ◌==◌, if◌then◌else◌, le→ltb, length, get_elem?, take, drop, All,
  length-append, take-append, drop-append, drop-drop, undefined, Result, ok, fault,
}
use tactmon.Tact.Key.{Key, key_of}
use native.Mathlib.Nat.{mul-div_cancel_left}

pub record FileLocation : Type 0 where
  pub file_size : ℕ
  pub key_count : ℕ
  pub keys : Bytes

-- `operator []`: a division by zero, and a `subspan` that leaves the span, are undefined.
unfoldable pub key_at : FileLocation → ℕ → Result Key
key_at f index =
    let size = length f.keys / f.key_count in
    if f.key_count == 0 || ltb (length f.keys) (index * size + size)
    then fault undefined
    else ok (key_of (take size (drop (index * size) f.keys)))

pub record ArchiveFileLocation : Type 0 where
  pub name : Bytes
  pub offset : ℕ
  pub file_size : ℕ

-- The encoding keys that a location was made of, one behind the other.
abbrev joined : List Bytes → Bytes
joined [] = []
joined (k ∷ ks) = k ++ joined ks

length-joined :
    (size : ℕ) (ks : List Bytes)
    → All (λ k. length k ≡ size) ks
    → length (joined ks) ≡ length ks * size
length-joined size [] h = omega arith
length-joined size (k ∷ ks) (e, h) =
    omega (arith, length-append k (joined ks), length-joined size ks h)

take-joined :
    (size : ℕ) (ks : List Bytes) (i : ℕ) (k : Bytes)
    → All (λ k. length k ≡ size) ks
    → get_elem? ks i ≡ some k
    → take size (drop (i * size) (joined ks)) ≡ k
take-joined size [] i k h e = cc
take-joined size (x ∷ ks) zero k (l, h) e =
    let z : zero * size ≡ 0 = omega arith in rw (z, take-append size x (joined ks) l) (some-eq e)
  where
    some-eq : some x ≡ some k → x ≡ k
    some-eq p = cc
take-joined size (x ∷ ks) (suc i) k (l, h) e =
    let z : suc i * size ≡ size + i * size = omega arith in
    let d : drop (size + i * size) (x ++ joined ks) ≡ drop (i * size) (joined ks) =
      sym (drop-drop size (i * size) (size + i * size) (x ++ joined ks) refl)
      ∙ ap (drop (i * size)) (drop-append size x (joined ks) l) in
    rw (z, d) (take-joined size ks i k h e)

index-lt {ℓ} : {A : Type ℓ} (xs : List A) (i : ℕ) (x : A) → get_elem? xs i ≡ some x → i < length xs
index-lt [] i x e = cc
index-lt (y ∷ xs) zero x e = omega arith
index-lt (y ∷ xs) (suc i) x e = omega (arith, index-lt xs i x e)

key_room : (i n size total : ℕ) → i < n → total ≡ n * size → i * size + size ≤ total
key_room i n size total h e = grind arith

-- `operator []` of a location made of keys of one size gives, at the index of each key, that key.
pub key_at_lem :
    (ks : List Bytes) (size file_size i : ℕ) (k : Bytes)
    → All (λ k. length k ≡ size) ks
    → get_elem? ks i ≡ some k
    → key_at (record { file_size = file_size; key_count = length ks; keys = joined ks }) i
      ≡ ok (key_of k)
unfolding key_at
key_at_lem ks size n i k h e =
    let lt = index-lt ks i k e in
    let l = length-joined size ks h in
    let q : length (joined ks) / length ks ≡ size =
      ap (λ (x : ℕ). x / length ks) l ∙ mul-div_cancel_left size (omega (arith, lt)) in
    let nonempty : (length ks == 0) ≡ false = ground (arith, lt) in
    let inside : ltb (length (joined ks)) (i * size + size) ≡ false =
      le→ltb _ _ (key_room i (length ks) size (length (joined ks)) lt l) in
    rw (q, nonempty, inside, take-joined size ks i k h e)
