-- ===== src/Tact/Data/Encoding/Entries.antt =====
-- An encoding manifest is read back from the bytes of its header and of its entries.
use tactmon.Prelude.{
  ℕ, ◌+◌, ◌*◌, ◌/◌, ◌%◌, ◌^◌, ◌≤◌, ◌<◌, ◌≡◌, [], ◌∷◌, ◌++◌, arith, Bytes, lt→ltb, length,
  length-append, ok, size_mod,
}
use tactmon.Io.Readable.{ReadableStream, read_span}
use tactmon.Io.Readable.Laws.{ReadsSequentially}
use tactmon.Io.Readable.Values.{
  encode, read_value-encode, read_bytes-append, read_impl-zeros, swap_bytes,
}
use tactmon.Tact.Data.Encoding.{Header, Entry, read_u40, fold_bytes, read_entry}
use tactmon.Utility.Endian.{little}
use mathlib.Core.List.{append_assoc}

-- Five bytes, the highest first, as `fold_bytes` reads them.
abbrev pub u40_bytes : ℕ → Bytes
u40_bytes n =
    n / 256 / 256 / 256 / 256
    ∷ n / 256 / 256 / 256 % 256
    ∷ n / 256 / 256 % 256
    ∷ n / 256 % 256
    ∷ n % 256
    ∷ []

shift_byte : (n : ℕ) → n < 2 ^ 40 → n / 256 * 2 ^ 8 % size_mod + n % 256 ≡ n
shift_byte n h = omega arith

fold_bytes-u40 : (n : ℕ) → n < 2 ^ 40 → fold_bytes 0 (u40_bytes n) ≡ n
unfolding fold_bytes
fold_bytes-u40 n h =
    let z : 0 * 2 ^ 8 % size_mod + n / 256 / 256 / 256 / 256 ≡ n / 256 / 256 / 256 / 256 =
      omega arith in
    rw (
      z,
      shift_byte (n / 256 / 256 / 256) (omega arith),
      shift_byte (n / 256 / 256) (omega arith),
      shift_byte (n / 256) (omega arith),
      shift_byte n h,
    )

-- The bytes of an entry in a page.
abbrev pub entry_bytes : Entry → Bytes
entry_bytes e = encode little 1 e.key_count ++ (u40_bytes e.file_size ++ (e.ckey ++ e.ekeys))

-- An entry that a page can hold, under a header.
pub record Fits (h : Header) (e : Entry) : Type 0 where
  pub key_count_fits : e.key_count < 256
  pub file_size_fits : e.file_size < 2 ^ 40
  pub ckey_size : length e.ckey ≡ h.content_key_size
  pub ekeys_size : length e.ekeys ≡ h.encoding_key_size * e.key_count
  pub has_keys : 0 < e.key_count * h.encoding_key_size

module _ {S : Type 0} ⦃r : ReadableStream S⦄ {At : S → Bytes → Type 0}
    (laws : ReadsSequentially S r At) where
  read_u40-bytes :
      (s : S) (n : ℕ) (rest : Bytes)
      → At s (u40_bytes n ++ rest)
      → n < 2 ^ 40
      → (read_u40 s ≡ ok (n, r.skip_read s 5)) × At (r.skip_read s 5) rest
  unfolding read_u40 read_span
  read_u40-bytes s n rest a h =
      let bs = u40_bytes n in
      let fits : 5 ≤ length (bs ++ rest) = omega (arith, length-append bs rest) in
      (
        rw (
          read_impl-zeros laws s (bs ++ rest) 5 a fits,
          swap_bytes 5 bs (omega arith),
          fold_bytes-u40 n h,
        ),
        laws.skip_read_at s (bs ++ rest) 5 a fits,
      )

  -- In front of the bytes of an entry whose numbers and keys have the sizes of the header, with
  -- one encoding key or more, `CEKeyPageTable` reads that entry and stands behind it. This holds
  -- for every stream that reads its bytes in sequence.
  pub read_entry-entry_bytes :
      (s : S) (header : Header) (e : Entry) (rest : Bytes)
      → Fits header e
      → At s (entry_bytes e ++ rest)
      → (s' : S) × (read_entry header s ≡ ok (e, s')) × At s' rest
  unfolding read_entry
  read_entry-entry_bytes s header e rest f a =
      let after_size = e.ckey ++ (e.ekeys ++ rest) in
      let a₀ : At s (encode little 1 e.key_count ++ (u40_bytes e.file_size ++ after_size)) =
        simp append_assoc at a in
      let (r₁, a₁) =
        read_value-encode laws s little 1 e.key_count _ a₀ (omega (arith, f.key_count_fits)) in
      let (r₂, a₂) = read_u40-bytes _ e.file_size after_size a₁ f.file_size_fits in
      let (r₃, a₃) = read_bytes-append laws _ e.ckey (e.ekeys ++ rest) a₂ in
      let (r₄, a₄) = read_bytes-append laws _ e.ekeys rest a₃ in
      (_, rw (r₁, r₂, ← f.ckey_size, r₃, ← f.ekeys_size, r₄, lt→ltb 0 _ f.has_keys), a₄)
