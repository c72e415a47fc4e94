-- ===== src/Net/Request/Laws.antt =====
-- A link that the server generates is read back as what it was made of.
use tactmon.Prelude.{
  ℕ, ◌<◌, ◌≡◌, refl, sym, ap, ◌∙◌, false, some, List, [], ◌∷◌, ◌++◌, arith, Bytes, ◌==◌, lt→ltb,
  codes, All-append, ok, size_mod,
}
use mathlib.Core.List.{append-nil}
use tactmon.Text.Tokenizer.{tokenize_char}
use tactmon.Text.Tokenizer.Fields.{Lacks, find_char-Lacks, tokenize_char-text_of, fields_of, kept}
use tactmon.Text.Numbers.{from_chars, value_of}
use tactmon.Text.Numbers.Laws.{written, AreDigits, from_chars-written}
use tactmon.Tact.Data.FileLocation.{ArchiveFileLocation}
use tactmon.Net.Address.{format_address, archive_address}
use tactmon.Net.Request.{accepted, read_size, read_numbers, read_tokens, parse_target}

-- What is relied on: a number is written in decimal digits, at least one.
pub record IsDecimal (decimal : ℕ → Bytes) : Type 0 where
  pub first : ℕ → ℕ
  pub others : ℕ → List ℕ
  pub digits : (n : ℕ) → AreDigits (first n ∷ others n)
  pub text_eq : (n : ℕ) → decimal n ≡ written (first n ∷ others n)
  pub value_eq : (n : ℕ) → value_of 0 (first n ∷ others n) ≡ n

Lacks-written : (c : ℕ) (ds : List ℕ) → c < b'0' → AreDigits ds → Lacks c (written ds)
Lacks-written c [] h a = tt
Lacks-written c (d ∷ ds) h (l, a) = (ground arith, Lacks-written c ds h a)

above-written : (c : ℕ) (ds : List ℕ) → b'9' < c → AreDigits ds → Lacks c (written ds)
above-written c [] h a = tt
above-written c (d ∷ ds) h (l, a) = (ground arith, above-written c ds h a)

module _ (decimal : ℕ → Bytes) (dec : IsDecimal decimal) where
  decimal-slash : (n : ℕ) → Lacks b'/' (decimal n)
  decimal-slash n =
      rw (dec.text_eq n)
        (Lacks-written b'/' (dec.first n ∷ dec.others n) (omega arith) (dec.digits n))

  decimal-backslash : (n : ℕ) → Lacks b'\\' (decimal n)
  decimal-backslash n =
      rw (dec.text_eq n)
        (above-written b'\\' (dec.first n ∷ dec.others n) (omega arith) (dec.digits n))

  from_chars-decimal : (n : ℕ) → n < size_mod → from_chars size_mod (decimal n) ≡ some n
  from_chars-decimal n h =
      ap (from_chars size_mod)
        (dec.text_eq n ∙ sym (append-nil (written (dec.first n ∷ dec.others n))))
      ∙ from_chars-written (dec.first n) (dec.others n) [] size_mod (dec.digits n) tt
      ∙ rw (dec.value_eq n, lt→ltb n size_mod h) refl

  read_size-decimal : (n : ℕ) → 0 < n → n < size_mod → read_size (decimal n) ≡ some n
  unfolding read_size
  read_size-decimal n pos h =
      let z : (n == 0) ≡ false = ground arith in rw (from_chars-decimal n h, read_size) (rw z refl)

  -- The target of a link, as the server of the root sees it.
  module _ (product name : Bytes) (offset len size c : ℕ) (cs : Bytes)
      (product_slash : Lacks b'/' product) (product_back : Lacks b'\\' product)
      (name_slash : Lacks b'/' name) (name_back : Lacks b'\\' name)
      (file_slash : Lacks b'/' (c ∷ cs)) (file_back : Lacks b'\\' (c ∷ cs)) where
    tokens_lem :
        tokenize_char (format_address decimal [] product name offset len size (c ∷ cs)) b'/' false
        ≡ ok ([] ∷ product ∷ name ∷ decimal offset ∷ decimal len ∷ decimal size ∷ (c ∷ cs) ∷ [])
    unfolding format_address fields_of kept
    tokens_lem =
        tokenize_char-text_of b'/'
          ([] ∷ product ∷ name ∷ decimal offset ∷ decimal len ∷ decimal size ∷ []) (c ∷ cs) false
          (
            tt,
            (
              product_slash,
              (name_slash, (decimal-slash offset, (decimal-slash len, (decimal-slash size, tt)))),
            ),
          )
          file_slash

    -- Text with a `/` in front.
    behind_slash :
        (t u : Bytes) → Lacks b'\\' t → Lacks b'\\' u → Lacks b'\\' (codes "/" ++ (t ++ u))
    behind_slash t u h k = (ground arith, All-append (λ x. (x == b'\\') ≡ false) t u h k)

    address_back : Lacks b'\\' (format_address decimal [] product name offset len size (c ∷ cs))
    unfolding format_address
    address_back = behind_slash product _ product_back (
        behind_slash name _ name_back (
          behind_slash (decimal offset) _ (decimal-backslash offset) (
            behind_slash (decimal len) _ (decimal-backslash len)
              (behind_slash (decimal size) _ (decimal-backslash size) (ground arith, file_back)))))

    parse_target-format_address :
        offset < size_mod
        → len < size_mod
        → 0 < size
        → size < size_mod
        → parse_target (format_address decimal [] product name offset len size (c ∷ cs))
          ≡ ok (
              accepted (record {
                product = product;
                archive_name = name;
                offset = offset;
                len = len;
                decompressed_size = size;
                file_name = c ∷ cs;
              }))
    unfolding parse_target read_tokens read_numbers
    parse_target-format_address ho hl pos hs =
        let target = format_address decimal [] product name offset len size (c ∷ cs) in
        rw (find_char-Lacks b'\\' target address_back, parse_target)
          (rw tokens_lem (
            rw
              (
                from_chars-decimal offset ho,
                from_chars-decimal len hl,
                read_size-decimal size pos hs,
                read_numbers,
              )
              refl))

-- A text with no `/` and no `\`.
abbrev pub IsPlain : Bytes → Type 0
IsPlain t = Lacks b'/' t × Lacks b'\\' t

-- The link to a file in an archive is the root and a target from which the server reads the
-- product, the archive, the place in it, the size and the name of the file that it was made of:
-- where the texts hold no `/` and no `\`, the name of the file is not empty, the size is not 0 and
-- the numbers fit in 64 bits.
pub parse_target-archive_address :
    (decimal : ℕ → Bytes) (root product : Bytes) (location : ArchiveFileLocation) (size c : ℕ)
    (cs : Bytes)
    → IsDecimal decimal
    → IsPlain product
    → IsPlain location.name
    → IsPlain (c ∷ cs)
    → location.offset < size_mod
    → location.file_size < size_mod
    → 0 < size
    → size < size_mod
    → (target : Bytes) × (archive_address decimal root product location (c ∷ cs) size
        ≡ root ++ target)
      × (parse_target target
          ≡ ok (
              accepted (record {
                product = product;
                archive_name = location.name;
                offset = location.offset;
                len = location.file_size;
                decompressed_size = size;
                file_name = c ∷ cs;
              })))
unfolding archive_address
parse_target-archive_address decimal root product location size c cs dec p n f ho hl pos hs = (
  format_address decimal [] product location.name location.offset location.file_size size (c ∷ cs),
  unfold format_address in refl,
  parse_target-format_address decimal dec product location.name location.offset location.file_size
      size c cs p.0 p.1 n.0 n.1 f.0 f.1 ho hl pos hs,
)
