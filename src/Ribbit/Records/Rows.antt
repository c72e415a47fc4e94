-- ===== src/Ribbit/Records/Rows.antt =====
-- The records of rows whose columns hold no separator.
use tactmon.Prelude.{
  ℕ, ◌<◌, ◌≡◌, refl, sym, ap, ◌∙◌, false, none, some, List, [], ◌∷◌, arith, Bytes, if◌then◌else◌,
  lt→ltb, All, is_empty, ok, u32_mod,
}
use tactmon.Ribbit.Records.{
  versions_record, bgdl_record, summary_record, versions_columns, summary_columns,
}
use tactmon.Text.Numbers.{from_chars, value_of}
use tactmon.Text.Numbers.Laws.{AreDigits, written, from_chars-written}
use tactmon.Text.Tokenizer.{tokenize_char}
use tactmon.Text.Tokenizer.Fields.{Lacks, text_of, ended_by, fields_of, kept, tokenize_char-text_of}
use mathlib.Core.List.{append-nil}

-- The row of a list of columns and a last one.
abbrev pub row : List Bytes → Bytes → Bytes
row columns last = text_of (ended_by b'|' columns) last

written-Lacks : (ds : List ℕ) → AreDigits ds → Lacks b'|' (written ds)
written-Lacks [] h = tt
written-Lacks (d ∷ ds) (h, hs) = (ground arith, written-Lacks ds hs)

from_chars-digits :
    (d : ℕ) (ds : List ℕ) (modulus : ℕ)
    → AreDigits (d ∷ ds)
    → value_of 0 (d ∷ ds) < modulus
    → from_chars modulus (written (d ∷ ds)) ≡ some (value_of 0 (d ∷ ds))
from_chars-digits d ds modulus h v =
    ap (from_chars modulus) (sym (append-nil (written (d ∷ ds))))
    ∙ from_chars-written d ds [] modulus h tt
    ∙ rw (lt→ltb (value_of 0 (d ∷ ds)) modulus v)

-- The columns of a row of versions, but for the last.
abbrev pub versions_head : Bytes → Bytes → Bytes → Bytes → List ℕ → Bytes → List Bytes
versions_head region build cdn ring id name = region ∷ build ∷ cdn ∷ ring ∷ written id ∷ name ∷ []

module _ (region build cdn ring name : Bytes) (d : ℕ) (ds : List ℕ) (product : Bytes)
    (columns : All (Lacks b'|') (region ∷ build ∷ cdn ∷ ring ∷ name ∷ product ∷ []))
    (digits : AreDigits (d ∷ ds)) (small : value_of 0 (d ∷ ds) < u32_mod) where
  versions_tokens :
      tokenize_char (row (versions_head region build cdn ring (d ∷ ds) name) product) b'|' false
      ≡ ok (
          fields_of false
            (ended_by b'|' (versions_head region build cdn ring (d ∷ ds) name))
            product)
  versions_tokens =
      tokenize_char-text_of b'|' (versions_head region build cdn ring (d ∷ ds) name) product false
        (
          columns.0,
          (
            columns.1.0,
            (
              columns.1.1.0,
              (columns.1.1.1.0, (written-Lacks (d ∷ ds) digits, (columns.1.1.1.1.0, tt))),
            ),
          ),
        )
        columns.1.1.1.1.1.0

  versions_columns-fields :
      (p : Bytes)
      → versions_columns
          (fields_of false (ended_by b'|' (versions_head region build cdn ring (d ∷ ds) name)) p)
        ≡ (if is_empty p
            then none
            else some (record {
              region = region;
              build_config = build;
              cdn_config = cdn;
              key_ring = ring;
              build_id = value_of 0 (d ∷ ds);
              versions_name = name;
              product_config = p;
            }))
  unfolding versions_columns fields_of kept
  versions_columns-fields [] = refl
  versions_columns-fields (c ∷ p) =
      rw (from_chars-digits d ds u32_mod digits small, versions_columns)

  -- Seven columns without a bar, the fifth a number in decimal digits below 2 ^ 32, joined by
  -- bars, are read as their record where the last column is not empty, and refused where it is. A
  -- `bgdl` row is read as a `versions` row.
  pub versions_record-row :
      (versions_record (row (versions_head region build cdn ring (d ∷ ds) name) product)
        ≡ ok (
            if is_empty product
            then none
            else some (record {
              region = region;
              build_config = build;
              cdn_config = cdn;
              key_ring = ring;
              build_id = value_of 0 (d ∷ ds);
              versions_name = name;
              product_config = product;
            })))
      × (bgdl_record (row (versions_head region build cdn ring (d ∷ ds) name) product)
          ≡ versions_record (row (versions_head region build cdn ring (d ∷ ds) name) product))
  unfolding versions_record bgdl_record
  versions_record-row = (rw versions_tokens (ap ok (versions_columns-fields product)), refl)

summary_columns-fields :
    (product f : Bytes) (d : ℕ) (ds : List ℕ)
    → AreDigits (d ∷ ds)
    → value_of 0 (d ∷ ds) < u32_mod
    → summary_columns (fields_of false (ended_by b'|' (product ∷ written (d ∷ ds) ∷ [])) f)
      ≡ some (record { product = product; sequence_id = value_of 0 (d ∷ ds); flags = f })
unfolding summary_columns fields_of kept
summary_columns-fields product [] d ds h small =
    rw (from_chars-digits d ds u32_mod h small, summary_columns)
summary_columns-fields product (c ∷ f) d ds h small =
    rw (from_chars-digits d ds u32_mod h small, summary_columns)

-- Three columns without a bar, the second a number in decimal digits below 2 ^ 32, joined by
-- bars, are read as their record; the last, the flags, may be empty.
pub summary_record-row :
    (product flags : Bytes) (d : ℕ) (ds : List ℕ)
    → Lacks b'|' product
    → Lacks b'|' flags
    → AreDigits (d ∷ ds)
    → value_of 0 (d ∷ ds) < u32_mod
    → summary_record (row (product ∷ written (d ∷ ds) ∷ []) flags)
      ≡ ok (some (record { product = product; sequence_id = value_of 0 (d ∷ ds); flags = flags }))
unfolding summary_record
summary_record-row product flags d ds p f h small =
    rw
      (tokenize_char-text_of b'|' (product ∷ written (d ∷ ds) ∷ []) flags false
        (p, (written-Lacks (d ∷ ds) h, tt)) f)
      (ap ok (summary_columns-fields product flags d ds h small))
