-- ===== src/Ribbit/Records.antt =====
-- src/libtactmon/libtactmon/ribbit/types: one line of an answer, split at `|`, as a record.
-- `boost::split` of Boost is a parameter of `CdnsRecord.parse`.
pub mod Rows
use tactmon.Prelude.{ℕ, false, Option, none, some, List, [], ◌∷◌, Bytes, Result, ok, ◌>>=◌, u32_mod}
use tactmon.Text.Tokenizer.{tokenize_char}
use tactmon.Text.Numbers.{from_chars}

-- `versions::Record` and `bgdl::Record` have the same fields.
pub record VersionsRecord : Type 0 where
  pub region : Bytes
  pub build_config : Bytes
  pub cdn_config : Bytes
  pub key_ring : Bytes
  pub build_id : ℕ
  pub versions_name : Bytes
  pub product_config : Bytes

pub record SummaryRecord : Type 0 where
  pub product : Bytes
  pub sequence_id : ℕ
  pub flags : Bytes

pub record CdnsRecord : Type 0 where
  pub name : Bytes
  pub path : Bytes
  pub hosts : List Bytes
  pub servers : List Bytes
  pub config_path : Bytes

-- The columns of `versions::Record::Parse` and `bgdl::Record::Parse`: seven, the fifth a number.
unfoldable pub versions_columns : List Bytes → Option VersionsRecord
versions_columns (region ∷ build ∷ cdn ∷ ring ∷ id ∷ name ∷ product ∷ []) =
    elim (from_chars u32_mod id) [
      | none ↦ none
      | some build_id ↦ some (record {
        region = region;
        build_config = build;
        cdn_config = cdn;
        key_ring = ring;
        build_id = build_id;
        versions_name = name;
        product_config = product;
      })
    ]
versions_columns _ = none

unfoldable pub versions_record : Bytes → Result (Option VersionsRecord)
versions_record input = do tokens ← tokenize_char input b'|' false; ok (versions_columns tokens)

unfoldable pub bgdl_record : Bytes → Result (Option VersionsRecord)
bgdl_record input = do tokens ← tokenize_char input b'|' false; ok (versions_columns tokens)

-- `summary::Record::Parse`: two columns, or three with the flags in the last.
unfoldable pub summary_columns : List Bytes → Option SummaryRecord
summary_columns (product ∷ seqn ∷ []) = elim (from_chars u32_mod seqn) [
  | none ↦ none
  | some n ↦ some (record { product = product; sequence_id = n; flags = [] })
]
summary_columns (product ∷ seqn ∷ flags ∷ []) = elim (from_chars u32_mod seqn) [
  | none ↦ none
  | some n ↦ some (record { product = product; sequence_id = n; flags = flags })
]
summary_columns _ = none

unfoldable pub summary_record : Bytes → Result (Option SummaryRecord)
summary_record input = do tokens ← tokenize_char input b'|' false; ok (summary_columns tokens)

-- `cdns::Record::Parse`; `split` is `boost::split` at runs of spaces.
unfoldable pub cdns_columns : (Bytes → List Bytes) → List Bytes → Option CdnsRecord
cdns_columns split (name ∷ path ∷ hosts ∷ servers ∷ config ∷ []) = some (record {
  name = name;
  path = path;
  hosts = split hosts;
  servers = split servers;
  config_path = config;
})
cdns_columns split _ = none

unfoldable pub cdns_record : (Bytes → List Bytes) → Bytes → Result (Option CdnsRecord)
cdns_record split input = do tokens ← tokenize_char input b'|' false; ok (cdns_columns split tokens)
