-- ===== src/Tests/Configs.antt =====
-- The theorems of libtactmon/tact/config at concrete inputs.
use tactmon.Prelude.{◌≡◌, refl, some, [], ◌∷◌, ◌++◌, arith, Bytes, codes, undefined, ok, fault}
use tactmon.Tact.Config.Build.{
  BuildConfig, Manifest, empty_config, empty_manifest, keys_handler, parse_lines, parse_contents,
}
use tactmon.Tact.Config.Build.Lines.{parse_contents-blank}

abbrev comment : Bytes
comment = codes "# Build Configuration"

comment_passes : parse_lines empty_config (comment ∷ []) ≡ ok (some empty_config)
unfolding parse_lines tactmon.Tact.Config.Build.parse_line tactmon.Tact.Config.first_char
comment_passes = refl

parse_contents-blank_example :
    parse_contents (comment ++ codes "\n\nbuild-name = x") ≡ fault undefined
parse_contents-blank_example =
    parse_contents-blank (comment ∷ []) [] (codes "build-name = x") empty_config (ground arith)
      (ground arith) comment_passes
