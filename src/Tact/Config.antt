-- ===== src/Tact/Config.antt =====
-- libtactmon/tact/config: what the parsers of the two configuration files share.
pub mod Build
pub mod Cdn
use tactmon.Prelude.{
  ℕ, true, none, some, List, [], ◌∷◌, Bytes, leb, if◌then◌else◌, length, get_elem?, take, undefined,
  Result, ok, fault, ◌>>=◌,
}
use tactmon.Io.Readable.{ReadableStream, Read}
use tactmon.Text.Tokenizer.{tokenize_any}

-- `std::string_view contents { stream.Data<char>().data(), stream.GetLength() }` behind `SeekRead(0)`.
unfoldable pub contents : {S : Type 0} ⦃r : ReadableStream S⦄ → Read S Bytes
contents ⦃r⦄ s =
    let s' = r.seek_read s 0 in
    do
      unread ← r.data_span s'
      let n = r.get_length s'
      if leb n (length unread) then ok (take n unread, s') else fault undefined

-- `tokens[i]`: an index behind the end is an access out of bounds.
unfoldable pub token : List Bytes → ℕ → Result Bytes
token tokens i = elim (get_elem? tokens i) [ none ↦ fault undefined | some t ↦ ok t ]

-- `line[0]`.
unfoldable pub first_char : Bytes → Result ℕ
first_char [] = fault undefined
first_char (c ∷ cs) = ok c

-- `Separators`.
abbrev pub separators : Bytes
separators = b' ' ∷ b'=' ∷ []

unfoldable pub line_tokens : Bytes → Result (List Bytes)
line_tokens line = tokenize_any line separators true
