-- ===== src/Io/Readable/Laws.antt =====
-- What a client relies on when it reads bytes one after the other: `At s bs` says that the stream
-- `s` is in order and that `bs` stands between its cursor and its end.
use tactmon.Prelude.{ℕ, ◌^◌, ◌≤◌, ◌<◌, min, ◌≡◌, ◌++◌, Bytes, leb, length, take, drop, ok}
use tactmon.Io.Readable.{ReadableStream}

-- Sizes below 2 ^ 63, the largest that a vector or a mapping can have.
abbrev pub size_limit : ℕ
size_limit = 2 ^ 63

pub record ReadsSequentially (S : Type 0) (r : ReadableStream S) (At : S → Bytes → Type 0)
    : Type 0 where
  pub data_span_at : (s : S) (bs : Bytes) → At s bs → r.data_span s ≡ ok bs
  pub read_impl_at :
      (s : S) (bs span : Bytes)
      → At s bs
      → r.read_impl s span
        ≡ ok (
          take (min (length span) (length bs)) bs ++ drop (min (length span) (length bs)) span,
          min (length span) (length bs),
          r.skip_read s (min (length span) (length bs)),
        )
  pub skip_read_at :
      (s : S) (bs : Bytes) (n : ℕ) → At s bs → n ≤ length bs → At (r.skip_read s n) (drop n bs)
  pub can_read_at :
      (s : S) (bs : Bytes) (n : ℕ) → At s bs → n < size_limit → r.can_read s n ≡ leb n (length bs)
