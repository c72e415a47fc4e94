-- ===== src/Io/File/Reads.antt =====
-- `FileStream` reads the bytes of the mapped file one after the other.
use tactmon.Prelude.{
  ℕ, ◌+◌, ◌-◌, ◌≤◌, ◌<◌, min, ◌≡◌, refl, sym, ap, ◌∙◌, Option, ◌++◌, arith, Bytes, leb, le→ltb,
  le→leb, length, take, drop, zeros, length-zeros, length-drop, drop-drop, undefined, ok, fault,
  size_mod, add64, sub64,
}
use tactmon.Io.Readable.Laws.{ReadsSequentially, size_limit}
use tactmon.Io.Growable.{subspan}
use tactmon.Io.File.{
  FileStream, file_readable, mapped, read_impl, skip_read, can_read, seek_read, open_file,
}

pub record At (s : FileStream) (bs : Bytes) : Type 0 where
  pub inside : s.cursor ≤ length (mapped s.stream)
  pub fits : length (mapped s.stream) < size_limit
  pub unread : drop s.cursor (mapped s.stream) ≡ bs

length-unread :
    (s : FileStream) (bs : Bytes) → At s bs → length bs ≡ length (mapped s.stream) - s.cursor
length-unread s bs a = ap length (sym a.unread) ∙ length-drop s.cursor (mapped s.stream)

data_span-At : (s : FileStream) (bs : Bytes) → At s bs → subspan (mapped s.stream) s.cursor ≡ ok bs
data_span-At s bs a = rw (le→leb _ _ a.inside) (ap ok a.unread)

skip_read-At :
    (s : FileStream) (bs : Bytes) (n : ℕ) → At s bs → n ≤ length bs → At (skip_read s n) (drop n bs)
unfolding skip_read
skip_read-At s bs n a h = record {
  inside = omega (arith, length-unread s bs a, a.inside, a.fits);
  fits = a.fits;
  unread =
      sym (
        drop-drop s.cursor n (add64 s.cursor n) (mapped s.stream)
          (omega (arith, length-unread s bs a, a.inside, a.fits)))
      ∙ ap (drop n) a.unread;
}

can_read-At :
    (s : FileStream) (bs : Bytes) (n : ℕ)
    → At s bs
    → n < size_limit
    → can_read s n ≡ leb n (length bs)
unfolding can_read
can_read-At s bs n a h = ground (arith, length-unread s bs a, a.inside, a.fits)

read_impl-At :
    (s : FileStream) (bs span : Bytes)
    → At s bs
    → read_impl s span
      ≡ ok (
        take (min (length span) (length bs)) bs ++ drop (min (length span) (length bs)) span,
        min (length span) (length bs),
        skip_read s (min (length span) (length bs)),
      )
unfolding read_impl skip_read
read_impl-At s bs span a =
    let e : sub64 (length (mapped s.stream)) s.cursor ≡ length bs =
      omega (arith, length-unread s bs a, a.inside, a.fits) in
    rw (e, le→ltb _ _ a.inside, a.unread)

pub file-ReadsSequentially : ReadsSequentially FileStream file_readable At
file-ReadsSequentially = record {
  data_span_at = data_span-At;
  read_impl_at = read_impl-At;
  skip_read_at = skip_read-At;
  can_read_at = can_read-At;
}

-- A file that was opened, or was not, is read from its start.
pub open_file-At :
    (found : Option Bytes)
    → length (mapped found) < size_limit
    → At (open_file found) (mapped found)
open_file-At found h = record { inside = omega arith; fits = h; unread = refl }

-- `SeekRead` to a place in the file.
pub seek_read-At :
    (s : FileStream) (offset : ℕ)
    → length (mapped s.stream) < size_limit
    → offset ≤ length (mapped s.stream)
    → At (seek_read s offset) (drop offset (mapped s.stream))
unfolding seek_read
seek_read-At s offset h k = record { inside = k; fits = h; unread = refl }

-- `SeekRead` does not clamp, unlike the other streams: behind the end of the file the position is
-- kept, and a read of one byte or more is an access out of bounds.
pub seek_read_past_end :
    (s : FileStream) (offset n : ℕ)
    → offset < size_mod
    → length (mapped s.stream) < offset
    → 0 < n
    → n + offset ≤ size_mod
    → read_impl (seek_read s offset) (zeros n) ≡ fault undefined
unfolding seek_read read_impl
seek_read_past_end s offset n b h k room = ground (arith, length-zeros n)
