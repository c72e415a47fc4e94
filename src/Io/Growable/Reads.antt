-- ===== src/Io/Growable/Reads.antt =====
-- `GrowableMemoryStream` reads its bytes one after the other.
use tactmon.Prelude.{
  ℕ, ◌-◌, ◌≤◌, ◌<◌, min, ◌≡◌, refl, sym, ap, ◌∙◌, ◌++◌, arith, Bytes, leb, le→leb, length, take,
  drop, length-drop, drop-drop, drop-min, ok, add64, sub64,
}
use tactmon.Io.Readable.Laws.{ReadsSequentially, size_limit}
use tactmon.Io.Growable.{
  GrowableMemoryStream, growable_readable, read_impl, skip_read, can_read, seek_read, of_span,
  subspan,
}

pub record At (s : GrowableMemoryStream) (bs : Bytes) : Type 0 where
  pub inside : s.read_cursor ≤ length s.bytes
  pub fits : length s.bytes < size_limit
  pub unread : drop s.read_cursor s.bytes ≡ bs

length-unread :
    (s : GrowableMemoryStream) (bs : Bytes) → At s bs → length bs ≡ length s.bytes - s.read_cursor
length-unread s bs a = ap length (sym a.unread) ∙ length-drop s.read_cursor s.bytes

data_span-At :
    (s : GrowableMemoryStream) (bs : Bytes) → At s bs → subspan s.bytes s.read_cursor ≡ ok bs
data_span-At s bs a = rw (le→leb _ _ a.inside) (ap ok a.unread)

skip_read-At :
    (s : GrowableMemoryStream) (bs : Bytes) (n : ℕ)
    → At s bs
    → n ≤ length bs
    → At (skip_read s n) (drop n bs)
unfolding skip_read
skip_read-At s bs n a h = record {
  inside = omega (arith, length-unread s bs a, a.inside, a.fits);
  fits = a.fits;
  unread =
      sym (
        drop-drop s.read_cursor n (add64 s.read_cursor n) s.bytes
          (omega (arith, length-unread s bs a, a.inside, a.fits)))
      ∙ ap (drop n) a.unread;
}

can_read-At :
    (s : GrowableMemoryStream) (bs : Bytes) (n : ℕ)
    → At s bs
    → n < size_limit
    → can_read s n ≡ leb n (length bs)
unfolding can_read
can_read-At s bs n a h = ground (arith, length-unread s bs a, a.inside, a.fits)

read_impl-At :
    (s : GrowableMemoryStream) (bs span : Bytes)
    → At s bs
    → read_impl s span
      ≡ ok (
        take (min (length span) (length bs)) bs ++ drop (min (length span) (length bs)) span,
        min (length span) (length bs),
        skip_read s (min (length span) (length bs)),
      )
unfolding read_impl skip_read
read_impl-At s bs span a =
    let e : sub64 (length s.bytes) s.read_cursor ≡ length bs =
      omega (arith, length-unread s bs a, a.inside, a.fits) in
    rw (e, le→leb _ _ a.inside, a.unread)

pub growable-ReadsSequentially : ReadsSequentially GrowableMemoryStream growable_readable At
growable-ReadsSequentially = record {
  data_span_at = data_span-At;
  read_impl_at = read_impl-At;
  skip_read_at = skip_read-At;
  can_read_at = can_read-At;
}

-- A new stream over `bs` stands before all of them.
pub of_span-At : (bs : Bytes) → length bs < size_limit → At (of_span bs) bs
of_span-At bs h = record { inside = omega arith; fits = h; unread = refl }

-- `SeekRead` leaves the stream in order, wherever it is asked to go.
pub seek_read-At :
    (s : GrowableMemoryStream) (offset : ℕ)
    → length s.bytes < size_limit
    → At (seek_read s offset) (drop offset s.bytes)
unfolding seek_read
seek_read-At s offset h = record {
  inside = omega arith;
  fits = h;
  unread = drop-min offset s.bytes;
}
