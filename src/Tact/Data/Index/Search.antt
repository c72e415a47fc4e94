-- ===== src/Tact/Data/Index/Search.antt =====
-- The search for the checksum size, on a file that is shorter than the largest footer.
use tactmon.Prelude.{
  ℕ, suc, ◌<◌, ◌≡◌, true, false, arith, Bytes, leb, length, undefined, hangs, fault, sub64,
}
use tactmon.Io.Growable.{GrowableMemoryStream, growable_readable, subspan}
use tactmon.Io.Growable
use tactmon.Io.File.{FileStream, file_readable, mapped}
use tactmon.Io.File
use tactmon.Tact.Data.Index.{find_checksum_size, footer_size}

-- On a stream in memory that is shorter than the footer for the checksum size being tried, at
-- most 16, the loop of `Index::Index` does not end: the clamped cursor leaves no room for the
-- footer, and `continue` tries the same size again.
pub short_stream_hangs :
    (md5 : Bytes → Bytes) (hash : Bytes) (s : GrowableMemoryStream) (k : ℕ)
    → length s.bytes < footer_size (suc k)
    → k < 16
    → find_checksum_size md5 hash (suc k) s ≡ fault hangs
unfolding find_checksum_size Growable.seek_read Growable.can_read
short_stream_hangs md5 hash s k h small =
    let n = footer_size (suc k) in
    let full : Growable.can_read (Growable.seek_read s (sub64 (length s.bytes) n)) n ≡ false =
      ground arith in
    rw full

-- On a file that is shorter than the footer for the checksum size being tried, at most 16, the
-- loop of `Index::Index` reads data before the file: the cursor is not clamped, and the test
-- passes by a wrap-around of `std::size_t`.
pub short_file_overruns :
    (md5 : Bytes → Bytes) (hash : Bytes) (s : FileStream) (k : ℕ)
    → length (mapped s.stream) < footer_size (suc k)
    → k < 16
    → find_checksum_size md5 hash (suc k) s ≡ fault undefined
unfolding find_checksum_size File.seek_read File.can_read
short_file_overruns md5 hash s k h small =
    let n = footer_size (suc k) in
    let bs = mapped s.stream in
    let passes : File.can_read (File.seek_read s (sub64 (length bs) n)) n ≡ true = ground arith in
    let outside : leb (sub64 (length bs) n) (length bs) ≡ false = ground arith in
    rw (passes, outside)
