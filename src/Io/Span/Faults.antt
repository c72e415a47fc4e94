-- ===== src/Io/Span/Faults.antt =====
-- The two read-only streams over memory do not read what stands at their cursor.
use tactmon.Prelude.{
  ◌+◌, ◌≤◌, ◌<◌, min, ◌≡◌, refl, ◌∙◌, true, false, [], ◌++◌, arith, Bytes, ltb, leb, if◌then◌else◌,
  lt→ltb, le→ltb, le→leb, length, take, drop, length-drop, drop_all, drop-drop, undefined, ok,
  fault, size_mod, add64, sub64,
}
use mathlib.Core.List.{append-nil}
use tactmon.Io.Span.{SpanStream, MemoryStream, span_read_impl, memory_read}

module _ (s : SpanStream) (span : Bytes) (fits : length s.bytes < size_mod)
    (room : s.cursor + length span ≤ length s.bytes) where
  -- Both `subspan` calls are within their bounds, and the copy starts at their end.
  read_step : span_read_impl s span ≡ (
      let source = drop (s.cursor + length span) s.bytes in
      if ltb (length source) (length span)
      then fault undefined
      else ok (
        take (length span) source ++ [],
        length span,
        record s { cursor = s.cursor + length span },
      ))
  unfolding span_read_impl
  read_step =
      let e : min (length span) (sub64 (length s.bytes) s.cursor) ≡ length span = omega arith in
      let a : add64 s.cursor (length span) ≡ s.cursor + length span = omega arith in
      let inner : leb (length span) (length (drop s.cursor s.bytes)) ≡ true =
        le→leb _ _ (omega (arith, length-drop s.cursor s.bytes)) in
      rw (
        le→leb s.cursor (length s.bytes) (omega arith),
        e,
        inner,
        a,
        drop_all (length span) span (omega arith),
        drop-drop s.cursor (length span) (s.cursor + length span) s.bytes refl,
      )

  -- A read of `n` bytes from a `SpanStream` with twice as many behind its cursor skips `n` bytes,
  -- delivers the `n` behind them, and moves the cursor by `n`.
  pub span_read_impl_skips :
      s.cursor + length span + length span ≤ length s.bytes
      → span_read_impl s span
        ≡ ok (
          take (length span) (drop (s.cursor + length span) s.bytes),
          length span,
          record s { cursor = s.cursor + length span },
        )
  span_read_impl_skips more =
      let source = drop (s.cursor + length span) s.bytes in
      let enough : ltb (length source) (length span) ≡ false =
        le→ltb _ _ (omega (arith, length-drop (s.cursor + length span) s.bytes)) in
      read_step ∙ rw (enough, append-nil (take (length span) source))

  -- Where fewer than `n` bytes stand behind those, the copy runs out of the span, although the
  -- read itself is within its bounds.
  pub span_read_impl_overruns :
      length s.bytes < s.cursor + length span + length span
      → span_read_impl s span ≡ fault undefined
  span_read_impl_overruns short =
      let source = drop (s.cursor + length span) s.bytes in
      let few : ltb (length source) (length span) ≡ true =
        lt→ltb _ _ (omega (arith, length-drop (s.cursor + length span) s.bytes)) in
      read_step ∙ rw few

-- A read from a `MemoryStream` leaves the caller's buffer as it was, claims its bytes as read, and
-- moves the cursor.
pub memory_read_keeps_buffer :
    (m : MemoryStream) (span : Bytes)
    → length m.inner.bytes < size_mod
    → m.inner.cursor + length span ≤ length m.inner.bytes
    → memory_read m span
      ≡ ok (
        span,
        length span,
        record { inner = record { bytes = m.inner.bytes; cursor = m.inner.cursor + length span } },
      )
unfolding memory_read
memory_read_keeps_buffer m span fits room =
    let e : min (length span) (sub64 (length m.inner.bytes) m.inner.cursor) ≡ length span =
      omega arith in
    let a : add64 m.inner.cursor (length span) ≡ m.inner.cursor + length span = omega arith in
    rw (e, a)
