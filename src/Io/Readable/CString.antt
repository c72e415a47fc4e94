-- ===== src/Io/Readable/CString.antt =====
-- `ReadCString`: it returns the text in front of a terminator, and does not end without one.
use tactmon.Prelude.{
  ℕ, zero, suc, ◌<◌, min, ◌≡◌, refl, ap, ◌∙◌, false, [], ◌∷◌, ◌++◌, arith, Bytes, ◌==◌, length, All,
  hangs, ok, fault,
}
use tactmon.Io.Readable.{ReadableStream, read_span, read_c_string_loop, read_c_string}
use tactmon.Io.Readable.Laws.{ReadsSequentially}
use mathlib.Core.List.{append-nil, append_assoc}

-- A text with no terminator in it.
abbrev pub IsText : Bytes → Type 0
IsText = All (λ c. 0 < c)

module _ {S : Type 0} ⦃r : ReadableStream S⦄ {At : S → Bytes → Type 0}
    (laws : ReadsSequentially S r At) where
  -- One round, on a byte that is there.
  loop_step :
      (s : S) (fuel elem c : ℕ) (value rest : Bytes)
      → At s (c ∷ rest)
      → 0 < c
      → read_c_string_loop (suc fuel) elem value s
        ≡ read_c_string_loop fuel c (value ++ c ∷ []) (r.skip_read s 1)
  unfolding read_c_string_loop read_span
  loop_step s fuel elem c value rest a h =
      let e : min 1 (suc (length rest)) ≡ 1 = omega arith in
      let n : (c == 0) ≡ false = ground arith in
      rw (laws.read_impl_at s (c ∷ rest) (elem ∷ []) a, e, n)

  loop_stop :
      (s : S) (fuel elem : ℕ) (value rest : Bytes)
      → At s (0 ∷ rest)
      → read_c_string_loop (suc fuel) elem value s ≡ ok (value, r.skip_read s 1)
  unfolding read_c_string_loop read_span
  loop_stop s fuel elem value rest a =
      let e : min 1 (suc (length rest)) ≡ 1 = omega arith in
      rw (laws.read_impl_at s (0 ∷ rest) (elem ∷ []) a, e)

  -- At the end of the stream `elem` keeps its value, and the cursor its place.
  loop_end :
      (s : S) (fuel elem : ℕ) (value : Bytes)
      → At s []
      → 0 < elem
      → read_c_string_loop (suc fuel) elem value s
        ≡ read_c_string_loop fuel elem (value ++ elem ∷ []) (r.skip_read s 0)
  unfolding read_c_string_loop read_span
  loop_end s fuel elem value a h =
      let e : min 1 0 ≡ 0 = omega arith in
      let n : (elem == 0) ≡ false = ground arith in rw (laws.read_impl_at s [] (elem ∷ []) a, e, n)

  loop_text :
      (text : Bytes) (s : S) (fuel elem : ℕ) (value rest : Bytes)
      → IsText text
      → At s (text ++ (0 ∷ rest))
      → length text < fuel
      → (s' : S) × (read_c_string_loop fuel elem value s ≡ ok (value ++ text, s')) × At s' rest
  loop_text text s zero elem value rest t a h = absurd (omega arith)
  loop_text [] s (suc fuel) elem value rest t a h = (
    r.skip_read s 1,
    rw append-nil (loop_stop s fuel elem value rest a),
    laws.skip_read_at s (0 ∷ rest) 1 a (omega arith),
  )
  loop_text (c ∷ text) s (suc fuel) elem value rest (p, t) a h =
      let a' = laws.skip_read_at s (c ∷ (text ++ (0 ∷ rest))) 1 a (omega arith) in
      let (s', e, b) =
        loop_text text (r.skip_read s 1) fuel c (value ++ c ∷ []) rest t a' (omega arith) in
      (
        s',
        loop_step s fuel elem c value (text ++ (0 ∷ rest)) a p
            ∙ e
            ∙ ap (λ x. ok (x, s')) (append_assoc value (c ∷ []) text),
        b,
      )

  -- In front of a text without a zero and a zero behind it, `ReadCString` returns the text and
  -- stands behind the zero, in one round more than the text is long. This holds for every stream
  -- that reads its bytes in sequence.
  pub read_c_string-text :
      (text : Bytes) (s : S) (fuel : ℕ) (rest : Bytes)
      → IsText text
      → At s (text ++ (0 ∷ rest))
      → length text < fuel
      → (s' : S) × (read_c_string fuel s ≡ ok (text, s')) × At s' rest
  unfolding read_c_string
  read_c_string-text text s fuel rest = loop_text text s fuel 0 [] rest

  loop_end_hangs :
      (fuel : ℕ) (s : S) (elem : ℕ) (value : Bytes)
      → At s []
      → 0 < elem
      → read_c_string_loop fuel elem value s ≡ fault hangs
  loop_end_hangs zero s elem value a h = unfold read_c_string_loop in refl
  loop_end_hangs (suc fuel) s elem value a h =
      loop_end s fuel elem value a h
      ∙ loop_end_hangs fuel (r.skip_read s 0) elem _ (laws.skip_read_at s [] 0 a (omega arith)) h

  loop_hangs :
      (text : Bytes) (fuel : ℕ) (s : S) (elem : ℕ) (value : Bytes)
      → IsText text
      → At s text
      → 0 < elem
      → read_c_string_loop fuel elem value s ≡ fault hangs
  loop_hangs [] fuel s elem value t a h = loop_end_hangs fuel s elem value a h
  loop_hangs (c ∷ text) zero s elem value t a h = unfold read_c_string_loop in refl
  loop_hangs (c ∷ text) (suc fuel) s elem value (p, t) a h =
      loop_step s fuel elem c value text a p
      ∙ loop_hangs text fuel (r.skip_read s 1) c _ t
          (laws.skip_read_at s (c ∷ text) 1 a (omega arith)) p

  -- In front of a text that is not empty and has no zero in it or behind it, `ReadCString` does
  -- not return in however many rounds, for every stream that reads its bytes in sequence.
  pub read_c_string_unterminated :
      (c : ℕ) (text : Bytes) (s : S)
      → IsText (c ∷ text)
      → At s (c ∷ text)
      → (fuel : ℕ) → read_c_string fuel s ≡ fault hangs
  unfolding read_c_string
  read_c_string_unterminated c text s (p, t) a zero = unfold read_c_string_loop in refl
  read_c_string_unterminated c text s (p, t) a (suc fuel) =
      loop_step s fuel 0 c [] text a p
      ∙ loop_hangs text fuel (r.skip_read s 1) c _ t
          (laws.skip_read_at s (c ∷ text) 1 a (omega arith)) p
