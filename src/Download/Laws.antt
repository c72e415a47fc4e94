-- ===== src/Download/Laws.antt =====
-- What a download leaves in the cache.
use tactmon.Prelude.{
  ℕ, ◌≡◌, refl, ap, ◌∙◌, inl, inr, Bool, true, false, not, ◌&&◌, Option, none, some, Bytes, ◌==◌,
  if◌then◌else◌, Bool-cases, throws, Result, ok, fault,
}
use tactmon.Tact.Cache.{FileSystem, get_absolute_path, delete, caught, resolve}
use tactmon.Download.{
  DownloadTask, Request, request_of, Exchange, answered, run_file, transform_message, ok_status,
}

module _ {F : Type 0} (fs : FileSystem F) (join : Bytes → Bytes → Bytes) (root : Bytes) where
  -- An answer is taken, into a file that can be opened. Where the socket can be shut down: with the
  -- status 200 the result is the body that came in, and the cache hands just that body to the next
  -- parser of the resource; with another status there is no result, and the cache has no file of the
  -- resource. Where it cannot, the task throws, and the cache hands the body to the next parser
  -- whatever the status was. Other files stay as they are in each case.
  pub run_file-resolve :
      {A : Type 0} (network : Request → Exchange) (decimal : ℕ → Bytes) (host other : Bytes)
      (t : DownloadTask) (f : F) (status : ℕ) (body : Bytes) (closes : Bool)
      (handler : Bytes → Result (Option A))
      → network (request_of decimal host t) ≡ answered status body closes
      → fs.same (get_absolute_path join root t.resource_path) other ≡ false
      → let (result, after) = run_file fs join root network decimal true host t f in
        (result
          ≡ (if closes then ok (if status == ok_status then some body else none) else fault throws))
        × (resolve fs join root t.resource_path handler after ≡ (
            if closes && not (status == ok_status)
            then ok (none, after)
            else caught fs join root t.resource_path (handler body) after))
        × (fs.content other after ≡ fs.content other f)
  unfolding run_file transform_message resolve delete
  run_file-resolve network decimal host other t f status body closes handler e away =
      let path = get_absolute_path join root t.resource_path in
      let stored = fs.write path body f in
      let held : fs.content path stored ≡ some body =
        fs.content-write path path body f ∙ rw (fs.same-refl path) refl in
      let gone : fs.content path (fs.remove path stored) ≡ none =
        fs.content-remove path path stored ∙ rw (fs.same-refl path) refl in
      let kept : fs.content other stored ≡ fs.content other f =
        fs.content-write path other body f ∙ rw away refl in
      elim (Bool-cases closes) [
        | inr fails ↦ rw (e, run_file) (rw fails (refl, rw (held, resolve) refl, kept))
        | inl shut ↦ elim (Bool-cases (status == ok_status)) [
          | inl good ↦
              rw (e, run_file) (rw (shut, good) (ap ok held, rw (held, resolve) refl, kept))
          | inr bad ↦
              rw (e, run_file)
                (rw (shut, bad)
                  (
                    refl,
                    rw (gone, resolve) refl,
                    fs.content-remove path other stored ∙ rw away kept,
                  ))
        ]
      ]
