-- ===== src/Download.antt =====
-- src/libtactmon/libtactmon/net: DownloadTask.hpp, FileDownloadTask.cpp and MemoryDownloadTask.cpp.
-- What the network does with a request is an `Exchange`, a parameter of `run`.
pub mod Laws
use tactmon.Prelude.{
  ℕ, Bool, not, ◌&&◌, Option, none, some, ◌++◌, Bytes, ◌==◌, if◌then◌else◌, codes, throws, Result,
  ok, fault, add64, sub64,
}
use tactmon.Tact.Cache.{FileSystem, get_absolute_path, delete}

-- A task: its resource and, where they are not 0, the offset and the size of the part.
pub record DownloadTask : Type 0 where
  pub resource_path : Bytes
  pub offset : ℕ
  pub size : ℕ

-- Both constructors.
unfoldable pub whole_task : Bytes → DownloadTask
whole_task path = record { resource_path = path; offset = 0; size = 0 }

unfoldable pub part_task : Bytes → ℕ → ℕ → DownloadTask
part_task path offset len = record { resource_path = path; offset = offset; size = len }

pub record Request : Type 0 where
  pub host : Bytes
  pub target : Bytes
  pub range : Option Bytes

-- The request of `Run`; `decimal` is how `fmt::format` writes a number.
unfoldable pub request_of : (ℕ → Bytes) → Bytes → DownloadTask → Request
request_of decimal host t = record {
  host = host;
  target = t.resource_path;
  range =
      if not (t.offset == 0) && not (t.size == 0)
      then some (decimal t.offset ++ (codes "-" ++ decimal (sub64 (add64 t.offset t.size) 1)))
      else none;
}

-- How an exchange ends: the host is not resolved, which throws; there is no connection, or the
-- request cannot be written; or the answer is read, or a part of it, into a message with a status and
-- a body, and then the socket is shut down, which throws where it cannot be: the last member says
-- whether it could. The status of a message without a header is 200.
pub data Exchange : Type 0 where
  unresolved : Exchange
  unsent : Exchange
  answered : ℕ → Bytes → Bool → Exchange

abbrev pub ok_status : ℕ
ok_status = 200

-- `MemoryDownloadTask`: the stream is given by its bytes.
unfoldable pub run_memory :
    (Request → Exchange) → (ℕ → Bytes) → Bytes → DownloadTask → Result (Option Bytes)
unfolding request_of
run_memory network decimal host t = elim (network (request_of decimal host t)) [
  | unresolved ↦ fault throws
  | unsent ↦ ok none
  | answered status body closes ↦
      if closes then ok (if status == ok_status then some body else none) else fault throws
]

module _ {F : Type 0} (fs : FileSystem F) (join : Bytes → Bytes → Bytes) (root : Bytes) where
  -- `TransformMessage` of `FileDownloadTask`, behind the file that is written. The stream that is
  -- returned is over the file.
  unfoldable pub transform_message : Bytes → ℕ → F → Option Bytes × F
  unfolding delete get_absolute_path
  transform_message path status f =
      if status == ok_status
      then (fs.content (get_absolute_path join root path) f, f)
      else (none, delete fs join root path f)

  -- `FileDownloadTask`: the file is opened before the answer is read, into it; `opens` is whether
  -- it could be. What is given are the result and the files, also those that an exception leaves.
  unfoldable pub run_file :
      (Request → Exchange)
      → (ℕ → Bytes)
      → Bool
      → Bytes
      → DownloadTask
      → F
      → Result (Option Bytes) × F
  unfolding request_of get_absolute_path transform_message
  run_file network decimal opens host t f =
      let stored =
        λ (body : Bytes). fs.write (get_absolute_path join root t.resource_path) body f in
      elim (network (request_of decimal host t)) [
        | unresolved ↦ (fault throws, f)
        | unsent ↦ (ok none, f)
        | answered status body closes ↦
            if opens
            then (if closes
                then (
                  ok (transform_message t.resource_path status (stored body)).0,
                  (transform_message t.resource_path status (stored body)).1,
                )
                else (fault throws, stored body))
            else (ok none, f)
      ]
