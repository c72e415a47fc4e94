-- ===== src/Tests/Sessions.antt =====
-- The theorems of src/tactmon/net at concrete inputs.
use tactmon.Prelude.{
  ℕ, ◌-◌, ◌≤◌, ◌<◌, ◌≡◌, refl, ◌∙◌, Bool, true, false, none, some, List, [], ◌∷◌, ◌++◌, arith,
  Bytes, length, codes, ok, size_mod,
}
use tactmon.Backend.Orm.Digits.{explode_digits, AreDigits-explode, value_of-explode}
use tactmon.Tact.Data.FileLocation.{ArchiveFileLocation}
use tactmon.Text.Numbers.{value_of}
use tactmon.Text.Numbers.Laws.{written, AreDigits}
use tactmon.Net.Address.{archive_address}
use tactmon.Net.Request.{accepted, parse_target}
use tactmon.Net.Request.Laws.{IsDecimal, parse_target-archive_address}
use tactmon.Net.Transfer.{Request, Attempt, interrupted, complete, fetch_all}
use tactmon.Net.Transfer.Laws.{received_all, sum, is_sent, is_resolved, fetch_all-resumes}
use tactmon.Net.Transfer.Whole.{fetch_all-whole}
use tactmon.Net.Outgoing.{
  Session, new_session, queue_limit, begin_write, handle_read, handle_write, answered,
  process_request, begin_read, update_outgoing, start_front,
}
use tactmon.Net.Outgoing.Laws.{Arises, opens, goes, reads, Arises-bounds}

-- Numbers in decimal digits, with a digit for 0.
abbrev head_or_zero : List ℕ → ℕ
head_or_zero [] = 0
head_or_zero (d ∷ ds) = d

abbrev behind_head : List ℕ → List ℕ
behind_head [] = []
behind_head (d ∷ ds) = ds

head-AreDigits : (ds : List ℕ) → AreDigits ds → AreDigits (head_or_zero ds ∷ behind_head ds)
head-AreDigits [] a = (omega arith, tt)
head-AreDigits (d ∷ ds) a = a

value-head : (ds : List ℕ) → value_of 0 (head_or_zero ds ∷ behind_head ds) ≡ value_of 0 ds
unfolding value_of
value-head [] = refl
value-head (d ∷ ds) = refl

decimal : ℕ → Bytes
decimal n = written (head_or_zero (explode_digits n n []) ∷ behind_head (explode_digits n n []))

decimal-IsDecimal : IsDecimal decimal
unfolding decimal
decimal-IsDecimal = record {
  first = λ n. head_or_zero (explode_digits n n []);
  others = λ n. behind_head (explode_digits n n []);
  digits = λ n. head-AreDigits (explode_digits n n []) (AreDigits-explode n n [] tt);
  text_eq = λ n. refl;
  value_eq = λ n. value-head (explode_digits n n []) ∙ value_of-explode n n (omega arith);
}

abbrev location : ArchiveFileLocation
location = record { name = codes "abcd"; offset = 20; file_size = 30 }

parse_target-archive_address_example :
    (target : Bytes) × (archive_address decimal
        (codes "http://h")
        (codes "wow")
        location
        (codes "f.exe")
        40
      ≡ codes "http://h" ++ target)
    × (parse_target target
        ≡ ok (
            accepted (record {
              product = codes "wow";
              archive_name = codes "abcd";
              offset = 20;
              len = 30;
              decompressed_size = 40;
              file_name = codes "f.exe";
            })))
parse_target-archive_address_example =
    parse_target-archive_address decimal (codes "http://h") (codes "wow") location 40 b'f'
      (codes ".exe") decimal-IsDecimal (ground arith) (ground arith) (ground arith) (omega arith)
      (omega arith) (omega arith) (omega arith)

abbrev broken : Attempt
broken = record { host = codes "a"; path = codes "/p"; outcome = interrupted (4 ∷ 6 ∷ []) }

abbrev whole : Attempt
whole = record { host = codes "b"; path = codes "/p"; outcome = complete (20 ∷ []) }

fetch_all-resumes_example :
    (earlier later : List Request) × ((fetch_all decimal
        (broken ∷ whole ∷ [])
        (record { offset = 100; len = 30 })).0
      ≡ earlier
        ++ (record {
          host = codes "b";
          path = codes "/p";
          range = some (decimal 110 ++ (codes "-" ++ decimal 129));
        }
            ∷ later))
unfolding received_all is_sent is_resolved
fetch_all-resumes_example =
    fetch_all-resumes decimal (broken ∷ []) [] whole 100 30 10 (refl, tt) refl (omega arith)
      (omega arith) refl

fetch_all-whole_example :
    (later : List Request) × ((fetch_all decimal
        (whole ∷ broken ∷ [])
        (record { offset = 0; len = 0 })).0
      ≡ record { host = codes "b"; path = codes "/p"; range = none }
        ∷ record {
          host = codes "a";
          path = codes "/p";
          range = some (decimal 20 ++ (codes "-" ++ decimal (size_mod - 1)));
        }
        ∷ later)
unfolding sum is_sent
fetch_all-whole_example =
    fetch_all-whole decimal (codes "b") (codes "/p") (20 ∷ []) broken [] (omega arith) (omega arith)
      refl

-- A session that has answered a bad request and reads the next one.
abbrev busy : Session
busy = record { queue = []; writing = false ∷ []; reading = 1; is_shut = false }

busy-Arises : Arises busy
unfolding new_session handle_read process_request begin_write begin_read update_outgoing start_front
busy-Arises = goes opens (reads new_session 0 answered refl)

Arises-bounds_example :
    (◌≡◌ {A = List Bool} [] [])
    × (◌≤◌ 1 1)
    × (begin_write true busy ≡ record busy { queue = []; writing = false ∷ true ∷ [] })
    × (length (begin_write true busy).queue < queue_limit)
    × ((handle_write true false busy).reading ≡ 1)
Arises-bounds_example = Arises-bounds busy true false busy-Arises
