-- ===== src/Backend/Monitor.antt =====
-- src/tactmon/backend/RibbitMonitor.cpp: the products of a summary against the table of products.
-- The table is in a database behind the statements of db/repository/Product.cpp: a parameter, with
-- what a select by name gives after an insert and after an update.
pub mod Laws
use tactmon.Prelude.{
  ℕ, ◌≡◌, Bool, true, false, Option, none, some, List, [], ◌∷◌, ◌++◌, Bytes, ltb, if◌then◌else◌,
  equal, is_empty,
}
use tactmon.Ribbit.Records.{SummaryRecord}

-- `db::repository::Product`: `GetByName` of the sequence number, `Insert` and `Update`.
pub record Products (T : Type 0) : Type 0 where
  pub get_by_name : Bytes → T → Option ℕ
  pub insert : Bytes → ℕ → T → T
  pub update : Bytes → ℕ → T → T
  pub get-insert :
      (name other : Bytes) (id : ℕ) (table : T)
      → get_by_name name table ≡ none
      → get_by_name other (insert name id table)
        ≡ (if equal name other then some id else get_by_name other table)
  pub get-update :
      (name other : Bytes) (id old : ℕ) (table : T)
      → get_by_name name table ≡ some old
      → get_by_name other (update name id table)
        ≡ (if equal name other then some id else get_by_name other table)

pub data ProductState : Type 0 where
  updated deleted : ProductState

-- A call of a listener; listeners are numbered.
pub record Call : Type 0 where
  pub listener : ℕ
  pub product : Bytes
  pub sequence_id : ℕ
  pub state : ProductState

-- The table, the listeners, and the calls of them so far.
pub record RibbitMonitor (T : Type 0) : Type 0 where
  pub table : T
  pub listeners : List ℕ
  pub calls : List Call

unfoldable pub call_all : List ℕ → Bytes → ℕ → ProductState → List Call
call_all [] product id state = []
call_all (l ∷ ls) product id state =
    record { listener = l; product = product; sequence_id = id; state = state }
    ∷ call_all ls product id state

module _ {T : Type 0} where
  -- `RegisterListener`.
  unfoldable pub register_listener : ℕ → RibbitMonitor T → RibbitMonitor T
  register_listener l m = record m { listeners = m.listeners ++ (l ∷ []) }

  unfoldable pub notify_product_update : Bytes → ℕ → RibbitMonitor T → RibbitMonitor T
  unfolding call_all
  notify_product_update product id m = record m {
    calls = m.calls ++ call_all m.listeners product id updated;
  }

  unfoldable pub notify_product_deleted : Bytes → ℕ → RibbitMonitor T → RibbitMonitor T
  unfolding call_all
  notify_product_deleted product id m = record m {
    calls = m.calls ++ call_all m.listeners product id deleted;
  }

  module _ (db : Products T) where
    -- One record of the summary: only one with no flags is looked at.
    unfoldable pub on_record : SummaryRecord → RibbitMonitor T → RibbitMonitor T
    unfolding notify_product_update
    on_record r m =
        if is_empty r.flags
        then elim (db.get_by_name r.product m.table) [
          | none ↦
              notify_product_update r.product r.sequence_id
                (record m { table = db.insert r.product r.sequence_id m.table })
          | some previous ↦
              if ltb previous r.sequence_id
              then notify_product_update r.product r.sequence_id
                  (record m { table = db.update r.product r.sequence_id m.table })
              else m
        ]
        else m

    unfoldable pub on_records : List SummaryRecord → RibbitMonitor T → RibbitMonitor T
    on_records [] m = m
    on_records (r ∷ rs) m = on_records rs (on_record r m)

    -- `OnUpdate`: whether the timer was stopped, and what the summary command gave.
    unfoldable pub on_update :
        Bool → Option (List SummaryRecord) → RibbitMonitor T → RibbitMonitor T
    on_update true summary m = m
    on_update false none m = m
    on_update false (some records) m = on_records records m
