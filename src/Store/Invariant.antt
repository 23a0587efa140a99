-- ===== src/Store/Invariant.antt =====
-- Well-formed stock: what the CHECK constraints of itembatch demand, and the agreement of the two
-- levels at which reservations are kept.
use dmis_feature_branch.Base.{◌≤◌, ◌≡◌, some, All}
use dmis_feature_branch.Base.Table.{first}
use dmis_feature_branch.Store.Rows.{Db, ItemBatch, Inventory, StockKey}
use dmis_feature_branch.Store.Query.{is_stock, reserved_total, usable_total}

-- c_itembatch_2b: no batch has more reserved than is usable.
abbrev pub IsCovered : ItemBatch → Type 0
IsCovered b = b.reserved_qty ≤ b.usable_qty

abbrev pub AllCovered : Db → Type 0
AllCovered s = All IsCovered s.batches

-- sum(itembatch.reserved_qty) = inventory.reserved_qty for the row of a key, if it is active
abbrev pub Agrees : Db → StockKey → Type 0
Agrees s k =
    (r : Inventory)
    → first (is_stock k) s.inventories ≡ some r
    → r.status_code ≡ b'A'
    → r.reserved_qty ≡ reserved_total k s.batches

abbrev pub IsConsistent : Db → Type 0
IsConsistent s = (k : StockKey) → Agrees s k

-- The same for the usable quantities: sum(itembatch.usable_qty) = inventory.usable_qty.
abbrev pub AgreesUsable : Db → StockKey → Type 0
AgreesUsable s k =
    (r : Inventory)
    → first (is_stock k) s.inventories ≡ some r
    → r.status_code ≡ b'A'
    → r.usable_qty ≡ usable_total k s.batches

abbrev pub IsUsableConsistent : Db → Type 0
IsUsableConsistent s = (k : StockKey) → AgreesUsable s k
