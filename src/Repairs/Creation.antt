-- ===== src/Repairs/Creation.antt =====
-- The cases that an order creates: `createCasesForOrderInTransaction` of
-- apps/api/src/modules/repairs/services/repair-case.service.ts.
use savemycontrollers.Repairs.Data.{RepairCase}
use savemycontrollers.Prelude.{Uuid, List, map}

abbrev pub items_of_cases : List RepairCase → List Uuid
items_of_cases = map (λ (c : RepairCase). c.order_item_id)
