-- ===== src/Context/Tests.antt =====
-- The context of src/pamodbus.c on concrete values.
use pamodbus.Common.{ℕ, some, ◌≡◌, ◌≤◌, ◌<◌}
use pamodbus.Context.{Modbus, init}
use pamodbus.Context.Access.{get_coil, get_register}
use pamodbus.Context.Valid.{init-IsValid, accessors_total}

abbrev ctx_new : Modbus ℕ
ctx_new = init 0 0

accessors_total_example :
    ((c : ℕ) × (get_coil ctx_new 9 ≡ some c) × (c < 2) × (0 ≤ 9 → c ≡ 0))
    × ((r : ℕ) × (get_register ctx_new 9 ≡ some r) × (0 ≤ 9 → r ≡ 0))
unfolding init
accessors_total_example = accessors_total ctx_new (init-IsValid 0 0) 9
