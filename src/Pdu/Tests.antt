-- ===== src/Pdu/Tests.antt =====
-- The PDU layer of src/pdu.c on concrete requests.
use pamodbus.Common.{refl, ℕ, [], ◌∷◌, arith}
use pamodbus.Context.{Modbus, init}
use pamodbus.Context.Valid.{Keeps, init-IsValid}
use pamodbus.Common.{◌≡◌}
use pamodbus.Pdu.Slave.{parse_slave_request}
use pamodbus.Pdu.Master.{parse_master_response}
use pamodbus.Pdu.Master.Safe.{parse_master_response-Keeps}
use pamodbus.Pdu.Slave.Safe.{parse_slave_request-Keeps}
use pamodbus.Common.{◌+◌, suc, ◌*◌, replicate, pos}
use pamodbus.Pdu.Respond.Files.{ReadLoop, WriteLoop, read_round, write_round, rounds}
use pamodbus.Pdu.Respond.Files.Fuel.{file_rounds-enough}
use pamodbus.Context.Untouched.{setup_of, Untouched}
use pamodbus.Pdu.Feed.{master_feed, slave_feed}
use pamodbus.Pdu.Feed.Frame.{feeds-Untouched}
use pamodbus.Pdu.Feed.Safe.{feeds-Keeps}

-- A context fresh from `pa_modbus_init`.
abbrev ctx_new : Modbus ℕ
ctx_new = init 0 0

parse_slave_request-Keeps_example :
    Keeps (parse_slave_request ctx_new (16 ∷ 0 ∷ 1 ∷ 0 ∷ 1 ∷ 2 ∷ 3 ∷ 4 ∷ []) 8)
parse_slave_request-Keeps_example =
    parse_slave_request-Keeps ctx_new (16 ∷ 0 ∷ 1 ∷ 0 ∷ 1 ∷ 2 ∷ 3 ∷ 4 ∷ []) 8 (init-IsValid 0 0)
      (omega arith)

-- A response with one register, and a byte behind it.
parse_master_response-Keeps_example :
    Keeps (parse_master_response ctx_new (3 ∷ 2 ∷ 1 ∷ 2 ∷ 9 ∷ []) 4)
parse_master_response-Keeps_example =
    parse_master_response-Keeps ctx_new (3 ∷ 2 ∷ 1 ∷ 2 ∷ 9 ∷ []) 4 (init-IsValid 0 0) (omega arith)

-- A request of one sub-request.
abbrev ctx_file : Modbus ℕ
ctx_file = record ctx_new { slave_reg_count = 4; slave_reg_data = 0x600 ∷ 4 ∷ 1 ∷ 2 ∷ [] }

abbrev read_start : ReadLoop ℕ
read_start = record {
  buf = replicate 16 0;
  offset = 2;
  resp_byte_count = 0;
  req_offset = 0;
  world = 0;
}

abbrev write_start : WriteLoop ℕ
write_start = record { offset = 0; world = 0 }

file_rounds-enough_example :
    (rounds (read_round ctx_file (λ a n w. (pos 0, 1 ∷ 2 ∷ [], w))) (suc (4 * 2) + 5) read_start
      ≡ rounds (read_round ctx_file (λ a n w. (pos 0, 1 ∷ 2 ∷ [], w))) (suc (4 * 2)) read_start)
    × (rounds (write_round ctx_file (λ a n v w. (pos 0, w))) (suc (4 * 2) + 5) write_start
        ≡ rounds (write_round ctx_file (λ a n v w. (pos 0, w))) (suc (4 * 2)) write_start)
file_rounds-enough_example =
    file_rounds-enough ctx_file (λ a n w. (pos 0, 1 ∷ 2 ∷ [], w)) (λ a n v w. (pos 0, w)) read_start
      write_start 5

feeds-Untouched_example :
    Untouched (setup_of ctx_new) (master_feed ctx_new (1 ∷ 7 ∷ 9 ∷ []) 3)
    × Untouched (setup_of ctx_new) (slave_feed ctx_new (1 ∷ 7 ∷ 9 ∷ []) 3)
feeds-Untouched_example = feeds-Untouched ctx_new (1 ∷ 7 ∷ 9 ∷ []) 3

feeds-Keeps_example :
    Keeps (master_feed ctx_new (1 ∷ 7 ∷ 9 ∷ 9 ∷ 9 ∷ []) 5)
    × Keeps (slave_feed ctx_new (1 ∷ 7 ∷ 9 ∷ 9 ∷ 9 ∷ []) 5)
unfolding init
feeds-Keeps_example =
    feeds-Keeps ctx_new (init-IsValid 0 0) refl (1 ∷ 7 ∷ 9 ∷ 9 ∷ 9 ∷ []) 5 (omega arith)
