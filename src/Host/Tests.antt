-- ===== src/Host/Tests.antt =====
-- The programs under host/ on concrete data.
use pamodbus.Common.{ℕ, ◌≤◌, ◌<◌, some, ◌≡◌, refl, arith, replicate, true, pos, store}
use pamodbus.Context.{init}
use pamodbus.Host.Simulated.{System, system, started}
use pamodbus.Host.Serial.{ser_ticks}
use pamodbus.Host.SlaveDisco.{Program, Library, slave_random, copy_serialno}
use pamodbus.Host.SlaveDisco.Main.{wait_from}
use pamodbus.Host.Clock.{IsClock, IsSleeping}
use pamodbus.Host.SlaveDisco.Wait
use pamodbus.Host.MasterDisco.Scan
use pamodbus.Host.SlaveDisco.Random.{slave_random-bounds}
use pamodbus.Host.SlaveDisco.Identity.{copy_serialno-store}
use pamodbus.Host.SlaveDisco.Wait.{Ended, wait_from-Ended}
use pamodbus.Host.MasterDisco.{Scanner, MasterLibrary, scan_until}
use pamodbus.Host.MasterDisco.Scan.{Scanned, scan_until-Scanned}

slave_random-bounds_example :
    (r s : ℕ) × (slave_random 10 60 0x2468ACE0 ≡ some (r, s))
    × (10 ≤ r)
    × (s < 4294967296)
    × (r ≤ 60)
slave_random-bounds_example =
    slave_random-bounds 10 60 0x2468ACE0 (omega arith) (omega arith) (omega arith) (omega arith)

-- A library that assigns the identifier 7 at once.
abbrev assigning : Library System ℕ ℕ
assigning = record {
  disco_addr = 0xff;
  reg_start = 2;
  holding_nregs = 12;
  register_map_init = λ s. s;
  register_map_set_holding = λ first count s. s;
  register_map_set_req_cb = λ s. s;
  slave_init = λ s. s;
  slave_set_callbacks = λ s. s;
  slave_set_window = λ lo hi s. s;
  slave_set_serialno = λ s. s;
  slave_service = λ s. (
    true,
    record s { assigned_id = 7; pam = record (s.pam) { world = system.usleep 1 s.pam.world } },
  );
  register_map_service = λ s. s;
  slave_read_cb = λ reg cnt s. (pos 1, s);
  slave_write_cb = λ reg cnt s. (pos 1, s);
}

copy_serialno-store_example :
    copy_serialno assigning 0 6 (replicate 6 9) (replicate 12 0)
    ≡ store (replicate 12 0) 3 (replicate 6 9)
copy_serialno-store_example =
    copy_serialno-store assigning 0 6 (replicate 6 9) (replicate 12 0) (omega arith) (omega arith)

abbrev waiting : Program System ℕ ℕ
unfolding init
waiting = record {
  pam = init 1 started;
  disco = 0;
  map = 0;
  holding = replicate 12 0;
  serialno = replicate 6 0;
  assigned_id = 0;
  s_rand = 0x2468ACE0;
}

system-IsClock : IsClock (ser_ticks system) (λ w. w.nanos)
unfolding ser_ticks
system-IsClock = record {
  tells = λ w. omega arith;
  runs = λ w. omega arith;
  quick = λ w. omega arith;
}

assigning-IsServing : Wait.IsServing assigning (λ w. w.nanos)
assigning-IsServing = record { slave = λ s. omega arith; register_map = λ s. omega arith }

wait_from-Ended_example :
    Ended assigning
      (ser_ticks system)
      (λ w. w.nanos)
      30000
      waiting
      (wait_from assigning (ser_ticks system) 0 30000 32001000000 0 waiting)
unfolding waiting
wait_from-Ended_example =
    wait_from-Ended assigning (ser_ticks system) (λ w. w.nanos) 0 30000 waiting system-IsClock
      assigning-IsServing (omega arith) refl

-- A library that finds nothing.
abbrev finding : MasterLibrary System ℕ
finding = record {
  master_init = λ s. s;
  master_set_settings = λ values s. s;
  master_set_callbacks = λ s. s;
  master_service = λ s. s;
}

abbrev scanning : Scanner System ℕ
unfolding init
scanning = record { pam = init 1 started; disco = 0; found = 0 }

system-IsSleeping : IsSleeping system (λ w. w.nanos)
system-IsSleeping = record { sleeps = λ us w. omega arith; wakes = λ us w. omega arith }

finding-IsServing : Scan.IsServing finding (λ w. w.nanos)
finding-IsServing s = omega arith

scan_until-Scanned_example :
    Scanned finding system
      (ser_ticks system)
      (λ w. w.nanos)
      12000
      scanning
      (scan_until finding system (ser_ticks system) 0 12000 603 scanning)
unfolding scanning
scan_until-Scanned_example =
    scan_until-Scanned finding system (ser_ticks system) (λ w. w.nanos) 0 12000 scanning
      system-IsClock system-IsSleeping finding-IsServing (omega arith) refl
