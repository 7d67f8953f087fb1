-- ===== src/Lib.antt =====
-- pamodbus: a MODBUS library in C for masters and slaves, over RTU and TCP framing.
--
-- The program. A context (`struct pa_modbus`, src/pamodbus_internal.h) holds two buffers, the
-- configuration, the callbacks, and the result of the last parse. A master builds a request PDU in
-- the transmit buffer (src/pdu.c); the framer of the context (src/framer_rtu.c with the CRC of
-- src/crc16.c, or src/framer_tcp.c) wraps it in place; the send callback takes it away. Received
-- bytes are collected in the receive buffer (`pa_modbus_recv`, src/pamodbus.c), a frame is looked
-- for at every offset, unwrapped by the framer, and its PDU parsed into the context, as a response
-- by a master and as a request by a slave (src/pdu.c). A slave then answers with
-- `pa_modbus_slave_respond`, which asks the application's callbacks.
--
-- The files.
--   Common          the names that all share: arrays as lists, tests, casts, `switch`, memory
--                   accesses, the lemmas on them
--   Crc             src/crc16.c; Reference is the CRC by its definition, Detect what it detects
--   Context         src/pamodbus_internal.h, the enums of include/pamodbus.h, `pa_modbus_init`;
--                   Config and Access are the setters, getters and accessors of src/pamodbus.c;
--                   Valid the representation invariant, Untouched the part that a parse does not
--                   write
--   Framer          the operation tables; Frames says what a frame on the wire is
--   Framer.Rtu      src/framer_rtu.c; Length, Accept, Total, Complete are proofs on unwrap, and
--                   Wrap on wrap
--   Framer.Tcp      src/framer_tcp.c; Wrap and Unwrap are proofs
--   Pdu             src/pdu.c: Wire the helpers, Build the requests of the master, Master and
--                   Slave the two parsers, Respond the answers of the slave, Feed the two feed
--                   functions. Children called Safe are about the bounds of arrays, Frame about
--                   what a parse leaves alone; in Respond, Framed, Served and Combined have the
--                   cases that Safe puts together, and Files.Loops what a loop keeps;
--                   Wire.Layout, Build.Payload, Build.Sent, Build.Coils, Build.Packed,
--                   Slave.Request, Master.Response, Respond.Registers and Respond.Written say what
--                   is on the wire, and
--                   Feed.Roundtrip, Feed.Transaction, Feed.Received and Feed.Exceptions run both
--                   sides one after the other; Feed.Session says what a file of registers is, and
--                   Feed.Refine that a master and a slave are one
--   Receive         src/pamodbus.c: `pa_modbus_recv`; Accumulate what it shares with Raw, which is
--                   `pa_modbus_recv_raw`; Send is `pa_modbus_send` and `pa_modbus_send_raw`;
--                   Safe, Arrive and Total are about the bounds of the receive buffer, Trailer
--                   and Shortest about what the raw receiver accepts, Polls about calls in any
--                   order,
--                   First about the frame that is found, Sending about what is sent
--   Host            the files under host/: Posix the calls of the system, Port include/pa_port.h,
--                   Clock what is documented of time, Simulated a system for the tests
--   Host.Serial     host/pa_serial.c; Open is `pa_serial_open` and `pa_serial_close`, Balance what
--                   they hold, Sent what `ser_send` sends, Transmit and Listen the port as a
--                   send and a receive callback
--   Host.SlaveDisco host/slave_disco.c; Main is its `main`, Wait the end of its loop, Identity and
--                   Random its helpers
--   Host.MasterDisco host/master_disco.c; Scan is the end of its loop
--   Tests           in each part: runs on concrete data, and the theorems applied
--
-- The correspondence. A definition has the name of its function without `pa_`, `pa_modbus_` or
-- `pa_framer_` (`pa_framer_rtu_wrap` is `rtu_wrap`); getters that have the name of a field, or of
-- another definition, begin with `get_`. Bytes and words are natural numbers, with the casts of the
-- code written out as `u8`, `u16`, `u32` and `size_t`. An array is a list, and `none` as the result of an
-- operation is an access outside an array, which C leaves undefined; memory that is not initialised is
-- not in the list. The `int` that an operation returns is an integer; lengths are taken to fit an
-- `int`. A case of a `switch` is a definition of its own, and `switch` takes the labels with their cases. A
-- callback and its userdata are one function on the world, a last field of the context; it changes
-- the world and not the context. The static transaction counter of src/framer_tcp.c is a field of
-- the context too.
--
-- The loops. Each counts to a limit and is structural recursion on the rounds that are left. The loops over
-- file records (FC 14 and 15) advance by at least 7 of the 2 * slave_reg_count bytes of the
-- request in a round, so 2 * slave_reg_count + 1 rounds are enough fuel.
--
-- The loop of `ser_send` has one call of `write` per byte and one per interruption as fuel. The loops of the
-- two discovery programs are on the passes that are left; the theorems on them give how many are enough, by
-- a clock that runs.
--
-- The world outside. POSIX, termios and the C library, as host/pa_serial.c calls them, are the record
-- `Posix` of functions on the state of the system; the library pamodbus-disco, which the two programs
-- under host/ run on, is a record of functions on the state of the program (`Library` and `MasterLibrary`).
-- What is documented of them is a hypothesis where a theorem needs it (`IsWriter`, `IsReader`,
-- `IsAccounted`, `IsClock`, `IsSleeping`), and so is that the services of pamodbus-disco return in
-- less than 2 ^ 28 ms (`IsServing`), and what the application's callbacks promise (`IsPolite`, `Fills`,
-- `IsRegisterFile`).
--
-- Not modelled. What the programs under host/ print; the shim under host/shim/, a stand-in for another
-- platform's library; the build options that leave the master or the slave out; the tests.
pub mod Common
pub mod Crc
pub mod Context
pub mod Framer
pub mod Pdu
pub mod Receive
pub mod Host
