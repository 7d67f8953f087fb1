-- ===== src/Receive/Tests.antt =====
-- The receiver and the sender on concrete data.
use pamodbus.Common.{
  ℕ, ◌+◌, ◌++◌, List, [], ◌∷◌, some, store, ◌≡◌, refl, arith, length, length-take, take, replicate,
  pos, deref,
}
use pamodbus.Context.{Modbus, init, SendFn, RecvFn, slave_mode, pa_wait}
use pamodbus.Context.Config.{set_slave, set_txbuf, set_send_cb, set_rxbuf, set_recv_cb, set_mode}
use pamodbus.Receive.Accumulate.{tick_of, tick, count_rx, append_rx, timed_out}
use pamodbus.Receive.{Found, scan_frame, recv, recv_by, on_append, idle}
use pamodbus.Receive.Safe.{IsReceiving, Receives, IsPolite, counted}
use pamodbus.Receive.Raw.{recv_raw}
use pamodbus.Receive.Send.{send_raw}
use pamodbus.Receive.Sending.{IsSending, handed_over, send_raw-handed_over}
use pamodbus.Receive.First.{First, scan_frame-First}
use pamodbus.Receive.Shortest.{RawDone, polled, recv_raw-RawDone}
use pamodbus.Receive.Polls.{Reach, here, next, poll, slave_set, mode_set, Reach-Polls}
use pamodbus.Receive.Total.{recv-Receives}

-- Write the register 1, for the unit 1, with bytes of garbage around it.
abbrev arriving : List ℕ
arriving = 9 ∷ 1 ∷ 6 ∷ 0 ∷ 1 ∷ 0 ∷ 3 ∷ 0x98 ∷ 0x0b ∷ 1 ∷ []

abbrev serial_cb : RecvFn ℕ
serial_cb = λ max w. (pos (length (take max arriving)), take max arriving, w)

abbrev listener : Modbus ℕ
unfolding init set_slave set_rxbuf set_recv_cb
listener =
    set_recv_cb (set_rxbuf (set_slave (init 1 0) 1) (some (replicate 16 0)) 16) (some serial_cb)

serial_cb-IsPolite : IsPolite serial_cb
serial_cb-IsPolite max w = omega (arith, length-take max arriving)

listener-IsReceiving : IsReceiving listener
unfolding listener
listener-IsReceiving = record {
  valid = omega arith;
  framed = refl;
  framed_type = refl;
  room = omega arith;
  pending = omega arith;
  small = omega arith;
}

recv-Receives_example : Receives (recv listener)
unfolding listener
recv-Receives_example =
    recv-Receives listener serial_cb listener-IsReceiving refl serial_cb-IsPolite

-- The caller's memory holds 4 bytes.
recv_raw-RawDone_example :
    (mem : List ℕ) × (store (replicate 16 0) 0 arriving ≡ some mem)
    × RawDone 16
        (pos 10)
        mem
        10
        (replicate 4 0)
        4
        (recv_raw listener (some (replicate 4 0)) (some 4))
unfolding listener
recv_raw-RawDone_example =
    recv_raw-RawDone listener serial_cb (replicate 4 0) 4 listener-IsReceiving refl
      serial_cb-IsPolite (omega arith)

-- A line with nothing on it.
abbrev quiet_cb : RecvFn ℕ
quiet_cb = λ max w. (pos 0, [], w)

abbrev quiet : Modbus ℕ
unfolding listener set_recv_cb
quiet = set_recv_cb listener (some quiet_cb)

quiet-IsReceiving : IsReceiving quiet
unfolding quiet
quiet-IsReceiving = record {
  valid = omega arith;
  framed = refl;
  framed_type = refl;
  room = omega arith;
  pending = omega arith;
  small = omega arith;
}

quiet_cb-IsPolite : IsPolite quiet_cb
quiet_cb-IsPolite max w = omega arith

recv_quiet : recv quiet ≡ some (pa_wait, quiet)
unfolding quiet recv recv_by tick tick_of append_rx store count_rx on_append idle timed_out
recv_quiet = refl

quiet_registered : quiet.callbacks.recv_cb ≡ some quiet_cb
unfolding quiet
quiet_registered = refl

abbrev polled_on : Modbus ℕ
unfolding quiet set_mode set_slave
polled_on = set_mode (set_slave quiet 9) slave_mode

polled_on-Reach : Reach quiet polled_on
unfolding polled_on
polled_on-Reach =
    next
      (next (next here (poll quiet_cb quiet_registered quiet_cb-IsPolite recv_quiet)) (slave_set 9))
      (mode_set slave_mode)

polled_on-registered : polled_on.callbacks.recv_cb ≡ some quiet_cb
unfolding polled_on
polled_on-registered = refl

-- A poll, another address and another mode, then a poll of either kind.
Reach-Polls_example :
    IsReceiving polled_on
    × Receives (recv polled_on)
    × ((mem : List ℕ) × (store
            (deref polled_on.rxbuf)
            polled_on.rx_len
            (polled polled_on quiet_cb).1
          ≡ some mem)
        × RawDone polled_on.rxbuf_size
            (polled polled_on quiet_cb).0
            mem
            (polled_on.rx_len + counted (polled polled_on quiet_cb).0)
            (replicate 4 0)
            4
            (recv_raw polled_on (some (replicate 4 0)) (some 4)))
Reach-Polls_example =
    Reach-Polls quiet_cb (replicate 4 0) 4 polled_on-Reach quiet-IsReceiving polled_on-registered
      quiet_cb-IsPolite (omega arith)

-- Bytes of garbage and a frame are pending.
abbrev waiting : Modbus ℕ
unfolding listener
waiting = record listener { rxbuf = some (arriving ++ replicate 6 0); rx_len = 10 }

waiting-IsReceiving : IsReceiving waiting
unfolding waiting
waiting-IsReceiving = record {
  valid = omega arith;
  framed = refl;
  framed_type = refl;
  room = omega arith;
  pending = omega arith;
  small = omega arith;
}

scan_frame-First_example : (f : Found) × (scan_frame waiting ≡ some f) × First waiting 0 10 f
unfolding waiting
scan_frame-First_example = scan_frame-First waiting waiting-IsReceiving (omega arith)

-- A callback that takes everything.
abbrev line_cb : SendFn ℕ
line_cb = λ bytes len w. (pos 0, w + len)

abbrev sender : Modbus ℕ
unfolding init set_slave set_txbuf set_send_cb
sender = set_send_cb (set_txbuf (set_slave (init 1 0) 1) (some (replicate 16 0)) 16) (some line_cb)

sender-IsSending : IsSending sender line_cb
unfolding sender
sender-IsSending = record {
  framed_by = refl;
  registered = refl;
  there = refl;
  room = omega arith;
  spare = omega arith;
  small = omega arith;
  unit = omega arith;
}

send_raw-handed_over_example :
    send_raw sender (7 ∷ 9 ∷ []) 2 ≡ handed_over sender line_cb (7 ∷ 9 ∷ [])
unfolding sender
send_raw-handed_over_example =
    send_raw-handed_over sender line_cb (7 ∷ 9 ∷ []) [] sender-IsSending (omega arith)
