-- ===== src/Pdu/Feed/Received.antt =====
-- From a frame over RTU to the master's parser: the echo of a write, and an exception
-- (src/pdu.c, src/framer_rtu.c).
use pamodbus.Common.{ℕ, ◌+◌, ◌/◌, ◌%◌, ◌^◌, ◌≤◌, ◌<◌, List, [], ◌∷◌, ◌++◌, some}
use pamodbus.Common.{◌≡◌, refl, arith, ap, ◌∙◌, append_assoc, length, if◌then◌else◌, ◌>>=◌}
use pamodbus.Crc.Reference.{reference_crc, IsBytes}
use pamodbus.Context.{Modbus, pa_ok, pa_err_invalid_slave}
use pamodbus.Framer.Outcome.{pdu_at, stopped}
use pamodbus.Framer.Frames.{rtu_adu, crc_bytes}
use pamodbus.Framer.Ops.{unwrap-rtu_unwrap}
use pamodbus.Framer.Rtu.{expect, expected_len}
use pamodbus.Framer.Rtu.Complete.{rtu_unwrap-adu}
use pamodbus.Pdu.Build.Payload.{fixed_pdu}
use pamodbus.Pdu.Master.{parse_master_response, echo_response, clear_response}
use pamodbus.Pdu.Feed.{master_feed, master_dispatch}
use pamodbus.Pdu.Feed.Roundtrip.{IsListening}

module _ {W : Type 0} (m : Modbus W) (id : ℕ) (l : IsListening m id) (extra : List ℕ) where
  -- A frame whose length is recognised reaches the parser.
  pub master_feed-adu :
      (fc : ℕ) (payload : List ℕ) (len : ℕ)
      → IsBytes (id ∷ fc ∷ payload)
      → length payload + 4 ≤ len
      → expected_len fc (rtu_adu id (fc ∷ payload) ++ extra) len
        ≡ some (expect (length payload + 4))
      → master_feed m (rtu_adu id (fc ∷ payload) ++ extra) len
        ≡ parse_master_response m
            ((fc ∷ payload) ++ (crc_bytes (reference_crc 0xffff (id ∷ fc ∷ payload)) ++ extra))
            (length (fc ∷ payload))
  unfolding master_feed master_dispatch
  master_feed-adu fc payload len bytes room found =
      let frame = rtu_adu id (fc ∷ payload) ++ extra in
      let crc = crc_bytes (reference_crc 0xffff (id ∷ fc ∷ payload)) in
      ap (λ o. o >>= master_dispatch m frame)
        (unwrap-rtu_unwrap m l.framed frame len
          ∙ rtu_unwrap-adu m id fc payload extra len bytes room found
          ∙ ap
              (λ b.
                if b
                then some (stopped pa_err_invalid_slave)
                else some (pdu_at 1 (length (fc ∷ payload))))
              l.unit)
      ∙ ap (λ p. parse_master_response m p (length (fc ∷ payload)))
          (append_assoc (fc ∷ payload) crc extra)

  -- The echo of a write of one register (FC 06).
  pub master_feed-echo :
      (addr v : ℕ)
      → id < 256
      → addr < 2 ^ 16
      → v < 2 ^ 16
      → master_feed m (rtu_adu id (fixed_pdu 6 addr v) ++ extra) 8
        ≡ some (pa_ok, clear_response (record m { last_function = 6 }))
  unfolding expected_len parse_master_response echo_response
  master_feed-echo addr v hid ha hv =
      let payload = addr / 256 ∷ addr % 256 ∷ v / 256 ∷ v % 256 ∷ [] in
      master_feed-adu 6 payload 8 (omega arith) (omega arith) refl ∙ refl
