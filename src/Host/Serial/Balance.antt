-- ===== src/Host/Serial/Balance.antt =====
-- `pa_serial_open` and `pa_serial_close` of host/pa_serial.c: descriptors and memory.
use pamodbus.Common.{
  ℕ, suc, List, ◌∷◌, Option, none, some, true, false, Bool, Bool-cases, inl, inr, bit_or, ap,
}
use pamodbus.Common.{◌≡◌, refl, ◌∙◌, ℤ, is_negative, is_zero, not, if◌then◌else◌}
use pamodbus.Host.Posix.{Posix, Termios, Complaint, Speed}
use pamodbus.Host.Posix.{open_failed, unsupported_baud}
use pamodbus.Host.Serial.{Serial}
use pamodbus.Host.Serial.Open.{
  baud_to_speed, raw_8n1, allocated, configured, is_b0, opened, serial_open, serial_close,
}

-- What the process holds: its open descriptors, and how many blocks of memory.
pub record Held : Type 0 where
  pub fds : List ℤ
  pub blocks : ℕ

-- What is documented of the calls: the only ones that take or give back are these four.
pub record IsAccounted {W T : Type 0} (os : Posix W T) (held : W → Held) : Type 0 where
  pub opens :
      (device : List ℕ) (flags : ℕ) (w : W)
      → is_negative (os.open_dev device flags w).0 ≡ false
      → held (os.open_dev device flags w).1
        ≡ record (held w) { fds = (os.open_dev device flags w).0 ∷ (held w).fds }
  pub opens_not :
      (device : List ℕ) (flags : ℕ) (w : W)
      → is_negative (os.open_dev device flags w).0 ≡ true
      → held (os.open_dev device flags w).1 ≡ held w
  pub closes :
      (fd : ℤ) (w : W) (before : Held)
      → held w ≡ record before { fds = fd ∷ before.fds }
      → held (os.close fd w).1 ≡ before
  pub gives :
      (w : W)
      → (os.calloc w).0 ≡ true
      → held (os.calloc w).1 ≡ record (held w) { blocks = suc (held w).blocks }
  pub gives_not : (w : W) → (os.calloc w).0 ≡ false → held (os.calloc w).1 ≡ held w
  pub frees :
      (w : W) (before : Held)
      → held w ≡ record before { blocks = suc before.blocks }
      → held (os.free w) ≡ before
  pub reports : (c : Complaint) (w : W) → held (os.report c w) ≡ held w
  pub gets : (fd : ℤ) (t : Termios T) (w : W) → held (os.tcgetattr fd t w).2 ≡ held w
  pub sets : (fd : ℤ) (n : ℕ) (t : Termios T) (w : W) → held (os.tcsetattr fd n t w).1 ≡ held w
  pub drains : (fd : ℤ) (w : W) → held (os.tcdrain fd w).1 ≡ held w
  pub flushes : (fd : ℤ) (n : ℕ) (w : W) → held (os.tcflush fd n w).1 ≡ held w

abbrev with_port : ℤ → Held → Held
with_port fd before = record { fds = fd ∷ before.fds; blocks = suc before.blocks }

-- How opening ends: NULL and nothing is held beyond `before`, or a handle on one descriptor.
pub data Opened {W : Type 0} (held : W → Held) (baud : ℕ) (before : Held)
    : Option Serial × W → Type 0 where
  refused : {w : W} → held w ≡ before → Opened held baud before (none, w)
  ready :
      {w : W} (fd : ℤ)
      → is_negative fd ≡ false
      → is_b0 (baud_to_speed baud) ≡ false
      → held w ≡ with_port fd before
      → Opened held baud before (some (record { fd = fd; baud = baud }), w)

module _ {W T : Type 0} (os : Posix W T) (held : W → Held) (a : IsAccounted os held) (baud : ℕ)
    (supported : is_b0 (baud_to_speed baud) ≡ false) where
  Opened-if :
      (b : Bool) {before : Held} {x y : Option Serial × W}
      → (b ≡ true → Opened held baud before x)
      → (b ≡ false → Opened held baud before y)
      → Opened held baud before (if b then x else y)
  Opened-if true f g = f refl
  Opened-if false f g = g refl

  allocated-Opened :
      (fd : ℤ) (w : W) (before : Held)
      → is_negative fd ≡ false
      → held w ≡ record before { fds = fd ∷ before.fds }
      → Opened held baud before (allocated os fd baud w)
  unfolding allocated
  allocated-Opened fd w before p e =
      Opened-if (os.calloc w).0
        (λ q. ready fd p supported (
          a.flushes _ _ _
          ∙ a.gives w q
          ∙ ap {A = Held} {B = Held} (λ h. record h { blocks = suc h.blocks }) e))
        (λ q. refused (a.closes fd _ before (a.gives_not w q ∙ e)))

  configured-Opened :
      (fd : ℤ) (speed : Speed) (w : W) (before : Held)
      → is_negative fd ≡ false
      → held w ≡ record before { fds = fd ∷ before.fds }
      → Opened held baud before (configured os fd baud speed w)
  unfolding configured
  configured-Opened fd speed w before p e =
      let (got, tio, w') = os.tcgetattr fd os.zeroed w in
      let e' : held w' ≡ record before { fds = fd ∷ before.fds } = a.gets fd os.zeroed w ∙ e in
      let (was_set, w'') = os.tcsetattr fd os.constants.tcsanow (raw_8n1 os tio speed) w' in
      Opened-if (not (is_zero got)) (λ q. refused (a.closes fd _ before (a.reports _ _ ∙ e')))
        (λ q.
          Opened-if (not (is_zero was_set))
            (λ q. refused (a.closes fd _ before (a.reports _ _ ∙ a.sets _ _ _ _ ∙ e')))
            (λ q. allocated-Opened fd w'' before p (a.sets _ _ _ _ ∙ e')))

  opened-Opened :
      (device : List ℕ) (speed : Speed) (w : W)
      → Opened held baud (held w) (opened os device baud speed w)
  unfolding opened
  opened-Opened device speed w =
      let c = os.constants in
      let flags = bit_or (bit_or c.o_rdwr c.o_noctty) c.o_nonblock in
      let (fd, w') = os.open_dev device flags w in
      Opened-if (is_negative fd)
        (λ q. refused (a.reports open_failed w' ∙ a.opens_not device flags w q))
        (λ q. configured-Opened fd speed w' (held w) q (a.opens device flags w q))

-- `pa_serial_open` leaks nothing: whatever the calls of the system return, it either returns NULL and the
-- process holds the descriptors and the memory that it held before, or the baud rate is one of the supported
-- ones and it returns a handle with that rate on one descriptor that is open in addition.
pub serial_open-Opened :
    {W T : Type 0} (os : Posix W T) (held : W → Held) (device : List ℕ) (baud : ℕ) (w : W)
    → IsAccounted os held
    → Opened held baud (held w) (serial_open os device baud w)
unfolding serial_open
serial_open-Opened os held device baud w a = elim (Bool-cases (is_b0 (baud_to_speed baud))) [
  | inl e ↦ rw e (refused (a.reports (unsupported_baud baud) w))
  | inr e ↦ rw e (opened-Opened os held a baud e device (baud_to_speed baud) w)
]

module _ {W T : Type 0} (os : Posix W T) (held : W → Held) (a : IsAccounted os held) where
  closed-held :
      (baud : ℕ) (before : Held) (r : Option Serial × W)
      → Opened held baud before r
      → held (serial_close os r.0 r.1) ≡ before
  unfolding serial_close
  closed-held baud before r (refused e) = e
  closed-held baud before r (ready {w} fd p s e) =
      rw (serial_close, p)
        (a.frees (os.close fd (os.tcdrain fd w).1).1 before (
          a.closes fd (os.tcdrain fd w).1 (record before { blocks = suc before.blocks })
            (a.drains fd w ∙ e)))

-- Opening and closing are balanced: after `pa_serial_open` and `pa_serial_close` of what it returned, the
-- handle or NULL, the process holds the descriptors and the memory that it held before.
pub serial_close-serial_open :
    {W T : Type 0} (os : Posix W T) (held : W → Held) (device : List ℕ) (baud : ℕ) (w : W)
    → IsAccounted os held
    → held (serial_close os (serial_open os device baud w).0 (serial_open os device baud w).1)
      ≡ held w
serial_close-serial_open os held device baud w a =
    closed-held os held a baud (held w) (serial_open os device baud w)
      (serial_open-Opened os held device baud w a)
