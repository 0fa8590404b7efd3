-- ===== src/Interrupt.antt =====
-- kernel/src/interupt/handler.c, pit_handler.c and apic_timer.c: what an interrupt does. The
-- handlers of unimplemented exceptions only print; a handler that does not return is `Ended`.
pub mod Running
mod Tests
use ada_os.Base.{
  ℕ, zero, suc, ◌+◌, ◌*◌, ◌/◌, ◌%◌, ◌^◌, Bool, true, false, ◌||◌, List, [], ◌∷◌, ◌++◌, ltb, leb,
  ◌==◌, if◌then◌else◌,
}
use ada_os.Serial.Shell.{Shell, Event, rs232_irq}

-- The branches of the switch over the vector: `fatal` is a fault after which the handler halts.
pub data Branch : Type 0 where
  fault trap fatal abort pit_timer serial apic_timer : Branch

pub branch : ℕ → Branch
branch v =
    if v == 1 || (v == 3 || v == 4)
    then trap
    else if v == 6 || (v == 0xd || v == 0xe)
    then fatal
    else if v == 8 || (v == 0x12 || (v == 0xf2 || (v == 0xf6 || v == 0xff)))
    then abort
    else if v == 0x20
    then pit_timer
    else if v == 0x24
    then serial
    else if v == 0xf1
    then apic_timer
    else fault

-- The end of interrupt that is sent first.
pub data Eoi : Type 0 where
  to_apic to_pic : Eoi

pub data Reply : Type 0 where
  returned ended : Reply

pub record Machine : Type 0 where
  pub pit_ticks : ℕ
  pub apic_ticks : ℕ
  pub shell : Shell

pub pit_irq : Machine → Machine
pit_irq s = record s { pit_ticks = (s.pit_ticks + 1) % 2 ^ 64 }

pub apic_timer_irq : Machine → Machine
apic_timer_irq s = record s { apic_ticks = (s.apic_ticks + 1) % 2 ^ 64 }

-- What an interrupt leaves.
pub record Handled : Type 0 where
  pub eoi : Eoi
  pub reply : Reply
  pub machine : Machine
  pub events : List Event

-- The cases of the switch.
handle : Branch → Eoi → (byte : ℕ) → Machine → Handled
handle fault eoi byte s = record { eoi = eoi; reply = returned; machine = s; events = [] }
handle trap eoi byte s = record { eoi = eoi; reply = returned; machine = s; events = [] }
handle fatal eoi byte s = record { eoi = eoi; reply = ended; machine = s; events = [] }
handle abort eoi byte s = record { eoi = eoi; reply = ended; machine = s; events = [] }
handle pit_timer eoi byte s = record {
  eoi = eoi;
  reply = returned;
  machine = pit_irq s;
  events = [];
}
handle serial eoi byte s = record {
  eoi = eoi;
  reply = returned;
  machine = record s { shell = (rs232_irq byte s.shell).0 };
  events = (rs232_irq byte s.shell).1;
}
handle apic_timer eoi byte s = record {
  eoi = eoi;
  reply = returned;
  machine = apic_timer_irq s;
  events = [];
}

-- `exception_handler`; `byte` is what the serial port holds.
pub exception_handler : (vector byte : ℕ) → Machine → Handled
unfolding handle
exception_handler vector byte s =
    handle (branch vector) (if ltb 0xf0 vector then to_apic else to_pic) byte s

abbrev go_on : {A : Type 0} → Reply → A → A → A
go_on returned next stopped = next
go_on ended next stopped = stopped

-- Interrupts one after the other, each with the byte that the serial port then holds, up to the
-- first one that does not return.
pub run_all : List (ℕ × ℕ) → Machine → Reply × Machine × List Event
run_all [] s = (returned, s, [])
run_all ((vector, byte) ∷ rest) s =
    let h = exception_handler vector byte s in
    let r = run_all rest h.machine in
    go_on h.reply (r.0, r.1, h.events ++ r.2) (ended, h.machine, h.events)
