-- ===== src/Cpu/Io.antt =====
-- kernel/arch/x86_64/cpu/IO.c: the port instructions as effects. The device is a parameter: its state,
-- what a port reads, and what a write to a port does.
use flame_os.Base.{ℕ}

-- A device of states `S`.
pub record Device (S : Type 0) : Type 0 where
  pub read : ℕ → S → ℕ × S
  pub write : ℕ → ℕ → S → S

module _ {S : Type 0} (d : Device S) where
  abbrev pub inb : ℕ → S → ℕ × S
  inb port s = d.read port s

  abbrev pub outb : (port value : ℕ) → S → S
  outb port value s = d.write port value s

  abbrev pub iowait : S → S
  iowait s = outb 0x80 0x80 s

-- The ports of 16 bits of a device.
pub record WordPorts (S : Type 0) : Type 0 where
  pub read : ℕ → S → ℕ × S
  pub write : ℕ → ℕ → S → S

module _ {S : Type 0} (w : WordPorts S) where
  abbrev pub inw : ℕ → S → ℕ × S
  inw port s = w.read port s

  abbrev pub outw : (port value : ℕ) → S → S
  outw port value s = w.write port value s
