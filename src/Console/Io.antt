-- ===== src/Console/Io.antt =====
-- inc/x86.h: port input and output. The devices behind the ports are not part of the program: `W`
-- is their state, and `Io` says what a read returns and what a write does to it.
use jos_smp.Base.{ℕ, ◌/◌, ◌%◌, ◌^◌, ◌<◌, ◌≡◌, Bool, ◌==◌, List, [], ◌∷◌, ◌++◌}

pub record Io (W : Type 0) : Type 0 where
  pub inb : ℕ → W → ℕ × W
  pub outb : ℕ → ℕ → W → W

-- `x & (1 << k)`, as a test.
abbrev pub bit : ℕ → ℕ → Bool
bit x k = x / 2 ^ k % 2 == 1

-- What the program relies on: a port read returns a byte.
pub record ReadsBytes {W : Type 0} (io : Io W) : Type 0 where
  pub byte : (p : ℕ) (w : W) → (io.inb p w).0 < 256

-- A record of the writes that the devices have seen, oldest first: a read adds nothing to it, a
-- write adds its port and byte.
pub record Log {W : Type 0} (io : Io W) (log : W → List (ℕ × ℕ)) : Type 0 where
  pub log-inb : (p : ℕ) (w : W) → log (io.inb p w).1 ≡ log w
  pub log-outb : (p v : ℕ) (w : W) → log (io.outb p v w) ≡ log w ++ ((p, v) ∷ [])
