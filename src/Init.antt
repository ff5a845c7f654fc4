-- ===== src/Init.antt =====
-- kern/init.c: i386_init, test_backtrace, _panic and _warn.
pub mod Order
pub mod Panic
pub mod Startup
mod Tests
use Prim.Native.String.{String}
use jos_smp.Base.{ℕ, zero, suc, ◌+◌, ◌-◌, Option, none, some, List, [], ◌∷◌, if◌then◌else◌}
use jos_smp.Base.Int.{pos}
use jos_smp.CString.Defs.{Bytes}
use jos_smp.Console.Io.{Io}
use jos_smp.Console.Input.{Cons}
use jos_smp.Base.Word.{add32}
use jos_smp.Cpu.Strings.{load32}
use jos_smp.Memory.Defs.{Mem, memset}
use jos_smp.Monitor.Command.{Kernel, Reply, replied, stuck, print, mon_backtrace, monitor}
use jos_smp.Printfmt.Format.{Args, Run, done, out_of_fuel, ◌>>=◌, int, str}
use jos_smp.Terminal.Devices.{Terminal, Video, cons_init, console}
use jos_smp.Tty.{Tty}

-- What may end in the endless loop of a panic, and what follows it if it does not.
abbrev pub proceed : {S : Type 0} → (S → Run (Reply S)) → Reply S → Run (Reply S)
proceed next (stuck s) = done (stuck s)
proceed next (replied z s) = next s

module _ {S : Type 0} (tty : Tty S) where
  abbrev pub finish : Run S → Run (Reply S)
  finish run = run >>= (λ s. done (replied (pos 0) s))

  -- `k` is the kernel as mon_backtrace finds it in the innermost call; `x` is not negative.
  unfoldable pub test_backtrace : ℕ → Kernel → ℕ → S → Run (Reply S)
  test_backtrace fuel k zero s =
      print tty "entering test_backtrace %d\n" (int 0 ∷ []) s
      >>= mon_backtrace tty fuel k
      >>= proceed (λ s'. finish (print tty "leaving test_backtrace %d\n" (int 0 ∷ []) s'))
  test_backtrace fuel k (suc x) s =
      print tty "entering test_backtrace %d\n" (int (suc x) ∷ []) s
      >>= test_backtrace fuel k x
      >>= proceed (λ s'. finish (print tty "leaving test_backtrace %d\n" (int (suc x) ∷ []) s'))

  -- `while (1) monitor(NULL);` on fuel: `buf` is the buffer of readline.
  unfoldable pub monitors : ℕ → ℕ → ℕ → Kernel → Bytes → S → Run (Reply S)
  monitors zero rounds steps k buf s = out_of_fuel
  monitors (suc fuel) rounds steps k buf s =
      monitor tty rounds steps k buf s >>= proceed (monitors fuel rounds steps k buf)

  -- The message of _warn, and that of _panic.
  unfoldable pub report : String → Bytes → ℕ → Bytes → Args → S → Run S
  report heading file line fmt args s =
      print tty heading (str (some file) ∷ int line ∷ []) s
      >>= (λ s'. tty.cprintf fmt args s')
      >>= (λ (r : ℕ × S). print tty "\n" [] r.1)

  unfoldable pub warn : Bytes → ℕ → Bytes → Args → S → Run S
  unfolding report
  warn file line fmt args s = report "kernel warning at %s:%d: " file line fmt args s

  -- `panicstr` is null before the first call. The result is `panicstr` at the loop, and the console.
  unfoldable pub panic_message :
      Bytes → ℕ → Bytes → Args → Option Bytes × S → Run (Option Bytes × S)
  unfolding report
  panic_message file line fmt args (some first, s) = done (some first, s)
  panic_message file line fmt args (none, s) =
      report "kernel panic at %s:%d: " file line fmt args s >>= (λ s'. done (some fmt, s'))

  unfoldable pub panic :
      ℕ → ℕ → ℕ → Kernel → Bytes → Bytes → ℕ → Bytes → Args → Option Bytes × S → Run (Reply S)
  unfolding panic_message monitors
  panic fuel rounds steps k buf file line fmt args p =
      panic_message file line fmt args p
      >>= (λ (r : Option Bytes × S). monitors fuel rounds steps k buf r.1)

-- Where the linker has put `cons` and `shift` of kern/console.c.
pub record Statics : Type 0 where
  pub cons_at : ℕ
  pub shift_at : ℕ

abbrev pub bytes_from : Mem → ℕ → ℕ → List ℕ
bytes_from m p zero = []
bytes_from m p (suc n) = m p ∷ bytes_from m (add32 p 1) n

-- `cons`, as it lies in memory.
abbrev pub cons_from : Mem → ℕ → Cons
cons_from m p = record {
  buf = bytes_from m p 512;
  rpos = load32 m (add32 p 512);
  wpos = load32 m (add32 p 516);
}

-- The memory behind memset, and the run of what follows, which keeps the console's variables in
-- Terminal from there on. `polls` is for getchar.
unfoldable pub i386_init :
    {W : Type 0}
    → Io W
    → Video W
    → ℕ
    → ℕ
    → ℕ
    → ℕ
    → Kernel
    → Statics
    → Bytes
    → Mem × W
    → Mem × Run (Reply (Terminal W))
i386_init io video polls fuel rounds steps k at buf s =
    let tty = console io polls steps in
    let m = memset k.edata 0 (k.end - k.edata) s.0 in
    (
      m,
      cons_init io video (cons_from m at.cons_at) (load32 m at.shift_at) s.1
          >>= print tty "6828 decimal is %o octal!\n" (int 6828 ∷ [])
          >>= test_backtrace tty steps k 5
          >>= proceed (monitors tty fuel rounds steps k buf),
    )
