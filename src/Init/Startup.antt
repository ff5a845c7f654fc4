-- ===== src/Init/Startup.antt =====
-- kern/init.c: what i386_init has put on the screen when it comes to the monitor.
use jos_smp.Base.{ℕ, replicate, ◌+◌, ◌^◌, ◌<◌, ◌≤◌, List, codes, ◌++◌}
use jos_smp.Console.Io.{Io}
use jos_smp.Console.Output.{Screen}
use jos_smp.Console.Ring
use jos_smp.Console.Input.{Cons}
use jos_smp.Init.{Statics}
use jos_smp.Monitor.Command.{Kernel}
use jos_smp.Terminal.Devices.{Terminal}
use jos_smp.Terminal.Displayed.{Displayed}

-- The message.
abbrev pub decimal_octal : List ℕ
decimal_octal = codes "6828 decimal is 15254 octal!\n"

-- What test_backtrace(5) prints before and behind the backtrace.
abbrev pub five_entering : List ℕ
five_entering =
    codes "entering test_backtrace 5\nentering test_backtrace 4\nentering test_backtrace 3\n"
    ++ codes "entering test_backtrace 2\nentering test_backtrace 1\nentering test_backtrace 0\n"

abbrev pub five_leaving : List ℕ
five_leaving =
    codes "leaving test_backtrace 0\nleaving test_backtrace 1\nleaving test_backtrace 2\n"
    ++ codes "leaving test_backtrace 3\nleaving test_backtrace 4\nleaving test_backtrace 5\n"

-- A buffer that is all zeros.
abbrev cleared : Cons
cleared = record { buf = replicate {A = ℕ} 512 0; rpos = 0; wpos = 0 }

-- The variables of kern/console.c lie between `edata` and `end`.
abbrev pub Cleared : Kernel → Statics → Type 0
Cleared k at =
    (k.edata ≤ k.end)
    × (k.edata ≤ at.cons_at)
    × (at.cons_at + 520 ≤ k.end)
    × (k.edata ≤ at.shift_at)
    × (at.shift_at + 4 ≤ k.end)
    × (k.end < 2 ^ 32)
