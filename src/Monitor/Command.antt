-- ===== src/Monitor/Command.antt =====
-- kern/monitor.c: the commands, runcmd and monitor. What the linker and the processor supply is the
-- record `Kernel`: the kernel's symbols, the words in memory, %ebp, and the debugging tables.
use Prim.Native.String.{String}
use jos_smp.Base.{
  ℕ, zero, suc, ◌+◌, ◌-◌, ◌/◌, Bool, false, Option, none, some, List, [], ◌∷◌, ◌==◌, drop, length,
  if◌then◌else◌,
}
use jos_smp.Base.Int.{ℤ, pos, negsuc, ltb_ℤ}
use jos_smp.Base.Word.{add32, sub32}
use jos_smp.CString.Defs.{Bytes, strcmp}
use jos_smp.Mmu.Layout.{kernbase}
use jos_smp.Printfmt.Format.{Args, Run, done, out_of_fuel, ◌>>=◌, of_option, int, str}
use jos_smp.Printfmt.Print.{literal}
use jos_smp.Kdebug.Search.{Stab}
use jos_smp.Kdebug.Eip.{Eipdebuginfo, found, missing, panicked, debuginfo_eip}
use jos_smp.Readline.{Line, readline}
use jos_smp.Tty.{Tty}
use jos_smp.Monitor.Parse.{Parsed, parse, maxargs}

pub record Kernel : Type 0 where
  pub start : ℕ
  pub etext : ℕ
  pub edata : ℕ
  pub end : ℕ
  pub word_at : ℕ → ℕ
  pub ebp : ℕ
  pub stabs : List Stab
  pub stabstr : Bytes

-- A command returns a number, or the kernel has panicked and does not return.
pub data Reply (S : Type 0) : Type 0 where
  replied : ℤ → S → Reply S
  stuck : S → Reply S

pub data Command : Type 0 where
  help : Command
  kerninfo : Command
  backtrace : Command

-- `commands[]`
pub record Entry : Type 0 where
  pub name : String
  pub desc : String
  pub func : Command

unfoldable pub commands : List Entry
commands =
    record { name = "help"; desc = "Display this list of commands"; func = help }
    ∷ record { name = "kerninfo"; desc = "Display information about the kernel"; func = kerninfo }
    ∷ record {
      name = "backtrace";
      desc = "Display a listing of function call frames";
      func = backtrace;
    }
    ∷ []

module _ {S : Type 0} (tty : Tty S) where
  -- A call of cprintf for its effect.
  abbrev pub print : String → Args → S → Run S
  print fmt args s = tty.cprintf (literal fmt) args s >>= (λ (r : ℕ × S). done r.1)

  unfoldable pub help_lines : List Entry → S → Run S
  help_lines [] s = done s
  help_lines (c ∷ cs) s =
      print "%s - %s\n" (str (some (literal c.name)) ∷ str (some (literal c.desc)) ∷ []) s
      >>= help_lines cs

  unfoldable pub mon_help : S → Run (Reply S)
  unfolding help_lines commands
  mon_help s = help_lines commands s >>= (λ s'. done (replied (pos 0) s'))

  unfoldable pub mon_kerninfo : Kernel → S → Run (Reply S)
  mon_kerninfo k s =
      print "Special kernel symbols:\n" [] s
      >>= print "  _start %08x (virt)  %08x (phys)\n"
          (int k.start ∷ int (sub32 k.start kernbase) ∷ [])
      >>= print "  etext  %08x (virt)  %08x (phys)\n"
          (int k.etext ∷ int (sub32 k.etext kernbase) ∷ [])
      >>= print "  edata  %08x (virt)  %08x (phys)\n"
          (int k.edata ∷ int (sub32 k.edata kernbase) ∷ [])
      >>= print "  end    %08x (virt)  %08x (phys)\n" (int k.end ∷ int (sub32 k.end kernbase) ∷ [])
      >>= print "Kernel executable memory footprint: %dKB\n"
          (int ((k.end - k.start + 1023) / 1024) ∷ [])
      >>= (λ s'. done (replied (pos 0) s'))

  -- The second line of a frame.
  unfoldable pub print_frame : ℕ → Eipdebuginfo → S → Run S
  print_frame eip info s =
      print "\t%s:%d: %.*s+%d\n"
        (str (some info.eip_file)
          ∷ int info.eip_line
          ∷ int info.eip_fn_namelen
          ∷ str (some info.eip_fn_name)
          ∷ int (sub32 eip info.eip_fn_addr)
          ∷ [])
        s

  -- The loop of mon_backtrace, one unit of fuel for each frame.
  unfoldable pub frames : ℕ → Kernel → ℕ → S → Run (Reply S)
  unfolding print_frame
  frames zero k ebp s = out_of_fuel
  frames (suc fuel) k ebp s =
      let arg = λ (i : ℕ). k.word_at (add32 ebp i) in
      let next =
        print "ebp %08x eip %08x args %08x %08x %08x %08x %08x\n"
          (int ebp
            ∷ int (arg 4)
            ∷ int (arg 8)
            ∷ int (arg 12)
            ∷ int (arg 16)
            ∷ int (arg 20)
            ∷ int (arg 24)
            ∷ [])
          s
        >>= (λ s1. debuginfo_eip k.stabs k.stabstr (arg 4) >>= (λ o. elim o [
          | panicked info ↦ done (stuck s1)
          | found info ↦ print_frame (arg 4) info s1 >>= frames fuel k (k.word_at ebp)
          | missing info ↦ print_frame (arg 4) info s1 >>= frames fuel k (k.word_at ebp)
        ])) in
      if ebp == 0 then done (replied (pos 0) s) else next

  unfoldable pub mon_backtrace : ℕ → Kernel → S → Run (Reply S)
  unfolding frames
  mon_backtrace fuel k s = frames fuel k k.ebp s

  unfoldable pub run_command : ℕ → Kernel → Command → S → Run (Reply S)
  unfolding mon_help mon_kerninfo mon_backtrace
  run_command fuel k help s = mon_help s
  run_command fuel k kerninfo s = mon_kerninfo k s
  run_command fuel k backtrace s = mon_backtrace fuel k s

abbrev pub is_zero : ℤ → Bool
is_zero (pos n) = n == 0
is_zero (negsuc n) = false

-- The loop over the commands: the one with the name, if there is one.
unfoldable pub find_command : List Entry → Bytes → Run (Option Command)
find_command [] name = done none
find_command (c ∷ cs) name =
    let rest = find_command cs name in
    of_option (strcmp name (literal c.name))
    >>= (λ z. if is_zero z then done (some c.func) else rest)

module _ {S : Type 0} (tty : Tty S) where
  -- The lookup and the call; the string at the pointer `argv[0]`.
  unfoldable pub invoke : ℕ → Kernel → Bytes → S → Run (Reply S)
  unfolding find_command run_command
  invoke fuel k name s = find_command commands name >>= (λ c. elim c [
    | some f ↦ run_command tty fuel k f s
    | none ↦
        print tty "Unknown command '%s'\n" (str (some name) ∷ []) s
        >>= (λ s'. done (replied (pos 0) s'))
  ])

  -- Behind the parser.
  unfoldable pub dispatch : ℕ → Kernel → S → Parsed → Run (Reply S)
  dispatch fuel k s p =
      if p.too_many
      then print tty "Too many arguments (max %d)\n" (int maxargs ∷ []) s
        >>= (λ s'. done (replied (pos 0) s'))
      else elim (p.argv) [
        | [] ↦ done (replied (pos 0) s)
        | a ∷ argv ↦ invoke fuel k (drop a p.buf) s
      ]

  -- `fuel` is for mon_backtrace; the parser takes one unit for each byte.
  unfoldable pub runcmd : ℕ → Kernel → Bytes → S → Run (Reply S)
  unfolding dispatch
  runcmd fuel k buf s = parse (length buf) 0 0 buf >>= dispatch fuel k s

  -- The loop of `monitor`, on fuel: `buf` is the buffer of readline. It is left when a command
  -- returns a negative number. The zeros that runcmd writes into the buffer are left out: readline
  -- writes each byte of the next line before it is read.
  unfoldable pub monitor_loop : ℕ → ℕ → Kernel → Bytes → S → Run (Reply S)
  unfolding runcmd
  monitor_loop zero steps k buf s = out_of_fuel
  monitor_loop (suc fuel) steps k buf s =
      readline tty steps (some (literal "K> ")) buf s >>= (λ (l : Line S).
        if l.is_read
        then runcmd steps k l.buf l.console >>= (λ r. elim r [
          | stuck s' ↦ done (stuck s')
          | replied z s' ↦
              let again = monitor_loop fuel steps k l.buf s' in
              if ltb_ℤ z (pos 0) then done (replied z s') else again
        ])
        else monitor_loop fuel steps k l.buf l.console)

  unfoldable pub monitor : ℕ → ℕ → Kernel → Bytes → S → Run (Reply S)
  unfolding monitor_loop
  monitor fuel steps k buf s =
      print tty "Welcome to the JOS kernel monitor!\n" [] s
      >>= print tty "Type 'help' for a list of commands.\n" []
      >>= monitor_loop fuel steps k buf
