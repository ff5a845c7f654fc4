-- ===== src/Keyboard/Tests.antt =====
-- kern/console.c: keyboard input at some bytes, and each theorem at an input.
use jos_smp.Base.{ℕ, ◌+◌, ◌≡◌, ◌<◌, refl, arith, some, replicate, length-replicate}
use jos_smp.Console.Io.{Io}
use jos_smp.Console.Output.{Screen}
use jos_smp.Console.Screen.{IsValid}
use jos_smp.Keyboard.Decode.{decode, kbd_proc_data}
use jos_smp.Keyboard.Keymap.{shiftcode, togglecode, charcode}
use jos_smp.Keyboard.Modifiers.{typed, typed_escaped, settled, decode-settled}
use jos_smp.Keyboard.Range.{kbd_proc_data-IsValid}

-- `a`, then with a shift key held, then with CAPSLOCK on.
letters : (decode 0x1e 0 ≡ (b'a', 0)) × (decode 0x1e 1 ≡ (b'A', 1)) × (decode 0x1e 8 ≡ (b'A', 8))
unfolding decode shiftcode togglecode charcode
letters = (refl, refl, refl)

-- An escape and 0x53 is Del.
delete : decode 0x53 0x40 ≡ (0xe9, 0)
unfolding decode shiftcode togglecode charcode
delete = refl

-- Home has its character with no modifier, and with the control key none.
home : (decode 0x47 0x40 ≡ (0xe0, 0)) × (decode 0x47 0x42 ≡ (0, 2))
unfolding decode shiftcode togglecode charcode
home = (refl, refl)

-- The control key with CAPSLOCK on; plain it is the left one, escaped the right one.
decode-settled_example :
    (typed 0x1d 9 ≡ settled 0x1d 9) × (typed_escaped 0x1d 9 ≡ settled (0x1d + 128) 9)
decode-settled_example = decode-settled 0x1d 9 (omega arith) (omega arith) (omega arith)

-- Every read returns 0x53, which is both a status with data and the code of Del.
abbrev typing : Io (Unit {0})
typing = record { inb = λ p w. (0x53, w); outb = λ p v w. w }

abbrev screen : Screen (Unit {0})
screen = record { crt_buf = replicate 2000 0x0720; crt_pos = 0; addr_6845 = 0x3d4; world = tt }

-- Del with an escape, the control key and ALT: a reboot.
kbd_proc_data-IsValid_example :
    ((kbd_proc_data typing (0x46, screen)).1.0 < 128)
    × IsValid (kbd_proc_data typing (0x46, screen)).1.1
    × ((c : ℕ) → (kbd_proc_data typing (0x46, screen)).0 ≡ some c → c < 256)
kbd_proc_data-IsValid_example =
    kbd_proc_data-IsValid typing (record { byte = λ p w. omega arith }) 0x46 screen (omega arith)
      (record { size = length-replicate {A = ℕ} 2000 0x0720; cursor = omega arith })
