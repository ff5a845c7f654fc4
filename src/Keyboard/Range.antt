-- ===== src/Keyboard/Range.antt =====
-- kern/console.c: kbd_proc_data stays within its types: characters are bytes, `shift` has 7 bits, and
-- the screen stays valid when a reboot prints.
use Prim.Native.Nat.{bit_and}
use jos_smp.Base.{
  ℕ, ◌<◌, ◌≡◌, refl, Bool, true, ◌&&◌, ◌==◌, ltb, arith, codes, some, [], Bool-cases, inl, inr,
}
use jos_smp.Base.Bits.{holds_up_to, holds_up_to-at}
use jos_smp.Console.Io.{Io, ReadsBytes}
use jos_smp.Console.Output.{Screen}
use jos_smp.Console.Screen.{IsValid}
use jos_smp.Cprintf.{cprintf-put_all}
use jos_smp.Keyboard.Decode.{decode, reboot, reboots, kbd_proc_data}
use jos_smp.Keyboard.Keys.{kbstatp, kbs_dib, kbdatap}
use jos_smp.Keyboard.Keymap.{shiftcode, togglecode, charcode}
use jos_smp.Printfmt.Format.{done}
use jos_smp.Printfmt.Print.{vprintfmt, literal}

in_range : ℕ → ℕ → Bool
in_range byte shift = ltb (decode byte shift).0 256 && ltb (decode byte shift).1 128

in_range_table : holds_up_to (λ byte. holds_up_to (in_range byte) 127) 255 ≡ true
unfolding holds_up_to in_range decode shiftcode togglecode charcode
in_range_table = refl

decode_bounds :
    (byte shift : ℕ)
    → byte < 256
    → shift < 128
    → ((decode byte shift).0 < 256) × ((decode byte shift).1 < 128)
unfolding in_range
decode_bounds byte shift hb hs = ground (
  arith,
  holds_up_to-at (in_range byte) 127
      (holds_up_to-at (λ byte. holds_up_to (in_range byte) 127) 255 in_range_table byte
        (omega arith))
      shift,
)

message : vprintfmt 20 (literal "Rebooting!\n") [] ≡ done (codes "Rebooting!\n")
unfolding vprintfmt
message = refl

module _ {W : Type 0} (io : Io W) where
  reboot-IsValid : (s : Screen W) → IsValid s → IsValid (reboot io s)
  unfolding reboot
  reboot-IsValid s v =
      let (e, v') =
        cprintf-put_all io 20 (literal "Rebooting!\n") [] (codes "Rebooting!\n") s message v in
      rw e (record { size = v'.size; cursor = v'.cursor })

  -- Where reads of ports return bytes, kbd_proc_data keeps the screen valid and `shift` below 128,
  -- whatever it read, and a character that it returns is below 256.
  pub kbd_proc_data-IsValid :
      (reads : ReadsBytes io) (shift : ℕ) (s : Screen W)
      → shift < 128
      → IsValid s
      → ((kbd_proc_data io (shift, s)).1.0 < 128)
        × IsValid (kbd_proc_data io (shift, s)).1.1
        × ((c : ℕ) → (kbd_proc_data io (shift, s)).0 ≡ some c → c < 256)
  unfolding kbd_proc_data
  kbd_proc_data-IsValid reads shift s h v =
      let status : ℕ × W = io.inb kbstatp s.world in
      let input : ℕ × W = io.inb kbdatap status.1 in
      let b : ((decode input.0 shift).0 < 256) × ((decode input.0 shift).1 < 128) =
        decode_bounds input.0 shift (reads.byte kbdatap status.1) h in
      elim (Bool-cases (bit_and status.0 kbs_dib == 0)) [
        | inl y ↦
            rw y (h, record { size = v.size; cursor = v.cursor }, λ c e. absurd (ground (arith, e)))
        | inr n ↦ rw n (
          b.1,
          elim (Bool-cases (reboots (decode input.0 shift).1 (decode input.0 shift).0)) [
            | inl r ↦ rw r (reboot-IsValid _ (record { size = v.size; cursor = v.cursor }))
            | inr r ↦ rw r (record { size = v.size; cursor = v.cursor })
          ],
          λ c e. ground (arith, e, b.0),
        )
      ]
