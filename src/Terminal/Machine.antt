-- ===== src/Terminal/Machine.antt =====
-- kern/console.c: a machine to run cons_init on, with a color display and without a serial port.
use jos_smp.Base.{
  ℕ, ◌%◌, ◌≡◌, true, refl, arith, List, ◌∷◌, ◌==◌, replicate, length, length-replicate,
  if◌then◌else◌,
}
use jos_smp.Console.Io.{Io}
use jos_smp.Terminal.Devices.{Video}
use jos_smp.Terminal.Start.{Display}

-- The first cell, the register that is selected, and the cursor's registers.
pub record Adapter : Type 0 where
  pub cell : ℕ
  pub selected : ℕ
  pub high : ℕ
  pub low : ℕ

abbrev pub register : ℕ → Adapter → ℕ
register i w = if i == 14 then w.high % 256 else if i == 15 then w.low % 256 else 0

abbrev write_register : ℕ → Adapter → Adapter
write_register v w =
    if w.selected == 14
    then record w { high = v }
    else if w.selected == 15
    then record w { low = v }
    else w

abbrev pub ports : Io Adapter
ports = record {
  inb = λ p w. (if p == 0x3fd then 0xff else if p == 0x3d5 then register w.selected w else 0, w);
  outb = λ p v w.
      if p == 0x3d4
      then record w { selected = v }
      else if p == 0x3d5
      then write_register v w
      else w;
}

abbrev pub display_cells : ℕ → Adapter → List ℕ
display_cells a w =
    if a == 0xf00b8000 then w.cell ∷ replicate {A = ℕ} 1999 0 else replicate {A = ℕ} 2000 0

abbrev pub video : Video Adapter
video = record {
  peek = λ a w. w.cell;
  poke = λ a v w. record w { cell = v };
  cells = display_cells;
}

-- The cursor is at the cell 80, behind the first line.
abbrev pub powered_on : Adapter
powered_on = record { cell = 7; selected = 0; high = 0; low = 80 }

pub length-display_cells : (w : Adapter) → length (display_cells 0xf00b8000 w) ≡ 2000
length-display_cells w = ground (arith, length-replicate {A = ℕ})

abbrev pub video_display : Display ports video true
video_display = record {
  size = length-display_cells;
  reg = register;
  reg_bound = λ i w. ground arith;
  reg-read = λ i w h k. refl;
  reg-select = λ i j w h k. refl;
  reg-inb = λ i p w. refl;
  reg-poke = λ i a v w. refl;
  cells-outb = λ a p v w. ground arith;
  cells-inb = λ a p w. refl;
  detected = λ w. refl;
  restored = λ w. refl;
  elsewhere = λ v w. refl;
}
