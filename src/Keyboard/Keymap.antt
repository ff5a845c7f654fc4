-- ===== src/Keyboard/Keymap.antt =====
-- kern/console.c: the tables of the keyboard input code. Each of the maps is its first cells and the
-- cells that it sets by their number; the other cells are 0.
use jos_smp.Base.{ℕ, List, [], ◌∷◌, ◌==◌, ltb, length, get_or, if◌then◌else◌}
use jos_smp.Keyboard.Keys.{
  key_home, key_end, key_up, key_dn, key_lf, key_rt, key_pgup, key_pgdn, key_ins, key_del,
}

-- SHIFT, CTL and ALT are 1, 2 and 4.
unfoldable pub shiftcode : ℕ → ℕ
shiftcode d =
    if d == 0x1d
    then 2
    else if d == 0x2a
    then 1
    else if d == 0x36
    then 1
    else if d == 0x38
    then 4
    else if d == 0x9d
    then 2
    else if d == 0xb8
    then 4
    else 0

-- CAPSLOCK, NUMLOCK and SCROLLLOCK are 8, 16 and 32.
unfoldable pub togglecode : ℕ → ℕ
togglecode d = if d == 0x3a then 8 else if d == 0x45 then 16 else if d == 0x46 then 32 else 0

unfoldable pub marked : List (ℕ × ℕ) → ℕ → ℕ
marked [] d = 0
marked ((i, c) ∷ cells) d = let later = marked cells d in if d == i then c else later

unfoldable pub cell : List ℕ → List (ℕ × ℕ) → ℕ → ℕ
unfolding marked
cell first cells d = if ltb d (length first) then get_or first d 0 else marked cells d

abbrev pub normalmap_first : List ℕ
normalmap_first =
    0x00 ∷ 0x1b ∷ 0x31 ∷ 0x32 ∷ 0x33 ∷ 0x34 ∷ 0x35 ∷ 0x36 ∷ 0x37 ∷ 0x38 ∷ 0x39 ∷ 0x30 ∷ 0x2d ∷ 0x3d
    ∷ 0x08 ∷ 0x09 ∷ 0x71 ∷ 0x77 ∷ 0x65 ∷ 0x72 ∷ 0x74 ∷ 0x79 ∷ 0x75 ∷ 0x69 ∷ 0x6f ∷ 0x70 ∷ 0x5b
    ∷ 0x5d ∷ 0x0a ∷ 0x00 ∷ 0x61 ∷ 0x73 ∷ 0x64 ∷ 0x66 ∷ 0x67 ∷ 0x68 ∷ 0x6a ∷ 0x6b ∷ 0x6c ∷ 0x3b
    ∷ 0x27 ∷ 0x60 ∷ 0x00 ∷ 0x5c ∷ 0x7a ∷ 0x78 ∷ 0x63 ∷ 0x76 ∷ 0x62 ∷ 0x6e ∷ 0x6d ∷ 0x2c ∷ 0x2e
    ∷ 0x2f ∷ 0x00 ∷ 0x2a ∷ 0x00 ∷ 0x20 ∷ 0x00 ∷ 0x00 ∷ 0x00 ∷ 0x00 ∷ 0x00 ∷ 0x00 ∷ 0x00 ∷ 0x00
    ∷ 0x00 ∷ 0x00 ∷ 0x00 ∷ 0x00 ∷ 0x00 ∷ 0x37 ∷ 0x38 ∷ 0x39 ∷ 0x2d ∷ 0x34 ∷ 0x35 ∷ 0x36 ∷ 0x2b
    ∷ 0x31 ∷ 0x32 ∷ 0x33 ∷ 0x30 ∷ 0x2e ∷ 0x00 ∷ 0x00 ∷ 0x00 ∷ 0x00 ∷ []

abbrev pub normalmap_marked : List (ℕ × ℕ)
normalmap_marked =
    (0xc7, key_home)
    ∷ (0x9c, 0x0a)
    ∷ (0xb5, 0x2f)
    ∷ (0xc8, key_up)
    ∷ (0xc9, key_pgup)
    ∷ (0xcb, key_lf)
    ∷ (0xcd, key_rt)
    ∷ (0xcf, key_end)
    ∷ (0xd0, key_dn)
    ∷ (0xd1, key_pgdn)
    ∷ (0xd2, key_ins)
    ∷ (0xd3, key_del)
    ∷ []

unfoldable pub normalmap : ℕ → ℕ
unfolding cell
normalmap d = cell normalmap_first normalmap_marked d

abbrev pub shiftmap_first : List ℕ
shiftmap_first =
    0x00 ∷ 0x1b ∷ 0x21 ∷ 0x40 ∷ 0x23 ∷ 0x24 ∷ 0x25 ∷ 0x5e ∷ 0x26 ∷ 0x2a ∷ 0x28 ∷ 0x29 ∷ 0x5f ∷ 0x2b
    ∷ 0x08 ∷ 0x09 ∷ 0x51 ∷ 0x57 ∷ 0x45 ∷ 0x52 ∷ 0x54 ∷ 0x59 ∷ 0x55 ∷ 0x49 ∷ 0x4f ∷ 0x50 ∷ 0x7b
    ∷ 0x7d ∷ 0x0a ∷ 0x00 ∷ 0x41 ∷ 0x53 ∷ 0x44 ∷ 0x46 ∷ 0x47 ∷ 0x48 ∷ 0x4a ∷ 0x4b ∷ 0x4c ∷ 0x3a
    ∷ 0x22 ∷ 0x7e ∷ 0x00 ∷ 0x7c ∷ 0x5a ∷ 0x58 ∷ 0x43 ∷ 0x56 ∷ 0x42 ∷ 0x4e ∷ 0x4d ∷ 0x3c ∷ 0x3e
    ∷ 0x3f ∷ 0x00 ∷ 0x2a ∷ 0x00 ∷ 0x20 ∷ 0x00 ∷ 0x00 ∷ 0x00 ∷ 0x00 ∷ 0x00 ∷ 0x00 ∷ 0x00 ∷ 0x00
    ∷ 0x00 ∷ 0x00 ∷ 0x00 ∷ 0x00 ∷ 0x00 ∷ 0x37 ∷ 0x38 ∷ 0x39 ∷ 0x2d ∷ 0x34 ∷ 0x35 ∷ 0x36 ∷ 0x2b
    ∷ 0x31 ∷ 0x32 ∷ 0x33 ∷ 0x30 ∷ 0x2e ∷ 0x00 ∷ 0x00 ∷ 0x00 ∷ 0x00 ∷ []

abbrev pub shiftmap_marked : List (ℕ × ℕ)
shiftmap_marked =
    (0xc7, key_home)
    ∷ (0x9c, 0x0a)
    ∷ (0xb5, 0x2f)
    ∷ (0xc8, key_up)
    ∷ (0xc9, key_pgup)
    ∷ (0xcb, key_lf)
    ∷ (0xcd, key_rt)
    ∷ (0xcf, key_end)
    ∷ (0xd0, key_dn)
    ∷ (0xd1, key_pgdn)
    ∷ (0xd2, key_ins)
    ∷ (0xd3, key_del)
    ∷ []

unfoldable pub shiftmap : ℕ → ℕ
unfolding cell
shiftmap d = cell shiftmap_first shiftmap_marked d

abbrev pub ctlmap_first : List ℕ
ctlmap_first =
    0x00 ∷ 0x00 ∷ 0x00 ∷ 0x00 ∷ 0x00 ∷ 0x00 ∷ 0x00 ∷ 0x00 ∷ 0x00 ∷ 0x00 ∷ 0x00 ∷ 0x00 ∷ 0x00 ∷ 0x00
    ∷ 0x00 ∷ 0x00 ∷ 0x11 ∷ 0x17 ∷ 0x05 ∷ 0x12 ∷ 0x14 ∷ 0x19 ∷ 0x15 ∷ 0x09 ∷ 0x0f ∷ 0x10 ∷ 0x00
    ∷ 0x00 ∷ 0x0d ∷ 0x00 ∷ 0x01 ∷ 0x13 ∷ 0x04 ∷ 0x06 ∷ 0x07 ∷ 0x08 ∷ 0x0a ∷ 0x0b ∷ 0x0c ∷ 0x00
    ∷ 0x00 ∷ 0x00 ∷ 0x00 ∷ 0x1c ∷ 0x1a ∷ 0x18 ∷ 0x03 ∷ 0x16 ∷ 0x02 ∷ 0x0e ∷ 0x0d ∷ 0x00 ∷ 0x00
    ∷ 0xef ∷ 0x00 ∷ 0x00 ∷ []

abbrev pub ctlmap_marked : List (ℕ × ℕ)
ctlmap_marked =
    (0x97, key_home)
    ∷ (0xb5, 0xef)
    ∷ (0xc8, key_up)
    ∷ (0xc9, key_pgup)
    ∷ (0xcb, key_lf)
    ∷ (0xcd, key_rt)
    ∷ (0xcf, key_end)
    ∷ (0xd0, key_dn)
    ∷ (0xd1, key_pgdn)
    ∷ (0xd2, key_ins)
    ∷ (0xd3, key_del)
    ∷ []

unfoldable pub ctlmap : ℕ → ℕ
unfolding cell
ctlmap d = cell ctlmap_first ctlmap_marked d

-- `charcode`: by the CTL and SHIFT bits.
unfoldable pub charcode : ℕ → ℕ → ℕ
unfolding normalmap shiftmap ctlmap
charcode k d = if k == 0 then normalmap d else if k == 1 then shiftmap d else ctlmap d
