-- ===== src/Keyboard/Keys.antt =====
-- inc/kbdreg.h: the codes of special keys and the ports of the keyboard controller.
use jos_smp.Base.{ℕ}

abbrev pub key_home : ℕ
key_home = 0xe0

abbrev pub key_end : ℕ
key_end = 0xe1

abbrev pub key_up : ℕ
key_up = 0xe2

abbrev pub key_dn : ℕ
key_dn = 0xe3

abbrev pub key_lf : ℕ
key_lf = 0xe4

abbrev pub key_rt : ℕ
key_rt = 0xe5

abbrev pub key_pgup : ℕ
key_pgup = 0xe6

abbrev pub key_pgdn : ℕ
key_pgdn = 0xe7

abbrev pub key_ins : ℕ
key_ins = 0xe8

abbrev pub key_del : ℕ
key_del = 0xe9

abbrev pub kbstatp : ℕ
kbstatp = 0x64

abbrev pub kbs_dib : ℕ
kbs_dib = 0x01

abbrev pub kbdatap : ℕ
kbdatap = 0x60
