-- ===== src/Console/Screen.antt =====
-- kern/console.c: what the characters do to the screen and to the ports.
use jos_smp.Base.{
  ℕ, zero, suc, ◌+◌, ◌%◌, ◌<◌, ◌++◌, ◌≡◌, refl, ◌∙◌, List, [], ◌∷◌, ◌==◌, leb, ltb, set, take, drop,
  length, arith, Bool-cases, leb→le, inl, inr, length-set, length-append, length-take, length-drop,
}
use jos_smp.Console.Io.{Io}
use jos_smp.Console.Output.{
  Screen, blank, clear_cells, scroll, serial_putc, lpt_putc, move_cursor, attributed, cga_switch,
  scroll_if, cons_with, put_space, put_tab, cputchar, put_all,
}

pub record IsValid {W : Type 0} (s : Screen W) : Type 0 where
  pub size : length s.crt_buf ≡ 2000
  pub cursor : s.crt_pos < 2000

length-clear_cells : (n first : ℕ) (buf : List ℕ) → length (clear_cells n first buf) ≡ length buf
unfolding clear_cells
length-clear_cells zero first buf = refl
length-clear_cells (suc n) first buf =
    length-clear_cells n (first + 1) (set buf first blank) ∙ length-set buf first blank

length-scroll : (buf : List ℕ) → length buf ≡ 2000 → length (scroll buf) ≡ 2000
unfolding scroll
length-scroll buf h =
    length-clear_cells 80 1920 _
    ∙ omega (
      arith,
      length-append (take 1920 (drop 80 buf)) (drop 1920 buf),
      length-take 1920 (drop 80 buf),
      length-drop 80 buf,
      length-drop 1920 buf,
    )

-- Before the scroll test the cursor has passed the end by a row at most.
record IsWritten {W : Type 0} (s : Screen W) : Type 0 where
  size : length s.crt_buf ≡ 2000
  cursor : s.crt_pos < 2080

IsWritten-IsValid : {W : Type 0} {s : Screen W} → IsValid s → IsWritten s
IsWritten-IsValid v = record { size = v.size; cursor = omega (arith, v.cursor) }

module _ {W : Type 0} (io : Io W) where
  cga_switch-IsWritten :
      (tab : Screen W → Screen W) (c : ℕ) (s : Screen W)
      → ((t : Screen W) → IsValid t → IsValid (tab t))
      → IsValid s
      → IsWritten (cga_switch io tab c s)
  unfolding cga_switch
  cga_switch-IsWritten tab c s keep v = elim (Bool-cases (c % 256 == 8)) [
    | inl y ↦ rw y (elim (Bool-cases (ltb 0 s.crt_pos)) [
      | inl z ↦
          rw z
            (record { size = length-set s.crt_buf _ _ ∙ v.size; cursor = ground (arith, v.cursor) })
      | inr z ↦ rw z (IsWritten-IsValid v)
    ])
    | inr n ↦ rw n (elim (Bool-cases (c % 256 == 10)) [
      | inl y ↦ rw y (record { size = v.size; cursor = omega (arith, v.cursor) })
      | inr n ↦ rw n (elim (Bool-cases (c % 256 == 13)) [
        | inl y ↦ rw y (record { size = v.size; cursor = omega (arith, v.cursor) })
        | inr n ↦ rw n (elim (Bool-cases (c % 256 == 9)) [
          | inl y ↦ rw y (IsWritten-IsValid (keep s v))
          | inr n ↦ rw n (record {
            size = length-set s.crt_buf _ _ ∙ v.size;
            cursor = omega (arith, v.cursor);
          })
        ])
      ])
    ])
  ]

  scroll_if-IsValid : (s : Screen W) → IsWritten s → IsValid (scroll_if io s)
  unfolding scroll_if
  scroll_if-IsValid s v = elim (Bool-cases (leb 2000 s.crt_pos)) [
    | inl y ↦ rw y (record {
      size = length-scroll s.crt_buf v.size;
      cursor = omega (arith, v.cursor, leb→le 2000 s.crt_pos y);
    })
    | inr y ↦ rw y (record { size = v.size; cursor = ground arith })
  ]

  cons_with-IsValid :
      (tab : Screen W → Screen W) (c : ℕ) (s : Screen W)
      → ((t : Screen W) → IsValid t → IsValid (tab t))
      → IsValid s
      → IsValid (cons_with io tab c s)
  unfolding cons_with move_cursor
  cons_with-IsValid tab c s keep v = record { size = w.size; cursor = w.cursor }
    where
      s' : Screen W
      s' = record s { world = lpt_putc io c (serial_putc io c s.world) }

      w : IsValid (scroll_if io (cga_switch io tab (attributed io c) s'))
      w = scroll_if-IsValid _ (
          cga_switch-IsWritten tab (attributed io c) s' keep
            (record { size = v.size; cursor = v.cursor }))

  put_space-IsValid : (s : Screen W) → IsValid s → IsValid (put_space io s)
  unfolding put_space
  put_space-IsValid s v = cons_with-IsValid (λ t. t) b' ' s (λ t h. h) v

  put_tab-IsValid : (s : Screen W) → IsValid s → IsValid (put_tab io s)
  unfolding put_tab
  put_tab-IsValid s v =
      put_space-IsValid _
        (put_space-IsValid _ (put_space-IsValid _ (put_space-IsValid _ (put_space-IsValid s v))))

  cputchar-IsValid : (c : ℕ) (s : Screen W) → IsValid s → IsValid (cputchar io c s)
  unfolding cputchar
  cputchar-IsValid c s v = cons_with-IsValid (put_tab io) c s put_tab-IsValid v

  pub put_all-append :
      (o o' : List ℕ) (s : Screen W) → put_all io (o ++ o') s ≡ put_all io o' (put_all io o s)
  unfolding put_all
  put_all-append [] o' s = refl
  put_all-append (c ∷ o) o' s = put_all-append o o' (cputchar io c s)

  -- Whatever characters are printed on a screen of 2000 cells with the cursor at one of them, the
  -- screen has 2000 cells and the cursor is at one of them again.
  pub put_all-IsValid : (o : List ℕ) (s : Screen W) → IsValid s → IsValid (put_all io o s)
  unfolding put_all
  put_all-IsValid [] s v = v
  put_all-IsValid (c ∷ o) s v = put_all-IsValid o (cputchar io c s) (cputchar-IsValid c s v)
