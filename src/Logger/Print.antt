-- ===== src/Logger/Print.antt =====
-- `print_serial` sends a C string.
use torch_os.Base.{
  ℕ, zero, suc, ◌+◌, ◌^◌, ◌<◌, ◌≡◌, sym, ◌∙◌, arith, ltb, [], ◌∷◌, true, false, fun_ext, subst,
}
use torch_os.Hardware.Ram.{load8}
use torch_os.Strings.{addresses}
use torch_os.Strings.Text.{IsText, text_of, strlen-IsText}
use torch_os.Strings.Lens.{strlen-Lens}
use torch_os.Logger.{print_at, print_serial_from, print_serial}
use torch_os.Logger.Board.{Board, board, com1, board_lens}
use torch_os.Logger.Send.{CanSend, Sends, Everywhere, Sends-then, Sends-nothing, put_serial-Sends}

module _ (patience : ℕ) where
  print_serial_from-Sends :
      (left fuel p i : ℕ) (b : Board)
      → IsText b.ram p (i + left)
      → i + left < 2 ^ 32
      → left < fuel
      → CanSend patience b.uart
      → Sends patience Everywhere
          (text_of b.ram (p + i) left)
          b
          (print_serial_from board com1 patience fuel p i b)
  unfolding print_serial_from print_at
  print_serial_from-Sends left zero p i b text small enough can = absurd (omega arith)
  print_serial_from-Sends zero (suc fuel) p i b text small enough can =
      let len = strlen-Lens board board_lens p b ∙ strlen-IsText b.ram p (i + 0) text small in
      let done : ltb i (i + 0) ≡ false = ground arith in
      rw (len, done) (Sends-nothing patience Everywhere b can)
  print_serial_from-Sends (suc left) (suc fuel) p i b text small enough can =
      let len =
        strlen-Lens board board_lens p b ∙ strlen-IsText b.ram p (i + suc left) text small in
      let more : ltb i (i + suc left) ≡ true = ground arith in
      let at : p + i + 1 ≡ p + (i + 1) = omega arith in
      let total : i + suc left ≡ i + 1 + left = omega arith in
      rw (len, more, at)
        (Sends-then patience Everywhere (load8 b.ram (p + i) ∷ [])
          (text_of b.ram (p + (i + 1)) left) b
          (print_serial_from board com1 patience fuel p (i + 1))
          (put_serial-Sends patience (load8 b.ram (p + i)) b can)
          (λ b1 s1.
            let same : b1.ram ≡ b.ram = fun_ext λ a. s1.same a tt in
            subst
              (λ m.
                Sends patience Everywhere (text_of m (p + (i + 1)) left) b1
                  (print_serial_from board com1 patience fuel p (i + 1) b1))
              same
              (print_serial_from-Sends left fuel p (i + 1) b1
                (subst (λ m. IsText m p (i + 1 + left)) (sym same) (rw (← total) text))
                (omega arith) (omega arith) s1.can)))

  pub print_serial-Sends :
      (p n : ℕ) (b : Board)
      → IsText b.ram p n
      → n < 2 ^ 32
      → CanSend patience b.uart
      → Sends patience Everywhere (text_of b.ram p n) b (print_serial board com1 patience p b)
  unfolding print_serial
  print_serial-Sends p n b text small can =
      let start : p + 0 ≡ p = omega arith in
      let all : 0 + n ≡ n = omega arith in
      subst
        (λ q.
          Sends patience Everywhere (text_of b.ram q n) b (print_serial board com1 patience p b))
        start
        (print_serial_from-Sends n addresses p 0 b (rw all text) (omega arith) (omega arith) can)
