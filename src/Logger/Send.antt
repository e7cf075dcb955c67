-- ===== src/Logger/Send.antt =====
-- What a run of the logger sends, piece by piece.
use torch_os.Base.{
  ℕ, zero, suc, ◌-◌, ◌/◌, ◌%◌, ◌^◌, ◌<◌, ◌≡◌, inl, inr, refl, sym, ap, ◌∙◌, arith, ◌==◌, List, [],
  ◌∷◌, ◌++◌, false, ok, Outcome, ◌>>=◌, Bool-cases,
}
use mathlib.Core.List.{append_assoc, append-nil}
use torch_os.Logger.{is_transmit_empty, stall, put_serial}
use torch_os.Logger.Uart.{Uart}
use torch_os.Logger.Board.{Board, com1}

-- The chip sends what it is given, within `patience` polls.
pub record CanSend (patience : ℕ) (u : Uart) : Type 0 where
  pub open_data : u.line_control < 2 ^ 7
  pub busy : u.busy < patience
  pub pace : u.pace < patience

-- From `b` to `b'` the characters `text` are sent, and memory at the addresses `kept` is not
-- changed.
pub record Sent (patience : ℕ) (kept : ℕ → Type 0) (text : List ℕ) (b b' : Board) : Type 0 where
  pub can : CanSend patience b'.uart
  pub sent : b'.uart.sent ≡ b.uart.sent ++ text
  pub same : (a : ℕ) → kept a → b'.ram a ≡ b.ram a

abbrev pub Sends : ℕ → (ℕ → Type 0) → List ℕ → Board → Outcome Board → Type 0
Sends patience kept text b r = (b' : Board) × (r ≡ ok b') × Sent patience kept text b b'

-- All of memory.
abbrev pub Everywhere : ℕ → Type 0
Everywhere a = Unit {0}

module _ (patience : ℕ) where
  pub Sends-then :
      (kept : ℕ → Type 0) (first second : List ℕ) (b : Board) {r : Outcome Board}
      (next : Board → Outcome Board)
      → Sends patience kept first b r
      → ((b1 : Board) → Sent patience kept first b b1 → Sends patience kept second b1 (next b1))
      → Sends patience kept (first ++ second) b (r >>= next)
  Sends-then kept first second b next (b1, e1, s1) go =
      let (b2, e2, s2) = go b1 s1 in
      (
        b2,
        ap (λ r. r >>= next) e1 ∙ e2,
        record {
          can = s2.can;
          sent = s2.sent ∙ ap (λ t. t ++ second) s1.sent ∙ append_assoc b.uart.sent first second;
          same = λ a k. s2.same a k ∙ s1.same a k;
        },
      )

  pub Sends-nothing :
      (kept : ℕ → Type 0) (b : Board) → CanSend patience b.uart → Sends patience kept [] b (ok b)
  Sends-nothing kept b can =
      (b, refl, record { can = can; sent = sym (append-nil b.uart.sent); same = λ a k. refl })

  pub Sends-kept :
      (kept : ℕ → Type 0) (text : List ℕ) (b : Board) {r : Outcome Board}
      → Sends patience Everywhere text b r
      → Sends patience kept text b r
  Sends-kept kept text b (b', e, s) =
      (b', e, record { can = s.can; sent = s.sent; same = λ a k. s.same a tt })

  -- Waiting, then writing one character.
  stall-free :
      (fuel : ℕ) (b : Board)
      → b.uart.busy < fuel
      → stall com1 fuel b ≡ ok (record b { uart = record b.uart { busy = 0 } })
  unfolding stall is_transmit_empty
  stall-free zero b h = absurd (omega arith)
  stall-free (suc fuel) b h = elim (Bool-cases (b.uart.busy == 0)) [
    | inl free ↦ let now : b.uart.busy ≡ 0 = ground arith in rw (free, ← now)
    | inr waits ↦
        let u : Uart = record b.uart { busy = b.uart.busy - 1 } in
        rw waits (stall-free fuel (record b { uart = u }) (ground arith))
  ]

  pub put_serial-Sends :
      (a : ℕ) (b : Board)
      → CanSend patience b.uart
      → Sends patience Everywhere (a ∷ []) b (put_serial com1 patience a b)
  unfolding put_serial
  put_serial-Sends a b can =
      let closed : (b.uart.line_control / 2 ^ 7 % 2 == 1) ≡ false = ground (arith, can.open_data) in
      (
        record b { uart = record b.uart { busy = b.uart.pace; sent = b.uart.sent ++ a ∷ [] } },
        rw (stall-free patience b can.busy, closed),
        record {
          can = record { open_data = can.open_data; busy = can.pace; pace = can.pace };
          sent = refl;
          same = λ a' k. refl;
        },
      )
