-- ===== src/Interrupts/Enter.antt =====
-- What the called function finds on the stack.
use torch_os.Base.{
  ℕ, ◌+◌, ◌-◌, ◌*◌, ◌/◌, ◌^◌, ◌≤◌, ◌<◌, ◌≡◌, ◌∙◌, arith, List, [], ◌∷◌, ◌++◌, subst, sym,
}
use torch_os.Hardware.Ram.{Ram, load32}
use torch_os.Isr.{Context}
use torch_os.Interrupts.{Cpu, context_at}
use torch_os.Interrupts.Stack.{
  Holds, AreWords, down, stacked, onto, down_lem, stacked-Holds, Holds-get,
}

-- Registers of the width that they have, and room for what is pushed.
pub record IsCpu (c : Cpu) : Type 0 where
  pub eax : c.eax < 2 ^ 32
  pub ecx : c.ecx < 2 ^ 32
  pub edx : c.edx < 2 ^ 32
  pub ebx : c.ebx < 2 ^ 32
  pub ebp : c.ebp < 2 ^ 32
  pub esi : c.esi < 2 ^ 32
  pub edi : c.edi < 2 ^ 32
  pub eip : c.eip < 2 ^ 32
  pub eflags : c.eflags < 2 ^ 32
  pub cs : c.cs < 2 ^ 16
  pub ds : c.ds < 2 ^ 16
  pub room : 60 ≤ c.esp
  pub esp : c.esp < 2 ^ 32

-- `mov ax, ds`
abbrev pub with_ds : Cpu → ℕ
with_ds c = c.eax / 2 ^ 16 * 2 ^ 16 + c.ds

-- The words that are pushed, in order, by the processor and by the stub.
abbrev pub saved : (n code : ℕ) → Cpu → List ℕ
saved n code c =
    c.eflags
    ∷ c.cs
    ∷ c.eip
    ∷ code
    ∷ n
    ∷ c.eax
    ∷ c.ecx
    ∷ c.edx
    ∷ c.ebx
    ∷ down 5 c.esp
    ∷ c.ebp
    ∷ c.esi
    ∷ c.edi
    ∷ with_ds c
    ∷ []

-- The pointer to the context follows.
abbrev pub pushes : (n code : ℕ) → Cpu → List ℕ
pushes n code c = saved n code c ++ down 14 c.esp ∷ []

-- The state in which a stub calls, in the interrupted state `c`.
pub record Entered (n code : ℕ) (c c1 : Cpu) : Type 0 where
  pub esp : c1.esp ≡ c.esp - 60
  pub holds : Holds c1.memory (c.esp - 60) (onto (pushes n code c) [])

-- The context is that of the interrupted program. Its `ds` has the upper half of EAX.
pub record Interrupted (n code : ℕ) (c : Cpu) (x : Context) : Type 0 where
  pub int_no : x.int_no ≡ n
  pub err_code : x.err_code ≡ code
  pub eax : x.eax ≡ c.eax
  pub ecx : x.ecx ≡ c.ecx
  pub edx : x.edx ≡ c.edx
  pub ebx : x.ebx ≡ c.ebx
  pub ebp : x.ebp ≡ c.ebp
  pub esi : x.esi ≡ c.esi
  pub edi : x.edi ≡ c.edi
  pub eip : x.eip ≡ c.eip
  pub cs : x.cs ≡ c.cs
  pub eflags : x.eflags ≡ c.eflags
  pub ds : x.ds ≡ c.eax / 2 ^ 16 * 2 ^ 16 + c.ds

module _ (n code : ℕ) (c : Cpu) (is : IsCpu c) (n_word : n < 2 ^ 32)
    (code_word : code < 2 ^ 32) where
  words : AreWords (pushes n code c)
  words = omega arith

  pub stacked-Entered :
      (c1 : Cpu)
      → c1.memory ≡ stacked c.memory c.esp (pushes n code c)
      → c1.esp ≡ down 15 c.esp
      → Entered n code c c1
  stacked-Entered c1 memory esp = record {
    esp = esp ∙ down_lem 15 c.esp (omega (arith, is.room)) is.esp;
    holds =
        subst (λ m. Holds m (c.esp - 60) (onto (pushes n code c) [])) (sym memory)
          (stacked-Holds (pushes n code c) c.memory c.esp [] is.room is.esp words tt);
  }

  context-Interrupted :
      (m : Ram) (q : ℕ)
      → Holds m q (onto (saved n code c) [])
      → Interrupted n code c (context_at m q)
  context-Interrupted m q h =
      let word = λ (k : ℕ) (below : k < 14). Holds-get (onto (saved n code c) []) m q k h below in
      record {
        int_no = word 9 (omega arith);
        err_code = word 10 (omega arith);
        eax = word 8 (omega arith);
        ecx = word 7 (omega arith);
        edx = word 6 (omega arith);
        ebx = word 5 (omega arith);
        ebp = word 3 (omega arith);
        esi = word 2 (omega arith);
        edi = word 1 (omega arith);
        eip = word 11 (omega arith);
        cs = word 12 (omega arith);
        eflags = word 13 (omega arith);
        ds = h.0;
      }

  pub Entered-Interrupted :
      (c1 : Cpu)
      → Entered n code c c1
      → Interrupted n code c (context_at c1.memory (load32 c1.memory c1.esp))
  Entered-Interrupted c1 e =
      let room = is.room in
      let p = c.esp - 60 in
      let pointer : load32 c1.memory c1.esp ≡ p + 4 =
        rw e.esp e.holds.0 ∙ down_lem 14 c.esp (omega arith) is.esp ∙ omega arith in
      subst (λ q. Interrupted n code c (context_at c1.memory q)) (sym pointer)
        (context-Interrupted c1.memory (p + 4) e.holds.1)
