-- ===== src/Idt/Gates.antt =====
-- Which gates initialize_idt (src/idt.c) installs, and for whom.
use if2230_2023_oshiete.Common.{
  ◌⊎◌, inl, inr, ℕ, zero, suc, ◌+◌, ◌*◌, ◌^◌, ◌<◌, ◌≤◌, ◌≡◌, ◌≢◌, refl, sym, subst, ◌∙◌, ◌&&◌,
  arith, leb, if◌then◌else◌,
}
use native.Mathlib.Decide.{ℕ_discrete}
use if2230_2023_oshiete.Idt.{
  IdtGate, interrupt_gate, set_interrupt_gate, initialize_gate, initialize_gates, initialize_idt,
}

-- The address that the processor reads in a gate.
abbrev pub handler : IdtGate → ℕ
handler g = g.offset_high * 2 ^ 16 + g.offset_low

-- The gate g is valid, of 32 bits, leads to the address in the kernel's code segment, and the
-- privilege is the least one that may call it.
pub record LeadsTo (g : IdtGate) (address privilege : ℕ) : Type 0 where
  pub at_address : handler g ≡ address
  pub in_segment : g.segment ≡ 8
  pub callable : g.dpl ≡ privilege
  pub is_valid : (g.valid_bit ≡ 1) × (g.gate_32 ≡ 1)

module _ (isr_stub_table : ℕ → ℕ) where
  initialize_gate-other :
      (table : ℕ → IdtGate) (i j : ℕ)
      → i < 256
      → j ≢ i
      → initialize_gate isr_stub_table table i j ≡ table j
  unfolding initialize_gate set_interrupt_gate
  initialize_gate-other table i j h ne = ground arith

  initialize_gates-other :
      (table : ℕ → IdtGate) (k i j : ℕ)
      → i + k < 256
      → (j < i) ⊎ (i + k ≤ j)
      → initialize_gates isr_stub_table table k i j ≡ table j
  unfolding initialize_gates
  initialize_gates-other table zero i j h out = refl
  initialize_gates-other table (suc k) i j h out =
      initialize_gates-other (initialize_gate isr_stub_table table i) k (suc i) j (omega arith)
        (ground (arith, out))
      ∙ initialize_gate-other table i j (omega arith) (ground (arith, out))

  initialize_gate-LeadsTo :
      (table : ℕ → IdtGate) (i : ℕ)
      → i < 256
      → isr_stub_table i < 2 ^ 32
      → LeadsTo
          (initialize_gate isr_stub_table table i i)
          (isr_stub_table i)
          (if leb 0x30 i && leb i 0x3F then 3 else 0)
  unfolding initialize_gate set_interrupt_gate interrupt_gate
  initialize_gate-LeadsTo table i h addr = ground arith

  initialize_gates-LeadsTo :
      (table : ℕ → IdtGate) (k i j : ℕ)
      → i + k < 256
      → i ≤ j
      → j < i + k
      → isr_stub_table j < 2 ^ 32
      → LeadsTo
          (initialize_gates isr_stub_table table k i j)
          (isr_stub_table j)
          (if leb 0x30 j && leb j 0x3F then 3 else 0)
  unfolding initialize_gates
  initialize_gates-LeadsTo table zero i j h lo hi addr = ground arith
  initialize_gates-LeadsTo table (suc k) i j h lo hi addr =
      let table' = initialize_gate isr_stub_table table i in
      elim (ℕ_discrete i j) [
        | yes e ↦
            subst (λ g. LeadsTo g (isr_stub_table j) (if leb 0x30 j && leb j 0x3F then 3 else 0))
              (sym (initialize_gates-other table' k (suc i) j (omega arith) (inl (omega arith))))
              (subst
                (λ x.
                  LeadsTo (table' x) (isr_stub_table x) (if leb 0x30 x && leb x 0x3F then 3 else 0))
                e
                (initialize_gate-LeadsTo table i (omega arith)
                  (subst (λ x. isr_stub_table x < 2 ^ 32) (sym e) addr)))
        | no ne ↦
            initialize_gates-LeadsTo table' k (suc i) j (omega arith) (omega arith) (omega arith)
              addr
      ]

  -- With the stubs at addresses of 32 bits, after initialize_idt every vector below 64 has a valid
  -- gate that leads to its stub, and a program of the user may call exactly the vectors from 0x30 to
  -- 0x3F; every other vector keeps its gate.
  pub initialize_idt_lem :
      (table : ℕ → IdtGate)
      → ((i : ℕ) → isr_stub_table i < 2 ^ 32)
      → (j : ℕ)
      → (j < 64
          → LeadsTo
              (initialize_idt isr_stub_table table j)
              (isr_stub_table j)
              (if leb 0x30 j && leb j 0x3F then 3 else 0))
        × (64 ≤ j → initialize_idt isr_stub_table table j ≡ table j)
  unfolding initialize_idt
  initialize_idt_lem table addr j = (
    λ h. initialize_gates-LeadsTo table 64 0 j (omega arith) (omega arith) h (addr j),
    λ h. initialize_gates-other table 64 0 j (omega arith) (inr h),
  )
