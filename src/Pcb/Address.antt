-- ===== src/Pcb/Address.antt =====
-- Where kernel/pcb.c puts the control block of a pid, and how it finds the running one.
use Prim.Native.Nat.{bit_and}
use linux.Base.{
  ℕ, ◌+◌, ◌-◌, ◌*◌, ◌/◌, ◌%◌, ◌^◌, ◌≤◌, ◌<◌, ◌≡◌, ap, ◌∙◌, arith, bit_and_shifted, bit_and_ones,
}
use linux.Pcb.{kernel_mem_end, kernel_stack_size, pcb_mask, pcb_process, get_pcb, kernel_stack}

-- The mask rounds a 32-bit address down to a multiple of the stack size.
align : (a : ℕ) → a < 2 ^ 32 → bit_and a pcb_mask ≡ a / 2 ^ 13 * 2 ^ 13
align a h =
    bit_and_shifted 13 a (2 ^ 19 - 1)
    ∙ ap (λ x. x * 2 ^ 13)
        (let e : a / 2 ^ 13 % 2 ^ 19 ≡ a / 2 ^ 13 = omega arith in bit_and_ones 19 (a / 2 ^ 13) ∙ e)

-- The block of `pid` is the lowest part of the `pid`-th 8 KB region below the end of the kernel.
pub get_pcb_lem :
    (pid : ℕ) → pid < 512 → get_pcb pid ≡ kernel_mem_end - kernel_stack_size * (pid + 1)
unfolding get_pcb
get_pcb_lem pid h =
    omega (arith, align (0x7fffff - 0x2000 * pid) (omega arith), ap (λ x. bit_and x pcb_mask) down)
  where
    down :
        (kernel_mem_end - 1 + 2 ^ 32 - kernel_stack_size * pid % 2 ^ 32) % 2 ^ 32
        ≡ 0x7fffff - 0x2000 * pid
    down = omega arith

-- For a pid below 512 and a stack pointer from its control block to the top of its kernel stack,
-- `pcb_process` finds the block that `get_pcb` gives for the pid.
pub pcb_process-get_pcb :
    (pid esp : ℕ)
    → pid < 512
    → get_pcb pid ≤ esp
    → esp ≤ kernel_stack pid
    → pcb_process esp ≡ get_pcb pid
unfolding pcb_process kernel_stack
pcb_process-get_pcb pid esp h lo hi = omega (arith, get_pcb_lem pid h, align esp (omega arith))

-- For two pids below 512, the 8 KB regions that start at their control blocks are disjoint: that of
-- the higher pid ends where that of the lower one starts, or below.
pub get_pcb-apart : (p q : ℕ) → p < q → q < 512 → get_pcb q + kernel_stack_size ≤ get_pcb p
get_pcb-apart p q h k = omega (arith, get_pcb_lem p (omega arith), get_pcb_lem q k)
