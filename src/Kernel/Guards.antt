-- ===== src/Kernel/Guards.antt =====
-- The calls on files of kernel/syscall.c: the arguments they refuse, and what closing does.
use linux.Base.{
  ℕ, ◌^◌, ◌%◌, ◌≤◌, ◌<◌, ◌≡◌, ◌≢◌, ◌⊎◌, refl, ap, ◌∙◌, arith, true, false, not, ◌||◌, some, inl,
  inr, leb-false, ◌==◌, ==_false, ==_true, Bool-cases, length, get_or-set_self,
}
use linux.CString.{slt}
use linux.Pcb.{
  rtc_driver, dir_driver, Pcb, closed, descriptor, set_descriptor, fd_max, minus_one, pcb_close,
}
use linux.Rtc.{rtc_close}
use linux.Kernel.{Kernel, Env, Frame, pcb, set_pcb}
use linux.Kernel.Calls.{
  World, out_of_range, driver_close, syscall_read, syscall_write, syscall_close,
}

-- Not a descriptor, or one that is not open.
abbrev pub IsUnusable : Kernel → ℕ → Type 0
IsUnusable k fd = (fd_max ≤ fd) ⊎ ((descriptor (pcb k) fd).flags ≡ 0)

range_lem : (fd : ℕ) → fd < 2 ^ 32 → fd_max ≤ fd → out_of_range fd ≡ true
range_lem fd h k = ground arith

pub read_refused :
    (world : World) (e : Env) (l : Frame) (k : Kernel) (fd buf nbytes : ℕ)
    → fd < 2 ^ 32
    → nbytes ≢ 0
    → IsUnusable k fd
    → syscall_read world e l k fd buf nbytes ≡ some (k, minus_one)
unfolding syscall_read
read_refused world e l k fd buf nbytes h some_bytes (inl high) =
    rw (==_false nbytes 0 some_bytes, range_lem fd h high) refl
read_refused world e l k fd buf nbytes h some_bytes (inr shut) =
    rw (==_false nbytes 0 some_bytes) (elim (Bool-cases (out_of_range fd || (fd == 1))) [
      | inl out ↦ rw out refl
      | inr within ↦ rw (within, ==_true _ 0 shut) refl
    ])

pub write_refused :
    (k : Kernel) (fd buf nbytes : ℕ)
    → fd < 2 ^ 32
    → IsUnusable k fd
    → syscall_write k fd buf nbytes ≡ some (k, minus_one)
unfolding syscall_write
write_refused k fd buf nbytes h (inl high) = rw (range_lem fd h high) refl
write_refused k fd buf nbytes h (inr shut) =
    elim (Bool-cases (out_of_range fd || (nbytes == 0) || (fd == 0))) [
      | inl out ↦ rw out refl
      | inr within ↦ elim (Bool-cases (buf == 0)) [
        | inl nil ↦ rw (within, nil) refl
        | inr given ↦ rw (within, given, ==_true _ 0 shut) refl
      ]
    ]

pub close_refused :
    (world : World) (k : Kernel) (fd : ℕ)
    → fd < 2 ^ 32
    → IsUnusable k fd
    → syscall_close world k fd ≡ some (k, minus_one)
unfolding syscall_close
close_refused world k fd h (inl high) =
    let out : (not (slt fd fd_max) || slt fd 2) ≡ true = ground arith in rw out refl
close_refused world k fd h (inr shut) = elim (Bool-cases (not (slt fd fd_max) || slt fd 2)) [
  | inl out ↦ rw out refl
  | inr within ↦ rw (within, ==_true _ 0 shut) refl
]

-- For a number that is no descriptor, negative ones included, or a descriptor that is not open, and a
-- count other than 0: `read`, `write` and `close` all return -1 and change nothing.
pub unusable_descriptor :
    (world : World) (e : Env) (l : Frame) (k : Kernel) (fd buf nbytes : ℕ)
    → fd < 2 ^ 32
    → nbytes ≢ 0
    → IsUnusable k fd
    → (syscall_read world e l k fd buf nbytes ≡ some (k, minus_one))
      × (syscall_write k fd buf nbytes ≡ some (k, minus_one))
      × (syscall_close world k fd ≡ some (k, minus_one))
unusable_descriptor world e l k fd buf nbytes h some_bytes w = (
  read_refused world e l k fd buf nbytes h some_bytes w,
  write_refused k fd buf nbytes h w,
  close_refused world k fd h w,
)

-- The control block with a descriptor closed.
abbrev pub shut_at : Pcb → ℕ → Pcb
shut_at p fd = set_descriptor p fd (record (descriptor p fd) { flags = 0 })

-- The table is found after the descriptor is closed.
pub close_lem :
    (world : World) (k : Kernel) (fd : ℕ)
    → 2 ≤ fd
    → fd < fd_max
    → length (pcb k).elements ≡ fd_max
    → (descriptor (pcb k) fd).flags ≢ 0
    → syscall_close world k fd
      ≡ driver_close
          (descriptor (pcb k) fd).file_operation_jmp_tbl
          world
          (set_pcb k k.current (shut_at (pcb k) fd))
          fd
unfolding syscall_close pcb_close
close_lem world k fd lo hi size active =
    let within : (not (slt fd fd_max) || slt fd 2) ≡ false = ground arith in
    let byte : fd % 2 ^ 8 ≡ fd = omega arith in
    rw
      (
        within,
        ==_false _ 0 active,
        byte,
        leb-false fd_max fd hi,
        ==_true k.current k.current refl,
        get_or-set_self (pcb k).elements fd (record (descriptor (pcb k) fd) { flags = 0 }) closed
            (omega arith),
      )
      refl

-- For an open descriptor from 2 to 7 of a block of eight: `close` of a directory or the clock closes
-- that descriptor, returns 0 and changes nothing else.
pub close_other :
    (world : World) (k : Kernel) (fd : ℕ)
    → 2 ≤ fd
    → fd < fd_max
    → length (pcb k).elements ≡ fd_max
    → (descriptor (pcb k) fd).flags ≢ 0
    → ((descriptor (pcb k) fd).file_operation_jmp_tbl ≡ dir_driver)
      ⊎ ((descriptor (pcb k) fd).file_operation_jmp_tbl ≡ rtc_driver)
    → syscall_close world k fd ≡ some (set_pcb k k.current (shut_at (pcb k) fd), 0)
unfolding driver_close rtc_close
close_other world k fd lo hi size active (inl dir) =
    close_lem world k fd lo hi size active
    ∙ ap (λ d. driver_close d world (set_pcb k k.current (shut_at (pcb k) fd)) fd) dir
close_other world k fd lo hi size active (inr rtc) =
    close_lem world k fd lo hi size active
    ∙ ap (λ d. driver_close d world (set_pcb k k.current (shut_at (pcb k) fd)) fd) rtc
