-- ===== src/Memory/Tests.antt =====
-- The block operations of lib/lib.c on a concrete memory.
use linux.Base.{arith, ◌%◌}
use linux.Memory.{Mem, memcpy}
use linux.Memory.Copy.{Copied, memcpy-Copied}

-- Each byte is the low byte of its address.
abbrev counting : Mem
counting a = a % 256

-- Neither block is aligned.
memcpy-Copied_example : Copied counting (memcpy counting 50 7 13) 50 7 13
memcpy-Copied_example =
    memcpy-Copied counting 50 7 13
      (record { apart = omega arith; to_fits = omega arith; from_fits = omega arith })
