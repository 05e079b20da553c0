-- ===== src/Segment.antt =====
-- The segment descriptors and the task state of x86_desc.h, and what `entry` of kernel.c puts there.
pub mod Bases
mod Tests
use Prim.Native.Nat.{bit_and}
use linux.Base.{ℕ, ◌+◌, ◌*◌, ◌/◌, ◌%◌, ◌^◌}

-- `seg_desc_t`.
pub record SegDesc : Type 0 where
  pub seg_lim_15_00 : ℕ
  pub base_15_00 : ℕ
  pub base_23_16 : ℕ
  pub type : ℕ
  pub sys : ℕ
  pub dpl : ℕ
  pub present : ℕ
  pub seg_lim_19_16 : ℕ
  pub avail : ℕ
  pub reserved : ℕ
  pub opsize : ℕ
  pub granularity : ℕ
  pub base_31_24 : ℕ

-- `tss_t`.
pub record Tss : Type 0 where
  pub prev_task_link : ℕ
  pub prev_task_link_pad : ℕ
  pub esp0 : ℕ
  pub ss0 : ℕ
  pub ss0_pad : ℕ
  pub esp1 : ℕ
  pub ss1 : ℕ
  pub ss1_pad : ℕ
  pub esp2 : ℕ
  pub ss2 : ℕ
  pub ss2_pad : ℕ
  pub cr3 : ℕ
  pub eip : ℕ
  pub eflags : ℕ
  pub eax : ℕ
  pub ecx : ℕ
  pub edx : ℕ
  pub ebx : ℕ
  pub esp : ℕ
  pub ebp : ℕ
  pub esi : ℕ
  pub edi : ℕ
  pub es : ℕ
  pub es_pad : ℕ
  pub cs : ℕ
  pub cs_pad : ℕ
  pub ss : ℕ
  pub ss_pad : ℕ
  pub ds : ℕ
  pub ds_pad : ℕ
  pub fs : ℕ
  pub fs_pad : ℕ
  pub gs : ℕ
  pub gs_pad : ℕ
  pub ldt_segment_selector : ℕ
  pub ldt_pad : ℕ
  pub debug_trap : ℕ
  pub io_pad : ℕ
  pub io_base_addr : ℕ

-- `SET_LDT_PARAMS`, on the bits of an `uint32_t`.
unfoldable pub set_ldt_params : SegDesc → ℕ → ℕ → SegDesc
set_ldt_params str addr lim = record str {
  base_31_24 = bit_and addr 0xff000000 / 2 ^ 24;
  base_23_16 = bit_and addr 0x00ff0000 / 2 ^ 16;
  base_15_00 = bit_and addr 0x0000ffff;
  seg_lim_19_16 = bit_and lim 0x000f0000 / 2 ^ 16;
  seg_lim_15_00 = bit_and lim 0x0000ffff;
}

unfoldable pub set_tss_params : SegDesc → ℕ → ℕ → SegDesc
set_tss_params str addr lim = record str {
  base_31_24 = bit_and addr 0xff000000 / 2 ^ 24;
  base_23_16 = bit_and addr 0x00ff0000 / 2 ^ 16;
  base_15_00 = bit_and addr 0x0000ffff;
  seg_lim_19_16 = bit_and lim 0x000f0000 / 2 ^ 16;
  seg_lim_15_00 = bit_and lim 0x0000ffff;
}

abbrev pub kernel_ds : ℕ
kernel_ds = 0x18

abbrev pub kernel_ldt : ℕ
kernel_ldt = 0x38

abbrev pub tss_size_constant : ℕ
tss_size_constant = 104

-- `the_ldt_desc`, in an uninitialised variable.
unfoldable pub the_ldt_desc : SegDesc → ℕ → ℕ → SegDesc
the_ldt_desc stray ldt ldt_size =
    set_ldt_params
      (record stray {
        granularity = 0;
        opsize = 1;
        reserved = 0;
        avail = 0;
        present = 1;
        dpl = 0;
        sys = 0;
        type = 2;
      })
      ldt ldt_size

unfoldable pub the_tss_desc : SegDesc → ℕ → ℕ → SegDesc
the_tss_desc stray tss tss_size =
    set_tss_params
      (record stray {
        granularity = 0;
        opsize = 0;
        reserved = 0;
        avail = 0;
        seg_lim_19_16 = bit_and tss_size_constant 0x000f0000 % 2 ^ 4;
        present = 1;
        dpl = 0;
        sys = 0;
        type = 9;
        seg_lim_15_00 = bit_and tss_size_constant 0x0000ffff;
      })
      tss tss_size

-- The entries of the GDT and the task state that `entry` fills in.
pub record Segments : Type 0 where
  pub ldt_desc_ptr : SegDesc
  pub tss_desc_ptr : SegDesc
  pub tss : Tss

-- The addresses and sizes that x86_desc.S gives, and what the two local variables hold before.
pub record Places : Type 0 where
  pub ldt_at : ℕ
  pub ldt_size : ℕ
  pub tss_at : ℕ
  pub tss_size : ℕ
  pub stray_ldt : SegDesc
  pub stray_tss : SegDesc

-- The two blocks of `entry`, without the loads of the processor's registers.
unfoldable pub init_segments : Places → Segments → Segments
init_segments p s = record {
  ldt_desc_ptr = the_ldt_desc p.stray_ldt p.ldt_at p.ldt_size;
  tss_desc_ptr = the_tss_desc p.stray_tss p.tss_at p.tss_size;
  tss = record (s.tss) { ldt_segment_selector = kernel_ldt; ss0 = kernel_ds; esp0 = 0x800000 };
}
