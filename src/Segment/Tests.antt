-- ===== src/Segment/Tests.antt =====
-- The segments of kernel.c at concrete addresses.
use linux.Base.{◌≡◌, arith}
use linux.Segment.{SegDesc, Tss, Places, Segments, init_segments}
use linux.Segment.Bases.{Describes, init_segments_lem}

abbrev stray : SegDesc
stray = record {
  seg_lim_15_00 = 0xdead;
  base_15_00 = 0xbeef;
  base_23_16 = 0xff;
  type = 0xf;
  sys = 1;
  dpl = 3;
  present = 0;
  seg_lim_19_16 = 0xf;
  avail = 1;
  reserved = 1;
  opsize = 1;
  granularity = 1;
  base_31_24 = 0xff;
}

abbrev no_task : Tss
no_task = record {
  prev_task_link = 0;
  prev_task_link_pad = 0;
  esp0 = 0;
  ss0 = 0;
  ss0_pad = 0;
  esp1 = 0;
  ss1 = 0;
  ss1_pad = 0;
  esp2 = 0;
  ss2 = 0;
  ss2_pad = 0;
  cr3 = 0;
  eip = 0;
  eflags = 0;
  eax = 0;
  ecx = 0;
  edx = 0;
  ebx = 0;
  esp = 0;
  ebp = 0;
  esi = 0;
  edi = 0;
  es = 0;
  es_pad = 0;
  cs = 0;
  cs_pad = 0;
  ss = 0;
  ss_pad = 0;
  ds = 0;
  ds_pad = 0;
  fs = 0;
  fs_pad = 0;
  gs = 0;
  gs_pad = 0;
  ldt_segment_selector = 0;
  ldt_pad = 0;
  debug_trap = 0;
  io_pad = 0;
  io_base_addr = 0;
}

abbrev places : Places
places = record {
  ldt_at = 0x412340;
  ldt_size = 31;
  tss_at = 0x4120c4;
  tss_size = 103;
  stray_ldt = stray;
  stray_tss = stray;
}

abbrev segments : Segments
segments = record { ldt_desc_ptr = stray; tss_desc_ptr = stray; tss = no_task }

init_segments_lem_example :
    Describes (init_segments places segments).ldt_desc_ptr 2 0x412340 31
    × Describes (init_segments places segments).tss_desc_ptr 9 0x4120c4 103
    × (((init_segments places segments).tss).ss0 ≡ 0x18)
init_segments_lem_example =
    init_segments_lem places segments (omega arith) (omega arith) (omega arith) (omega arith)
