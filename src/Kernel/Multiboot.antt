-- ===== src/Kernel/Multiboot.antt =====
-- The beginning of `entry` of kernel.c, which prints what the boot loader says, and `entry` as a whole.
--
-- A report is none when the fuel of the loops over strings, modules or memory areas runs out.
use linux.Base.{
  ℕ, zero, suc, ◌+◌, ◌/◌, ◌%◌, ◌^◌, Bool, true, false, not, ◌&&◌, List, [], ◌∷◌, Option, none, some,
  ltb, ◌==◌, if◌then◌else◌, ◌>>=◌,
}
use linux.Memory.{◌⊕◌, load32}
use linux.CString.{sign_extend}
use linux.Console.{Console, clear, printf}
use linux.Segment.{Places, Segments, init_segments}
use linux.Kernel.{Kernel, Env, Frame, memory, set_memory}
use linux.Kernel.Programs.{Outcome}
use linux.Kernel.Boot.{Machine, Image, entry}

-- The addresses of the format strings, of the local array of `printf`, and the fuel.
pub record BootTexts : Type 0 where
  pub magic_text : ℕ
  pub flags_text : ℕ
  pub mem_text : ℕ
  pub boot_device_text : ℕ
  pub cmdline_text : ℕ
  pub loaded_text : ℕ
  pub ends_text : ℕ
  pub first_bytes_text : ℕ
  pub byte_text : ℕ
  pub new_line_text : ℕ
  pub both_bits_text : ℕ
  pub elf_sec_text : ℕ
  pub spin_text : ℕ
  pub conv_buf : ℕ
  pub fuel : ℕ

abbrev pub multiboot_bootloader_magic : ℕ
multiboot_bootloader_magic = 0x2badb002

-- `multiboot_info_t` at an address.
pub record MultibootInfo : Type 0 where
  pub flags : ℕ
  pub mem_lower : ℕ
  pub mem_upper : ℕ
  pub boot_device : ℕ
  pub cmdline : ℕ
  pub mods_count : ℕ
  pub mods_addr : ℕ
  pub elf_num : ℕ
  pub elf_size : ℕ
  pub elf_addr : ℕ
  pub elf_shndx : ℕ
  pub mmap_length : ℕ
  pub mmap_addr : ℕ

unfoldable pub multiboot_info : (ℕ → ℕ) → ℕ → MultibootInfo
multiboot_info m addr = record {
  flags = load32 m addr;
  mem_lower = load32 m (addr ⊕ 4);
  mem_upper = load32 m (addr ⊕ 8);
  boot_device = load32 m (addr ⊕ 12);
  cmdline = load32 m (addr ⊕ 16);
  mods_count = load32 m (addr ⊕ 20);
  mods_addr = load32 m (addr ⊕ 24);
  elf_num = load32 m (addr ⊕ 28);
  elf_size = load32 m (addr ⊕ 32);
  elf_addr = load32 m (addr ⊕ 36);
  elf_shndx = load32 m (addr ⊕ 40);
  mmap_length = load32 m (addr ⊕ 44);
  mmap_addr = load32 m (addr ⊕ 48);
}

-- `CHECK_FLAG`.
abbrev pub check_flag : ℕ → ℕ → Bool
check_flag flags bit = flags / 2 ^ bit % 2 == 1

abbrev pub print : BootTexts → Console → ℕ → List ℕ → Option Console
print t c format args = do p ← printf t.fuel c t.conv_buf format args; some (p.0)

-- The loop over the first bytes of a module, with the rounds left.
unfoldable pub bytes_from : ℕ → BootTexts → Console → ℕ → ℕ → Option Console
bytes_from zero t c mod_start i = some c
bytes_from (suc r) t c mod_start i = do
  c1 ← print t c t.byte_text (sign_extend (c.mem (mod_start ⊕ i)) ∷ [])
  bytes_from r t c1 mod_start (i + 1)

-- One round of the loop over the modules, at the `module_t` at `module_at`.
unfoldable pub report_module : BootTexts → Console → ℕ → ℕ → Option Console
report_module t c mod_count module_at = do
  c1 ← print t c t.loaded_text (mod_count ∷ load32 c.mem module_at ∷ [])
  c2 ← print t c1 t.ends_text (mod_count ∷ load32 c1.mem (module_at ⊕ 4) ∷ [])
  c3 ← print t c2 t.first_bytes_text []
  c4 ← bytes_from 16 t c3 (load32 c3.mem module_at) 0
  print t c4 t.new_line_text []

-- The loop over the modules; it has fuel. `mbi` is read again in each round.
unfoldable pub modules_from : ℕ → BootTexts → Console → ℕ → ℕ → ℕ → Option Console
modules_from zero t c mbi mod_count module_at = none
modules_from (suc f) t c mbi mod_count module_at =
    elim (ltb mod_count (multiboot_info c.mem mbi).mods_count) [
      | true ↦ do
        c1 ← report_module t c mod_count module_at
        modules_from f t c1 mbi (mod_count ⊕ 1) (module_at ⊕ 16)
      | false ↦ some c
    ]

-- The loop over the memory areas, which prints nothing: it ends, or the fuel runs out.
unfoldable pub areas_from : ℕ → Console → ℕ → ℕ → Option Console
areas_from zero c mbi mmap = none
areas_from (suc f) c mbi mmap =
    let rest = areas_from f c mbi (mmap ⊕ load32 c.mem mmap ⊕ 4) in
    let b = multiboot_info c.mem mbi in
    if ltb mmap (b.mmap_addr ⊕ b.mmap_length) then rest else some c

-- A part of the report that a flag asks for.
abbrev pub when : Bool → Option Console → Console → Option Console
when asked print c = if asked then print else some c

-- The lines on single fields.
unfoldable pub report_fields : BootTexts → Console → ℕ → Option Console
report_fields t c0 mbi =
    let flags = λ (c : Console). (multiboot_info c.mem mbi).flags in
    do
      c1 ← print t c0 t.flags_text (flags c0 ∷ [])
      let b1 = multiboot_info c1.mem mbi
      c2 ←
          when (check_flag b1.flags 0) (print t c1 t.mem_text (b1.mem_lower ∷ b1.mem_upper ∷ [])) c1
      let b2 = multiboot_info c2.mem mbi
      c3 ← when (check_flag b2.flags 1) (print t c2 t.boot_device_text (b2.boot_device ∷ [])) c2
      let b3 = multiboot_info c3.mem mbi
      when (check_flag b3.flags 2) (print t c3 t.cmdline_text (b3.cmdline ∷ [])) c3

-- The lines on modules, sections and memory areas. The Boolean: `entry` goes on.
unfoldable pub report_tables : BootTexts → Console → ℕ → Option (Console × Bool)
report_tables t c0 mbi =
    let b0 = multiboot_info c0.mem mbi in
    do
      c1 ← when (check_flag b0.flags 3) (modules_from t.fuel t c0 mbi 0 b0.mods_addr) c0
      let b1 = multiboot_info c1.mem mbi
      if check_flag b1.flags 4 && check_flag b1.flags 5
          then (do c2 ← print t c1 t.both_bits_text []; some (c2, false))
          else (do
            c2 ←
                when (check_flag b1.flags 5)
                  (print t c1 t.elf_sec_text
                    (b1.elf_num ∷ b1.elf_size ∷ b1.elf_addr ∷ b1.elf_shndx ∷ []))
                  c1
            let b2 = multiboot_info c2.mem mbi
            c3 ← when (check_flag b2.flags 6) (areas_from t.fuel c2 mbi b2.mmap_addr) c2
            some (c3, true))

-- From `clear` to the segments.
unfoldable pub report : BootTexts → Console → ℕ → ℕ → Option (Console × Bool)
report t c magic addr =
    if not (magic == multiboot_bootloader_magic)
    then (do c1 ← print t (clear c) t.magic_text (magic ∷ []); some (c1, false))
    else (do c1 ← report_fields t (clear c) addr; report_tables t c1 addr)

-- All of `entry`, up to the first shell. The bounds of the module for the file system are read where
-- the loader put them. The inner Option is none where `entry` returns early.
unfoldable pub boot :
    BootTexts
    → Env
    → Image
    → Frame
    → Places
    → Segments
    → Machine
    → ℕ
    → ℕ
    → ℕ
    → ℕ
    → Option (Option (Kernel × Outcome × Segments))
boot t e i l p s m magic addr esp ebp = do
  r ← report t (record (m.screen) { mem = memory m.kernel }) magic addr
  let c = r.0
  let module_at = (multiboot_info c.mem addr).mods_addr
  let m1 = record m { screen = c; kernel = set_memory m.kernel c.mem }
  let i1 = record i { mod_start = load32 c.mem module_at; mod_end = load32 c.mem (module_at ⊕ 4) }
  if r.1
      then (do o ← entry e i1 l m1 esp ebp; some (some (o.0, o.1, init_segments p s)))
      else some none
