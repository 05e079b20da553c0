-- ===== src/Segment/Bases.antt =====
-- What the segment descriptors of kernel.c say to the processor.
use Prim.Native.Nat.{bit_and}
use linux.Base.{
  ℕ, ◌+◌, ◌-◌, ◌*◌, ◌/◌, ◌%◌, ◌^◌, ◌<◌, ◌≡◌, refl, arith, bit_and_shifted, bit_and_ones,
}
use linux.Segment.{
  SegDesc, Places, Segments, set_ldt_params, set_tss_params, the_ldt_desc, the_tss_desc,
  init_segments,
}

-- The processor's reading of a descriptor: the base and the limit, each in pieces.
abbrev pub base : SegDesc → ℕ
base d = d.base_15_00 + 2 ^ 16 * d.base_23_16 + 2 ^ 24 * d.base_31_24

abbrev pub limit : SegDesc → ℕ
limit d = d.seg_lim_15_00 + 2 ^ 16 * d.seg_lim_19_16

byte_at_24 : (a : ℕ) → bit_and a 0xff000000 / 2 ^ 24 ≡ a / 2 ^ 24 % 2 ^ 8
byte_at_24 a = omega (arith, bit_and_shifted 24 a (2 ^ 8 - 1), bit_and_ones 8 (a / 2 ^ 24))

byte_at_16 : (a : ℕ) → bit_and a 0x00ff0000 / 2 ^ 16 ≡ a / 2 ^ 16 % 2 ^ 8
byte_at_16 a = omega (arith, bit_and_shifted 16 a (2 ^ 8 - 1), bit_and_ones 8 (a / 2 ^ 16))

digit_at_16 : (a : ℕ) → bit_and a 0x000f0000 / 2 ^ 16 ≡ a / 2 ^ 16 % 2 ^ 4
digit_at_16 a = omega (arith, bit_and_shifted 16 a (2 ^ 4 - 1), bit_and_ones 4 (a / 2 ^ 16))

low_half : (a : ℕ) → bit_and a 0x0000ffff ≡ a % 2 ^ 16
low_half a = bit_and_ones 16 a

-- A system descriptor of the kernel, of the type `type`, whose fields fit, at `at` with the limit
-- `lim` in bytes.
pub record Describes (d : SegDesc) (type at lim : ℕ) : Type 0 where
  pub base_lem : base d ≡ at
  pub limit_lem : limit d ≡ lim
  pub type_lem : d.type ≡ type
  pub is_present : d.present ≡ 1
  pub is_system : d.sys ≡ 0
  pub is_kernel : d.dpl ≡ 0
  pub in_bytes : d.granularity ≡ 0
  pub nibble : d.seg_lim_19_16 < 2 ^ 4
  pub byte_23_16 : d.base_23_16 < 2 ^ 8
  pub byte_31_24 : d.base_31_24 < 2 ^ 8

whole_base :
    (a : ℕ)
    → a < 2 ^ 32
    → bit_and a 0x0000ffff
        + 2 ^ 16 * (bit_and a 0x00ff0000 / 2 ^ 16)
        + 2 ^ 24 * (bit_and a 0xff000000 / 2 ^ 24)
      ≡ a
whole_base a h = rw (low_half a, byte_at_16 a, byte_at_24 a) (omega arith)

whole_limit :
    (a : ℕ) → a < 2 ^ 20 → bit_and a 0x0000ffff + 2 ^ 16 * (bit_and a 0x000f0000 / 2 ^ 16) ≡ a
whole_limit a h = rw (low_half a, digit_at_16 a) (omega arith)

ldt_desc_lem :
    (stray : SegDesc) (at lim : ℕ)
    → at < 2 ^ 32
    → lim < 2 ^ 20
    → Describes (the_ldt_desc stray at lim) 2 at lim
unfolding the_ldt_desc set_ldt_params
ldt_desc_lem stray at lim h k = record {
  base_lem = whole_base at h;
  limit_lem = whole_limit lim k;
  type_lem = refl;
  is_present = refl;
  is_system = refl;
  is_kernel = refl;
  in_bytes = refl;
  nibble = omega (arith, digit_at_16 lim);
  byte_23_16 = omega (arith, byte_at_16 at);
  byte_31_24 = omega (arith, byte_at_24 at);
}

tss_desc_lem :
    (stray : SegDesc) (at lim : ℕ)
    → at < 2 ^ 32
    → lim < 2 ^ 20
    → Describes (the_tss_desc stray at lim) 9 at lim
unfolding the_tss_desc set_tss_params
tss_desc_lem stray at lim h k = record {
  base_lem = whole_base at h;
  limit_lem = whole_limit lim k;
  type_lem = refl;
  is_present = refl;
  is_system = refl;
  is_kernel = refl;
  in_bytes = refl;
  nibble = omega (arith, digit_at_16 lim);
  byte_23_16 = omega (arith, byte_at_16 at);
  byte_31_24 = omega (arith, byte_at_24 at);
}

-- For tables at addresses below 2^32 whose limits fit in 20 bits, whatever the two local variables
-- held before: the processor reads from the descriptors an LDT and an available TSS, present, for the
-- kernel, at those addresses and with those limits, and the task state has the kernel's stack segment.
pub init_segments_lem :
    (p : Places) (s : Segments)
    → p.ldt_at < 2 ^ 32
    → p.ldt_size < 2 ^ 20
    → p.tss_at < 2 ^ 32
    → p.tss_size < 2 ^ 20
    → Describes (init_segments p s).ldt_desc_ptr 2 p.ldt_at p.ldt_size
      × Describes (init_segments p s).tss_desc_ptr 9 p.tss_at p.tss_size
      × (((init_segments p s).tss).ss0 ≡ 0x18)
unfolding init_segments
init_segments_lem p s a b c d = (
  ldt_desc_lem p.stray_ldt p.ldt_at p.ldt_size a b,
  tss_desc_lem p.stray_tss p.tss_at p.tss_size c d,
  refl,
)
