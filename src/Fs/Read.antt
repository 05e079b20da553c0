-- ===== src/Fs/Read.antt =====
-- read_data of drivers/fs.c against the contents of a file.
use linux.Base.{
  ℕ, zero, suc, ◌+◌, ◌-◌, ◌*◌, ◌/◌, ◌%◌, ◌^◌, ◌≤◌, ◌<◌, ◌≡◌, ◌≢◌, inl, inr, refl, ◌∙◌, ap, arith,
  min, Bool-cases, ltb, ltb-false, ◌==◌, ==_false, if◌then◌else◌,
}
use linux.Memory.{Mem, Outside, SameOutside, ◌⊕◌, write, load32}
use linux.Fs.{Fs, four_kb, inode_addr, data_block_addr, block_at, read_from, read_data}

-- An inode holds the length and 1023 block numbers.
abbrev pub max_file : ℕ
max_file = 1023 * four_kb

load32-same :
    (m1 m : Mem) (x : ℕ)
    → m1 x ≡ m x
    → m1 (x ⊕ 1) ≡ m (x ⊕ 1)
    → m1 (x ⊕ 2) ≡ m (x ⊕ 2)
    → m1 (x ⊕ 3) ≡ m (x ⊕ 3)
    → load32 m1 x ≡ load32 m x
unfolding load32
load32-same m1 m x e0 e1 e2 e3 = rw (e0, e1, e2, e3)

module _ (m : Mem) (base ia len : ℕ) where
  abbrev pub byte_addr : ℕ → ℕ
  byte_addr q = block_at m base ia q ⊕ (q % four_kb)

  -- The buffer overlaps neither the inode nor the bytes of the file.
  pub record Clear (buf n : ℕ) : Type 0 where
    pub fits : buf + n < 2 ^ 32
    pub small : len ≤ max_file
    pub table_fits : ia + four_kb ≤ 2 ^ 32
    pub table : (a : ℕ) → ia ≤ a → a < ia + four_kb → Outside buf n a
    pub bytes : (q : ℕ) → q < len → Outside buf n (byte_addr q)

  -- What the loop has done when it stops: `r` rounds from offset `o` into the bytes from `d` on.
  pub record Loaded (m1 : Mem) (d o r count : ℕ) (out : Mem × ℕ) : Type 0 where
    pub counted : out.1 ≡ count + min r (len - o)
    pub loaded : (k : ℕ) → k < min r (len - o) → out.0 (d + k) ≡ m (byte_addr (o + k))
    pub kept : SameOutside m1 out.0 d r

  -- A block number that the loop reads again is the one of the original memory.
  same-block :
      (m1 : Mem) (buf n q : ℕ)
      → Clear buf n
      → SameOutside m m1 buf n
      → q < len
      → block_at m1 base ia q ≡ block_at m base ia q
  same-block m1 buf n q c s h =
      ap (λ x. (base + x * four_kb) % 2 ^ 32)
        (load32-same m1 m (ia ⊕ (4 + 4 * (q / four_kb)))
          (s _ (c.table _ (omega arith) (omega arith)))
          (s _ (c.table _ (omega arith) (omega arith)))
          (s _ (c.table _ (omega arith) (omega arith)))
          (s _ (c.table _ (omega arith) (omega arith))))

  -- Within a block the block does not change.
  block-suc : (q : ℕ) → (q + 1) % four_kb ≢ 0 → block_at m base ia (q + 1) ≡ block_at m base ia q
  block-suc q h = ap (λ k. (base + load32 m (ia ⊕ (4 + 4 * k)) * four_kb) % 2 ^ 32) (omega arith)

  Loaded-step :
      (m1 : Mem) (d w d' v o o' r count : ℕ) (out : Mem × ℕ)
      → w ≡ d
      → d' ≡ d + 1
      → o' ≡ o + 1
      → o < len
      → v ≡ m (byte_addr o)
      → Loaded (write m1 w v) d' o' r (count + 1) out
      → Loaded m1 d o (suc r) count out
  Loaded-step m1 d w d' v o o' r count out hw hd ho h hv l = record {
    counted = omega (arith, l.counted);
    loaded = loaded;
    kept = λ a k. grind (arith, l.kept a);
  }
    where
      loaded : (k : ℕ) → k < min (suc r) (len - o) → out.0 (d + k) ≡ m (byte_addr (o + k))
      loaded zero k =
          let at : d + 0 ≡ w = omega arith in
          let off : o + 0 ≡ o = omega arith in
          rw (at, off) (l.kept w (grind arith) ∙ ground (arith, hv))
      loaded (suc j) k =
          let at : d + suc j ≡ d' + j = omega arith in
          let off : o + suc j ≡ o' + j = omega arith in rw (at, off) (l.loaded j (omega arith))

  read_from-Loaded :
      (r : ℕ) (m1 : Mem) (buf n i o block count : ℕ)
      → Clear buf n
      → i + r ≡ n
      → o ≤ len
      → SameOutside m m1 buf n
      → (o < len → block ≡ block_at m base ia o)
      → Loaded m1 (buf + i) o r count (read_from base ia len buf r m1 i o block count)
  unfolding read_from
  read_from-Loaded zero m1 buf n i o block count c e lo s b = record {
    counted = omega arith;
    loaded = λ k h. absurd (omega arith);
    kept = λ a h. refl;
  }
  read_from-Loaded (suc r) m1 buf n i o block count c e lo s b =
      elim (Bool-cases (ltb len (o ⊕ 1))) [
        | inl last ↦ rw last (record {
          counted = grind arith;
          loaded = λ k h. absurd (grind arith);
          kept = λ a h. grind arith;
        })
        | inr more ↦ rw more (
            Loaded-step m1 (buf + i) (buf ⊕ i) (buf + (i + 1)) (m1 (block ⊕ (o % four_kb))) o
              (o ⊕ 1) r count _ (omega arith) (omega arith) (grind arith) (grind arith)
              (byte (grind arith))
              (read_from-Loaded r m2 buf n (i + 1) (o ⊕ 1) _ (count + 1) c (omega arith)
                (grind arith) same next))
      ]
    where
      m2 : Mem
      m2 = write m1 (buf ⊕ i) (m1 (block ⊕ (o % four_kb)))

      byte : o < len → m1 (block ⊕ (o % four_kb)) ≡ m (byte_addr o)
      byte h = rw (b h) (s (byte_addr o) (c.bytes o h))

      same : SameOutside m m2 buf n
      same a h = grind (arith, s a h)

      next :
          o ⊕ 1 < len
          → (if (o ⊕ 1) % four_kb == 0 then block_at m2 base ia (o ⊕ 1) else block)
            ≡ block_at m base ia (o ⊕ 1)
      next h = elim (Bool-cases ((o ⊕ 1) % four_kb == 0)) [
        | inl edge ↦ rw edge (same-block m2 buf n (o ⊕ 1) c same h)
        | inr inside ↦
            let e1 : o ⊕ 1 ≡ o + 1 = omega arith in
            rw (inside, e1, block-suc o (grind arith)) (b (omega arith))
      ]

-- For an offset within a file of at most 1023 blocks, and a buffer that is not null, ends below
-- 2^32 and overlaps neither the inode nor the bytes of the file: `read_data` returns `length`, or
-- the number of bytes left of the file if that is less; the buffer then starts with those bytes of
-- the file, and nothing outside it changes.
pub read_data-Loaded :
    (fs : Fs) (m : Mem) (inode offset buf length : ℕ)
    → let ia = inode_addr fs inode in
      Clear m (data_block_addr fs m) ia (load32 m ia) buf length
      → buf ≢ 0
      → offset ≤ load32 m (inode_addr fs inode)
      → let ia = inode_addr fs inode in
        Loaded m
          (data_block_addr fs m)
          ia
          (load32 m ia)
          m
          buf
          offset
          length
          0
          (read_data fs m inode offset buf length)
unfolding read_data
read_data-Loaded fs m inode offset buf length c nonnull h =
    rw (==_false _ _ nonnull, ltb-false _ _ h, read_data)
      (let start : buf + 0 ≡ buf = omega arith in
        rw start at (
          read_from-Loaded m (data_block_addr fs m) (inode_addr fs inode) _ length m buf length 0
            offset _ 0 c (omega arith) h (λ a k. refl) (λ k. refl)))
