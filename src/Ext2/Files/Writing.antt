-- ===== src/Ext2/Files/Writing.antt =====
-- The loop of `ext2_write_file`.
use krnel.Base.{
  ℕ, zero, suc, ◌+◌, ◌-◌, ◌*◌, ◌/◌, ◌%◌, ◌^◌, ◌≤◌, ◌<◌, ◌≡◌, ◌≢◌, refl, ◌∙◌, ap, min, some, true,
  false, arith, length, get_or, set, take, drop, replicate, length-take, length-drop, length-set,
  get_or-set_self, get_or-set_ne, length-replicate, Bool-cases, subst, ltb, ltb→lt, ◌==◌, inl, inr,
}
use krnel.Base.Slices.{patch, length-patch, get_or-patch_in, get_or-take, get_or-drop}
use krnel.CString.{Buffer}
use krnel.Ext2.{Ext2, State, write_loop, copy_part}
use krnel.Ext2.Layout.{Inode, IsInode}
use krnel.Ext2.Layout.Codec.{resized-IsInode, AllLt-set}
use krnel.Ext2.Blocks.{
  IsReady, OnDisk, block_at, put_block, ext2_write_block_lem, put_block-IsReady,
  block_at-put_block_self, block_at-put_block_ne, put_block-sectors,
}
use krnel.Ext2.Inodes.{copy_part_fits}
use krnel.Ext2.Files.{Stored}

-- The disk is ready and the next `k` blocks to be handed out lie on it.
pub record HasRoom (k : ℕ) (fs : Ext2) (s : State) : Type 0 where
  pub ready : IsReady fs s.disk
  pub used : s.next_block ≢ 0
  pub on_disk : OnDisk fs s.disk (s.next_block + k)

-- What the loop has done from its place `b` and `w` in the file and the data on.
pub record Wrote (k low : ℕ) (fs : Ext2) (s : State) (inode : Inode) (size b w : ℕ)
    (source : Buffer) (s' : State) (inode' : Inode) : Type 0 where
  pub ready : IsReady fs s'.disk
  pub stored : Stored k low fs s'.disk inode'.block b w size source
  pub same_pointers : (j : ℕ) → j < b → get_or inode'.block j 0 ≡ get_or inode.block j 0
  pub same_length : length inode'.block ≡ length inode.block
  pub same_blocks : (m : ℕ) → m < s.next_block → block_at fs s'.disk m ≡ block_at fs s.disk m
  pub counted : s.next_block ≤ s'.next_block
  pub same_sectors : s'.disk.sectors ≡ s.disk.sectors
  pub same_inodes : s'.next_inode ≡ s.next_inode
  pub valid : IsInode inode → IsInode inode'

-- The block that is written for the `n` bytes from `w` on.
abbrev page_of : Buffer → ℕ → ℕ → Buffer
page_of source w n = patch 0 (take n (drop w source)) (replicate 1024 0)

module _ (source : Buffer) (w n : ℕ) (h : w + n ≤ length source) (k : n ≤ 1024) where
  length-bytes : length (take n (drop w source)) ≡ n
  length-bytes = omega (arith, length-take n (drop w source), length-drop w source)

  length-page_of : length (page_of source w n) ≡ 1024
  length-page_of =
      length-patch 0 (take n (drop w source)) (replicate 1024 0)
        (omega (arith, length-bytes, length-replicate {A = ℕ} 1024 0))
      ∙ length-replicate {A = ℕ} 1024 0

  copy_page : copy_part (replicate 1024 0) 0 source w n ≡ some (page_of source w n)
  copy_page =
      copy_part_fits (replicate 1024 0) 0 source w n
        (omega (arith, length-replicate {A = ℕ} 1024 0)) h

  page_holds : (i : ℕ) → i < n → get_or (page_of source w n) i 0 ≡ get_or source (w + i) 0
  page_holds i lt =
      ap (λ x. get_or (page_of source w n) x 0) (omega arith)
      ∙ get_or-patch_in 0 (take n (drop w source)) (replicate 1024 0)
          (omega (arith, length-bytes, length-replicate {A = ℕ} 1024 0)) i 0
          (omega (arith, length-bytes))
      ∙ get_or-take n (drop w source) i 0 lt
      ∙ get_or-drop w source i 0

-- The state and the inode after one block.
abbrev next_state : Ext2 → State → Buffer → State
next_state fs s page = record s {
  disk = put_block fs s.disk s.next_block page;
  next_block = (s.next_block + 1) % 2 ^ 32;
}

write_step :
    (k : ℕ) (fs : Ext2) (s : State) (inode : Inode) (size b w n : ℕ) (source page : Buffer)
    (end : State × Inode × ℕ × ℕ)
    → IsReady fs s.disk
    → OnDisk fs s.disk s.next_block
    → s.next_block ≢ 0
    → ltb w size ≡ true
    → min fs.block_size (size - w) ≡ n
    → copy_part (replicate 1024 0) 0 source w n ≡ some page
    → length page ≡ 1024
    → write_loop k fs
        (next_state fs s page)
        (record inode { block = set inode.block b s.next_block })
        size
        (b + 1)
        (w + n)
        source
      ≡ some end
    → write_loop (suc k) fs s inode size b w source ≡ some end
unfolding write_loop
write_step k fs s inode size b w n source page end r on used more whole copied len rest =
    let nonzero : (s.next_block == 0) ≡ false = ground arith in
    rw (more, nonzero, whole, copied, ext2_write_block_lem r s.next_block page on len) rest

module _ {fs : Ext2} {s : State} (k : ℕ) (room : HasRoom (suc k) fs s) (page : Buffer)
    (len : length page ≡ 1024) where
  bound : s.next_block + 1 < 2 ^ 28
  bound = let p = room.on_disk in let q = room.ready.addressable in omega arith

  next_number : (s.next_block + 1) % 2 ^ 32 ≡ s.next_block + 1
  next_number = omega (arith, bound)

  next_HasRoom : HasRoom k fs (next_state fs s page)
  next_HasRoom =
      let p = room.on_disk in
      record {
        ready = put_block-IsReady room.ready s.next_block page len;
        used = omega (arith, next_number);
        on_disk = omega (arith, next_number, put_block-sectors fs s.disk s.next_block page);
      }

  -- One round in front of the others.
  Wrote-step :
      (low : ℕ) (inode : Inode) (size b w n : ℕ) (source : Buffer) (s' : State) (inode' : Inode)
      → low ≤ s.next_block
      → b < length inode.block
      → n ≡ min 1024 (size - w)
      → ((i : ℕ) → i < n → get_or page i 0 ≡ get_or source (w + i) 0)
      → Wrote k low fs
          (next_state fs s page)
          (record inode { block = set inode.block b s.next_block })
          size
          (b + 1)
          (w + n)
          source
          s'
          inode'
      → Wrote (suc k) low fs s inode size b w source s' inode'
  Wrote-step low inode size b w n source s' inode' least lt e holds v =
      let nb = s.next_block in
      let pointer : get_or inode'.block b 0 ≡ nb =
        v.same_pointers b (omega arith) ∙ get_or-set_self inode.block b nb 0 lt in
      let kept : block_at fs s'.disk nb ≡ page =
        v.same_blocks nb (omega (arith, next_number))
        ∙ block_at-put_block_self fs s.disk nb page len in
      let on : OnDisk fs s'.disk nb =
        let p = room.on_disk in
        omega (arith, v.same_sectors, put_block-sectors fs s.disk nb page) in
      record {
        ready = v.ready;
        stored = λ more. (
          rw pointer room.used,
          rw pointer least,
          rw pointer on,
          λ i h. rw pointer (ap (λ x. get_or x i 0) kept ∙ holds i (omega (arith, e))),
          subst (λ x. Stored k low fs s'.disk inode'.block (b + 1) (w + x) size source) e v.stored,
        );
        same_pointers = λ j h.
            v.same_pointers j (omega arith) ∙ get_or-set_ne inode.block b j nb 0 (omega arith);
        same_length = v.same_length ∙ length-set inode.block b nb;
        same_blocks = λ m h.
            v.same_blocks m (omega (arith, next_number))
            ∙ block_at-put_block_ne fs s.disk nb m page (omega arith);
        counted = let p = v.counted in omega (arith, next_number);
        same_sectors = v.same_sectors ∙ put_block-sectors fs s.disk nb page;
        same_inodes = v.same_inodes;
        valid = λ h. v.valid (
            resized-IsInode inode inode.size inode.blocks (set inode.block b nb) h h.size_lt
              h.blocks_lt
              (AllLt-set (2 ^ 32) inode.block b nb h.block_lt (let q = bound in omega arith))
              (length-set inode.block b nb ∙ h.words));
      }

-- No round at all.
Wrote-refl :
    (k low : ℕ) (fs : Ext2) (s : State) (inode : Inode) (size b w : ℕ) (source : Buffer)
    → IsReady fs s.disk
    → Stored k low fs s.disk inode.block b w size source
    → Wrote k low fs s inode size b w source s inode
Wrote-refl k low fs s inode size b w source r st = record {
  ready = r;
  stored = st;
  same_pointers = λ j h. refl;
  same_length = refl;
  same_blocks = λ m h. refl;
  counted = omega arith;
  same_sectors = refl;
  same_inodes = refl;
  valid = λ h. h;
}

-- The loop ends within its rounds, and the data are stored as far as they fit.
pub write_loop-Wrote :
    (k low : ℕ) (fs : Ext2) (s : State) (inode : Inode) (size b w : ℕ) (source : Buffer)
    → HasRoom k fs s
    → low ≤ s.next_block
    → b + k ≤ length inode.block
    → w ≤ size
    → size ≤ length source
    → (s' : State) × (inode' : Inode) × (write_loop k fs s inode size b w source
        ≡ some
            (s', inode', b + (min size (w + k * 1024) - w + 1023) / 1024, min size (w + k * 1024)))
      × Wrote k low fs s inode size b w source s' inode'
unfolding write_loop
write_loop-Wrote zero low fs s inode size b w source room least h le fits =
    let p : b ≡ b + (min size (w + 0 * 1024) - w + 1023) / 1024 = omega arith in
    let q : w ≡ min size (w + 0 * 1024) = omega arith in
    (
      s,
      inode,
      λ i. some (s, inode, p i, q i),
      Wrote-refl zero low fs s inode size b w source room.ready tt,
    )
write_loop-Wrote (suc k) low fs s inode size b w source room least h le fits =
    elim (Bool-cases (ltb w size)) [
      | inl more ↦
          let n = min 1024 (size - w) in
          let page = page_of source w n in
          let lt : w < size = ltb→lt w size more in
          let len : length page ≡ 1024 = length-page_of source w n (omega arith) (omega arith) in
          let inode₁ : Inode = record inode { block = set inode.block b s.next_block } in
          let (s', inode', e, v) =
            write_loop-Wrote k low fs (next_state fs s page) inode₁ size (b + 1) (w + n) source
              (next_HasRoom k room page len) (omega (arith, next_number k room page len))
              (omega (arith, length-set inode.block b s.next_block)) (omega arith) fits in
          let p : b + 1 + (min size (w + n + k * 1024) - (w + n) + 1023) / 1024
              ≡ b + (min size (w + suc k * 1024) - w + 1023) / 1024 =
            omega arith in
          let q : min size (w + n + k * 1024) ≡ min size (w + suc k * 1024) = omega arith in
          (
            s',
            inode',
            write_step k fs s inode size b w n source page
                (
                  s',
                  inode',
                  b + (min size (w + suc k * 1024) - w + 1023) / 1024,
                  min size (w + suc k * 1024),
                )
                room.ready (let t = room.on_disk in omega arith) room.used more
                (ap (λ x. min x (size - w)) room.ready.is_small_block)
                (copy_page source w n (omega arith) (omega arith)) len
                (e ∙ λ i. some (s', inode', p i, q i)),
            Wrote-step k room page len low inode size b w n source s' inode' least (omega arith)
                refl (page_holds source w n (omega arith) (omega arith)) v,
          )
      | inr done ↦
          let eq : w ≡ size = ground arith in
          let p : b ≡ b + (min size (w + suc k * 1024) - w + 1023) / 1024 = omega arith in
          let q : w ≡ min size (w + suc k * 1024) = omega arith in
          (
            s,
            inode,
            rw done (λ i. some (s, inode, p i, q i)),
            Wrote-refl (suc k) low fs s inode size b w source room.ready
                (λ more. absurd (omega arith)),
          )
    ]
