-- ===== src/Ext2/Slots/Adding/Loop.antt =====
-- The loop of `ext2_add_dirent` on the slots of a directory.
use krnel.Base.{
  ℕ, zero, suc, ◌+◌, ◌%◌, ◌^◌, ◌<◌, ◌≡◌, ◌≢◌, refl, sym, ◌∙◌, true, false, some, List, [], ◌∷◌,
  arith, length, get_or, set, subst, inl, inr, length-set, get_or-set_self, get_or-set_ne, ltb,
  ltb→lt, Bool-cases,
}
use krnel.Base.Int.{pos, negsuc}
use krnel.CString.{Buffer, text, terminated}
use krnel.Ext2.{Ext2, State}
use krnel.Ext2.Layout.{Inode, IsInode}
use krnel.Ext2.Layout.Codec.{resized-IsInode, AllLt-set}
use krnel.Ext2.Directory.{rec_len, add_loop}
use krnel.Ext2.Blocks.{
  IsReady, OnDisk, block_at, put_block-IsReady, put_block-sectors, block_at-put_block_ne,
  length-block_at,
}
use krnel.Ext2.Inodes.{Placed, Placed-put_block}
use krnel.Ext2.Slots.{Slot, blank, dead, entry, Holds, Slots, add_entry}
use krnel.Ext2.Slots.Adding.{IsDirectory, has_room}
use krnel.Ext2.Slots.Adding.Steps.{
  zeros, length-zeros, rec_len-zeros, grown_state, grown_inode, open_used, open_new, enter_lem,
  add_next, add_here, entered,
}
use krnel.Ext2.Slots.Adding.Entered.{Added, entered-Added}

grown_inode-IsInode :
    (fs : Ext2) (s : State) (dir : Inode) (i : ℕ)
    → IsInode dir
    → s.next_block < 2 ^ 32
    → IsInode (grown_inode fs s dir i)
grown_inode-IsInode fs s dir i v lt =
    resized-IsInode dir ((dir.size + fs.block_size) % 2 ^ 32) dir.blocks
      (set dir.block i s.next_block) v (omega arith) v.blocks_lt
      (AllLt-set (2 ^ 32) dir.block i s.next_block v.block_lt lt)
      (length-set dir.block i s.next_block ∙ v.words)

-- A slot in front that the rest leaves alone.
Added-skip :
    (frame : Buffer) (fs : Ext2) (n k j : ℕ) (s : State) (dir : Inode) (x : Slot) (xs : List Slot)
    (s' : State) (dir' : Inode)
    → get_or dir.block j 0 ≢ 0
    → OnDisk fs s.disk (get_or dir.block j 0)
    → Holds x (block_at fs s.disk (get_or dir.block j 0))
    → Added frame fs n k (j + 1) s dir xs s' dir'
    → Added frame fs n (suc k) j s dir (x ∷ xs) s' dir'
Added-skip frame fs n k j s dir x xs s' dir' used on holds a =
    let q : get_or dir'.block j 0 ≡ get_or dir.block j 0 = a.pointers j (omega arith) in
    record {
      ready = a.ready;
      reads = a.reads;
      slots = (
        rw q used,
        rw q (omega (arith, a.same_sectors)),
        rw q (subst (Holds x) (sym (a.blocks j (omega arith) used)) holds),
        a.slots,
      );
      pointers = λ i lt. a.pointers i (omega arith);
      blocks = λ i lt nz. a.blocks i (omega arith) nz;
      same_sectors = a.same_sectors;
    }

module _ (frame : Buffer) (whole : length frame ≡ 1024) (fs : Ext2) (n : ℕ) (name : Buffer)
    (child file_type : ℕ) (ended : terminated name ≡ true) (short : length (text name) < 256)
    (some_inode : child ≢ 0) (inode_lt : child < 2 ^ 32) (s : State) (dir : Inode) (blk off : ℕ)
    (h : IsDirectory fs s n blk off dir) where
  differ :
      (i j : ℕ)
      → i ≢ j
      → i < 12
      → j < 12
      → get_or dir.block i 0 ≢ 0
      → get_or dir.block j 0 ≢ 0
      → get_or dir.block i 0 ≢ get_or dir.block j 0
  differ i j ne hi hj u v = elim (Bool-cases (ltb i j)) [
    | inl lt ↦ h.distinct i j (ltb→lt i j lt) hj u
    | inr ge ↦ λ q. h.distinct j i (ground arith) hi v (sym q)
  ]

  -- A blank slot is filled.
  fill_slot :
      (k j : ℕ) (xs : List Slot) (buf : Buffer)
      → j + suc k ≡ 12
      → Slots (suc k) fs s.disk dir.block j (blank ∷ xs)
      → length buf ≡ 1024
      → (s' : State) × (dir' : Inode) × (add_loop frame fs
            (suc k)
            s
            n
            dir
            j
            buf
            name
            child
            file_type
          ≡ some (s', pos 0))
        × Added frame fs n (suc k) j s dir (entry (text name) child ∷ xs) s' dir'
  fill_slot k j xs buf e (used, on, holds, rest) l =
      let p = get_or dir.block j 0 in
      let b = block_at fs s.disk p in
      let lb : length b ≡ 1024 = length-block_at h.ready p in
      (
        record s {
          disk = entered frame whole fs n name child file_type ended short s.disk p b blk off dir;
        },
        dir,
        add_here frame whole fs n name child file_type ended short k s s dir dir j buf b
            (
              record s {
                disk =
                    entered frame whole fs n name child file_type ended short s.disk p b blk off
                      dir;
              },
              pos 0,
            )
            (open_used frame fs s dir j buf h.ready l used on) h.ready.is_small_block lb holds.1
            (enter_lem frame whole fs n name child file_type ended short s dir j b blk off h.ready
              h.placed h.valid.words on lb),
        entered-Added frame whole fs n name child file_type ended short some_inode inode_lt k j s s
            dir dir b blk off xs h.ready h.placed h.valid lb (h.apart j (omega arith) used) used on
            refl (λ i ne. refl)
            (λ i ne lt nz.
              (differ i j ne (omega arith) (omega arith) nz used, h.apart i (omega arith) nz, refl))
            rest,
      )

  grow-Slots :
      (k j : ℕ) (buf : Buffer)
      → j + suc k ≡ 12
      → Slots (suc k) fs s.disk dir.block j []
      → length buf ≡ 1024
      → (s' : State) × (dir' : Inode) × (add_loop frame fs
            (suc k)
            s
            n
            dir
            j
            buf
            name
            child
            file_type
          ≡ some (s', pos 0))
        × Added frame fs n (suc k) j s dir (entry (text name) child ∷ []) s' dir'
  grow-Slots k j buf e (z, rest) l =
      let nb = s.next_block in
      let s₁ = grown_state fs s in
      let dir₁ = grown_inode fs s dir j in
      let words = h.valid.words in
      let big = h.ready.addressable in
      let free = h.free in
      let p : get_or dir₁.block j 0 ≡ nb = get_or-set_self dir.block j nb 0 (omega arith) in
      let used : nb ≢ 0 = let b = h.before in omega arith in
      let other : nb ≢ blk = let b = h.before in omega arith in
      let r₁ : IsReady fs s₁.disk = put_block-IsReady h.ready nb zeros length-zeros in
      let placed₁ : Placed fs s₁.disk n blk off = Placed-put_block nb zeros h.placed in
      let valid₁ : IsInode dir₁ = grown_inode-IsInode fs s dir j h.valid (omega arith) in
      let sectors : s₁.disk.sectors ≡ s.disk.sectors = put_block-sectors fs s.disk nb zeros in
      let on₁ : OnDisk fs s₁.disk (get_or dir₁.block j 0) = rw p (omega (arith, sectors)) in
      let used₁ : get_or dir₁.block j 0 ≢ 0 = rw p used in
      let other₁ : get_or dir₁.block j 0 ≢ blk = rw p other in
      let old : (i : ℕ) → i < 12 → get_or dir.block i 0 ≢ nb =
        λ i lt. let q : get_or dir.block i 0 < nb = h.handed_out i lt in omega arith in
      let kept : (i : ℕ)
          → i ≢ j
          → i < suc j + k
          → get_or dir.block i 0 ≢ 0
          → (get_or dir.block i 0 ≢ get_or dir₁.block j 0)
            × (get_or dir.block i 0 ≢ blk)
            × (block_at fs s₁.disk (get_or dir.block i 0)
                ≡ block_at fs s.disk (get_or dir.block i 0)) =
        λ i ne lt nz. (
          rw p (old i (omega arith)),
          h.apart i (omega arith) nz,
          block_at-put_block_ne fs s.disk nb (get_or dir.block i 0) zeros
              (λ q. old i (omega arith) (sym q)),
        ) in
      let end : State = record s₁ {
        disk =
            entered frame whole fs n name child file_type ended short s₁.disk
              (get_or dir₁.block j 0) zeros blk off dir₁;
      } in
      (
        end,
        dir₁,
        add_here frame whole fs n name child file_type ended short k s s₁ dir dir₁ j buf zeros
            (end, pos 0) (open_new frame fs s dir j buf h.ready l z used free)
            h.ready.is_small_block length-zeros rec_len-zeros
            (enter_lem frame whole fs n name child file_type ended short s₁ dir₁ j zeros blk off r₁
              placed₁ valid₁.words on₁ length-zeros),
        entered-Added frame whole fs n name child file_type ended short some_inode inode_lt k j s s₁
            dir dir₁ zeros blk off [] r₁ placed₁ valid₁ length-zeros other₁ used₁ on₁ sectors
            (λ i ne. get_or-set_ne dir.block j i nb 0 (λ q. ne (sym q))) kept rest,
      )

  skip_slot :
      (k j : ℕ) (x : Slot) (xs : List Slot) (buf : Buffer)
      → (j + 1) + k ≡ 12
      → Slots (suc k) fs s.disk dir.block j (x ∷ xs)
      → rec_len (block_at fs s.disk (get_or dir.block j 0)) 0 ≡ 1024
      → length buf ≡ 1024
      → ((buf' : Buffer)
          → length buf' ≡ 1024
          → (s' : State) × (dir' : Inode) × (add_loop frame fs k s n dir
                (j + 1)
                buf'
                name
                child
                file_type
              ≡ some (s', pos 0))
            × Added frame fs n k (j + 1) s dir (add_entry xs (text name) child) s' dir')
      → (s' : State) × (dir' : Inode) × (add_loop frame fs
            (suc k)
            s
            n
            dir
            j
            buf
            name
            child
            file_type
          ≡ some (s', pos 0))
        × Added frame fs n (suc k) j s dir (x ∷ add_entry xs (text name) child) s' dir'
  skip_slot k j x xs buf e (used, on, holds, rest) full l next =
      let p = get_or dir.block j 0 in
      let (s', dir', done, a) = next (block_at fs s.disk p) (length-block_at h.ready p) in
      (
        s',
        dir',
        add_next frame whole fs n name child file_type ended short k s dir j buf h.ready l used on
              full
            ∙ done,
        Added-skip frame fs n k j s dir x (add_entry xs (text name) child) s' dir' used on holds a,
      )

  pub add_loop-Added :
      (k j : ℕ) (xs : List Slot) (buf : Buffer)
      → j + k ≡ 12
      → Slots k fs s.disk dir.block j xs
      → length buf ≡ 1024
      → has_room k xs ≡ true
      → (s' : State) × (dir' : Inode) × (add_loop frame fs k s n dir j buf name child file_type
          ≡ some (s', pos 0))
        × Added frame fs n k j s dir (add_entry xs (text name) child) s' dir'
  unfolding add_entry
  add_loop-Added zero j xs buf e sl l room = absurd (ground arith)
  add_loop-Added (suc k) j [] buf e sl l room = grow-Slots k j buf e sl l
  add_loop-Added (suc k) j (blank ∷ xs) buf e sl l room = fill_slot k j xs buf e sl l
  add_loop-Added (suc k) j (dead ∷ xs) buf e sl l room =
      skip_slot k j dead xs buf (omega arith) sl sl.2.1 l
        (λ buf' l'. add_loop-Added k (j + 1) xs buf' (omega arith) sl.3 l' room)
  add_loop-Added (suc k) j (entry other m ∷ xs) buf e sl l room =
      skip_slot k j (entry other m) xs buf (omega arith) sl sl.2.2 l
        (λ buf' l'. add_loop-Added k (j + 1) xs buf' (omega arith) sl.3 l' room)

module _ (frame : Buffer) (whole : length frame ≡ 1024) (fs : Ext2) (n : ℕ) (name : Buffer)
    (child file_type : ℕ) (ended : terminated name ≡ true) (short : length (text name) < 256)
    (s : State) (dir : Inode) (ready : IsReady fs s.disk) where
  pub add_loop-full :
      (k j : ℕ) (xs : List Slot) (buf : Buffer)
      → Slots k fs s.disk dir.block j xs
      → length buf ≡ 1024
      → has_room k xs ≡ false
      → add_loop frame fs k s n dir j buf name child file_type ≡ some (s, negsuc 0)
  unfolding add_loop
  add_loop-full zero j xs buf sl l room = refl
  add_loop-full (suc k) j [] buf sl l room = cc
  add_loop-full (suc k) j (blank ∷ xs) buf sl l room = cc
  add_loop-full (suc k) j (dead ∷ xs) buf (used, on, holds, rest) l room =
      let p = get_or dir.block j 0 in
      add_next frame whole fs n name child file_type ended short k s dir j buf ready l used on
        holds.1
      ∙ add_loop-full k (j + 1) xs (block_at fs s.disk p) rest (length-block_at ready p) room
  add_loop-full (suc k) j (entry other m ∷ xs) buf (used, on, holds, rest) l room =
      let p = get_or dir.block j 0 in
      add_next frame whole fs n name child file_type ended short k s dir j buf ready l used on
        holds.2
      ∙ add_loop-full k (j + 1) xs (block_at fs s.disk p) rest (length-block_at ready p) room
