-- ===== src/Ext2/Tests.antt =====
-- Runs of kernel/ext2.c on a small disk of zeros, and instances of what is proved of it.
use krnel.Base.{
  ℕ, zero, suc, ◌+◌, ◌≡◌, ◌<◌, ◌≤◌, refl, Option, none, some, [], ◌∷◌, ◌++◌, arith, length, get_or,
  replicate, length-replicate, get_or-replicate, take, drop, min, if◌then◌else◌, ◌==◌,
}
use krnel.Base.Int.{ℤ, pos, negsuc}
use krnel.CString.{Buffer, ◌>>=◌, text, terminated}
use krnel.Ata.Disk.{Disk, range, put_range, accepts, read_sectors, write_sectors}
use krnel.Ext2.{
  Ext2, State, inode_place, ext2_read_inode, ext2_write_inode, ext2_read_file, ext2_write_file,
  ext2_read_block, ext2_write_block,
}
use krnel.Ext2.Layout.{Inode, IsInode, Descriptor, load, decode_inode, encode_inode}
use krnel.Ext2.Layout.Superblock.{decode_superblock}
use krnel.Ext2.Directory.{zero_inode, ext2_add_dirent, ext2_mkdir, ext2_create_file, new_directory}
use krnel.Ext2.Lookup.{
  scan_block, scan_unlink, free_victim, unlink_entry, unlink_loop, ext2_find_inode, ext2_unlink,
}
use krnel.Ext2.Mount.{format_super, ext2_mount}
use krnel.Ext2.Mount.Faults.{ext2_mount-blank}
use krnel.Ext2.Blocks.{IsReady, block_at, put_block}
use krnel.Ext2.Inodes.{put_inode, put_inode-IsReady}
use krnel.Ext2.Table.{IsTable, IsTable-Placed, ext2_read_inode-ext2_write_inode}
use krnel.Ext2.Files.Writing.{HasRoom}
use krnel.Ext2.Files.RoundTrip.{ext2_read_file-ext2_write_file}
use krnel.Ext2.Slots.{dead, entry, Holds, Slots, same_list, lookup_name}
use krnel.Ext2.Slots.Finding.{ext2_find_inode-Slots, found_number}
use krnel.Ext2.Slots.Adding.{IsDirectory}
use krnel.Ext2.Slots.Adding.Results.{ext2_find_inode-ext2_add_dirent, ext2_add_dirent-full}

abbrev frame : Buffer
frame = replicate 1024 0

frame_whole : length frame ≡ 1024
frame_whole = length-replicate {A = ℕ} 1024 0

abbrev disk : Disk
disk = record { present = 1; sectors = 200; sector = λ s. replicate 512 0 }

abbrev group : Descriptor
group = record {
  block_bitmap = 3;
  inode_bitmap = 4;
  inode_table = 5;
  free_blocks_count = 0;
  free_inodes_count = 0;
  used_dirs_count = 0;
  pad = 0;
}

abbrev fs : Ext2
fs = record {
  partition_start = 0;
  sb = record (format_super 131072) { inodes_per_group = 32 };
  bgdt = group ∷ [];
  block_size = 1024;
  sectors_per_block = 2;
  inode_size = 128;
  num_groups = 1;
}

abbrev state : State
state = record { disk = disk; next_block = 10; next_inode = 11 }

disk-IsReady : IsReady fs disk
disk-IsReady = record {
  is_present = omega arith;
  addressable = omega arith;
  full = λ s. length-replicate {A = ℕ} 512 0;
  is_small_block = refl;
  two_sectors = refl;
}

group-IsTable : IsTable fs disk 0 group
group-IsTable = record {
  described = refl;
  small_inodes = refl;
  some_inodes = omega arith;
  few_inodes = omega arith;
  on_disk = omega arith;
}

new_directory-IsInode : IsInode (new_directory 9)
new_directory-IsInode = omega arith

ext2_read_inode-ext2_write_inode_example :
    (d' : Disk) × (ext2_write_inode frame fs disk 12 (new_directory 9) ≡ some (d', pos 1024))
    × IsReady fs d'
    × (ext2_read_inode frame fs d' 13
        ≡ (if 13 == 12 then some (some (new_directory 9)) else ext2_read_inode frame fs disk 13))
ext2_read_inode-ext2_write_inode_example =
    ext2_read_inode-ext2_write_inode frame frame_whole disk-IsReady group-IsTable (new_directory 9)
      new_directory-IsInode 12 13 (omega arith) (omega arith) refl refl

room : HasRoom 12 fs state
room = record { ready = disk-IsReady; used = omega arith; on_disk = omega arith }

abbrev hello : Buffer
hello = b'h' ∷ b'e' ∷ b'l' ∷ b'l' ∷ b'o' ∷ []

ext2_read_file-ext2_write_file_example :
    (s' : State) × (inode' : Inode) × (ext2_write_file fs state zero_inode 0 5 hello
      ≡ some (s', inode', pos (min 5 12288)))
    × (inode'.size ≡ min 5 12288)
    × (ext2_read_file frame fs s'.disk inode' 0 5 (replicate 6 7)
        ≡ some (min 5 12288, take (min 5 12288) hello ++ drop (min 5 12288) (replicate 6 7)))
ext2_read_file-ext2_write_file_example =
    ext2_read_file-ext2_write_file fs state zero_inode 5 hello room refl (omega arith) frame
      (replicate 6 7) frame_whole (omega arith)

root_reads : ext2_read_inode frame fs disk 2 ≡ some (some zero_inode)
unfolding ext2_read_inode inode_place ext2_read_block read_sectors decode_inode load
root_reads = refl

root_IsDirectory : IsDirectory fs state 2 5 128 zero_inode
root_IsDirectory = record {
  ready = disk-IsReady;
  placed = IsTable-Placed 2 disk-IsReady group-IsTable (omega arith) refl;
  valid = omega arith;
  handed_out = λ i lt. rw (get_or-replicate {A = ℕ} 15 i 0) (omega arith);
  apart = λ i lt nz. absurd (nz (get_or-replicate {A = ℕ} 15 i 0));
  distinct = λ i j lt lt' nz. absurd (nz (get_or-replicate {A = ℕ} 15 i 0));
  before = omega arith;
  free = omega arith;
}

abbrev a_name : Buffer
a_name = b'a' ∷ 0 ∷ []

ext2_find_inode-ext2_add_dirent_example :
    (s' : State) × (ext2_add_dirent frame fs state 2 a_name 11 1 ≡ some (s', pos 0))
    × (ext2_find_inode frame fs s'.disk 2 a_name none ≡ (
        if same_list (text a_name) (text a_name)
        then some (pos 11, none)
        else ext2_find_inode frame fs disk 2 a_name none))
unfolding lookup_name
ext2_find_inode-ext2_add_dirent_example =
    ext2_find_inode-ext2_add_dirent frame frame_whole fs 2 a_name 11 1 refl (omega arith) state
      zero_inode 5 128 root_IsDirectory [] root_reads (omega arith) (omega arith) (omega arith) refl
      refl a_name refl (omega arith)

ext2_mount-blank_example : ext2_mount frame disk 0 (some []) (λ n. some (replicate n 0)) ≡ none
unfolding decode_superblock load range
ext2_mount-blank_example =
    ext2_mount-blank frame disk [] (replicate 160 0) (λ n. some (replicate n 0)) (omega arith)
      (omega arith) (omega arith) (λ s. length-replicate {A = ℕ} 512 0) frame_whole (omega arith)
      refl refl

-- A directory of which every block has been used.
abbrev full_inode : Inode
full_inode = record zero_inode { block = replicate 15 10 }

abbrev used_disk : Disk
used_disk = record disk { sector = λ s. 0 ∷ 0 ∷ 0 ∷ 0 ∷ 0 ∷ 4 ∷ replicate 506 0 }

abbrev full_disk : Disk
full_disk = put_inode fs used_disk 5 128 full_inode

used_disk-IsReady : IsReady fs used_disk
used_disk-IsReady = record {
  is_present = omega arith;
  addressable = omega arith;
  full = λ s. omega (arith, length-replicate {A = ℕ} 506 0);
  is_small_block = refl;
  two_sectors = refl;
}

full_disk-IsReady : IsReady fs full_disk
full_disk-IsReady = put_inode-IsReady used_disk-IsReady full_inode refl 5 128 (omega arith)

full_reads : ext2_read_inode frame fs full_disk 2 ≡ some (some full_inode)
unfolding ext2_read_inode inode_place ext2_read_block read_sectors decode_inode load encode_inode
    block_at put_block put_range
full_reads = refl

get_or-replicate_lt : (n i : ℕ) → i < n → get_or (replicate {A = ℕ} n 10) i 0 ≡ 10
get_or-replicate_lt zero i h = absurd (omega arith)
get_or-replicate_lt (suc n) zero h = refl
get_or-replicate_lt (suc n) (suc i) h = get_or-replicate_lt n i (omega arith)

full_disk-Holds : Holds dead (block_at fs full_disk 10)
unfolding block_at put_block load encode_inode range put_range
full_disk-Holds = (refl, refl)

all_dead : (k j : ℕ) → j + k ≤ 15 → Slots k fs full_disk (replicate 15 10) j (replicate k dead)
unfolding put_block
all_dead zero j h = tt
all_dead (suc k) j h =
    let p : get_or (replicate {A = ℕ} 15 10) j 0 ≡ 10 = get_or-replicate_lt 15 j (omega arith) in
    (rw p (omega arith), rw p (omega arith), rw p full_disk-Holds, all_dead k (j + 1) (omega arith))

ext2_add_dirent-full_example :
    ext2_add_dirent frame fs (record state { disk = full_disk }) 2 a_name 11 1
    ≡ some (record state { disk = full_disk }, negsuc 0)
ext2_add_dirent-full_example =
    ext2_add_dirent-full frame fs 2 a_name 11 1 (record state { disk = full_disk }) full_inode
      (replicate 12 dead) frame_whole refl (omega arith) full_disk-IsReady full_reads
      (all_dead 12 0 (omega arith)) refl

-- The root directory with one entry: each sector begins with that of the file "a", inode 11.
abbrev named_inode : Inode
named_inode = record zero_inode { block = 10 ∷ replicate 14 0 }

abbrev entry_disk : Disk
entry_disk = record disk { sector = λ s. 11 ∷ 0 ∷ 0 ∷ 0 ∷ 0 ∷ 4 ∷ 1 ∷ 1 ∷ b'a' ∷ replicate 503 0 }

abbrev named_disk : Disk
named_disk = put_inode fs entry_disk 5 128 named_inode

entry_disk-IsReady : IsReady fs entry_disk
entry_disk-IsReady = record {
  is_present = omega arith;
  addressable = omega arith;
  full = λ s. omega (arith, length-replicate {A = ℕ} 503 0);
  is_small_block = refl;
  two_sectors = refl;
}

named_reads : ext2_read_inode frame fs named_disk 2 ≡ some (some named_inode)
unfolding ext2_read_inode inode_place ext2_read_block read_sectors decode_inode load encode_inode
    block_at put_block put_range
named_reads = refl

named_disk-Holds : Holds (entry (b'a' ∷ []) 11) (block_at fs named_disk 10)
unfolding block_at put_block load encode_inode range put_range
named_disk-Holds = (refl, omega arith, refl, refl, omega arith, (refl, tt))

named_inode-Slots : Slots 12 fs named_disk named_inode.block 0 (entry (b'a' ∷ []) 11 ∷ [])
unfolding put_block
named_inode-Slots = (
  omega arith,
  omega arith,
  named_disk-Holds,
  (refl, (refl, (refl, (refl, (refl, (refl, (refl, (refl, (refl, (refl, (refl, tt))))))))))),
)

ext2_find_inode-Slots_example :
    ext2_find_inode frame fs named_disk 2 a_name none
    ≡ some (found_number (lookup_name (entry (b'a' ∷ []) 11 ∷ []) (text a_name)), none)
ext2_find_inode-Slots_example =
    ext2_find_inode-Slots frame 2 named_inode (entry (b'a' ∷ []) 11 ∷ []) a_name frame_whole
      (put_inode-IsReady entry_disk-IsReady named_inode refl 5 128 (omega arith)) named_reads
      named_inode-Slots refl (omega arith)

abbrev b_name : Buffer
b_name = b'b' ∷ 0 ∷ []

-- A file is made in the root directory and found.
made : Option (ℤ × Option Inode)
made = do
  (s, _) ← ext2_create_file frame fs state 2 a_name 0x81A4
  ext2_find_inode frame fs s.disk 2 a_name none

made_found : made ≡ some (pos 11, none)
unfolding made ext2_create_file krnel.Ext2.ext2_alloc_inode ext2_write_inode inode_place
    ext2_read_block read_sectors encode_inode ext2_write_block write_sectors ext2_add_dirent
    ext2_read_inode krnel.Ext2.Directory.add_loop krnel.Ext2.Directory.open_block decode_inode load
    krnel.Ext2.ext2_alloc_block krnel.CString.memset accepts put_range range
    krnel.CString.Compare.memcmp krnel.CString.strcpy krnel.CString.strlen
    krnel.Ext2.Directory.enter krnel.Ext2.Directory.find_slot krnel.Ext2.Directory.put_dirent
    ext2_find_inode krnel.Ext2.Lookup.find_loop krnel.Ext2.Lookup.is_entry scan_block
made_found = refl

-- It is removed again and a directory is made: the directory is found, the file is not.
removed : ℕ → Option (ℤ × Option Inode)
removed c = do
  (s, _) ← ext2_create_file frame fs state 2 a_name 0x81A4
  (s', _) ← ext2_unlink frame fs s 2 a_name
  (s'', _) ← ext2_mkdir frame fs s' 2 b_name
  ext2_find_inode frame fs s''.disk 2 (c ∷ 0 ∷ []) none

removed_found : removed b'b' ≡ some (pos 12, none)
unfolding removed ext2_create_file krnel.Ext2.ext2_alloc_inode ext2_write_inode inode_place
    ext2_read_block read_sectors encode_inode ext2_write_block write_sectors ext2_add_dirent
    ext2_read_inode krnel.Ext2.Directory.add_loop krnel.Ext2.Directory.open_block decode_inode load
    krnel.Ext2.ext2_alloc_block krnel.CString.memset accepts put_range range
    krnel.CString.Compare.memcmp krnel.CString.strcpy krnel.CString.strlen
    krnel.Ext2.Directory.enter krnel.Ext2.Directory.find_slot krnel.Ext2.Directory.put_dirent
    ext2_find_inode krnel.Ext2.Lookup.find_loop krnel.Ext2.Lookup.is_entry scan_block ext2_mkdir
    ext2_unlink free_victim scan_unlink unlink_entry unlink_loop
removed_found = refl

removed_gone : removed b'a' ≡ some (negsuc 0, none)
unfolding removed ext2_create_file krnel.Ext2.ext2_alloc_inode ext2_write_inode inode_place
    ext2_read_block read_sectors encode_inode ext2_write_block write_sectors ext2_add_dirent
    ext2_read_inode krnel.Ext2.Directory.add_loop krnel.Ext2.Directory.open_block decode_inode load
    krnel.Ext2.ext2_alloc_block krnel.CString.memset accepts put_range range
    krnel.CString.Compare.memcmp krnel.CString.strcpy krnel.CString.strlen
    krnel.Ext2.Directory.enter krnel.Ext2.Directory.find_slot krnel.Ext2.Directory.put_dirent
    ext2_find_inode krnel.Ext2.Lookup.find_loop krnel.Ext2.Lookup.is_entry scan_block ext2_mkdir
    ext2_unlink free_victim scan_unlink unlink_entry unlink_loop
removed_gone = refl
