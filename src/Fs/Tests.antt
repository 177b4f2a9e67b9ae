-- ===== src/Fs/Tests.antt =====
-- Runs of kernel/fs.c on a small disk of zeros, and an instance of what is proved of it.
use krnel.Base.{
  if◌then◌else◌, ◌==◌, ℕ, ◌≡◌, refl, Option, none, some, [], ◌∷◌, ◌++◌, arith, length, replicate,
  length-replicate, take, drop, min,
}
use krnel.Base.Int.{pos, negsuc}
use krnel.CString.{Buffer, ◌>>=◌, strlen, strcpy, strncpy, memset}
use krnel.CString.Compare.{memcmp, strcmp, strchr, strrchr}
use krnel.CString.Format.{vsnprintf}
use krnel.Ata.Disk.{Disk, range, put_range, accepts, read_sectors, write_sectors}
use krnel.Ext2.{
  Ext2, State, inode_place, ext2_read_inode, ext2_write_inode, ext2_read_file, ext2_write_file,
  ext2_read_block, ext2_write_block, ext2_alloc_inode, ext2_alloc_block, read_loop, write_loop,
}
use krnel.Ext2.Layout.{Inode, Descriptor, load, decode_inode, encode_inode}
use krnel.Ext2.Directory.{
  zero_inode, ext2_add_dirent, ext2_mkdir, ext2_create_file, add_loop, open_block, enter, find_slot,
  put_dirent,
}
use krnel.Ext2.Lookup.{
  scan_block, scan_unlink, free_victim, unlink_entry, unlink_loop, find_loop, is_entry,
  ext2_find_inode, ext2_unlink,
}
use krnel.Ext2.Mount.{format_super, ext2_mount, ext2_format}
use krnel.Ext2.Blocks.{IsReady}
use krnel.Ext2.Table.{IsTable, IsTable-Placed}
use krnel.Ext2.Files.Writing.{HasRoom}
use krnel.Fs.{
  FileSystem, root_path, take_component, resolve_loop, resolve_from, fs_resolve_inode,
  fs_get_parent, make_one, mkdirp_loop, fs_mkdirp,
}
use krnel.Fs.Operations.{
  fs_mkdir, fs_create, fs_delete, fs_read_inode, fs_read, fs_write, fs_write_inode, fs_size,
  fs_type, fs_is_executable, fs_size_inode, fs_exists, fs_chmod,
}
use krnel.Fs.Operations.RoundTrip.{fs_read_inode-fs_write_inode}
use krnel.Fs.Directories.{
  c_string, new_cwd, change_to, fs_chdir, fs_getcwd, fs_create_home, make_dirs, fs_init,
}
use krnel.Fs.Listing.{Listed, list_block, list_loop, fs_list}

abbrev frame : Buffer
frame = replicate 1024 0

frame_whole : length frame ≡ 1024
frame_whole = length-replicate {A = ℕ} 1024 0

abbrev disk : Disk
disk = record { present = 1; sectors = 200; sector = λ s. replicate 512 0 }

abbrev group : Descriptor
group = record {
  block_bitmap = 3;
  inode_bitmap = 4;
  inode_table = 5;
  free_blocks_count = 0;
  free_inodes_count = 0;
  used_dirs_count = 0;
  pad = 0;
}

abbrev fs : Ext2
fs = record {
  partition_start = 0;
  sb = record (format_super 131072) { inodes_per_group = 32 };
  bgdt = group ∷ [];
  block_size = 1024;
  sectors_per_block = 2;
  inode_size = 128;
  num_groups = 1;
}

abbrev files : FileSystem
files = record {
  fs = some fs;
  ext = record { disk = disk; next_block = 10; next_inode = 11 };
  cwd_inode = 2;
  cwd = b'/' ∷ replicate 127 0;
}

abbrev hello : Buffer
hello = b'h' ∷ b'e' ∷ b'l' ∷ b'l' ∷ b'o' ∷ []

disk-IsReady : IsReady fs disk
disk-IsReady = record {
  is_present = omega arith;
  addressable = omega arith;
  full = λ s. length-replicate {A = ℕ} 512 0;
  is_small_block = refl;
  two_sectors = refl;
}

group-IsTable : IsTable fs disk 0 group
group-IsTable = record {
  described = refl;
  small_inodes = refl;
  some_inodes = omega arith;
  few_inodes = omega arith;
  on_disk = omega arith;
}

room : HasRoom 12 fs files.ext
room = record { ready = disk-IsReady; used = omega arith; on_disk = omega arith }

root_reads : ext2_read_inode frame fs disk 2 ≡ some (some zero_inode)
unfolding ext2_read_inode inode_place ext2_read_block read_sectors decode_inode load
root_reads = refl

fs_read_inode-fs_write_inode_example :
    (f' : FileSystem) × (fs_write_inode frame files (pos 2) hello 5 ≡ some (f', pos 1024))
    × (fs_read_inode frame f' (pos 2) (replicate 6 7) 5
        ≡ some (pos (min 5 12288), take (min 5 12288) hello ++ drop (min 5 12288) (replicate 6 7)))
fs_read_inode-fs_write_inode_example =
    fs_read_inode-fs_write_inode frame frame_whole fs files zero_inode 2 5 128 5 hello refl
      root_reads (omega arith) (IsTable-Placed 2 disk-IsReady group-IsTable (omega arith) refl)
      (omega arith) room (omega arith) (replicate 6 7) (omega arith)

-- The root directory is inode 2, in sector 10, and all other sectors begin with the entry of the file "a".
abbrev named_inode : Inode
named_inode = record zero_inode { block = 10 ∷ replicate 14 0 }

abbrev named_disk : Disk
named_disk = record disk {
  sector = λ s.
      if s == 10
      then replicate 156 0 ++ (10 ∷ replicate 355 0)
      else 11 ∷ 0 ∷ 0 ∷ 0 ∷ 0 ∷ 4 ∷ 1 ∷ 1 ∷ b'a' ∷ replicate 503 0;
}

abbrev named_files : FileSystem
named_files = record files { ext = record files.ext { disk = named_disk } }

abbrev named_list : Listed
named_list = record { out = b'a' ∷ b'\n' ∷ []; left = 2; count = 1 }

-- A file is written in a new directory.
abbrev written : Option FileSystem
written = do
  (f, _) ← fs_mkdir frame files (c_string "d")
  (f', _) ← fs_write frame f (c_string "/d/a") hello 5
  some f'

-- The read goes by the blocks and not by the size of the file: the sixth byte is the padding of its block.
reads_back :
    (written >>= λ f. fs_read frame f (c_string "d/a") (replicate 6 7) 6)
    ≡ some (pos 6, hello ++ 0 ∷ [])
unfolding ext2_create_file ext2_mkdir krnel.Ext2.ext2_alloc_inode ext2_write_inode inode_place
    ext2_read_block read_sectors encode_inode ext2_write_block write_sectors ext2_add_dirent
    ext2_read_inode krnel.Ext2.Directory.add_loop krnel.Ext2.Directory.open_block decode_inode load
    krnel.Ext2.ext2_alloc_block krnel.CString.memset accepts put_range range
    krnel.CString.Compare.memcmp krnel.CString.strcpy krnel.CString.strncpy krnel.CString.strlen
    krnel.CString.Compare.strcmp krnel.CString.Compare.strchr krnel.CString.Compare.strrchr
    krnel.Ext2.Directory.enter krnel.Ext2.Directory.find_slot krnel.Ext2.Directory.put_dirent
    ext2_find_inode krnel.Ext2.Lookup.find_loop krnel.Ext2.Lookup.is_entry scan_block take_component
    krnel.Fs.resolve_loop krnel.Fs.resolve_from fs_resolve_inode fs_get_parent fs_mkdir fs_create
    fs_write ext2_write_file krnel.Ext2.write_loop fs_read ext2_read_file krnel.Ext2.read_loop
reads_back = refl

exists_now : (written >>= λ f. fs_exists frame f (c_string "/d/a")) ≡ some (pos 1)
unfolding ext2_create_file ext2_mkdir krnel.Ext2.ext2_alloc_inode ext2_write_inode inode_place
    ext2_read_block read_sectors encode_inode ext2_write_block write_sectors ext2_add_dirent
    ext2_read_inode krnel.Ext2.Directory.add_loop krnel.Ext2.Directory.open_block decode_inode load
    krnel.Ext2.ext2_alloc_block krnel.CString.memset accepts put_range range
    krnel.CString.Compare.memcmp krnel.CString.strcpy krnel.CString.strncpy krnel.CString.strlen
    krnel.CString.Compare.strcmp krnel.CString.Compare.strchr krnel.CString.Compare.strrchr
    krnel.Ext2.Directory.enter krnel.Ext2.Directory.find_slot krnel.Ext2.Directory.put_dirent
    ext2_find_inode krnel.Ext2.Lookup.find_loop krnel.Ext2.Lookup.is_entry scan_block take_component
    krnel.Fs.resolve_loop krnel.Fs.resolve_from fs_resolve_inode fs_get_parent fs_mkdir fs_create
    fs_write ext2_write_file krnel.Ext2.write_loop fs_exists
exists_now = refl

-- `fs_size` searches the current directory only.
size_elsewhere : (written >>= λ f. fs_size frame f (c_string "/d/a")) ≡ some (negsuc 0)
unfolding ext2_create_file ext2_mkdir krnel.Ext2.ext2_alloc_inode ext2_write_inode inode_place
    ext2_read_block read_sectors encode_inode ext2_write_block write_sectors ext2_add_dirent
    ext2_read_inode krnel.Ext2.Directory.add_loop krnel.Ext2.Directory.open_block decode_inode load
    krnel.Ext2.ext2_alloc_block krnel.CString.memset accepts put_range range
    krnel.CString.Compare.memcmp krnel.CString.strcpy krnel.CString.strncpy krnel.CString.strlen
    krnel.CString.Compare.strcmp krnel.CString.Compare.strchr krnel.CString.Compare.strrchr
    krnel.Ext2.Directory.enter krnel.Ext2.Directory.find_slot krnel.Ext2.Directory.put_dirent
    ext2_find_inode krnel.Ext2.Lookup.find_loop krnel.Ext2.Lookup.is_entry scan_block take_component
    krnel.Fs.resolve_loop krnel.Fs.resolve_from fs_resolve_inode fs_get_parent fs_mkdir fs_create
    fs_write ext2_write_file krnel.Ext2.write_loop fs_size
size_elsewhere = refl

abbrev inside : Option FileSystem
inside = do f ← written; (f', _) ← fs_chdir frame f (c_string "d"); some f'

inside_cwd : (inside >>= λ f. some (take 3 (fs_getcwd frame f))) ≡ some (c_string "/d")
unfolding ext2_create_file ext2_mkdir krnel.Ext2.ext2_alloc_inode ext2_write_inode inode_place
    ext2_read_block read_sectors encode_inode ext2_write_block write_sectors ext2_add_dirent
    ext2_read_inode krnel.Ext2.Directory.add_loop krnel.Ext2.Directory.open_block decode_inode load
    krnel.Ext2.ext2_alloc_block krnel.CString.memset accepts put_range range
    krnel.CString.Compare.memcmp krnel.CString.strcpy krnel.CString.strncpy krnel.CString.strlen
    krnel.CString.Compare.strcmp krnel.CString.Compare.strchr krnel.CString.Compare.strrchr
    krnel.Ext2.Directory.enter krnel.Ext2.Directory.find_slot krnel.Ext2.Directory.put_dirent
    ext2_find_inode krnel.Ext2.Lookup.find_loop krnel.Ext2.Lookup.is_entry scan_block take_component
    krnel.Fs.resolve_loop krnel.Fs.resolve_from fs_resolve_inode fs_get_parent fs_mkdir fs_create
    fs_write ext2_write_file krnel.Ext2.write_loop fs_chdir change_to new_cwd fs_getcwd vsnprintf
    krnel.CString.Format.format_loop krnel.CString.Format.move krnel.CString.Format.convert
    krnel.CString.Format.convert_string
inside_cwd = refl

inside_size : (inside >>= λ f. fs_size frame f (c_string "a")) ≡ some (pos 5)
unfolding ext2_create_file ext2_mkdir krnel.Ext2.ext2_alloc_inode ext2_write_inode inode_place
    ext2_read_block read_sectors encode_inode ext2_write_block write_sectors ext2_add_dirent
    ext2_read_inode krnel.Ext2.Directory.add_loop krnel.Ext2.Directory.open_block decode_inode load
    krnel.Ext2.ext2_alloc_block krnel.CString.memset accepts put_range range
    krnel.CString.Compare.memcmp krnel.CString.strcpy krnel.CString.strncpy krnel.CString.strlen
    krnel.CString.Compare.strcmp krnel.CString.Compare.strchr krnel.CString.Compare.strrchr
    krnel.Ext2.Directory.enter krnel.Ext2.Directory.find_slot krnel.Ext2.Directory.put_dirent
    ext2_find_inode krnel.Ext2.Lookup.find_loop krnel.Ext2.Lookup.is_entry scan_block take_component
    krnel.Fs.resolve_loop krnel.Fs.resolve_from fs_resolve_inode fs_get_parent fs_mkdir fs_create
    fs_write ext2_write_file krnel.Ext2.write_loop fs_chdir change_to new_cwd vsnprintf
    krnel.CString.Format.format_loop krnel.CString.Format.move krnel.CString.Format.convert
    krnel.CString.Format.convert_string fs_size
inside_size = refl

inside_size_inode : (inside >>= λ f. fs_size_inode frame f (pos 12)) ≡ some (pos 5)
unfolding ext2_create_file ext2_mkdir krnel.Ext2.ext2_alloc_inode ext2_write_inode inode_place
    ext2_read_block read_sectors encode_inode ext2_write_block write_sectors ext2_add_dirent
    ext2_read_inode krnel.Ext2.Directory.add_loop krnel.Ext2.Directory.open_block decode_inode load
    krnel.Ext2.ext2_alloc_block krnel.CString.memset accepts put_range range
    krnel.CString.Compare.memcmp krnel.CString.strcpy krnel.CString.strncpy krnel.CString.strlen
    krnel.CString.Compare.strcmp krnel.CString.Compare.strchr krnel.CString.Compare.strrchr
    krnel.Ext2.Directory.enter krnel.Ext2.Directory.find_slot krnel.Ext2.Directory.put_dirent
    ext2_find_inode krnel.Ext2.Lookup.find_loop krnel.Ext2.Lookup.is_entry scan_block take_component
    krnel.Fs.resolve_loop krnel.Fs.resolve_from fs_resolve_inode fs_get_parent fs_mkdir fs_create
    fs_write ext2_write_file krnel.Ext2.write_loop fs_chdir change_to new_cwd vsnprintf
    krnel.CString.Format.format_loop krnel.CString.Format.move krnel.CString.Format.convert
    krnel.CString.Format.convert_string fs_size_inode
inside_size_inode = refl

inside_type : (inside >>= λ f. fs_type frame f (c_string "a")) ≡ some (pos 0)
unfolding ext2_create_file ext2_mkdir krnel.Ext2.ext2_alloc_inode ext2_write_inode inode_place
    ext2_read_block read_sectors encode_inode ext2_write_block write_sectors ext2_add_dirent
    ext2_read_inode krnel.Ext2.Directory.add_loop krnel.Ext2.Directory.open_block decode_inode load
    krnel.Ext2.ext2_alloc_block krnel.CString.memset accepts put_range range
    krnel.CString.Compare.memcmp krnel.CString.strcpy krnel.CString.strncpy krnel.CString.strlen
    krnel.CString.Compare.strcmp krnel.CString.Compare.strchr krnel.CString.Compare.strrchr
    krnel.Ext2.Directory.enter krnel.Ext2.Directory.find_slot krnel.Ext2.Directory.put_dirent
    ext2_find_inode krnel.Ext2.Lookup.find_loop krnel.Ext2.Lookup.is_entry scan_block take_component
    krnel.Fs.resolve_loop krnel.Fs.resolve_from fs_resolve_inode fs_get_parent fs_mkdir fs_create
    fs_write ext2_write_file krnel.Ext2.write_loop fs_chdir change_to new_cwd vsnprintf
    krnel.CString.Format.format_loop krnel.CString.Format.move krnel.CString.Format.convert
    krnel.CString.Format.convert_string fs_type
inside_type = refl

inside_list :
    (inside >>= λ f. fs_list frame f (replicate 5 7) 5)
    ≡ some (pos 2, b'a' ∷ b'\n' ∷ 0 ∷ 7 ∷ 7 ∷ [])
unfolding ext2_create_file ext2_mkdir krnel.Ext2.ext2_alloc_inode ext2_write_inode inode_place
    ext2_read_block read_sectors encode_inode ext2_write_block write_sectors ext2_add_dirent
    ext2_read_inode krnel.Ext2.Directory.add_loop krnel.Ext2.Directory.open_block decode_inode load
    krnel.Ext2.ext2_alloc_block krnel.CString.memset accepts put_range range
    krnel.CString.Compare.memcmp krnel.CString.strcpy krnel.CString.strncpy krnel.CString.strlen
    krnel.CString.Compare.strcmp krnel.CString.Compare.strchr krnel.CString.Compare.strrchr
    krnel.Ext2.Directory.enter krnel.Ext2.Directory.find_slot krnel.Ext2.Directory.put_dirent
    ext2_find_inode krnel.Ext2.Lookup.find_loop krnel.Ext2.Lookup.is_entry scan_block take_component
    krnel.Fs.resolve_loop krnel.Fs.resolve_from fs_resolve_inode fs_get_parent fs_mkdir fs_create
    fs_write ext2_write_file krnel.Ext2.write_loop fs_chdir change_to new_cwd vsnprintf
    krnel.CString.Format.format_loop krnel.CString.Format.move krnel.CString.Format.convert
    krnel.CString.Format.convert_string fs_list list_loop list_block
inside_list = refl

-- A file is executable once its mode is changed.
chmod_executable :
    (do
      f ← written
      (f', _) ← fs_chmod frame f (c_string "/d/a") 0x1FF
      fs_is_executable frame f' (c_string "/d/a"))
    ≡ some (pos 1)
unfolding ext2_create_file ext2_mkdir krnel.Ext2.ext2_alloc_inode ext2_write_inode inode_place
    ext2_read_block read_sectors encode_inode ext2_write_block write_sectors ext2_add_dirent
    ext2_read_inode krnel.Ext2.Directory.add_loop krnel.Ext2.Directory.open_block decode_inode load
    krnel.Ext2.ext2_alloc_block krnel.CString.memset accepts put_range range
    krnel.CString.Compare.memcmp krnel.CString.strcpy krnel.CString.strncpy krnel.CString.strlen
    krnel.CString.Compare.strcmp krnel.CString.Compare.strchr krnel.CString.Compare.strrchr
    krnel.Ext2.Directory.enter krnel.Ext2.Directory.find_slot krnel.Ext2.Directory.put_dirent
    ext2_find_inode krnel.Ext2.Lookup.find_loop krnel.Ext2.Lookup.is_entry scan_block take_component
    krnel.Fs.resolve_loop krnel.Fs.resolve_from fs_resolve_inode fs_get_parent fs_mkdir fs_create
    fs_write ext2_write_file krnel.Ext2.write_loop fs_chmod fs_is_executable
chmod_executable = refl

deleted :
    (do
      f ← written
      (f', r) ← fs_delete frame f (c_string "/d/a")
      fs_exists frame f' (c_string "/d/a"))
    ≡ some (pos 0)
unfolding ext2_create_file ext2_mkdir krnel.Ext2.ext2_alloc_inode ext2_write_inode inode_place
    ext2_read_block read_sectors encode_inode ext2_write_block write_sectors ext2_add_dirent
    ext2_read_inode krnel.Ext2.Directory.add_loop krnel.Ext2.Directory.open_block decode_inode load
    krnel.Ext2.ext2_alloc_block krnel.CString.memset accepts put_range range
    krnel.CString.Compare.memcmp krnel.CString.strcpy krnel.CString.strncpy krnel.CString.strlen
    krnel.CString.Compare.strcmp krnel.CString.Compare.strchr krnel.CString.Compare.strrchr
    krnel.Ext2.Directory.enter krnel.Ext2.Directory.find_slot krnel.Ext2.Directory.put_dirent
    ext2_find_inode krnel.Ext2.Lookup.find_loop krnel.Ext2.Lookup.is_entry scan_block take_component
    krnel.Fs.resolve_loop krnel.Fs.resolve_from fs_resolve_inode fs_get_parent fs_mkdir fs_create
    fs_write ext2_write_file krnel.Ext2.write_loop fs_delete ext2_unlink free_victim scan_unlink
    unlink_entry unlink_loop fs_exists
deleted = refl

mkdirp_makes :
    (do
      s ← fs_mkdirp frame fs files.ext 2 (c_string "/u/b")
      fs_resolve_inode frame fs s.disk 2 (c_string "/u/b"))
    ≡ some (pos 12)
unfolding ext2_create_file ext2_mkdir krnel.Ext2.ext2_alloc_inode ext2_write_inode inode_place
    ext2_read_block read_sectors encode_inode ext2_write_block write_sectors ext2_add_dirent
    ext2_read_inode krnel.Ext2.Directory.add_loop krnel.Ext2.Directory.open_block decode_inode load
    krnel.Ext2.ext2_alloc_block krnel.CString.memset accepts put_range range
    krnel.CString.Compare.memcmp krnel.CString.strcpy krnel.CString.strncpy krnel.CString.strlen
    krnel.CString.Compare.strcmp krnel.CString.Compare.strchr krnel.CString.Compare.strrchr
    krnel.Ext2.Directory.enter krnel.Ext2.Directory.find_slot krnel.Ext2.Directory.put_dirent
    ext2_find_inode krnel.Ext2.Lookup.find_loop krnel.Ext2.Lookup.is_entry scan_block take_component
    krnel.Fs.resolve_loop krnel.Fs.resolve_from fs_resolve_inode fs_get_parent fs_mkdirp mkdirp_loop
    make_one
mkdirp_makes = refl

make_dirs_makes :
    (do
      s ← make_dirs frame ("u" ∷ "u/b" ∷ []) fs files.ext 2
      fs_resolve_inode frame fs s.disk 2 (c_string "/u/b"))
    ≡ some (pos 12)
unfolding ext2_create_file ext2_mkdir krnel.Ext2.ext2_alloc_inode ext2_write_inode inode_place
    ext2_read_block read_sectors encode_inode ext2_write_block write_sectors ext2_add_dirent
    ext2_read_inode krnel.Ext2.Directory.add_loop krnel.Ext2.Directory.open_block decode_inode load
    krnel.Ext2.ext2_alloc_block krnel.CString.memset accepts put_range range
    krnel.CString.Compare.memcmp krnel.CString.strcpy krnel.CString.strncpy krnel.CString.strlen
    krnel.CString.Compare.strcmp krnel.CString.Compare.strchr krnel.CString.Compare.strrchr
    krnel.Ext2.Directory.enter krnel.Ext2.Directory.find_slot krnel.Ext2.Directory.put_dirent
    ext2_find_inode krnel.Ext2.Lookup.find_loop krnel.Ext2.Lookup.is_entry scan_block take_component
    krnel.Fs.resolve_loop krnel.Fs.resolve_from fs_resolve_inode fs_get_parent fs_mkdirp mkdirp_loop
    make_one make_dirs
make_dirs_makes = refl

home_made :
    (do
      (f, _) ← fs_create_home frame files (c_string "al")
      fs_exists frame f (c_string "/home/al"))
    ≡ some (pos 1)
unfolding ext2_create_file ext2_mkdir krnel.Ext2.ext2_alloc_inode ext2_write_inode inode_place
    ext2_read_block read_sectors encode_inode ext2_write_block write_sectors ext2_add_dirent
    ext2_read_inode krnel.Ext2.Directory.add_loop krnel.Ext2.Directory.open_block decode_inode load
    krnel.Ext2.ext2_alloc_block krnel.CString.memset accepts put_range range
    krnel.CString.Compare.memcmp krnel.CString.strcpy krnel.CString.strncpy krnel.CString.strlen
    krnel.CString.Compare.strcmp krnel.CString.Compare.strchr krnel.CString.Compare.strrchr
    krnel.Ext2.Directory.enter krnel.Ext2.Directory.find_slot krnel.Ext2.Directory.put_dirent
    ext2_find_inode krnel.Ext2.Lookup.find_loop krnel.Ext2.Lookup.is_entry scan_block take_component
    krnel.Fs.resolve_loop krnel.Fs.resolve_from fs_resolve_inode fs_get_parent fs_create_home
    fs_exists
home_made = refl

-- Without memory nothing is mounted, before and after the disk is formatted.
init_without_memory : fs_init frame files none (λ size. none) ≡ some none
unfolding fs_init ext2_mount ext2_format write_sectors krnel.Ext2.Mount.format_buffer
init_without_memory = refl
