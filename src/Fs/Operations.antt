-- ===== src/Fs/Operations.antt =====
-- The operations of kernel/fs.c on files and inodes.
pub mod RoundTrip
use krnel.Base.{
  ℕ, zero, suc, ◌+◌, ◌*◌, ◌/◌, ◌%◌, ◌^◌, Bool, true, false, ◌&&◌, ◌||◌, not, Option, none, some, [],
  ◌∷◌, ◌==◌, if◌then◌else◌, get_or, length, take,
}
use krnel.Base.Int.{ℤ, pos, negsuc, ltb_ℤ}
use krnel.CString.{Buffer, ◌>>=◌}
use krnel.Ata.Disk.{Disk}
use krnel.Ext2.{Ext2, State, ext2_read_inode, ext2_write_inode, ext2_read_file, ext2_write_file}
use krnel.Ext2.Layout.{Inode}
use krnel.Ext2.Directory.{ext2_mkdir, ext2_create_file}
use krnel.Ext2.Lookup.{ext2_find_inode, ext2_unlink, to_int}
use krnel.Fs.{FileSystem, on_fs, is_negative, to_nat, first, fs_resolve_inode, fs_get_parent}

abbrev pub with_ext : FileSystem → State × ℤ → FileSystem × ℤ
with_ext f (s, n) = (record f { ext = s }, n)

-- Is the type of a directory in a mode, `mode & EXT2_S_IFDIR`?
abbrev pub is_directory : ℕ → Bool
is_directory mode = mode / 2 ^ 14 % 2 == 1

-- `mode & 0111`
abbrev pub any_execute : ℕ → Bool
any_execute mode = mode % 2 == 1 || mode / 2 ^ 3 % 2 == 1 || mode / 2 ^ 6 % 2 == 1

abbrev pub inode_or {ℓ} :
    {A : Type ℓ} → (Inode → Option A) → Option A → Option (Option Inode) → Option A
inode_or go failed none = none
inode_or go failed (some none) = failed
inode_or go failed (some (some inode)) = go inode

module _ (frame : Buffer) where
  -- `name` is empty, or there is no file system: -1; else the parent and the base name go on.
  abbrev pub in_parent :
      FileSystem → (Ext2 → ℤ × Buffer → Option (State × ℤ)) → Buffer → Option (FileSystem × ℤ)
  in_parent f go name = first name >>= λ c. on_fs f.fs (some (f, negsuc 0)) λ fs.
      if c == 0
      then some (f, negsuc 0)
      else (fs_get_parent frame fs f.ext.disk f.cwd_inode name (take 64 frame) >>= go fs >>= λ r.
          some (with_ext f r))

  abbrev pub in_base : State → (ℕ → Buffer → Option (State × ℤ)) → ℤ × Buffer → Option (State × ℤ)
  in_base s go (parent, basename) =
      if is_negative parent || get_or basename 0 0 == 0
      then some (s, negsuc 0)
      else go (to_nat parent) basename

  unfoldable pub fs_mkdir : FileSystem → Buffer → Option (FileSystem × ℤ)
  fs_mkdir f name = in_parent f (λ fs. in_base f.ext (ext2_mkdir frame fs f.ext)) name

  -- The mode is `0x8000 | 0644`.
  unfoldable pub fs_create : FileSystem → Buffer → Option (FileSystem × ℤ)
  fs_create f name =
      in_parent f
        (λ fs. in_base f.ext λ parent base. ext2_create_file frame fs f.ext parent base 0x81A4) name

  unfoldable pub fs_delete : FileSystem → Buffer → Option (FileSystem × ℤ)
  fs_delete f name = in_parent f (λ fs. in_base f.ext (ext2_unlink frame fs f.ext)) name

  -- The inode of a number, if that is not negative and it can be read.
  abbrev pub with_inode {ℓ} :
      {A : Type ℓ} → Ext2 → Disk → (ℕ → Inode → Option A) → Option A → ℤ → Option A
  with_inode fs d go failed (negsuc n) = failed
  with_inode fs d go failed (pos n) = inode_or (go n) failed (ext2_read_inode frame fs d n)

  abbrev pub read_to : ℕ → Buffer → Ext2 → Disk → ℕ → Inode → Option (ℤ × Buffer)
  read_to size buffer fs d n inode =
      ext2_read_file frame fs d inode 0 size buffer >>= λ r. some (pos r.0, r.1)

  unfoldable pub fs_read_inode : FileSystem → ℤ → Buffer → ℕ → Option (ℤ × Buffer)
  fs_read_inode f inode_num buffer size = on_fs f.fs (some (negsuc 0, buffer)) λ fs.
      with_inode fs f.ext.disk (read_to size buffer fs f.ext.disk) (some (negsuc 0, buffer))
        inode_num

  abbrev pub resolved :
      FileSystem → Buffer → (Ext2 → ℤ → Option (ℤ × Buffer)) → Buffer → Option (ℤ × Buffer)
  resolved f name go buffer =
      on_fs f.fs (some (negsuc 0, buffer))
        λ fs. fs_resolve_inode frame fs f.ext.disk f.cwd_inode name >>= go fs

  unfoldable pub fs_read : FileSystem → Buffer → Buffer → ℕ → Option (ℤ × Buffer)
  fs_read f name buffer size =
      resolved f name
        (λ fs.
          with_inode fs f.ext.disk (read_to size buffer fs f.ext.disk) (some (negsuc 0, buffer)))
        buffer

  -- The inode is written if any byte was.
  abbrev pub write_back : Ext2 → ℕ → State × Inode × ℤ → Option (State × ℤ)
  write_back fs n (s, inode, written) =
      if ltb_ℤ (pos 0) written
      then (ext2_write_inode frame fs s.disk n inode >>= λ w.
          some (record s { disk = w.0 }, written))
      else some (s, written)

  abbrev pub write_to : Ext2 → State → Buffer → ℕ → ℤ → Option (State × ℤ)
  write_to fs s buffer size =
      with_inode fs s.disk (λ n inode. ext2_write_file fs s inode 0 size buffer >>= write_back fs n)
        (some (s, negsuc 0))

  -- The file is made where the path leads nowhere.
  abbrev pub write_new : Ext2 → Buffer → Buffer → ℕ → FileSystem × ℤ → Option (State × ℤ)
  write_new fs name buffer size (f, made) =
      if is_negative made
      then some (f.ext, negsuc 0)
      else (fs_resolve_inode frame fs f.ext.disk f.cwd_inode name >>= write_to fs f.ext buffer size)

  unfoldable pub fs_write : FileSystem → Buffer → Buffer → ℕ → Option (FileSystem × ℤ)
  fs_write f name buffer size = on_fs f.fs (some (f, negsuc 0)) λ fs.
      (fs_resolve_inode frame fs f.ext.disk f.cwd_inode name >>= λ n.
      if is_negative n
      then (fs_create f name >>= write_new fs name buffer size)
      else write_to fs f.ext buffer size n)
      >>= λ r. some (with_ext f r)

  -- The result is that of `ext2_write_inode`, the number of bytes in a block.
  abbrev pub write_always : Ext2 → ℕ → State × Inode × ℤ → Option (State × ℤ)
  write_always fs n (s, inode, r) =
      if is_negative r
      then some (s, negsuc 0)
      else (ext2_write_inode frame fs s.disk n inode >>= λ w. some (record s { disk = w.0 }, w.1))

  unfoldable pub fs_write_inode : FileSystem → ℤ → Buffer → ℕ → Option (FileSystem × ℤ)
  fs_write_inode f inode_num buffer size = on_fs f.fs (some (f, negsuc 0)) λ fs.
      with_inode fs f.ext.disk
        (λ n inode. ext2_write_file fs f.ext inode 0 size buffer >>= write_always fs n)
        (some (f.ext, negsuc 0)) inode_num
      >>= λ r. some (with_ext f r)

  -- A query: what it gives without a file system, what for an inode.
  abbrev pub query : FileSystem → ℤ → (Ext2 → Option ℤ) → (Inode → ℤ) → Option ℤ
  query f failed number answer =
      on_fs f.fs (some failed)
        λ fs. number fs >>= with_inode fs f.ext.disk (λ n inode. some (answer inode)) (some failed)

  abbrev pub by_path : FileSystem → Buffer → Ext2 → Option ℤ
  by_path f name fs = fs_resolve_inode frame fs f.ext.disk f.cwd_inode name

  -- Only the current directory is searched.
  abbrev pub by_name : FileSystem → Buffer → Ext2 → Option ℤ
  by_name f name fs = ext2_find_inode frame fs f.ext.disk f.cwd_inode name none >>= λ r. some r.0

  unfoldable pub fs_size : FileSystem → Buffer → Option ℤ
  fs_size f name = query f (negsuc 0) (by_name f name) (λ inode. to_int inode.size)

  unfoldable pub fs_type : FileSystem → Buffer → Option ℤ
  fs_type f name =
      query f (negsuc 0) (by_name f name)
        (λ inode. if is_directory inode.mode then pos 1 else pos 0)

  unfoldable pub fs_is_executable : FileSystem → Buffer → Option ℤ
  fs_is_executable f name =
      query f (pos 0) (by_path f name) (λ inode. if any_execute inode.mode then pos 1 else pos 0)

  unfoldable pub fs_size_inode : FileSystem → ℤ → Option ℤ
  fs_size_inode f n = query f (negsuc 0) (λ fs. some n) (λ inode. to_int inode.size)

  unfoldable pub fs_exists : FileSystem → Buffer → Option ℤ
  fs_exists f name =
      on_fs f.fs (some (pos 0))
        λ fs. by_path f name fs >>= λ n. some (if is_negative n then pos 0 else pos 1)

  -- The bits above the low twelve are kept.
  unfoldable pub fs_chmod : FileSystem → Buffer → ℕ → Option (FileSystem × ℤ)
  fs_chmod f name mode = on_fs f.fs (some (f, negsuc 0)) λ fs.
      (by_path f name fs
        >>= with_inode fs f.ext.disk
            (λ n inode.
              ext2_write_inode frame fs f.ext.disk n
                (record inode { mode = inode.mode / 2 ^ 12 * 2 ^ 12 + mode % 2 ^ 12 })
              >>= λ w. some (record f.ext { disk = w.0 }, w.1))
            (some (f.ext, negsuc 0)))
      >>= λ r. some (with_ext f r)
