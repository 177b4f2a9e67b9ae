-- ===== src/Fs/Directories.antt =====
-- kernel/fs.c: the current directory, the home directories and the tree that `fs_init` makes.
use Prim.Native.Char.{code}
use Prim.Native.String.{String}
use krnel.Base.{
  ℕ, zero, suc, ◌+◌, Bool, false, ◌||◌, Option, none, some, List, [], ◌∷◌, ◌++◌, ltb, ◌==◌,
  if◌then◌else◌, get_or, set, take, drop,
}
use krnel.Base.Int.{ℤ, pos, negsuc}
use krnel.CString.{Buffer, ◌>>=◌, strlen, strcpy, strncpy}
use krnel.CString.Compare.{strcmp, strrchr}
use krnel.CString.Format.{Arg, vsnprintf}
use krnel.Ata.Disk.{Disk}
use krnel.Ext2.{Ext2, State, ext2_read_inode}
use krnel.Ext2.Layout.{Inode}
use krnel.Ext2.Directory.{ext2_mkdir}
use krnel.Ext2.Lookup.{ext2_find_inode}
use krnel.Ext2.Mount.{ext2_mount, ext2_format}
use krnel.Fs.{FileSystem, on_fs, is_negative, to_nat, first, root_path, fs_resolve_inode, fs_mkdirp}
use krnel.Fs.Operations.{with_ext, is_directory}

-- The bytes of a text.
abbrev pub codes : String → List ℕ
codes String.[] = []
codes (String.◌∷◌ c s) = code c ∷ codes s

abbrev pub c_string : String → Buffer
c_string s = codes s ++ 0 ∷ []

abbrev pub is_zero : ℤ → Bool
is_zero (pos n) = n == 0
is_zero (negsuc n) = false

abbrev pub same : Buffer → Buffer → Option Bool
same s t = strcmp s t >>= λ c. some (is_zero c)

-- `cwd_inode = 2; strcpy(cwd, "/"); return 0`
abbrev pub to_root : FileSystem → Option (FileSystem × ℤ)
to_root f = strcpy f.cwd root_path >>= λ cwd. some (record f { cwd_inode = 2; cwd = cwd }, pos 0)

-- `cwd[l] = '/'; strcpy(cwd + l + 1, dir)`
abbrev pub append_cwd : Buffer → Buffer → ℕ → Option Buffer
append_cwd cwd dir l =
    let slashed = set cwd l b'/' in
    strcpy (drop (l + 1) slashed) dir >>= λ rest. some (take (l + 1) slashed ++ rest)

module _ (frame : Buffer) where
  -- The current directory without its last component.
  abbrev pub up_from : Ext2 → FileSystem → Option ℕ → Option (FileSystem × ℤ)
  up_from fs f none = to_root f
  up_from fs f (some zero) = to_root f
  up_from fs f (some (suc i)) =
      let f' = record f { cwd = set f.cwd (suc i) 0 } in
      fs_resolve_inode frame fs f.ext.disk f.cwd_inode f'.cwd >>= λ n.
      if is_negative n then to_root f' else some (record f' { cwd_inode = to_nat n }, pos 0)

  -- `cwd` after a change into `dir`; a relative path that does not fit leaves it.
  unfoldable pub new_cwd : Buffer → Buffer → Option Buffer
  new_cwd cwd dir =
      if get_or dir 0 0 == b'/'
      then (strncpy cwd dir 127 >>= λ c. some (set c 127 0))
      else (same cwd root_path >>= λ at_root.
          if at_root
          then (vsnprintf cwd 128 (c_string "/%s") (Arg.string (some dir) ∷ []) >>= λ r. some r.0)
          else (strlen cwd >>= λ l.
              strlen dir >>= λ n. if ltb (l + 1 + n) 127 then append_cwd cwd dir l else some cwd))

  abbrev pub enter_inode : FileSystem → Buffer → ℕ → Option Inode → Option (FileSystem × ℤ)
  enter_inode f dir n none = some (f, negsuc 0)
  enter_inode f dir n (some inode) =
      if is_directory inode.mode
      then (new_cwd f.cwd dir >>= λ cwd. some (record f { cwd_inode = n; cwd = cwd }, pos 0))
      else some (f, negsuc 0)

  abbrev pub enter_number : Ext2 → FileSystem → Buffer → ℤ → Option (FileSystem × ℤ)
  enter_number fs f dir (negsuc n) = some (f, negsuc 0)
  enter_number fs f dir (pos n) = ext2_read_inode frame fs f.ext.disk n >>= enter_inode f dir n

  -- A name in the current directory goes before a path.
  unfoldable pub change_to : Ext2 → FileSystem → Buffer → Option (FileSystem × ℤ)
  change_to fs f dir = ext2_find_inode frame fs f.ext.disk f.cwd_inode dir none >>= λ r.
      if is_negative r.0
      then (fs_resolve_inode frame fs f.ext.disk f.cwd_inode dir >>= enter_number fs f dir)
      else enter_number fs f dir r.0

  abbrev pub change_dir : Ext2 → FileSystem → Buffer → Option (FileSystem × ℤ)
  change_dir fs f dir = same dir root_path >>= λ root.
      if root
      then to_root f
      else (same dir (c_string "..") >>= λ up.
          if up then (strrchr f.cwd (pos b'/') >>= up_from fs f) else change_to fs f dir)

  unfoldable pub fs_chdir : FileSystem → Buffer → Option (FileSystem × ℤ)
  fs_chdir f dir = first dir >>= λ c.
      on_fs f.fs (some (f, negsuc 0))
        λ fs. if c == 0 then some (f, negsuc 0) else change_dir fs f dir

  unfoldable pub fs_getcwd : FileSystem → Buffer
  fs_getcwd f = f.cwd

  abbrev pub home_in : Ext2 → FileSystem → Buffer → ℤ → Option (FileSystem × ℤ)
  home_in fs f username home =
      if is_negative home || to_nat home == 0
      then some (f, negsuc 0)
      else (ext2_mkdir frame fs f.ext (to_nat home) username >>= λ r. some (with_ext f r))

  -- The directory of the homes, made where it is missing.
  abbrev pub ensure_home : Ext2 → FileSystem → ℤ → Option State
  ensure_home fs f n =
      if is_negative n
      then (ext2_mkdir frame fs f.ext 2 (c_string "home") >>= λ r. some r.0)
      else some f.ext

  abbrev pub make_home : Ext2 → FileSystem → Buffer → Option (FileSystem × ℤ)
  make_home fs f username = do
    n ← fs_resolve_inode frame fs f.ext.disk f.cwd_inode (c_string "home")
    s ← ensure_home fs f n
    (home, _) ← ext2_find_inode frame fs s.disk 2 (c_string "home") none
    home_in fs (record f { ext = s }) username home

  unfoldable pub fs_create_home : FileSystem → Buffer → Option (FileSystem × ℤ)
  fs_create_home f username = on_fs f.fs (some (f, negsuc 0)) λ fs.
      same username (c_string "root") >>= λ root.
      if root then some (f, pos 0) else make_home fs f username

  -- The directories that are made at the start.
  abbrev pub std_dirs : List String
  std_dirs =
      "bin" ∷ "sbin" ∷ "lib" ∷ "dev" ∷ "usr" ∷ "usr/bin" ∷ "usr/sbin" ∷ "usr/lib" ∷ "usr/include"
      ∷ "usr/share" ∷ "etc" ∷ "etc/init.d" ∷ "home" ∷ "root" ∷ "tmp" ∷ "var" ∷ "var/log" ∷ "var/run"
      ∷ "var/tmp" ∷ "proc" ∷ "sys" ∷ "dev" ∷ "mnt" ∷ "opt" ∷ "run" ∷ "boot" ∷ []

  abbrev pub ensure_dir : Ext2 → State → ℕ → Buffer → ℤ → Option State
  ensure_dir fs s cwd_inode dir n =
      if is_negative n then fs_mkdirp frame fs s cwd_inode dir else some s

  unfoldable pub make_dirs : List String → Ext2 → State → ℕ → Option State
  make_dirs [] fs s cwd_inode = some s
  make_dirs (dir ∷ dirs) fs s cwd_inode = do
    n ← fs_resolve_inode frame fs s.disk cwd_inode (c_string dir)
    s' ← ensure_dir fs s cwd_inode (c_string dir) n
    make_dirs dirs fs s' cwd_inode

  -- The tree is made on the mounted file system; without one the kernel hangs, which is `none` inside.
  abbrev pub with_tree : FileSystem → Disk × Option Ext2 → Option (Option FileSystem)
  with_tree f (d, none) = some none
  with_tree f (d, some fs) = make_dirs std_dirs fs (record f.ext { disk = d }) f.cwd_inode >>= λ s.
      some (some (record f { fs = some fs; ext = s }))

  -- A disk that cannot be mounted is formatted and mounted once more. The arguments are what `kmalloc` gives.
  abbrev pub or_format :
      FileSystem
      → Option Buffer
      → (ℕ → Option Buffer)
      → Disk × Option Ext2
      → Option (Option FileSystem)
  or_format f mem kmalloc (d, some fs) = with_tree f (d, some fs)
  or_format f mem kmalloc (d, none) =
      ext2_format d 0 131072 >>= λ r. ext2_mount frame r.0 0 mem kmalloc >>= with_tree f

  -- `fs_init` once the driver has detected the disks; `ata_get_primary` is never NULL.
  unfoldable pub fs_init :
      FileSystem → Option Buffer → (ℕ → Option Buffer) → Option (Option FileSystem)
  fs_init f mem kmalloc = ext2_mount frame f.ext.disk 0 mem kmalloc >>= or_format f mem kmalloc
