-- ===== src/Ext2/Layout/Codec.antt =====
-- Reading a structure of include/ext2.h where it was written.
use krnel.Base.{
  ℕ, zero, suc, ◌+◌, ◌*◌, ◌^◌, ◌≤◌, ◌<◌, ◌≡◌, refl, sym, ◌∙◌, ap, ap₂, List, [], ◌∷◌, ◌++◌, arith,
  get_or, length, set, drop,
}
use krnel.Base.Slices.{patch, get_or-append_right, get_or-patch_in}
use krnel.CString.{Buffer}
use krnel.Ext2.Layout.{
  bytes_of, load, put_words, load_words, Inode, encode_head, encode_inode, decode_inode, IsInode,
  AllLt, inode_bytes,
}

-- `n` bytes at `i` of `a` and at `j` of `b` are the same.
abbrev pub Agree : ℕ → Buffer → ℕ → Buffer → ℕ → Type 0
Agree n a i b j = (k : ℕ) → k < n → get_or a (i + k) 0 ≡ get_or b (j + k) 0

pub Agree-shift :
    (m n : ℕ) (a : Buffer) (i : ℕ) (b : Buffer) (j : ℕ) (x : ℕ)
    → Agree m a i b j
    → x + n ≤ m
    → Agree n a (i + x) b (j + x)
Agree-shift m n a i b j x h le k lt =
    ap (λ t. get_or a t 0) (omega arith)
    ∙ h (x + k) (omega arith)
    ∙ ap (λ t. get_or b t 0) (omega arith)

pub load-Agree :
    (n : ℕ) (a : Buffer) (i : ℕ) (b : Buffer) (j : ℕ) → Agree n a i b j → load n a i ≡ load n b j
unfolding load
load-Agree zero a i b j h = refl
load-Agree (suc n) a i b j h =
    let rest : load n a (i + 1) ≡ load n b (j + 1) =
      load-Agree n a (i + 1) b (j + 1) (Agree-shift (suc n) n a i b j 1 h (omega arith)) in
    let head : get_or a i 0 ≡ get_or b j 0 =
      ap (λ t. get_or a t 0) (omega arith)
      ∙ h 0 (omega arith)
      ∙ ap (λ t. get_or b t 0) (omega arith) in
    omega (arith, rest, head)

load_words-Agree :
    (n : ℕ) (a : Buffer) (i : ℕ) (b : Buffer) (j : ℕ)
    → Agree (n * 4) a i b j
    → load_words n a i ≡ load_words n b j
load_words-Agree zero a i b j h = refl
load_words-Agree (suc n) a i b j h = ap₂ ◌∷◌ (load-Agree 4 a i b j (λ k lt. h k (omega arith))) (
    load_words-Agree n a (i + 4) b (j + 4)
      (Agree-shift (suc n * 4) (n * 4) a i b j 4 h (omega arith)))

pub decode_inode-Agree :
    (a : Buffer) (i : ℕ) (b : Buffer) (j : ℕ)
    → Agree inode_bytes a i b j
    → decode_inode a i ≡ decode_inode b j
unfolding decode_inode
decode_inode-Agree a i b j h =
    let at : (n x : ℕ) → x + n ≤ 88 → load n a (i + x) ≡ load n b (j + x) =
      λ n x le. load-Agree n a (i + x) b (j + x) (Agree-shift 88 n a i b j x h le) in
    let first : load 2 a i ≡ load 2 b j = load-Agree 2 a i b j (λ k lt. h k (omega arith)) in
    let last : load_words 15 a (i + 28) ≡ load_words 15 b (j + 28) =
      load_words-Agree 15 a (i + 28) b (j + 28) (Agree-shift 88 60 a i b j 28 h (omega arith)) in
    λ t. record {
      mode = first t;
      uid = at 2 2 (omega arith) t;
      size = at 4 4 (omega arith) t;
      atime = at 4 8 (omega arith) t;
      ctime = at 4 12 (omega arith) t;
      mtime = at 4 16 (omega arith) t;
      gid = at 2 20 (omega arith) t;
      links_count = at 2 22 (omega arith) t;
      blocks = at 4 24 (omega arith) t;
      block = last t;
    }

load-bytes_of : (w : ℕ) (rest : Buffer) → w < 2 ^ 32 → load 4 (bytes_of 4 w ++ rest) 0 ≡ w
unfolding load
load-bytes_of w rest h = omega arith

shift : (k : ℕ) → 0 + suc (suc (suc (suc k))) ≡ suc (suc (suc (suc k)))
shift k = omega arith

later_word :
    (w : ℕ) (ws : List ℕ) (k : ℕ)
    → get_or (bytes_of 4 w ++ put_words ws) (0 + suc (suc (suc (suc k)))) 0
      ≡ get_or (put_words ws) (0 + k) 0
later_word w ws k =
    ap (λ t. get_or (bytes_of 4 w ++ put_words ws) t 0) (shift k)
    ∙ ap (λ t. get_or (put_words ws) t 0) (omega arith)

length-put_words : (ws : List ℕ) → length (put_words ws) ≡ length ws * 4
length-put_words [] = omega arith
length-put_words (w ∷ ws) = omega (arith, length-put_words ws)

pub length-encode_inode : (i : Inode) → length i.block ≡ 15 → length (encode_inode i) ≡ inode_bytes
unfolding encode_inode
length-encode_inode i h = omega (arith, length-put_words i.block)

load_words-put_words :
    (ws : List ℕ) (a : Buffer) (i : ℕ)
    → AllLt (2 ^ 32) ws
    → Agree (length (put_words ws)) a i (put_words ws) 0
    → load_words (length ws) a i ≡ ws
load_words-put_words [] a i h e = refl
load_words-put_words (w ∷ ws) a i h e =
    ap₂ ◌∷◌
      (load-Agree 4 a i (bytes_of 4 w ++ put_words ws) 0 (λ k lt. e k (omega arith))
        ∙ load-bytes_of w (put_words ws) h.0)
      (load_words-put_words ws a (i + 4) h.1 (λ k lt.
        ap (λ t. get_or a t 0) (omega arith)
        ∙ e (suc (suc (suc (suc k)))) (omega arith)
        ∙ later_word w ws k))

load_block :
    (ws : List ℕ)
    → AllLt (2 ^ 32) ws
    → length ws ≡ 15
    → (b : Buffer) → ((k : ℕ) → get_or b (28 + k) 0 ≡ get_or (put_words ws) k 0)
    → load_words 15 b (0 + 28) ≡ ws
load_block ws h l b e =
    ap (λ n. load_words n b 28) (sym l)
    ∙ load_words-put_words ws b 28 h
        (λ k lt. e k ∙ ap (λ t. get_or (put_words ws) t 0) (omega arith))

two : (k : ℕ) → k < 2 ^ 16 → load 2 (bytes_of 2 k) 0 ≡ k
unfolding load
two k h = omega arith

four : (k : ℕ) → k < 2 ^ 32 → load 4 (bytes_of 4 k) 0 ≡ k
unfolding load
four k h = omega arith

zero_plus : (k : ℕ) → 0 + k ≡ k
zero_plus k = omega arith

encode_tail :
    (i : Inode) (k : ℕ) → get_or (encode_inode i) (28 + k) 0 ≡ get_or (put_words i.block) k 0
unfolding encode_inode
encode_tail i k = get_or-append_right (encode_head i) (put_words i.block) k 0

decode_inode-encode_inode : (i : Inode) → IsInode i → decode_inode (encode_inode i) 0 ≡ i
unfolding encode_inode decode_inode load
decode_inode-encode_inode i v = λ t. record {
  mode = two i.mode v.mode_lt t;
  uid = two i.uid v.uid_lt t;
  size = four i.size v.size_lt t;
  atime = four i.atime v.atime_lt t;
  ctime = four i.ctime v.ctime_lt t;
  mtime = four i.mtime v.mtime_lt t;
  gid = two i.gid v.gid_lt t;
  links_count = two i.links_count v.links_count_lt t;
  blocks = four i.blocks v.blocks_lt t;
  block = load_block i.block v.block_lt v.words (encode_inode i) (encode_tail i) t;
}

-- An inode that is written over a buffer is read back.
pub decode_inode-patch :
    (i : Inode) (off : ℕ) (b : Buffer)
    → IsInode i
    → off + inode_bytes ≤ length b
    → decode_inode (patch off (encode_inode i) b) off ≡ i
decode_inode-patch i off b v h =
    decode_inode-Agree (patch off (encode_inode i) b) off (encode_inode i) 0 (λ k lt.
      get_or-patch_in off (encode_inode i) b (omega (arith, length-encode_inode i v.words)) k 0
        (omega (arith, length-encode_inode i v.words))
      ∙ ap (λ t. get_or (encode_inode i) t 0) (sym (zero_plus k)))
    ∙ decode_inode-encode_inode i v

pub AllLt-set : (n : ℕ) (xs : List ℕ) (i v : ℕ) → AllLt n xs → v < n → AllLt n (set xs i v)
AllLt-set n [] i v h lt = tt
AllLt-set n (x ∷ xs) zero v h lt = (lt, h.1)
AllLt-set n (x ∷ xs) (suc i) v h lt = (h.0, AllLt-set n xs i v h.1 lt)

pub AllLt-append : (n : ℕ) (xs ys : List ℕ) → AllLt n xs → AllLt n ys → AllLt n (xs ++ ys)
AllLt-append n [] ys h k = k
AllLt-append n (x ∷ xs) ys h k = (h.0, AllLt-append n xs ys h.1 k)

pub AllLt-drop : (n k : ℕ) (xs : List ℕ) → AllLt n xs → AllLt n (drop k xs)
AllLt-drop n zero xs h = h
AllLt-drop n (suc k) [] h = tt
AllLt-drop n (suc k) (x ∷ xs) h = AllLt-drop n k xs h.1

-- An inode with another size and other blocks.
pub resized-IsInode :
    (inode : Inode) (size blocks : ℕ) (block : List ℕ)
    → IsInode inode
    → size < 2 ^ 32
    → blocks < 2 ^ 32
    → AllLt (2 ^ 32) block
    → length block ≡ 15
    → IsInode (record inode { size = size; blocks = blocks; block = block })
resized-IsInode inode size blocks block h a b c e = record {
  mode_lt = h.mode_lt;
  uid_lt = h.uid_lt;
  size_lt = a;
  atime_lt = h.atime_lt;
  ctime_lt = h.ctime_lt;
  mtime_lt = h.mtime_lt;
  gid_lt = h.gid_lt;
  links_count_lt = h.links_count_lt;
  blocks_lt = b;
  block_lt = c;
  words = e;
}
