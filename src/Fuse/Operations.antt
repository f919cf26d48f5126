-- ===== src/Fuse/Operations.antt =====
-- fuse/realmain.c: the operations of the file system. Each asks the kernel at most once for something
-- that can fail; what the kernel answers to a call is an argument, and so is what the buffer of
-- `my_read` held before.
use akiso.Prelude.{
  ℕ, ◌-◌, Bool, Option, none, some, List, [], ◌∷◌, ◌++◌, if◌then◌else◌, Bytes, length, take, drop,
  leb,
}
use akiso.Prelude.Int.{ℤ, pos, negsuc, sub_ℕ}
use akiso.Prelude.Run.{Run, ok, fault, ◌>>=◌}
use akiso.Fuse.Crypt.{Openssl, my_decrypt_base64, my_encrypt_binary, my_decrypt_binary}
use akiso.Fuse.Path.{get_real_path, is_dots}

pub data Call : Type 0 where
  lstat unlink rmdir utime opendir : Bytes → Call
  mkdir chmod truncate access open_file : Bytes → ℕ → Call
  mknod chown : Bytes → ℕ → ℕ → Call
  fstat fsync fdatasync close closedir : ℕ → Call
  ftruncate : ℕ → ℕ → Call
  pread : ℕ → ℕ → ℕ → Call
  pwrite : ℕ → Bytes → ℕ → Call

-- -1 with `errno`, or a result and the bytes that were read.
pub data Answer : Type 0 where
  failed : ℕ → Answer
  returned : ℕ → Bytes → Answer

abbrev pub Kernel : Type 0
Kernel = Call → Answer

abbrev pub negative : ℕ → ℤ
negative errno = sub_ℕ 0 errno

unfoldable pub my_syscall : Answer → ℤ
my_syscall (failed errno) = negative errno
my_syscall (returned n bytes) = pos n

-- `fi->fh` afterwards, and the result.
abbrev pub Opened : Type 0
Opened = Option ℕ × ℤ

unfoldable pub opened : Answer → Opened
opened (failed errno) = (none, negative errno)
opened (returned fd bytes) = (some fd, pos 0)

-- `-ENOMEM`
abbrev pub enomem : ℤ
enomem = negative 12

module _ (o : Openssl) (root_dir : Bytes) where
  -- An operation that only passes the real path on.
  unfoldable pub on_path : Bytes → (Bytes → Answer) → Run ℤ
  unfolding get_real_path my_syscall
  on_path path call = do real_path ← get_real_path o root_dir path; ok (my_syscall (call real_path))

  unfoldable pub my_getattr : Kernel → Bytes → Run ℤ
  unfolding on_path
  my_getattr k path = on_path path (λ p. k (lstat p))

  unfoldable pub my_mkdir : Kernel → Bytes → ℕ → Run ℤ
  unfolding on_path
  my_mkdir k path mode = on_path path (λ p. k (mkdir p mode))

  unfoldable pub my_mknod : Kernel → Bytes → ℕ → ℕ → Run ℤ
  unfolding on_path
  my_mknod k path mode dev = on_path path (λ p. k (mknod p mode dev))

  unfoldable pub my_unlink : Kernel → Bytes → Run ℤ
  unfolding on_path
  my_unlink k path = on_path path (λ p. k (unlink p))

  unfoldable pub my_rmdir : Kernel → Bytes → Run ℤ
  unfolding on_path
  my_rmdir k path = on_path path (λ p. k (rmdir p))

  unfoldable pub my_chmod : Kernel → Bytes → ℕ → Run ℤ
  unfolding on_path
  my_chmod k path mode = on_path path (λ p. k (chmod p mode))

  unfoldable pub my_chown : Kernel → Bytes → ℕ → ℕ → Run ℤ
  unfolding on_path
  my_chown k path uid gid = on_path path (λ p. k (chown p uid gid))

  unfoldable pub my_truncate : Kernel → Bytes → ℕ → Run ℤ
  unfolding on_path
  my_truncate k path newsize = on_path path (λ p. k (truncate p newsize))

  unfoldable pub my_utime : Kernel → Bytes → Run ℤ
  unfolding on_path
  my_utime k path = on_path path (λ p. k (utime p))

  unfoldable pub my_access : Kernel → Bytes → ℕ → Run ℤ
  unfolding on_path
  my_access k path mask = on_path path (λ p. k (access p mask))

  unfoldable pub my_open : Kernel → Bytes → ℕ → Run Opened
  unfolding get_real_path opened
  my_open k path flags = do
    real_path ← get_real_path o root_dir path
    ok (opened (k (open_file real_path flags)))

  unfoldable pub my_opendir : Kernel → Bytes → Run Opened
  unfolding get_real_path opened
  my_opendir k path = do
    real_path ← get_real_path o root_dir path
    ok (opened (k (opendir real_path)))

  -- The name that is shown for an entry of the directory.
  unfoldable pub shown_name : Bytes → Run Bytes
  unfolding my_decrypt_base64
  shown_name d_name = if is_dots d_name then ok d_name else my_decrypt_base64 o d_name

  -- The loop over the entries; `room`: how many more the filler takes. The names it was given, and
  -- the result.
  unfoldable pub fill : ℕ → List Bytes → Run (List Bytes × ℤ)
  unfolding shown_name
  fill room [] = ok ([], pos 0)
  fill room (d_name ∷ entries) = do
    name ← shown_name d_name
    if leb room 0
        then ok ([], enomem)
        else (do (names, ret) ← fill (room - 1) entries; ok (name ∷ names, ret))

  -- `opendir` that fails gives a null pointer, which `readdir` reads; and the first entry is read
  -- before the end is looked for. `entries` is what `readdir` gives for the real path.
  unfoldable pub my_readdir : (Bytes → Option (List Bytes)) → Bytes → ℕ → Run (List Bytes × ℤ)
  unfolding get_real_path fill
  my_readdir entries path room = do
    real_path ← get_real_path o root_dir path
    elim (entries real_path) [
      | none ↦ fault
      | some found ↦ elim found [ [] ↦ fault | d_name ∷ rest ↦ fill room (d_name ∷ rest) ]
    ]

  abbrev after_decrypt : Option Bytes → ℤ × Bytes
  after_decrypt none = (negsuc 0, [])
  after_decrypt (some plaintext) = (pos (length plaintext), plaintext)

  -- The result and what is written to `buf`; `old` is the content of `encrypted` before, 8192 bytes.
  -- All `size` bytes of the buffer are decrypted, however many were read.
  abbrev read_answer : Bytes → ℕ → Answer → Run (ℤ × Bytes)
  read_answer old size (failed errno) = ok (negative errno, [])
  read_answer old size (returned n bytes) =
      if leb size (length old)
      then ok (after_decrypt (my_decrypt_binary o (take size (bytes ++ drop (length bytes) old))))
      else fault

  unfoldable pub my_read : Kernel → Bytes → ℕ → ℕ → ℕ → Run (ℤ × Bytes)
  unfolding my_decrypt_binary
  my_read k old fh size offset = read_answer old size (k (pread fh size offset))

  -- The ciphertext must fit a buffer of 8192 bytes.
  unfoldable pub my_write : Kernel → ℕ → Bytes → ℕ → Run ℤ
  unfolding my_encrypt_binary my_syscall
  my_write k fh buf offset =
      let encrypted = my_encrypt_binary o buf in
      if leb (length encrypted) 8192
      then ok (my_syscall (k (pwrite fh encrypted offset)))
      else fault

unfoldable pub my_fsync : Kernel → Bool → ℕ → ℤ
unfolding my_syscall
my_fsync k datasync fh = my_syscall (k (if datasync then fdatasync fh else fsync fh))

unfoldable pub my_fgetattr : Kernel → ℕ → ℤ
unfolding my_syscall
my_fgetattr k fh = my_syscall (k (fstat fh))

unfoldable pub my_ftruncate : Kernel → ℕ → ℕ → ℤ
unfolding my_syscall
my_ftruncate k fh offset = my_syscall (k (ftruncate fh offset))
