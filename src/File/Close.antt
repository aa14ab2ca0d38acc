-- ===== src/File/Close.antt =====
-- fs_close_request of file/file.c: one opener less, and no inode without openers.
use ribabari.Prelude.{
  ℕ, zero, suc, ◌≡◌, refl, true, false, [], ◌∷◌, arith, ℤ, pos, eq_ℤ, ◌≤◌, ◌+◌, ◌-ℤ◌, int, int_max,
  ok, Returns,
}
use ribabari.Process.{CString}
use ribabari.Log.{Libc, Host, io_fs_log, io_log_fs_f_close}
use ribabari.File.{Inode, FileTable, fs_close_request}
use ribabari.File.Active.{Counted, found, behind}

-- One process less has the file `n` open, and `k` are left; the other files are counted as before.
pub record Closed (n : ℤ) (k : ℕ) (before after : FileTable) : Type 0 where
  pub left : Counted n k after
  pub others : (m : ℤ) (j : ℕ) → eq_ℤ n m ≡ false → Counted m j before → Counted m j after

module _ (libc : Libc) (name : CString) (n : ℤ) (h : Host) where
  Counted-behind :
      {it : Inode} {rest : FileTable} (m : ℤ) (j : ℕ)
      → eq_ℤ it.id n ≡ true
      → eq_ℤ n m ≡ false
      → Counted m j (it ∷ rest)
      → Counted m j rest
  Counted-behind m j e ne (found g d c) = absurd (ground arith)
  Counted-behind m j e ne (behind g c) = c

  other_head :
      {it it' : Inode} {rest : FileTable} (m : ℤ) (j : ℕ)
      → it'.id ≡ it.id
      → eq_ℤ it.id n ≡ true
      → eq_ℤ n m ≡ false
      → Counted m j (it ∷ rest)
      → Counted m j (it' ∷ rest)
  other_head m j same e ne (found g d c) = absurd (ground arith)
  other_head m j same e ne (behind g c) = behind (rw same g) c

  under_head :
      {it : Inode} {rest rest' : FileTable} (m : ℤ) (j : ℕ)
      → ((i : ℕ) → Counted m i rest → Counted m i rest')
      → Counted m j (it ∷ rest)
      → Counted m j (it ∷ rest')
  under_head m j up (found g d c) = found g d (up 0 c)
  under_head m j up (behind g c) = behind g (up j c)

  less_one : (k : ℕ) → suc k ≤ int_max → int (pos (suc k) -ℤ pos 1) ≡ ok (pos k)
  unfolding ◌-ℤ◌
  less_one k room = ground arith

  -- If a file has an inode that counts at least one process, and at most INT_MAX, a close request
  -- returns: the inode counts one process less, and is gone if that was the last; the other files
  -- are counted as before.
  pub fs_close_request-Closed :
      (k : ℕ) (t : FileTable)
      → suc k ≤ int_max
      → Counted n (suc k) t
      → Returns (λ r. Closed n k t r.0) (fs_close_request libc t name n h)
  unfolding fs_close_request
  fs_close_request-Closed k [] room c = elim c [ ]
  fs_close_request-Closed zero (it ∷ rest) room (found e d c) =
      let logged = io_fs_log libc name n io_log_fs_f_close h in
      (
        (rest, record logged { io_mutex = logged.io_mutex + 1 }),
        rw (e, d, less_one 0 room),
        record { left = c; others = λ m j ne g. Counted-behind m j e ne g },
      )
  fs_close_request-Closed (suc k) (it ∷ rest) room (found e d c) = (
    (record it { o_count = pos (suc k) } ∷ rest, h),
    rw (e, d, less_one (suc k) room) (ground arith),
    record { left = found e refl c; others = λ m j ne g. other_head m j refl e ne g },
  )
  fs_close_request-Closed k (it ∷ rest) room (behind e c) =
      let ((rest', h'), eq, closed) = fs_close_request-Closed k rest room c in
      (
        (it ∷ rest', h'),
        rw (e, eq),
        record {
          left = behind e closed.left;
          others = λ m j ne g. under_head m j (λ i d. closed.others m i ne d) g;
        },
      )
