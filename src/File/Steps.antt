-- ===== src/File/Steps.antt =====
-- The steps that fs_read_request and fs_write_request of file/file.c have in common.
use ribabari.Prelude.{
  ℕ, zero, suc, ◌≡◌, refl, true, arith, ℤ, pos, negsuc, eq_ℤ, length, set, ◌≤◌, ◌+◌, ◌+ℤ◌, int_max,
  ok, Returns, ◌∙◌,
}
use ribabari.LinkedList.{list_add}
use ribabari.Process.{CString}
use ribabari.Log.{Libc, Host, io_fs_log, io_log_fs_f_open}
use ribabari.File.{
  Inode, FileTable, file_size, inode_create, fs_open_request, find_or_open, change_inode,
  add_opener, stamp, stamped,
}
use ribabari.File.Active.{
  Counted, Located, Kept, find-absent, find-found, Located-get, Located-append, Located-set,
  Counted-append, Counted-set,
}

-- A change that keeps the number and the count of an inode.
abbrev pub Keeps : (Inode → Inode) → Type 0
Keeps f = (it : Inode) → ((f it).id ≡ it.id) × ((f it).o_count ≡ it.o_count)

eq_ℤ_refl : (n : ℤ) → eq_ℤ n n ≡ true
eq_ℤ_refl n = ground arith

module _ {n : ℤ} where
  pub change_inode-Kept :
      {k i : ℕ} {t : FileTable} (f : Inode → Inode)
      → Keeps f
      → Located n k i t
      → Returns (Kept n k i t) (change_inode f i t)
  unfolding change_inode
  change_inode-Kept {i = i} {t = t} f keep l =
      let (it, e, h, c) = Located-get l in
      let same : eq_ℤ (f it).id n ≡ true = rw (keep it).0 h in
      (
        set t i (f it),
        rw e refl,
        record {
          located = Located-set (f it) l same ((keep it).1 ∙ c);
          others = λ m j ne d. Counted-set (f it) d l ne same;
        },
      )

  pub add_opener-Kept :
      {k i : ℕ} {t : FileTable}
      → suc k ≤ int_max
      → Located n k i t
      → Returns (Kept n (suc k) i t) (add_opener i t)
  unfolding add_opener ◌+ℤ◌
  add_opener-Kept {k} {i} {t} room l =
      let (it, e, h, c) = Located-get l in
      let it' : Inode = record it { o_count = pos (suc k) } in
      (
        set t i it',
        rw (e, c) (ground arith),
        record {
          located = Located-set it' l h refl;
          others = λ m j ne d. Counted-set it' d l ne h;
        },
      )

  pub Kept-then : {k j i : ℕ} {t u v : FileTable} → Kept n k i t u → Kept n j i u v → Kept n j i t v
  Kept-then a b = record {
    located = b.located;
    others = λ m l ne c. b.others m l ne (a.others m l ne c);
  }

module _ (libc : Libc) (n : ℤ) (owner : CString) (h : Host) (size : ℤ)
    (sized : file_size libc (libc.rand h.draws) (libc.rand (h.draws + 1)) ≡ ok size) where
  abbrev fresh : Inode
  fresh = record {
    id = n;
    o_count = pos 0;
    mode = 454;
    last_accessed = negsuc 0;
    last_modified = negsuc 0;
    size = size;
  }

  abbrev logged : Host
  logged = io_fs_log libc owner n io_log_fs_f_open (record h { draws = h.draws + 2 })

  abbrev posted : Host
  posted = record logged { io_mutex = logged.io_mutex + 1 }

  opens_at_end :
      (t : FileTable) → fs_open_request libc t owner n h ≡ ok (list_add t fresh, length t, posted)
  unfolding fs_open_request inode_create
  opens_at_end t = rw sized refl

  fresh-Kept : {t : FileTable} → Counted n 0 t → Kept n 0 (length t) t (list_add t fresh)
  fresh-Kept c = record {
    located = Located-append fresh c (eq_ℤ_refl n) refl;
    others = λ m j ne d. Counted-append fresh d ne;
  }

  pub find_or_open-Kept :
      {k : ℕ} {t : FileTable} (set_time : ℤ → Inode → Inode)
      → ((time : ℤ) → Keeps (set_time time))
      → Counted n k t
      → Returns (λ r. Kept n k r.1 t r.0) (find_or_open libc set_time t owner n h)
  unfolding find_or_open
  find_or_open-Kept {k = zero} {t} set_time keep c =
      let kept = fresh-Kept c in
      let (timed, e, kept') =
        change_inode-Kept (set_time (stamp libc posted)) (keep (stamp libc posted)) kept.located in
      (
        (timed, length t, stamped posted),
        rw (find_or_open, find-absent c, opens_at_end t, e),
        Kept-then kept kept',
      )
  find_or_open-Kept {k = suc k} {t} set_time keep c =
      let (i, e, l) = find-found c in
      ((t, i, h), rw (find_or_open, e), record { located = l; others = λ m j ne d. d })
