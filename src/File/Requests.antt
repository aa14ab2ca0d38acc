-- ===== src/File/Requests.antt =====
-- fs_read_request and fs_write_request of file/file.c keep the counts of the active inodes.
use ribabari.Prelude.{
  ℕ, zero, suc, ◌≡◌, ◌⊎◌, refl, true, false, some, List, arith, ℤ, eq_ℤ, length, ◌<◌, ◌≤◌, ◌+◌,
  count, sym, Returns, Run, ok, ◌>>=◌, int_max, inl, inr, Bool-cases, subst,
}
use ribabari.LinkedList.{list_add}
use ribabari.Process.{
  Ptr, Process, Store, write, has_opened_file, Points, Points-load, Points-write,
}
use ribabari.Log.{Libc, Host}
use ribabari.Disk.{inode_number}
use ribabari.File.{
  Inode, FileTable, file_size, find_or_open, note_opened, change_inode, accessed, modified, stamp,
  stamped, fs_read_request, fs_write_request,
}
use ribabari.File.Active.{Counted, Located, Kept, Located-Counted}
use ribabari.File.Steps.{Keeps, change_inode-Kept, add_opener-Kept, find_or_open-Kept, Kept-then}
use ribabari.File.Openers.{
  openers, IsActive, openers-le, openers-write, opens-le_openers, has_opened_file-add, eq_ℤ-path,
}

-- The process at `p` has the file `n` open.
abbrev pub HasOpen : Store → Ptr → ℤ → Type 0
HasOpen s p n = (d : Process) × Points s p d × (has_opened_file d n ≡ true)

abbrev pub opened_by : Process → ℤ → Process
opened_by c n = record c { o_files = list_add c.o_files n }

-- The heap is as before, or differs in the process's list of open files only.
abbrev pub Touched : Store → Ptr → Process → ℤ → Store → Type 0
Touched s p c n s' = (s' ≡ s) ⊎ (s' ≡ write s p (some (opened_by c n)))

module _ (ps : List Ptr) (s : Store) (p : Ptr) (c : Process) (n : ℤ) (here : Points s p c)
    (listed : count p ps ≡ 1) (few : length ps < int_max) where
  -- After the process is noted, the counts are those of the new store.
  abbrev Noted : (i : ℕ) → FileTable → FileTable × Store → Type 0
  Noted i t r =
      (k : ℕ) × Kept n (suc k) i t r.0
      × (openers ps r.1 n ≡ suc k)
      × HasOpen r.1 p n
      × Touched s p c n r.1
      × ((m : ℤ) → eq_ℤ n m ≡ false → openers ps r.1 m ≡ openers ps s m)

  openers_self :
      has_opened_file c n ≡ false
      → openers ps (write s p (some (opened_by c n))) n ≡ suc (openers ps s n)
  openers_self h = ground (
    arith,
    here.holds,
    openers-write ps s p (some (opened_by c n)) n listed,
    has_opened_file-add c n n,
  )

  openers-other :
      (m : ℤ) → eq_ℤ n m ≡ false → openers ps (write s p (some (opened_by c n))) m ≡ openers ps s m
  openers-other m ne = ground (
    arith,
    here.holds,
    openers-write ps s p (some (opened_by c n)) m listed,
    has_opened_file-add c n m,
  )

  -- note_opened either finds the file in the process's list, or counts the process and lists the file.
  note_opened-Noted :
      {i : ℕ} {t : FileTable}
      → Located n (openers ps s n) i t
      → Returns (Noted i t) (note_opened p c n i t s)
  unfolding note_opened
  note_opened-Noted {i} {t} l = elim (Bool-cases (has_opened_file c n)) [
    | inl e ↦
        let some_open : 1 ≤ openers ps s n =
          ground (arith, here.holds, opens-le_openers ps s p n listed) in
        let (k, count_is) = predecessor (openers ps s n) some_open in
        (
          (t, s),
          rw e refl,
          (
            k,
            record { located = subst (λ j. Located n j i t) count_is l; others = λ m j ne d. d },
            count_is,
            (c, here, e),
            inl refl,
            λ m ne. refl,
          ),
        )
    | inr e ↦
        let (t', eq, kept) = add_opener-Kept (omega (arith, few, openers-le ps s n)) l in
        (
          (t', write s p (some (opened_by c n))),
          rw (e, eq),
          (
            openers ps s n,
            kept,
            openers_self e,
            (
              opened_by c n,
              Points-write (opened_by c n) here,
              ground (arith, has_opened_file-add c n n),
            ),
            inr refl,
            openers-other,
          ),
        )
  ]
    where
      predecessor : (k : ℕ) → 1 ≤ k → (j : ℕ) × (k ≡ suc j)
      predecessor zero h = elim h [ ]
      predecessor (suc j) h = (j, refl)

  Kept-IsActive :
      {i k : ℕ} {t t' : FileTable} (s' : Store)
      → IsActive ps s t
      → Kept n (suc k) i t t'
      → openers ps s' n ≡ suc k
      → ((m : ℤ) → eq_ℤ n m ≡ false → openers ps s' m ≡ openers ps s m)
      → IsActive ps s' t'
  Kept-IsActive {t' = t'} s' active kept counts same m = elim (Bool-cases (eq_ℤ n m)) [
    | inl e ↦
        subst (λ z. Counted z (openers ps s' z) t') (eq_ℤ-path n m e)
          (subst (λ j. Counted n j t') (sym counts) (Located-Counted kept.located))
    | inr e ↦
        subst (λ j. Counted m j t') (sym (same m e)) (kept.others m (openers ps s m) e (active m))
  ]

  -- The common part of both requests: the inode is found or opened, the process noted, a time set.
  abbrev touch :
      Libc
      → (ℤ → Inode → Inode)
      → (ℤ → Inode → Inode)
      → FileTable
      → Host
      → Run (FileTable × Store × Host)
  touch libc at_open at_end t h = do
    (found, i, h1) ← find_or_open libc at_open t c.name n h
    (counted, s1) ← note_opened p c n i found s
    timed ← change_inode (at_end (stamp libc h1)) i counted
    ok (timed, s1, stamped h1)

  touch-IsActive :
      (libc : Libc) (at_open at_end : ℤ → Inode → Inode) (t : FileTable) (h : Host) (size : ℤ)
      → ((time : ℤ) → Keeps (at_open time))
      → ((time : ℤ) → Keeps (at_end time))
      → file_size libc (libc.rand h.draws) (libc.rand (h.draws + 1)) ≡ ok size
      → IsActive ps s t
      → Returns
          (λ r. IsActive ps r.1 r.0 × HasOpen r.1 p n × Touched s p c n r.1)
          (touch libc at_open at_end t h)
  touch-IsActive libc at_open at_end t h size keep keep' sized active =
      let ((found, i, h1), e1, first) =
        find_or_open-Kept libc n c.name h size sized at_open keep (active n) in
      let ((counted, s1), e2, (k, second, counts, has_open, touched, same)) =
        note_opened-Noted first.located in
      let (timed, e3, third) =
        change_inode-Kept (at_end (stamp libc h1)) (keep' (stamp libc h1)) second.located in
      let kept = Kept-then first (Kept-then second third) in
      (
        (timed, s1, stamped h1),
        rw (e1, e2, e3),
        (Kept-IsActive s1 active kept counts same, has_open, touched),
      )

module _ (libc : Libc) (ps : List Ptr) (s : Store) (p : Ptr) (c : Process) (block n : ℤ) (size : ℤ)
    (h : Host) (here : Points s p c) (listed : count p ps ≡ 1) (few : length ps < int_max)
    (numbered : inode_number block ≡ ok n)
    (sized : file_size libc (libc.rand h.draws) (libc.rand (h.draws + 1)) ≡ ok size) where
  -- Let the inodes count exactly the processes of a list that have each file open, and let the
  -- process be in the list once and the list be shorter than INT_MAX. If the inode number of the
  -- block and the size that a new inode would draw are `int`s, a read request returns; the inodes
  -- count the processes as exactly as before, each file has at most one inode, the process has the
  -- file of the block open, and nothing else changed in the heap.
  pub fs_read_request-IsActive :
      (t : FileTable)
      → IsActive ps s t
      → Returns
          (λ r. IsActive ps r.1 r.0 × HasOpen r.1 p n × Touched s p c n r.1)
          (fs_read_request libc t p block s h)
  unfolding fs_read_request
  fs_read_request-IsActive t active =
      rw (numbered, Points-load here)
        (touch-IsActive ps s p c n here listed few libc modified accessed t h size
          (λ time it. (refl, refl)) (λ time it. (refl, refl)) sized active)

  -- Let the inodes count exactly the processes of a list that have each file open, and let the
  -- process be in the list once and the list be shorter than INT_MAX. If the inode number of the
  -- block and the size that a new inode would draw are `int`s, a write request returns; the inodes
  -- count the processes as exactly as before, each file has at most one inode, the process has the
  -- file of the block open, and nothing else changed in the heap.
  pub fs_write_request-IsActive :
      (t : FileTable)
      → IsActive ps s t
      → Returns
          (λ r. IsActive ps r.1 r.0 × HasOpen r.1 p n × Touched s p c n r.1)
          (fs_write_request libc t p block s h)
  unfolding fs_write_request
  fs_write_request-IsActive t active =
      rw (numbered, Points-load here)
        (touch-IsActive ps s p c n here listed few libc accessed modified t h size
          (λ time it. (refl, refl)) (λ time it. (refl, refl)) sized active)
