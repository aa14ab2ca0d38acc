-- ===== src/Kernel/Files.antt =====
-- The loop of process_finish of process/process.c that closes the files of the process.
use ribabari.Prelude.{
  ℕ, suc, ◌≡◌, refl, none, List, [], ◌∷◌, arith, ℤ, eq_ℤ, length, ◌≤◌, ◌+◌, count, if◌then◌else◌,
  Returns, int_max, inl, inr, Bool-cases, subst,
}
use ribabari.Process.{Ptr, Process, Store, CString, write, has_opened_file, mem_file, Points}
use ribabari.Log.{Libc, Host}
use ribabari.File.{FileTable}
use ribabari.File.Active.{Counted}
use ribabari.File.Openers.{openers, IsActive, openers-le, openers-write, eq_ℤ-path}
use ribabari.File.Close.{Closed, fs_close_request-Closed}
use ribabari.Kernel.Finish.{close_files}

-- How often a file stands in a list of files.
abbrev pub times : ℤ → List ℤ → ℕ
times n [] = 0
times n (it ∷ rest) = (if eq_ℤ it n then 1 else 0) + times n rest

module _ (libc : Libc) (name : CString) (left : ℤ → ℕ) where
  one_less :
      (it : ℤ) (rest : List ℤ) (t t' : FileTable)
      → ((n : ℤ) → Counted n (left n + times n (it ∷ rest)) t)
      → Closed it (left it + times it rest) t t'
      → (n : ℤ) → Counted n (left n + times n rest) t'
  one_less it rest t t' counts closed n = elim (Bool-cases (eq_ℤ it n)) [
    | inl e ↦ subst (λ m. Counted m (left m + times m rest) t') (eq_ℤ-path it n e) closed.left
    | inr e ↦
        closed.others n (left n + times n rest) e
          (subst (λ k. Counted n k t) (rw e (omega arith)) (counts n))
  ]

  closes_all :
      (fs : List ℤ) (t : FileTable) (h : Host)
      → ((n : ℤ) → left n + times n fs ≤ int_max)
      → ((n : ℤ) → Counted n (left n + times n fs) t)
      → Returns (λ r. (n : ℤ) → Counted n (left n) r.0) (close_files libc name fs t h)
  unfolding close_files
  closes_all [] t h room counts =
      ((t, h), refl, λ n. subst (λ k. Counted n k t) (omega arith) (counts n))
  closes_all (it ∷ rest) t h room counts =
      let more : left it + times it (it ∷ rest) ≡ suc (left it + times it rest) = ground arith in
      let ((t1, h1), e1, closed) =
        fs_close_request-Closed libc name it h (left it + times it rest) t
          (omega (arith, more, room it)) (subst (λ k. Counted it k t) more (counts it)) in
      let (r, e2, done) =
        closes_all rest t1 h1 (λ n. ground (arith, room n)) (one_less it rest t t1 counts closed) in
      (r, rw (e1, e2), done)

times-opens : (fs : List ℤ) (n : ℤ) → times n fs ≤ 1 → times n fs ≡ (if mem_file fs n then 1 else 0)
unfolding mem_file
times-opens [] n h = refl
times-opens (it ∷ rest) n h = ground (arith, times-opens rest n)

-- Let the inodes count exactly the processes of a list that have each file open, the list be no
-- longer than INT_MAX, and the process be in it once, with no file twice among its own. Then the
-- loop that closes the files of the process returns, and the inodes count exactly the processes
-- that are left once it is freed: inodes that nobody else has open are gone.
pub close_files-IsActive :
    (libc : Libc) (ps : List Ptr) (s : Store) (p : Ptr) (c : Process) (t : FileTable) (h : Host)
    → Points s p c
    → count p ps ≡ 1
    → length ps ≤ int_max
    → ((n : ℤ) → times n c.o_files ≤ 1)
    → IsActive ps s t
    → Returns (λ r. IsActive ps (write s p none) r.0) (close_files libc c.name c.o_files t h)
unfolding has_opened_file
close_files-IsActive libc ps s p c t h here listed few once active =
    let total : (n : ℤ) → openers ps s n ≡ openers ps (write s p none) n + times n c.o_files = λ n.
      ground
        (arith, here.holds, openers-write ps s p none n listed, times-opens c.o_files n (once n)) in
    closes_all libc c.name (openers ps (write s p none)) c.o_files t h
      (λ n. omega (arith, total n, few, openers-le ps s n))
      (λ n. subst (λ k. Counted n k t) (total n) (active n))
