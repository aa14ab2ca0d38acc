-- ===== src/File/Active.antt =====
-- What the list of active inodes says of a file, and how the steps of file/file.c change it.
use ribabari.Prelude.{
  ℕ, suc, ◌≡◌, refl, true, false, some, none, [], ◌∷◌, arith, ℤ, pos, eq_ℤ, length, get_elem?, set,
}
use ribabari.LinkedList.{list_add}
use ribabari.File.{Inode, FileTable, find_inode}

-- The file `n` is counted `k` times: it has one inode with that count, or none if the count is 0.
pub data Counted (n : ℤ) : ℕ → FileTable → Type 0 where
  absent : Counted n 0 []
  found :
      {it : Inode} {rest : FileTable} {k : ℕ}
      → eq_ℤ it.id n ≡ true
      → it.o_count ≡ pos (suc k)
      → Counted n 0 rest
      → Counted n (suc k) (it ∷ rest)
  behind :
      {it : Inode} {rest : FileTable} {k : ℕ}
      → eq_ℤ it.id n ≡ false
      → Counted n k rest
      → Counted n k (it ∷ rest)

-- The only inode of the file `n` stands at a position, with the count `k`, which may be 0.
pub data Located (n : ℤ) : (k i : ℕ) → FileTable → Type 0 where
  at :
      {it : Inode} {rest : FileTable} {k : ℕ}
      → eq_ℤ it.id n ≡ true
      → it.o_count ≡ pos k
      → Counted n 0 rest
      → Located n k 0 (it ∷ rest)
  past :
      {it : Inode} {rest : FileTable} {k i : ℕ}
      → eq_ℤ it.id n ≡ false
      → Located n k i rest
      → Located n k (suc i) (it ∷ rest)

module _ {n : ℤ} where
  pub find-absent : {t : FileTable} → Counted n 0 t → find_inode t n ≡ none
  unfolding find_inode
  find-absent absent = refl
  find-absent (behind h c) = rw (h, find-absent c)

  pub find-found :
      {k : ℕ} {t : FileTable}
      → Counted n (suc k) t
      → (i : ℕ) × (find_inode t n ≡ some i) × Located n (suc k) i t
  unfolding find_inode
  find-found (found h e c) = (0, rw h, at h e c)
  find-found (behind h c) = let (i, e, l) = find-found c in (suc i, rw (h, e), past h l)

  pub Located-Counted : {k i : ℕ} {t : FileTable} → Located n (suc k) i t → Counted n (suc k) t
  Located-Counted (at h e c) = found h e c
  Located-Counted (past h l) = behind h (Located-Counted l)

  pub Located-get :
      {k i : ℕ} {t : FileTable}
      → Located n k i t
      → (it : Inode) × (get_elem? t i ≡ some it) × (eq_ℤ it.id n ≡ true) × (it.o_count ≡ pos k)
  Located-get (at {it} h e c) = (it, refl, h, e)
  Located-get (past h l) = Located-get l

  pub Located-append :
      {t : FileTable} (it : Inode)
      → Counted n 0 t
      → eq_ℤ it.id n ≡ true
      → it.o_count ≡ pos 0
      → Located n 0 (length t) (list_add t it)
  Located-append it absent h e = at h e absent
  Located-append it (behind g c) h e = past g (Located-append it c h e)

  pub Located-set :
      {j k i : ℕ} {t : FileTable} (it : Inode)
      → Located n j i t
      → eq_ℤ it.id n ≡ true
      → it.o_count ≡ pos k
      → Located n k i (set t i it)
  Located-set it (at g d c) h e = at h e c
  Located-set it (past g l) h e = past g (Located-set it l h e)

  pub Counted-append :
      {k : ℕ} {t : FileTable} (it : Inode)
      → Counted n k t
      → eq_ℤ it.id n ≡ false
      → Counted n k (list_add t it)
  Counted-append it absent h = behind h absent
  Counted-append it (found g d c) h = found g d (Counted-append it c h)
  Counted-append it (behind g c) h = behind g (Counted-append it c h)

  -- A change of another file's inode.
  pub Counted-set :
      {k i : ℕ} {t : FileTable} {m : ℤ} {j : ℕ} (it : Inode)
      → Counted n k t
      → Located m j i t
      → eq_ℤ m n ≡ false
      → eq_ℤ it.id m ≡ true
      → Counted n k (set t i it)
  Counted-set it absent l h e = elim l [ ]
  Counted-set it (found g d c) (at g' d' c') h e = absurd (ground arith)
  Counted-set it (found g d c) (past g' l) h e = found g d (Counted-set it c l h e)
  Counted-set it (behind g c) (at g' d' c') h e = behind (ground arith) c
  Counted-set it (behind g c) (past g' l) h e = behind g (Counted-set it c l h e)

-- The inode of `n` at `i` counts `k` processes, and every other file is counted as before.
pub record Kept (n : ℤ) (k i : ℕ) (before after : FileTable) : Type 0 where
  pub located : Located n k i after
  pub others : (m : ℤ) (j : ℕ) → eq_ℤ n m ≡ false → Counted m j before → Counted m j after
