-- ===== src/File/Openers.antt =====
-- How many processes have a file open, by their lists `o_files`.
use ribabari.Prelude.{
  ℕ, inl, inr, ==-cases, ◌≡◌, refl, true, ◌||◌, Option, some, none, List, [], ◌∷◌, arith, ℤ, eq_ℤ,
  eq_of_parts, length, ◌≤◌, ◌+◌, count, if◌then◌else◌,
}
use ribabari.LinkedList.{list_add}
use ribabari.Process.{Ptr, Process, Store, write, has_opened_file, mem_file}
use ribabari.File.{FileTable}
use ribabari.File.Active.{Counted}

abbrev pub opens : Option Process → ℤ → ℕ
opens none n = 0
opens (some c) n = if has_opened_file c n then 1 else 0

-- The number of the processes `ps` that have the file `n` open.
abbrev pub openers : List Ptr → Store → ℤ → ℕ
openers [] s n = 0
openers (p ∷ ps) s n = opens (s p) n + openers ps s n

-- Every file is counted as often as processes have it open: no inode is missing, left over or doubled.
abbrev pub IsActive : List Ptr → Store → FileTable → Type 0
IsActive ps s t = (n : ℤ) → Counted n (openers ps s n) t

opens-le : (o : Option Process) (n : ℤ) → opens o n ≤ 1
opens-le none n = omega arith
opens-le (some c) n = ground arith

pub openers-le : (ps : List Ptr) (s : Store) (n : ℤ) → openers ps s n ≤ length ps
openers-le [] s n = omega arith
openers-le (p ∷ ps) s n = omega (arith, opens-le (s p) n, openers-le ps s n)

openers-absent :
    (ps : List Ptr) (s : Store) (p : Ptr) (d : Option Process) (n : ℤ)
    → count p ps ≡ 0
    → openers ps (write s p d) n ≡ openers ps s n
unfolding write
openers-absent [] s p d n h = refl
openers-absent (q ∷ ps) s p d n h = ground (arith, openers-absent ps s p d n)

-- One process of the list changes.
pub openers-write :
    (ps : List Ptr) (s : Store) (p : Ptr) (d : Option Process) (n : ℤ)
    → count p ps ≡ 1
    → openers ps (write s p d) n + opens (s p) n ≡ openers ps s n + opens d n
unfolding write
openers-write [] s p d n h = absurd (omega (arith, h))
openers-write (q ∷ ps) s p d n h = elim (==-cases q p) [
  | inl e ↦ ground (arith, openers-absent ps s p d n)
  | inr e ↦ ground (arith, openers-write ps s p d n)
]

pub opens-le_openers :
    (ps : List Ptr) (s : Store) (p : Ptr) (n : ℤ) → count p ps ≡ 1 → opens (s p) n ≤ openers ps s n
opens-le_openers [] s p n h = absurd (omega (arith, h))
opens-le_openers (q ∷ ps) s p n h = elim (==-cases q p) [
  | inl e ↦ ground arith
  | inr e ↦ ground (arith, opens-le_openers ps s p n)
]

mem_file-append : (xs : List ℤ) (n m : ℤ) → mem_file (list_add xs n) m ≡ (mem_file xs m || eq_ℤ n m)
unfolding mem_file
mem_file-append [] n m = ground arith
mem_file-append (x ∷ xs) n m = rw (mem_file-append xs n m) (ground arith)

pub has_opened_file-add :
    (c : Process) (n m : ℤ)
    → has_opened_file (record c { o_files = list_add c.o_files n }) m
      ≡ (has_opened_file c m || eq_ℤ n m)
unfolding has_opened_file
has_opened_file-add c n m = mem_file-append c.o_files n m

pub eq_ℤ-path : (n m : ℤ) → eq_ℤ n m ≡ true → n ≡ m
eq_ℤ-path n m h = eq_of_parts n m (ground arith)
