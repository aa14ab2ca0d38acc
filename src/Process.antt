-- ===== src/Process.antt =====
-- process/process.h and the parts of process/process.c that read a process: the PCB record, the
-- heap of processes that the pointers of all queues share, `proc_cmp` and `has_opened_file`.
pub mod Update
use ribabari.Prelude.{
  ℕ, ◌≡◌, ◌≢◌, Bool, true, false, ◌||◌, Option, none, some, List, [], ◌∷◌, arith, ◌==◌,
  if◌then◌else◌, ℤ, eq_ℤ, Run, ok, fault, ◌>>=◌, or_fault, refl, ap, Bool-cases, ok-inj, inl, inr,
}

-- A pointer to a process. `null` is NULL.
abbrev pub Ptr : Type 0
Ptr = ℕ

abbrev pub null : Ptr
null = 0

-- A C string: its bytes before the terminator.
abbrev pub CString : Type 0
CString = List ℕ

unfoldable pub strcmp_eq : CString → CString → Bool
strcmp_eq [] [] = true
strcmp_eq [] (b ∷ bs) = false
strcmp_eq (a ∷ as') [] = false
strcmp_eq (a ∷ as') (b ∷ bs) = let rest = strcmp_eq as' bs in if a == b then rest else false

pub data ProcessState : Type 0 where
  new blocked ready running terminated : ProcessState

-- `semaphores` is `none` while the field has not been set.
pub record Process : Type 0 where
  pub name : CString
  pub id : ℕ
  pub pc : ℕ
  pub code_len : ℕ
  pub seg_id : ℤ
  pub seg_size : ℤ
  pub priority : ℤ
  pub remaining : ℤ
  pub state : ProcessState
  pub o_files : List ℤ
  pub semaphores : Option (List CString)

-- The processes by address; `none` where there is none, or none any more.
abbrev pub Store : Type 0
Store = Ptr → Option Process

unfoldable pub write : Store → Ptr → Option Process → Store
write s p c q = if q == p then c else s q

-- `*p`, a fault at NULL and at an address that holds no process.
unfoldable pub load : Store → Ptr → Run Process
load s p = if p == null then fault else or_fault (s p)

unfoldable pub proc_cmp : Store → Ptr → Ptr → Run Bool
unfolding load
proc_cmp s p1 p2 = do a ← load s p1; b ← load s p2; ok (a.id == b.id)

unfoldable pub mem_file : List ℤ → ℤ → Bool
mem_file [] inumber = false
mem_file (it ∷ rest) inumber = eq_ℤ it inumber || mem_file rest inumber

unfoldable pub has_opened_file : Process → ℤ → Bool
unfolding mem_file
has_opened_file process inumber = mem_file process.o_files inumber

-- `p` points to a live process.
pub record Points (s : Store) (p : Ptr) (c : Process) : Type 0 where
  pub ne_null : p ≢ null
  pub holds : s p ≡ some c

pub load-Points : (s : Store) (p : Ptr) (c : Process) → load s p ≡ ok c → Points s p c
unfolding load
load-Points s p c h = elim (Bool-cases (p == null)) [
  | inl e ↦ absurd (let gone = rw e at h in cc)
  | inr e ↦ record { ne_null = λ z. ground arith; holds = found (s p) (rw e at h) }
]
  where
    found : (o : Option Process) → or_fault o ≡ ok c → o ≡ some c
    found none g = cc
    found (some d) g = ap some (ok-inj d c g)

pub Points-load : {s : Store} {p : Ptr} {c : Process} → Points s p c → load s p ≡ ok c
unfolding load
Points-load h = ground arith

pub Points-write :
    {s : Store} {p : Ptr} {c : Process} (d : Process)
    → Points s p c
    → Points (write s p (some d)) p d
unfolding write
Points-write d h = ground arith

pub Points-write_ne :
    {s : Store} {q : Ptr} {c : Process} (p : Ptr) (d : Option Process)
    → p ≢ q
    → Points s q c
    → Points (write s p d) q c
unfolding write
Points-write_ne p d ne h = ground arith

pub strcmp_eq_iff : (a b : CString) → strcmp_eq a b ≡ true → a ≡ b
unfolding strcmp_eq
strcmp_eq_iff [] [] h = refl
strcmp_eq_iff [] (b ∷ bs) h = cc
strcmp_eq_iff (a ∷ as') [] h = cc
strcmp_eq_iff (a ∷ as') (b ∷ bs) h = ground (arith, strcmp_eq_iff as' bs)

pub strcmp_eq_refl : (a : CString) → strcmp_eq a a ≡ true
unfolding strcmp_eq
strcmp_eq_refl [] = refl
strcmp_eq_refl (a ∷ as') = ground (arith, strcmp_eq_refl as')
