-- ===== src/Tests/FileTests.antt =====
-- Requests for a file, by one of two processes, and the closing of the files of a process.
use ribabari.Prelude.{
  ◌≡◌, refl, some, none, [], ◌∷◌, arith, ◌==◌, if◌then◌else◌, ℤ, pos, negsuc, eq_ℤ, Returns, ok,
  ◌*ℤ◌, ◌+ℤ◌, Bool-cases, inl, inr,
}
use ribabari.Process.{Process, Store, running, ready, Points, has_opened_file, mem_file}
use ribabari.File.{Inode, FileTable, fs_read_request, file_size}
use ribabari.File.Active.{absent, found, behind}
use ribabari.File.Openers.{IsActive}
use ribabari.File.Requests.{HasOpen, Touched, fs_read_request-IsActive}
use ribabari.Disk.{inode_number}
use ribabari.Tests.Data.{job, libc, host}

abbrev inode : ℤ → ℤ → Inode
inode id o_count = record {
  id = id;
  o_count = o_count;
  mode = 454;
  last_accessed = negsuc 0;
  last_modified = negsuc 0;
  size = pos 807;
}

-- The first process has the file 7589 open.
abbrev pub reader : Process
reader = record (job 1 running) { o_files = pos 7589 ∷ [] }

abbrev pub readers : Store
readers q = if q == 1 then some reader else if q == 2 then some (job 2 ready) else none

pub Points-reader : Points readers 1 reader
Points-reader = ground arith

Points-second : Points readers 2 (job 2 ready)
Points-second = ground arith

abbrev pub active : FileTable
active = inode (pos 7589) (pos 1) ∷ []

pub active-IsActive : IsActive (1 ∷ 2 ∷ []) readers active
unfolding has_opened_file mem_file
active-IsActive n = elim (Bool-cases (eq_ℤ (pos 7589) n)) [
  | inl e ↦ rw e (found e refl absent)
  | inr e ↦ rw e (behind e absent)
]

numbered : inode_number (pos 8) ≡ ok (pos 7589)
unfolding inode_number ◌*ℤ◌ ◌+ℤ◌
numbered = refl

sized : file_size libc 7 7 ≡ ok (pos 807)
unfolding file_size ◌+ℤ◌
sized = refl

fs_read_request-IsActive_example :
    Returns
      (λ r.
        IsActive (1 ∷ 2 ∷ []) r.1 r.0
        × HasOpen r.1 2 (pos 7589)
        × Touched readers 2 (job 2 ready) (pos 7589) r.1)
      (fs_read_request libc active 2 (pos 8) readers host)
fs_read_request-IsActive_example =
    fs_read_request-IsActive libc (1 ∷ 2 ∷ []) readers 2 (job 2 ready) (pos 8) (pos 7589) (pos 807)
      host Points-second refl (omega arith) numbered sized active active-IsActive
