-- ===== src/File.antt =====
-- file/file.c and file/file.h: the inodes of the open files, and the requests that open, touch and close
-- them. An inode is referred to by nothing but the list of the table, by its position.
pub mod Active
pub mod Steps
pub mod Openers
pub mod Requests
pub mod Close
use mathlib.Core.Option
use ribabari.Prelude.{
  ℕ, suc, ◌+◌, ◌*◌, ◌%◌, Option, none, some, List, [], ◌∷◌, ◌==◌, if◌then◌else◌, bit_or, ℤ, pos,
  negsuc, ◌+ℤ◌, ◌-ℤ◌, eq_ℤ, int, Run, ok, fault, ◌>>=◌, or_fault, get_elem?, set, length,
}
use ribabari.LinkedList.{list_add}
use ribabari.Process.{Ptr, Process, Store, CString, load, write, has_opened_file}
use ribabari.Log.{Libc, Host, io_fs_log, io_log_fs_f_open, io_log_fs_f_close}
use ribabari.Disk.{inode_number}

-- The permissions of the owner and of the others that a new inode has.
abbrev pub f_perm_owner_r : ℕ
f_perm_owner_r = 256

abbrev pub f_perm_owner_w : ℕ
f_perm_owner_w = 128

abbrev pub f_perm_owner_x : ℕ
f_perm_owner_x = 64

abbrev pub f_perm_other_r : ℕ
f_perm_other_r = 4

abbrev pub f_perm_other_w : ℕ
f_perm_other_w = 2

pub record Inode : Type 0 where
  pub id : ℤ
  pub o_count : ℤ
  pub mode : ℕ
  pub last_accessed : ℤ
  pub last_modified : ℤ
  pub size : ℤ

-- `ilist_t` and `file_table_t`; the program never reads or sets `next_inode_id`.
abbrev pub FileTable : Type 0
FileTable = List Inode

unfoldable pub ilist_create : List Inode
ilist_create = []

unfoldable pub file_table_init : FileTable
unfolding ilist_create
file_table_init = ilist_create

-- `(100 * (1 + (rand() % 10))) + (rand() % RAND_MAX)`, in `int` arithmetic, from the two values drawn.
unfoldable pub file_size : Libc → ℕ → ℕ → Run ℤ
file_size libc r1 r2 =
    if libc.rand_max == 0
    then fault
    else int (pos (100 * (1 + r1 % 10)) +ℤ pos (r2 % libc.rand_max))

unfoldable pub inode_create : Libc → ℤ → Host → Run (Inode × Host)
inode_create libc id h = do
  size ← file_size libc (libc.rand h.draws) (libc.rand (h.draws + 1))
  ok (
    record {
      id = id;
      o_count = pos 0;
      mode =
          bit_or
            (bit_or (bit_or (bit_or f_perm_owner_r f_perm_owner_w) f_perm_owner_x) f_perm_other_r)
            f_perm_other_w;
      last_accessed = negsuc 0;
      last_modified = negsuc 0;
      size = size;
    },
    record h { draws = h.draws + 2 },
  )

-- The position of the inode with a number; `none` is NULL.
unfoldable pub find_inode : FileTable → ℤ → Option ℕ
find_inode [] inumber = none
find_inode (it ∷ rest) inumber =
    if eq_ℤ it.id inumber then some 0 else Option.map suc (find_inode rest inumber)

-- A change of the inode at a position.
unfoldable pub change_inode : (Inode → Inode) → ℕ → FileTable → Run FileTable
change_inode f i inodes = do inode ← or_fault (get_elem? inodes i); ok (set inodes i (f inode))

-- A new inode at the end of the list, and its position.
unfoldable pub fs_open_request : Libc → FileTable → CString → ℤ → Host → Run (FileTable × ℕ × Host)
fs_open_request libc inodes owner inumber h = do
  (inode, h1) ← inode_create libc inumber h
  let h2 = io_fs_log libc owner inumber io_log_fs_f_open h1
  ok (list_add inodes inode, length inodes, record h2 { io_mutex = h2.io_mutex + 1 })

-- `time(&field)`.
abbrev pub stamp : Libc → Host → ℤ
stamp libc h = libc.time h.readings

abbrev pub stamped : Host → Host
stamped h = record h { readings = h.readings + 1 }

abbrev pub accessed : ℤ → Inode → Inode
accessed t inode = record inode { last_accessed = t }

abbrev pub modified : ℤ → Inode → Inode
modified t inode = record inode { last_modified = t }

-- The active inode, or a new one with one of its times set.
unfoldable pub find_or_open :
    Libc → (ℤ → Inode → Inode) → FileTable → CString → ℤ → Host → Run (FileTable × ℕ × Host)
find_or_open libc set_time inodes owner inumber h = elim (find_inode inodes inumber) [
  | some i ↦ ok (inodes, i, h)
  | none ↦ (do
    (opened, i, h1) ← fs_open_request libc inodes owner inumber h
    timed ← change_inode (set_time (stamp libc h1)) i opened
    ok (timed, i, stamped h1))
]

-- `inode->o_count++`.
unfoldable pub add_opener : ℕ → FileTable → Run FileTable
add_opener i inodes = do
  inode ← or_fault (get_elem? inodes i)
  o_count ← int (inode.o_count +ℤ pos 1)
  ok (set inodes i (record inode { o_count = o_count }))

-- A process that has not opened the file before is counted, and remembers it.
unfoldable pub note_opened : Ptr → Process → ℤ → ℕ → FileTable → Store → Run (FileTable × Store)
note_opened p c inumber i inodes s = if has_opened_file c inumber then ok (inodes, s) else (do
  counted ← add_opener i inodes
  ok (counted, write s p (some (record c { o_files = list_add c.o_files inumber }))))

unfoldable pub fs_read_request :
    Libc → FileTable → Ptr → ℤ → Store → Host → Run (FileTable × Store × Host)
fs_read_request libc inodes process block s h = do
  inumber ← inode_number block
  c ← load s process
  (found, i, h1) ← find_or_open libc modified inodes c.name inumber h
  (counted, s1) ← note_opened process c inumber i found s
  timed ← change_inode (accessed (stamp libc h1)) i counted
  ok (timed, s1, stamped h1)

unfoldable pub fs_write_request :
    Libc → FileTable → Ptr → ℤ → Store → Host → Run (FileTable × Store × Host)
fs_write_request libc inodes process block s h = do
  inumber ← inode_number block
  c ← load s process
  (found, i, h1) ← find_or_open libc accessed inodes c.name inumber h
  (counted, s1) ← note_opened process c inumber i found s
  timed ← change_inode (modified (stamp libc h1)) i counted
  ok (timed, s1, stamped h1)

-- One process less has the file open; with the last one the inode goes.
unfoldable pub fs_close_request : Libc → FileTable → CString → ℤ → Host → Run (FileTable × Host)
fs_close_request libc [] name inumber h = ok ([], h)
fs_close_request libc (it ∷ rest) name inumber h =
    let here = (do
      o_count ← int (it.o_count -ℤ pos 1)
      let logged = io_fs_log libc name inumber io_log_fs_f_close h
      if eq_ℤ o_count (pos 0)
          then ok (rest, record logged { io_mutex = logged.io_mutex + 1 })
          else ok (record it { o_count = o_count } ∷ rest, h)) in
    let further = (do
      (rest', h') ← fs_close_request libc rest name inumber h
      ok (it ∷ rest', h')) in
    if eq_ℤ it.id inumber then here else further
