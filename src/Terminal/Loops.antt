-- ===== src/Terminal/Loops.antt =====
-- The loops of the disk view, the I/O view and the acquisition view can write their titles for all values within the int.
use ribabari.Prelude.{ℕ, ◌/◌, ◌≤◌, ◌≡◌, refl, arith, int_max, Fits, length, length-append, ok}
use ribabari.Log.{DiskGeneralLog, IoGeneralLog}
use ribabari.Text.Numbers.{print_int, length-print_int}
use ribabari.Semaphore.{SemaphoreTable}
use ribabari.Terminal.{sem_blocked_count}
use ribabari.Terminal.Views.{all_waiters, blocked_sum}
use ribabari.Terminal.Titles.{
  Title, print_time, refresh_io_title_window, refresh_res_acq_window_title,
}
use ribabari.Terminal.TitleRoom.{sprintf_rs-ok, refresh_disk_window_title-IsApart}
use ribabari.Terminal.Refresh.{disk_loop, io_loop, res_acq_loop}

abbrev pub DiskFits : DiskGeneralLog → Type 0
DiskFits g =
    Fits g.angular_v
    × (g.r_req_count ≤ int_max)
    × (g.w_req_count ≤ int_max)
    × (g.curr_track ≤ int_max)
    × (g.pending_requests_size ≤ int_max)

pub disk_loop-on_round :
    (cols : ℕ)
    → 113 ≤ cols / 2
    → (g : DiskGeneralLog) (w : Title) → DiskFits g
    → (w' : Title) × ((disk_loop cols).on_round g w ≡ ok w')
disk_loop-on_round cols wide g w (v, r, wr, t, p) =
    let (title, e, apart) = refresh_disk_window_title-IsApart cols g wide v r wr t p in (title, e)

pub disk_loop-on_entry :
    (cols : ℕ) (g : DiskGeneralLog) (w : Title)
    → DiskFits g
    → (w' : Title) × ((disk_loop cols).on_entry g w ≡ ok w')
disk_loop-on_entry cols g w fits = (w, refl)

length-print_time : (g : IoGeneralLog) → Fits g.p_time → length (print_time g) ≤ 63
unfolding print_time
length-print_time g fits =
    rw (length-append (print_int g.p_time)) (omega (arith, length-print_int g.p_time fits))

abbrev pub IoFits : IoGeneralLog → Type 0
IoFits g = Fits g.p_time

pub io_loop-on_round :
    (cols : ℕ) (g : IoGeneralLog) (w : Title)
    → IoFits g
    → (w' : Title) × ((io_loop cols).on_round g w ≡ ok w')
io_loop-on_round cols g w fits = (w, refl)

pub io_loop-on_entry :
    (cols : ℕ) (g : IoGeneralLog) (w : Title)
    → IoFits g
    → (w' : Title) × ((io_loop cols).on_entry g w ≡ ok w')
unfolding refresh_io_title_window
io_loop-on_entry cols g w fits =
    rw (sprintf_rs-ok (print_time g) (length-print_time g fits)) (_, refl)

abbrev pub ResAcqFits : SemaphoreTable → Type 0
ResAcqFits table = length (all_waiters table) ≤ int_max

pub res_acq_loop-on_round :
    (cols : ℕ) (table : SemaphoreTable) (w : Title)
    → ResAcqFits table
    → (w' : Title) × ((res_acq_loop cols).on_round table w ≡ ok w')
unfolding refresh_res_acq_window_title sem_blocked_count
res_acq_loop-on_round cols table w fits = rw (blocked_sum 0 table (omega (arith, fits))) (_, refl)

pub res_acq_loop-on_entry :
    (cols : ℕ) (table : SemaphoreTable) (w : Title)
    → ResAcqFits table
    → (w' : Title) × ((res_acq_loop cols).on_entry table w ≡ ok w')
res_acq_loop-on_entry cols table w fits = (w, refl)
