-- ===== src/Terminal/Refresh.antt =====
-- The three views of terminal/terminal.c that share the loop of Terminal.Reader: the disk view and the view of
-- the resource acquisitions write their title before the inner loop, the I/O view after each entry.
use ribabari.Prelude.{ℕ, Run, ok}
use ribabari.Log.{DiskLogInfo, DiskGeneralLog, IoLogInfo, IoGeneralLog, ResAcqLog}
use ribabari.Semaphore.{SemaphoreTable}
use ribabari.Terminal.Lines.{disk_line, io_line, res_acq_line}
use ribabari.Terminal.Titles.{
  Title, refresh_disk_window_title, refresh_io_title_window, refresh_res_acq_window_title,
}
use ribabari.Terminal.Reader.{LogView, Loop, view_step}

abbrev pub DiskView : Type 0
DiskView = LogView DiskLogInfo DiskGeneralLog Title

abbrev pub IoView : Type 0
IoView = LogView IoLogInfo IoGeneralLog Title

abbrev pub ResAcqView : Type 0
ResAcqView = LogView ResAcqLog SemaphoreTable Title

abbrev pub disk_loop : ℕ → Loop DiskLogInfo DiskGeneralLog Title
disk_loop cols = record {
  line = disk_line;
  on_round = λ g title. refresh_disk_window_title cols g;
  on_entry = λ g title. ok title;
}

abbrev pub refresh_disk_log : ℕ → DiskView → Run DiskView
refresh_disk_log cols = view_step (disk_loop cols)

abbrev pub io_loop : ℕ → Loop IoLogInfo IoGeneralLog Title
io_loop cols = record {
  line = io_line;
  on_round = λ g title. ok title;
  on_entry = λ g title. refresh_io_title_window cols g;
}

abbrev pub refresh_io_log : ℕ → IoView → Run IoView
refresh_io_log cols = view_step (io_loop cols)

abbrev pub res_acq_loop : ℕ → Loop ResAcqLog SemaphoreTable Title
res_acq_loop cols = record {
  line = res_acq_line;
  on_round = λ table title. refresh_res_acq_window_title cols table;
  on_entry = λ table title. ok title;
}

abbrev pub refresh_res_acq_log : ℕ → ResAcqView → Run ResAcqView
refresh_res_acq_log cols = view_step (res_acq_loop cols)
