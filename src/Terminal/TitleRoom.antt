-- ===== src/Terminal/TitleRoom.antt =====
-- The room for the title bars: the buffers that sprintf writes, and the columns of the texts.
use ribabari.Prelude.{
  ℕ, ◌/◌, ◌≤◌, ◌≡◌, refl, [], ◌∷◌, arith, if◌then◌else◌, ℤ, pos, ◌-ℤ◌, ◌+ℤ◌, ◌≤ℤ◌, int_max, Bool,
  true, false, Fits, length, length-append, ok, Returns,
}
use ribabari.Process.{CString}
use ribabari.Log.{DiskGeneralLog}
use ribabari.Text.Numbers.{print_int, length-print_int}
use ribabari.Terminal.Format.{codes}
use ribabari.Terminal.Titles.{
  Title, sprintf_rs, title_column, disk_rates, disk_arm, refresh_disk_window_title,
}

pub sprintf_rs-ok : (text : CString) → length text ≤ 63 → sprintf_rs text ≡ ok text
unfolding sprintf_rs
sprintf_rs-ok text h = ground arith

-- A text ends so many columns before the width.
abbrev EndsAt : ℕ → ℕ → (ℤ × CString) → Type 0
EndsAt width gap (column, text) = column +ℤ pos (length text) +ℤ pos gap ≡ pos width

-- A text ends before the column of another.
abbrev LeftOf : (ℤ × CString) → (ℤ × CString) → Type 0
LeftOf (column, text) (column', text') = column +ℤ pos (length text) ≤ℤ column'

-- What the bar of the disk holds: the state of the arm, the rates at the right border, the title between.
abbrev pub IsApart : ℕ → Title → Type 0
IsApart width title =
    (left mid right : ℤ × CString) × (title ≡ left ∷ right ∷ mid ∷ [])
    × LeftOf left mid
    × LeftOf mid right
    × EndsAt width 1 right

right_end :
    (width gap : ℕ) (text : CString)
    → EndsAt width gap (pos width -ℤ pos (length text) -ℤ pos gap, text)
unfolding ◌+ℤ◌ ◌-ℤ◌
right_end width gap text = ground arith

module _ (g : DiskGeneralLog) where
  length-disk_rates :
      Fits g.angular_v
      → g.r_req_count ≤ int_max
      → g.w_req_count ≤ int_max
      → length (disk_rates g) ≤ 51
  unfolding disk_rates
  length-disk_rates v r w =
      rw
        (
          length-append (print_int g.angular_v),
          length-append (print_int (pos g.r_req_count)),
          length-append (print_int (pos g.w_req_count)),
        )
        (omega (
          arith,
          length-print_int g.angular_v v,
          length-print_int (pos g.r_req_count) (omega arith, omega arith),
          length-print_int (pos g.w_req_count) (omega arith, omega arith),
        ))

  length-disk_arm :
      g.curr_track ≤ int_max → g.pending_requests_size ≤ int_max → length (disk_arm g) ≤ 47
  unfolding disk_arm
  length-disk_arm t p =
      rw
        (
          length-append (if g.forward_dir then codes "F" else codes "B"),
          length-append (print_int (pos g.curr_track)),
          length-append (print_int (pos g.pending_requests_size)),
        )
        (omega (
          arith,
          length_dir g.forward_dir,
          length-print_int (pos g.curr_track) (omega arith, omega arith),
          length-print_int (pos g.pending_requests_size) (omega arith, omega arith),
        ))
    where
      length_dir : (b : Bool) → length (if b then codes "F" else codes "B") ≡ 1
      length_dir true = refl
      length_dir false = refl

middle-apart :
    (width : ℕ) (left right : CString)
    → length left ≤ 47
    → length right ≤ 51
    → 113 ≤ width
    → LeftOf (pos 1, left) (title_column width (codes "Disk View"), codes "Disk View")
      × LeftOf
          (title_column width (codes "Disk View"), codes "Disk View")
          (pos width -ℤ pos (length right) -ℤ pos 1, right)
unfolding title_column ◌+ℤ◌ ◌-ℤ◌
middle-apart width left right l r w = (ground arith, ground arith)

-- In a window at least 113 columns wide, the title bar of the disk is written for all counters within the
-- int: sprintf stays in its buffer, no text overlaps another, and the last ends before the border.
pub refresh_disk_window_title-IsApart :
    (cols : ℕ) (g : DiskGeneralLog)
    → 113 ≤ cols / 2
    → Fits g.angular_v
    → g.r_req_count ≤ int_max
    → g.w_req_count ≤ int_max
    → g.curr_track ≤ int_max
    → g.pending_requests_size ≤ int_max
    → Returns (IsApart (cols / 2)) (refresh_disk_window_title cols g)
unfolding refresh_disk_window_title
refresh_disk_window_title-IsApart cols g wide v r w t p =
    let rates = length-disk_rates g v r w in
    let (before, behind) =
      middle-apart (cols / 2) (disk_arm g) (disk_rates g) (length-disk_arm g t p) rates wide in
    (
      (pos 1, disk_arm g)
          ∷ (pos (cols / 2) -ℤ pos (length (disk_rates g)) -ℤ pos 1, disk_rates g)
          ∷ (title_column (cols / 2) (codes "Disk View"), codes "Disk View")
          ∷ [],
      rw (sprintf_rs-ok (disk_rates g) (omega (arith, rates))) refl,
      (
        (pos 1, disk_arm g),
        (title_column (cols / 2) (codes "Disk View"), codes "Disk View"),
        (pos (cols / 2) -ℤ pos (length (disk_rates g)) -ℤ pos 1, disk_rates g),
        refl,
        before,
        behind,
        right_end (cols / 2) 1 (disk_rates g),
      ),
    )
