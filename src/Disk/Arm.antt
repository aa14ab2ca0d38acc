-- ===== src/Disk/Arm.antt =====
-- The disk arm sweeps up and down: it stays on the disk, and reaches every track.
use ribabari.Prelude.{
  ℕ, zero, suc, ◌+◌, ◌-◌, ◌≤◌, ◌<◌, ◌≡◌, ◌≢◌, refl, Bool, true, false, arith, ◌==◌, if◌then◌else◌,
}
use native.Mathlib.Nat.{zero-add, suc-add}
use ribabari.Disk.{DiskScheduler, move_arm, disk_track_limit}

abbrev pub OnDisk : DiskScheduler → Type 0
OnDisk d = d.curr_track ≤ disk_track_limit

-- From a track between 0 and 200 the arm moves to a track between 0 and 200, at most one track
-- away.
pub move_arm-OnDisk :
    (d : DiskScheduler)
    → OnDisk d
    → OnDisk (move_arm d)
      × ((move_arm d).curr_track ≤ d.curr_track + 1)
      × (d.curr_track ≤ (move_arm d).curr_track + 1)
unfolding move_arm
move_arm-OnDisk d h = ground arith

-- The number of tracks that the arm moves in one round: none where it turns.
abbrev pub moved : DiskScheduler → ℕ
moved d = if (move_arm d).curr_track == d.curr_track then 0 else 1

-- From `d` the arm comes to the track `t` for the first time after `k` rounds, and moves `m` tracks in them.
pub data Trip (t : ℕ) : DiskScheduler → ℕ → ℕ → Type 0 where
  there : {d : DiskScheduler} {k m : ℕ} → d.curr_track ≡ t → k ≡ 0 → m ≡ 0 → Trip t d k m
  round :
      {d : DiskScheduler} {k m : ℕ} (k' m' : ℕ)
      → d.curr_track ≢ t
      → Trip t (move_arm d) k' m'
      → k ≡ suc k'
      → m ≡ moved d + m'
      → Trip t d k m

abbrev pub at : DiskScheduler → Bool → ℕ → DiskScheduler
at d forward track = record d { forward_dir = forward; curr_track = track }

module _ (d : DiskScheduler) (c : ℕ) where
  move-up : c < disk_track_limit → move_arm (at d true c) ≡ at d true (c + 1)
  unfolding move_arm
  move-up h = ground arith

  move-down : 0 < c → move_arm (at d false c) ≡ at d false (c - 1)
  unfolding move_arm
  move-down h = ground arith

  round-up :
      {t k m : ℕ}
      → c < disk_track_limit
      → c ≢ t
      → Trip t (at d true (c + 1)) k m
      → Trip t (at d true c) (suc k) (suc m)
  round-up {t} {k} {m} h ne trip =
      let e = move-up h in round k m ne (rw e trip) refl (rw e (ground arith))

  round-down :
      {t k m : ℕ}
      → 0 < c
      → c ≢ t
      → Trip t (at d false (c - 1)) k m
      → Trip t (at d false c) (suc k) (suc m)
  round-down {t} {k} {m} h ne trip =
      let e = move-down h in round k m ne (rw e trip) refl (rw e (ground arith))

-- Straight up or down to the track.
pub up :
    (d : DiskScheduler) (n c t : ℕ) → c + n ≡ t → t ≤ disk_track_limit → Trip t (at d true c) n n
up d zero c t e h = there (omega arith) refl refl
up d (suc n) c t e h = round-up d c (omega arith) (omega arith) (up d n (c + 1) t (omega arith) h)

pub down : (d : DiskScheduler) (n c t : ℕ) → t + n ≡ c → Trip t (at d false c) n n
down d zero c t e = there (omega arith) refl refl
down d (suc n) c t e = round-down d c (omega arith) (omega arith) (down d n (c - 1) t (omega arith))

-- The arm turns at the ends without a move.
turn-top :
    (d : DiskScheduler) (t k m : ℕ)
    → t < disk_track_limit
    → Trip t (at d false disk_track_limit) k m
    → Trip t (at d true disk_track_limit) (suc k) m
unfolding move_arm
turn-top d t k m h trip = round k m (omega arith) trip refl (omega arith)

turn-bottom :
    (d : DiskScheduler) (t k m : ℕ)
    → 0 < t
    → Trip t (at d true 0) k m
    → Trip t (at d false 0) (suc k) m
unfolding move_arm
turn-bottom d t k m h trip = round k m (omega arith) trip refl (omega arith)

-- Up to the last track, and back down to a track that was passed.
pub up_and_down :
    (d : DiskScheduler) (n c t : ℕ)
    → c + n ≡ disk_track_limit
    → t < c
    → Trip t (at d true c) (suc (n + (disk_track_limit - t))) (n + (disk_track_limit - t))
up_and_down d zero c t e h =
    let e' : c ≡ disk_track_limit = omega arith in
    rw (e', zero-add (disk_track_limit - t))
      (turn-top d t (disk_track_limit - t) (disk_track_limit - t) (omega arith)
        (down d (disk_track_limit - t) disk_track_limit t (omega arith)))
up_and_down d (suc n) c t e h = rw suc-add (
    round-up d c (omega arith) (omega arith)
      (up_and_down d n (c + 1) t (omega arith) (omega arith)))

-- Down to the first track, and back up to a track that was passed.
pub down_and_up :
    (d : DiskScheduler) (n c t : ℕ)
    → n ≡ c
    → c < t
    → t ≤ disk_track_limit
    → Trip t (at d false c) (suc (n + t)) (n + t)
down_and_up d zero c t e h b =
    let e' : c ≡ 0 = omega arith in
    rw (e', zero-add t) (turn-bottom d t t t (omega arith) (up d t 0 t (omega arith) b))
down_and_up d (suc n) c t e h b = rw suc-add (
    round-down d c (omega arith) (omega arith)
      (down_and_up d n (c - 1) t (omega arith) (omega arith) b))

-- The arm never comes to a track beyond the last one.
pub Trip-le : {t k m : ℕ} {d : DiskScheduler} → Trip t d k m → OnDisk d → t ≤ disk_track_limit
Trip-le (there e h1 h2) on = omega arith
Trip-le {d = d} (round k m ne trip h1 h2) on = Trip-le trip (move_arm-OnDisk d on).0
