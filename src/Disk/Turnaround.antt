-- ===== src/Disk/Turnaround.antt =====
-- The turnaround that a request is given against the way that the arm really goes.
use ribabari.Prelude.{
  ℕ, suc, ◌+◌, ◌-◌, ◌*◌, ◌≤◌, ◌<◌, ◌≡◌, ◌≢◌, refl, ◌⊎◌, inl, inr, Bool, true, false, arith, ok, leb,
  ltb, pos, ◌+ℤ◌, ◌-ℤ◌, ◌*ℤ◌, Bool-cases, ==-cases,
}
use ribabari.Disk.{
  DiskScheduler, distance, disk_time, disk_track_limit, disk_operation_time, disk_track_move_time,
}
use ribabari.Disk.Arm.{Trip, there, at, up, down, up_and_down, down_and_up, OnDisk}

module _ (c t : ℕ) (on : c ≤ disk_track_limit) (track : t ≤ disk_track_limit) where
  distance-up : c ≤ t → distance true c (pos t) ≡ ok (pos (t - c))
  unfolding distance ◌-ℤ◌
  distance-up h = ground arith

  distance-up_down :
      t < c → distance true c (pos t) ≡ ok (pos ((disk_track_limit - c) + (disk_track_limit - t)))
  unfolding distance ◌-ℤ◌ ◌+ℤ◌
  distance-up_down h = ground arith

  distance-down : t < c → distance false c (pos t) ≡ ok (pos (c - t))
  unfolding distance ◌-ℤ◌
  distance-down h = ground arith

  distance-down_up : c ≤ t → distance false c (pos t) ≡ ok (pos (c + t))
  unfolding distance ◌+ℤ◌
  distance-down_up h = ground arith

abbrev pub time_for : ℕ → ℕ
time_for m = disk_operation_time + m * disk_track_move_time

time-ok :
    (d : DiskScheduler) (t m : ℕ)
    → distance d.forward_dir d.curr_track (pos t) ≡ ok (pos m)
    → m ≤ 2 * disk_track_limit
    → disk_time d (pos t) ≡ ok (pos (time_for m))
unfolding disk_time ◌*ℤ◌ ◌+ℤ◌
time-ok d t m e h = rw e (ground arith)

-- The time that the request for a track is given is that of the arm's way to it.
abbrev pub IsTimed : DiskScheduler → ℕ → Type 0
IsTimed d t =
    (k : ℕ) × (m : ℕ) × Trip t d k m
    × (k ≤ 2 * disk_track_limit + 1)
    × (disk_time d (pos t) ≡ ok (pos (time_for m)))

module _ (d : DiskScheduler) (c t : ℕ) (on : c ≤ disk_track_limit)
    (track : t ≤ disk_track_limit) where
  IsTimed-up : IsTimed (at d true c) t
  IsTimed-up = elim (Bool-cases (leb c t)) [
    | inl ahead ↦
        let h : c ≤ t = ground arith in
        (
          t - c,
          t - c,
          up d (t - c) c t (omega arith) track,
          omega arith,
          time-ok (at d true c) t (t - c) (distance-up c t on track h) (omega arith),
        )
    | inr passed ↦
        let h : t < c = ground arith in
        (
          suc ((disk_track_limit - c) + (disk_track_limit - t)),
          (disk_track_limit - c) + (disk_track_limit - t),
          up_and_down d (disk_track_limit - c) c t (omega arith) h,
          omega arith,
          time-ok (at d true c) t ((disk_track_limit - c) + (disk_track_limit - t))
              (distance-up_down c t on track h) (omega arith),
        )
  ]

  IsTimed-down : c ≢ t → IsTimed (at d false c) t
  IsTimed-down ne = elim (Bool-cases (ltb t c)) [
    | inl ahead ↦
        let h : t < c = ground arith in
        (
          c - t,
          c - t,
          down d (c - t) c t (omega arith),
          omega arith,
          time-ok (at d false c) t (c - t) (distance-down c t on track h) (omega arith),
        )
    | inr passed ↦
        let h : c < t = ground arith in
        (
          suc (c + t),
          c + t,
          down_and_up d c c t refl h track,
          omega arith,
          time-ok (at d false c) t (c + t) (distance-down_up c t on track (omega arith))
              (omega arith),
        )
  ]

timed :
    (d : DiskScheduler) (forward : Bool) (t : ℕ)
    → OnDisk d
    → t ≤ disk_track_limit
    → (forward ≡ true) ⊎ (d.curr_track ≢ t)
    → IsTimed (at d forward d.curr_track) t
timed d true t on track h = IsTimed-up d d.curr_track t on track
timed d false t on track (inl e) = cc
timed d false t on track (inr ne) = IsTimed-down d d.curr_track t on track ne

-- Every request for a track of the disk is given a time, for at most 400 tracks.
pub disk_time-bounded :
    (d : DiskScheduler) (t : ℕ)
    → OnDisk d
    → t ≤ disk_track_limit
    → (m : ℕ) × (m ≤ 2 * disk_track_limit) × (disk_time d (pos t) ≡ ok (pos (time_for m)))
disk_time-bounded d t on track = go d.forward_dir refl
  where
    given :
        (m : ℕ)
        → m ≤ 2 * disk_track_limit
        → distance d.forward_dir d.curr_track (pos t) ≡ ok (pos m)
        → (m : ℕ) × (m ≤ 2 * disk_track_limit) × (disk_time d (pos t) ≡ ok (pos (time_for m)))
    given m few e = (m, few, time-ok d t m e few)

    go :
        (forward : Bool)
        → d.forward_dir ≡ forward
        → (m : ℕ) × (m ≤ 2 * disk_track_limit) × (disk_time d (pos t) ≡ ok (pos (time_for m)))
    go true e = elim (Bool-cases (leb d.curr_track t)) [
      | inl h ↦
          given (t - d.curr_track) (omega arith)
            (rw e (distance-up d.curr_track t on track (ground arith)))
      | inr h ↦
          given ((disk_track_limit - d.curr_track) + (disk_track_limit - t)) (omega arith)
            (rw e (distance-up_down d.curr_track t on track (ground arith)))
    ]
    go false e = elim (Bool-cases (ltb t d.curr_track)) [
      | inl h ↦
          given (d.curr_track - t) (omega arith)
            (rw e (distance-down d.curr_track t on track (ground arith)))
      | inr h ↦
          given (d.curr_track + t) (omega arith)
            (rw e (distance-down_up d.curr_track t on track (ground arith)))
    ]

-- For an arm on a track of the disk and a track of at most 200, unless the arm stands on that track and is
-- going down, the arm comes to it within 401 rounds, and the turnaround of a request is 5000 plus 100 for each track that the arm moves until it
-- first comes there.
pub disk_time-IsTimed :
    (d : DiskScheduler) (t : ℕ)
    → OnDisk d
    → t ≤ disk_track_limit
    → (d.forward_dir ≡ true) ⊎ (d.curr_track ≢ t)
    → IsTimed d t
disk_time-IsTimed d t on track h = timed d d.forward_dir t on track h

-- From every track of the disk the arm comes to every other within 401 rounds, whichever way it goes.
pub Trip-within :
    (d : DiskScheduler) (t : ℕ)
    → OnDisk d
    → t ≤ disk_track_limit
    → (k : ℕ) × (m : ℕ) × Trip t d k m × (k ≤ 2 * disk_track_limit + 1)
Trip-within d t on track = elim (==-cases d.curr_track t) [
  | inl e ↦ (0, 0, there (ground arith) refl refl, omega arith)
  | inr ne ↦
      let (k, m, trip, few, e) = disk_time-IsTimed d t on track (inr (ground arith)) in
      (k, m, trip, few)
]
