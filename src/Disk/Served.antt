-- ===== src/Disk/Served.antt =====
-- The disk thread beside the rest of the kernel: round after round of disk/disk.c, and whatever the other
-- threads do in between.
use ribabari.Prelude.{
  ℕ, zero, suc, ◌+◌, ◌*◌, ◌≤◌, ◌≡◌, refl, ◌∙◌, ap, ◌⊎◌, false, List, [], ◌∷◌, arith, ℤ, pos, eq_ℤ,
  Bool-cases, inl, inr, Run, ok, ◌>>=◌, Returns,
}
use ribabari.Process.{Store}
use ribabari.Log.{Libc, Host}
use ribabari.Sched.{Scheduler}
use ribabari.Sched.Valid.{IsValid}
use ribabari.Disk.{DiskRequest, DiskScheduler, disk, move_arm, disk_track_limit}
use ribabari.Disk.Arm.{OnDisk, Trip, there, round}
use ribabari.Disk.Resolve.{Awaited, others}
use ribabari.Disk.Turnaround.{Trip-within}
use ribabari.Disk.Round.{disk-RoundDone}

-- What the disk thread and the others share.
pub record World : Type 0 where
  pub drive : DiskScheduler
  pub scheduler : Scheduler
  pub procs : Store
  pub host : Host

pub record IsSound (w : World) : Type 0 where
  pub on : OnDisk w.drive
  pub valid : IsValid w.scheduler w.procs
  pub awaited : Awaited w.drive.pending_requests w.scheduler

-- The request is one of those in the list.
pub data Waits (r : DiskRequest) : List DiskRequest → Type 0 where
  first : {rest : List DiskRequest} → Waits r (r ∷ rest)
  later : {q : DiskRequest} {rest : List DiskRequest} → Waits r rest → Waits r (q ∷ rest)

abbrev pub SameArm : DiskScheduler → DiskScheduler → Type 0
SameArm d e = (e.forward_dir ≡ d.forward_dir) × (e.curr_track ≡ d.curr_track)

-- What the other threads may do between two rounds: anything that keeps the invariants, leaves the arm
-- alone, and takes no request away.
pub record IsFair (others_do : ℕ → World → World) : Type 0 where
  pub sound : (i : ℕ) (w : World) → IsSound w → IsSound (others_do i w)
  pub arm : (i : ℕ) (w : World) → SameArm w.drive (others_do i w).drive
  pub keeps :
      (i : ℕ) (w : World) (r : DiskRequest)
      → Waits r w.drive.pending_requests
      → Waits r (others_do i w).drive.pending_requests

-- One round, after the others have had their turn.
unfoldable pub turn : Libc → (ℕ → World → World) → ℕ → World → Run World
turn libc others_do i w = do
  let v = others_do i w
  (d, sch, h) ← disk libc v.drive v.scheduler v.procs v.host
  ok (record v { drive = d; scheduler = sch; host = h })

unfoldable pub rounds : Libc → (ℕ → World → World) → ℕ → ℕ → World → Run World
rounds libc others_do zero i w = ok w
rounds libc others_do (suc n) i w = do
  w' ← turn libc others_do i w
  rounds libc others_do n (i + 1) w'

Waits-others :
    {r : DiskRequest} {xs : List DiskRequest} (track : ℤ)
    → eq_ℤ r.track track ≡ false
    → Waits r xs
    → Waits r (others track xs)
Waits-others track ne first = rw ne first
Waits-others track ne (later {q} w) = elim (Bool-cases (eq_ℤ q.track track)) [
  | inl e ↦ rw e (Waits-others track ne w)
  | inr e ↦ rw e (later (Waits-others track ne w))
]

Waits-cons : {r q : DiskRequest} {xs : List DiskRequest} → Waits r (q ∷ xs) → (r ≡ q) ⊎ Waits r xs
Waits-cons first = inl refl
Waits-cons (later w) = inr w

others-none :
    (xs : List DiskRequest) (track : ℤ) {r : DiskRequest}
    → Waits r (others track xs)
    → eq_ℤ r.track track ≡ false
others-none [] track w = elim w [ ]
others-none (q ∷ xs) track w = elim (Bool-cases (eq_ℤ q.track track)) [
  | inl e ↦ others-none xs track (rw e at w)
  | inr e ↦ elim (Waits-cons (rw e at w)) [
    | inl same ↦ rw same e
    | inr w' ↦ others-none xs track w'
  ]
]

move_arm-SameArm : (d e : DiskScheduler) → SameArm d e → SameArm (move_arm d) (move_arm e)
unfolding move_arm
move_arm-SameArm d e same = ground arith

-- What a round makes of the world `w`, where the others left the requests `before`.
record Turned (w : World) (before : List DiskRequest) (w' : World) : Type 0 where
  sound : IsSound w'
  arm : SameArm (move_arm w.drive) w'.drive
  left : w'.drive.pending_requests ≡ others (pos w.drive.curr_track) before

module _ (libc : Libc) (others_do : ℕ → World → World) (fair : IsFair others_do) where
  turn-Turned :
      (i : ℕ) (w : World)
      → IsSound w
      → Returns (Turned w (others_do i w).drive.pending_requests) (turn libc others_do i w)
  unfolding turn
  turn-Turned i w sound =
      let v = others_do i w in
      let s = fair.sound i w sound in
      let same = fair.arm i w in
      let ((d, sch, h), e, done) =
        disk-RoundDone libc v.drive v.scheduler v.procs v.host s.on s.valid s.awaited in
      let moves = move_arm-SameArm w.drive v.drive same in
      (
        record v { drive = d; scheduler = sch; host = h },
        rw e,
        record {
          sound = record { on = done.on; valid = done.valid; awaited = done.awaited };
          arm = (done.moved.0 ∙ moves.0, done.moved.1 ∙ moves.1);
          left = done.left ∙ ap (λ c. others (pos c) v.drive.pending_requests) same.1;
        },
      )

  -- After `j` rounds the arm stands over the request's track, and the next round takes the request away.
  abbrev pub ServedAfter : DiskRequest → (t j i : ℕ) → World → Type 0
  ServedAfter r t j i w =
      Returns (λ w'. IsSound w' × (w'.drive.curr_track ≡ t) × Waits r w'.drive.pending_requests)
        (rounds libc others_do j i w)
      × Returns (λ w'. IsSound w' × (¬ (Waits r w'.drive.pending_requests)))
          (rounds libc others_do (suc j) i w)

  served_along :
      {t k m : ℕ} {d : DiskScheduler} (r : DiskRequest) (i : ℕ) (w : World)
      → Trip t d k m
      → SameArm d w.drive
      → r.track ≡ pos t
      → IsSound w
      → Waits r w.drive.pending_requests
      → (j : ℕ) × (j ≤ k) × ServedAfter r t j i w
  unfolding rounds
  served_along {t} {k} r i w (there e _ _) same track sound waits =
      let (w1, run, turned) = turn-Turned i w sound in
      let here : w.drive.curr_track ≡ t = same.1 ∙ e in
      let none_left : ¬ (Waits r w1.drive.pending_requests) = λ still.
        let off =
          others-none (others_do i w).drive.pending_requests (pos w.drive.curr_track)
            (rw turned.left at still) in
        ground (arith, here, track, off) in
      (0, omega arith, ((w, refl, (sound, here, waits)), (w1, rw run, (turned.sound, none_left))))
  served_along {t} {k} {d = d} r i w (round k' m' ne trip e1 e2) same track sound waits =
      let (w1, run, turned) = turn-Turned i w sound in
      let off : eq_ℤ r.track (pos w.drive.curr_track) ≡ false = ground (arith, same.1, track, ne) in
      let still : Waits r w1.drive.pending_requests =
        rw turned.left (Waits-others (pos w.drive.curr_track) off (fair.keeps i w r waits)) in
      let moves = move_arm-SameArm d w.drive same in
      let arm : SameArm (move_arm d) w1.drive = (turned.arm.0 ∙ moves.0, turned.arm.1 ∙ moves.1) in
      let (j, few, (reached, gone)) = served_along r (i + 1) w1 trip arm track turned.sound still in
      (suc j, omega arith, (rw run reached, rw run gone))

  -- Whatever the other threads do between the rounds, as long as they keep the invariants, leave the arm alone
  -- and take no request away: from a sound state, a request that waits for a track of the disk is
  -- served within 402 rounds. The rounds all return; at most 401 of them bring the arm over the
  -- track while the request still waits, and the next one takes it away.
  pub rounds-serve :
      (r : DiskRequest) (t i : ℕ) (w : World)
      → r.track ≡ pos t
      → t ≤ disk_track_limit
      → IsSound w
      → Waits r w.drive.pending_requests
      → (j : ℕ) × (j ≤ 2 * disk_track_limit + 1) × ServedAfter r t j i w
  rounds-serve r t i w track on sound waits =
      let (k, m, trip, few) = Trip-within w.drive t sound.on on in
      let (j, fewer, served) = served_along r i w trip (refl, refl) track sound waits in
      (j, omega arith, served)
