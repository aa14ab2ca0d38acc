-- ===== src/Disk/Resolve.antt =====
-- A round of the disk: the requests over the arm's track are served, and the others are left.
use ribabari.Prelude.{
  ℕ, ◌+◌, ◌*◌, ◌≤◌, ◌<◌, ◌≡◌, refl, sym, ap, ◌∙◌, true, false, List, [], ◌∷◌, ◌++◌, arith, ℤ, pos,
  ◌+ℤ◌, ◌*ℤ◌, eq_ℤ, ok, Returns, count, inl, inr, Bool-cases, if◌then◌else◌,
}
use mathlib.Core.List.{append_assoc, append-nil}
use ribabari.Process.{Ptr, Store, Points-load}
use ribabari.Log.{Libc, Host}
use ribabari.Sched.{Scheduler, low}
use ribabari.Sched.Valid.{IsValid, Live, places}
use ribabari.Sched.Unblock.{
  unblocked, schedule_unblock_process-ok, unblocked-IsValid, unblocked-places, unblocked-blocked,
  unblocked-low,
}
use ribabari.Disk.{
  DiskRequest, disk_block, inode_number, serve, rw_disk_op_resolve, disk_track_limit,
}

pub disk_block-ok : (t : ℕ) → t ≤ disk_track_limit → disk_block (pos t) ≡ ok (pos (t * 521 + 8))
unfolding disk_block ◌*ℤ◌ ◌+ℤ◌
disk_block-ok t h = ground arith

pub inode_number-ok : (b : ℕ) → b ≤ 104208 → inode_number (pos b) ≡ ok (pos (b * 948 + 5))
unfolding inode_number ◌*ℤ◌ ◌+ℤ◌
inode_number-ok b h = ground arith

-- The requests that are not over the track, the processes of those that are, and all processes.
abbrev pub others : ℤ → List DiskRequest → List DiskRequest
others track [] = []
others track (request ∷ rest) =
    if eq_ℤ request.track track then others track rest else request ∷ others track rest

abbrev pub served : ℤ → List DiskRequest → List Ptr
served track [] = []
served track (request ∷ rest) =
    if eq_ℤ request.track track then request.process ∷ served track rest else served track rest

abbrev pub processes : List DiskRequest → List Ptr
processes [] = []
processes (request ∷ rest) = request.process ∷ processes rest

-- Every process with a pending request is in the blocked queue, and has no more requests than places in it.
abbrev pub Awaited : List DiskRequest → Scheduler → Type 0
Awaited pending sch = (q : Ptr) → count q (processes pending) ≤ count q sch.blocked_queue.queue

pub processes-split :
    (q : Ptr) (track : ℤ) (pending : List DiskRequest)
    → count q (processes (others track pending)) + count q (served track pending)
      ≡ count q (processes pending)
processes-split q track [] = omega arith
processes-split q track (request ∷ rest) = ground (arith, processes-split q track rest)

-- The result of a round over the requests.
pub record Resolved (track : ℤ) (sch : Scheduler) (s : Store) (pending : List DiskRequest)
    (r : List DiskRequest × Scheduler × Host) : Type 0 where
  pub kept : r.0 ≡ others track pending
  pub valid : IsValid r.1 s
  pub leaving :
      (q : Ptr)
      → count q r.1.blocked_queue.queue + count q (served track pending)
        ≡ count q sch.blocked_queue.queue
  pub lower : r.1.low_queue.queue ≡ sch.low_queue.queue ++ served track pending
  pub higher : r.1.high_queue.queue ≡ sch.high_queue.queue
  pub cpu : r.1.scheduled_proc ≡ sch.scheduled_proc
  pub placed : (q : Ptr) → places q r.1 ≡ places q sch

module _ (libc : Libc) (t : ℕ) (track : t ≤ disk_track_limit) where
  serve-ok :
      {sch : Scheduler} {s : Store} (request : DiskRequest) (h : Host)
      → IsValid sch s
      → Live s request.process
      → Returns (λ r. r.0 ≡ unblocked low request.process sch) (serve libc request (pos t) sch s h)
  unfolding serve
  serve-ok request h v l =
      let (c, p, b) = l in
      rw
        (
          Points-load p,
          disk_block-ok t track,
          inode_number-ok (t * 521 + 8) (omega arith),
          schedule_unblock_process-ok request.process low v l,
        )
        (_, refl, refl)

  served_first :
      (sch : Scheduler) {s : Store} {rest : List DiskRequest}
      {r : List DiskRequest × Scheduler × Host} (request : DiskRequest)
      → eq_ℤ request.track (pos t) ≡ true
      → 0 < count request.process sch.blocked_queue.queue
      → Resolved (pos t) (unblocked low request.process sch) s rest r
      → Resolved (pos t) sch s (request ∷ rest) r
  served_first sch {rest = rest} request hit here w =
      let (moved, same, cpu) = unblocked-low request.process sch here in
      record {
        kept = rw hit w.kept;
        valid = w.valid;
        leaving = λ q.
            rw hit (ground (arith, w.leaving q, unblocked-blocked request.process q low sch here));
        lower = rw hit (w.lower ∙ rw moved (append_assoc sch.low_queue.queue _ _));
        higher = w.higher ∙ same;
        cpu = w.cpu ∙ cpu;
        placed = λ q. w.placed q ∙ unblocked-places request.process q low sch;
      }

  skipped :
      {sch : Scheduler} {s : Store} {rest : List DiskRequest}
      {r : List DiskRequest × Scheduler × Host} (request : DiskRequest)
      → eq_ℤ request.track (pos t) ≡ false
      → Resolved (pos t) sch s rest r
      → Resolved (pos t) sch s (request ∷ rest) (request ∷ r.0, r.1, r.2)
  skipped request miss w = record {
    kept = rw miss (ap (◌∷◌ request) w.kept);
    valid = w.valid;
    leaving = λ q. rw miss (w.leaving q);
    lower = rw miss w.lower;
    higher = w.higher;
    cpu = w.cpu;
    placed = w.placed;
  }

  resolve :
      (pending : List DiskRequest) (sch : Scheduler) (s : Store) (h : Host)
      → IsValid sch s
      → Awaited pending sch
      → Returns (Resolved (pos t) sch s pending) (rw_disk_op_resolve libc pending (pos t) sch s h)
  unfolding rw_disk_op_resolve
  resolve [] sch s h v a = (
    ([], sch, h),
    refl,
    record {
      kept = refl;
      valid = v;
      leaving = λ q. omega arith;
      lower = sym (append-nil sch.low_queue.queue);
      higher = refl;
      cpu = refl;
      placed = λ q. refl;
    },
  )
  resolve (request ∷ rest) sch s h v a = elim (Bool-cases (eq_ℤ request.track (pos t))) [
    | inl hit ↦
        (let here : 0 < count request.process sch.blocked_queue.queue =
            grind (arith, a request.process) in
          let live : Live s request.process = v.live request.process (omega (arith, here)) in
          let (r1, e1, e) = serve-ok request h v live in
          let (r, e2, w) =
            resolve rest (unblocked low request.process sch) s r1.1
              (unblocked-IsValid request.process low v)
              (λ q. ground (arith, a q, unblocked-blocked request.process q low sch here)) in
          (r, rw (hit, e1, e, e2), served_first sch request hit here w))
    | inr miss ↦
        (let (r, e2, w) = resolve rest sch s h v (λ q. omega (arith, a q)) in
          ((request ∷ r.0, r.1, r.2), rw (miss, e2), skipped request miss w))
  ]

  -- For a track of the disk: if the scheduler is valid and every process with a pending request is blocked,
  -- the round returns. The requests over the track are gone and the others are left in order; the
  -- processes of the former have left the blocked queue for the end of the low queue, in the order
  -- of their requests; nothing else moved; and the two conditions hold again.
  pub rw_disk_op_resolve-Resolved :
      {sch : Scheduler} {s : Store} (pending : List DiskRequest) (h : Host)
      → IsValid sch s
      → Awaited pending sch
      → Returns
          (λ r. Resolved (pos t) sch s pending r × Awaited r.0 r.1)
          (rw_disk_op_resolve libc pending (pos t) sch s h)
  rw_disk_op_resolve-Resolved {sch} {s} pending h v a =
      let (r, e, w) = resolve pending sch s h v a in
      (
        r,
        e,
        (w, λ q. rw (w.kept) (omega (arith, a q, w.leaving q, processes-split q (pos t) pending))),
      )
