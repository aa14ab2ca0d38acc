-- ===== src/Process/Update.antt =====
-- Changes to one process of the heap, as functions, and what every such change leaves alone.
use mathlib.Core.Path.{fun_ext}
use ribabari.Prelude.{ℕ, ◌≡◌, ◌≢◌, Option, none, some, arith, ◌==◌, if◌then◌else◌}
use ribabari.Process.{Ptr, Process, Store, write}

abbrev pub map_some : (Process → Process) → Option Process → Option Process
map_some f none = none
map_some f (some c) = some (f c)

-- The process at `p`, if there is one, is changed by `f`.
unfoldable pub update : Store → Ptr → (Process → Process) → Store
update s p f q = if q == p then map_some f (s q) else s q

pub write-update :
    (s : Store) (p : Ptr) (c : Process) (f : Process → Process)
    → s p ≡ some c
    → write s p (some (f c)) ≡ update s p f
unfolding write update
write-update s p c f h = fun_ext λ q. ground arith

-- The id of the process at an address.
abbrev pub id_in : Option Process → Option ℕ
id_in none = none
id_in (some c) = some c.id

abbrev pub id_of : Store → Ptr → Option ℕ
id_of s p = id_in (s p)

pub id_of-update :
    (s : Store) (p q : Ptr) (f : Process → Process)
    → ((c : Process) → (f c).id ≡ c.id)
    → id_of (update s p f) q ≡ id_of s q
unfolding update
id_of-update s p q f keep = go (s q)
  where
    go : (o : Option Process) → id_in (if q == p then map_some f o else o) ≡ id_in o
    go none = ground arith
    go (some c) = ground (arith, keep c)

pub update_self :
    (s : Store) (p : Ptr) (f : Process → Process) (c : Process)
    → s p ≡ some c
    → update s p f p ≡ some (f c)
unfolding update
update_self s p f c h = ground arith

pub update-ne : (s : Store) (p q : Ptr) (f : Process → Process) → p ≢ q → update s p f q ≡ s q
unfolding update
update-ne s p q f h = ground arith
