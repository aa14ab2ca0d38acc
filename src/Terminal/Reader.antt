-- ===== src/Terminal/Reader.antt =====
-- The loop that refresh_disk_log, refresh_io_log and refresh_res_acq_log of terminal/terminal.c share: a view
-- walks over its log list, prints what is new, and waits for the next post, while the simulation appends
-- to the list. What a view does between two accesses to the list is one step of it.
use ribabari.Prelude.{
  ℕ, ◌+◌, ◌-◌, Option, none, some, List, [], ◌∷◌, ◌++◌, ltb, if◌then◌else◌, length, get_elem?, Run,
  ok, ◌>>=◌, or_fault,
}
use ribabari.LinkedList.{list_add}
use ribabari.Process.{CString}

-- Where the loop stands, with its node `i` by position, and NULL as `none`: at the first sem_wait, in the
-- inner loop, or at the sem_wait behind it, with the tail that it has read.
pub data Phase : Type 0 where
  starting : Phase
  scanning : Option ℕ → Phase
  resting : Option ℕ → Phase

-- A view with what it shares with the simulation: the log list, the posts that it has not taken, and the
-- values that its title shows.
pub record LogView {a e t} (A : Type a) (E : Type e) (T : Type t) : Type (a ⊔ e ⊔ t) where
  pub log : List A
  pub posts : ℕ
  pub general : E
  pub phase : Phase
  pub text : CString
  pub title : T

-- What can happen next: the simulation appends an entry, changes the values, or posts; or the view goes on.
pub data Move {a e} (A : Type a) (E : Type e) : Type (a ⊔ e) where
  append : A → Move A E
  publish : E → Move A E
  post : Move A E
  view : Move A E

module _ {ℓ} {A : Type ℓ} where
  -- `list->head`
  abbrev pub head_of : List A → Option ℕ
  head_of [] = none
  head_of (x ∷ xs) = some 0

  -- `list->tail`
  abbrev pub tail_of : List A → Option ℕ
  tail_of [] = none
  tail_of (x ∷ xs) = some (length xs)

  -- `i->next`
  abbrev pub next_of : List A → ℕ → Option ℕ
  next_of xs i = if ltb (i + 1) (length xs) then some (i + 1) else none

-- What the loop of a view does with an entry and with its title, which it writes before the inner loop, or
-- after each entry.
pub record Loop {a e t} (A : Type a) (E : Type e) (T : Type t) : Type (a ⊔ e ⊔ t) where
  pub line : A → CString
  pub on_round : E → T → Run T
  pub on_entry : E → T → Run T

module _ {a e t} {A : Type a} {E : Type e} {T : Type t} (l : Loop A E T) where
  -- The inner loop is entered with `i`.
  unfoldable pub enter : Option ℕ → LogView A E T → Run (LogView A E T)
  enter i v = do
    title ← l.on_round v.general v.title
    ok (record v { posts = v.posts - 1; phase = scanning i; title = title })

  -- What the view does next where it stands. At a sem_wait without a post it stays.
  unfoldable pub step_at : Phase → LogView A E T → Run (LogView A E T)
  unfolding enter
  step_at starting v = if ltb 0 v.posts then enter (head_of v.log) v else ok v
  step_at (scanning none) v = ok (record v { phase = resting (tail_of v.log) })
  step_at (scanning (some i)) v = do
    entry ← or_fault (get_elem? v.log i)
    title ← l.on_entry v.general v.title
    ok (record v {
      phase = scanning (next_of v.log i);
      text = v.text ++ l.line entry;
      title = title;
    })
  step_at (resting last) v =
      if ltb 0 v.posts then or_fault last >>= (λ i. enter (next_of v.log i) v) else ok v

  unfoldable pub view_step : LogView A E T → Run (LogView A E T)
  unfolding step_at
  view_step v = step_at v.phase v

  unfoldable pub move : Move A E → LogView A E T → Run (LogView A E T)
  move (append entry) v = ok (record v { log = list_add v.log entry })
  move (publish general) v = ok (record v { general = general })
  move post v = ok (record v { posts = v.posts + 1 })
  move view v = view_step v

  unfoldable pub run_moves : List (Move A E) → LogView A E T → Run (LogView A E T)
  unfolding move
  run_moves [] v = ok v
  run_moves (m ∷ ms) v = do v1 ← move m v; run_moves ms v1

-- A view before its first step.
abbrev pub start_view {a e t} : {A : Type a} {E : Type e} {T : Type t} → E → T → LogView A E T
start_view general title = record {
  log = [];
  posts = 0;
  general = general;
  phase = starting;
  text = [];
  title = title;
}
