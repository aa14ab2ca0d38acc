-- ===== src/Terminal/MenuLoop.antt =====
-- When the loop of the menu returns, and that it does not depend on its fuel.
use ribabari.Prelude.{
  ℕ, ◌≡◌, ◌≢◌, ◌↔◌, ◌⊎◌, inl, inr, refl, sym, Bool, true, false, Bool-cases, arith, ◌==◌, ◌||◌,
  if◌then◌else◌, eq_ℤ, Run, ok, exited, hung, fault, ◌>>=◌, ==_iff, ==_ne,
}
use ribabari.Process.{CString, strcmp_eq, strcmp_eq_iff, strcmp_eq_refl}
use ribabari.Terminal.Format.{codes}
use ribabari.Terminal.Menu.{
  exit_value, main_menu, get_type_from_string, HostEnv, Desk, enter_key, menu_key,
}

-- An item that is neither of those that do something.
abbrev pub IsOther : CString → Type 0
IsOther name = (name ≢ codes "Process Create") × (name ≢ codes "Toggle Resource Acquisition View")

strcmp_eq-ne : (a b : CString) → strcmp_eq a b ≡ false → b ≢ a
strcmp_eq-ne a b e same = cc (rw same at e, strcmp_eq_refl a)

-- EXIT is also the value for a text that no item has.
type_of-IsOther :
    (name : CString) → (eq_ℤ (get_type_from_string main_menu name) exit_value ≡ true) ↔ IsOther name
unfolding get_type_from_string
type_of-IsOther name =
    let create = codes "Process Create" in
    let toggle = codes "Toggle Resource Acquisition View" in
    elim (Bool-cases (strcmp_eq create name)) [
      | inl e ↦ rw e ((λ h. cc), (λ other. absurd (other.0 (sym (strcmp_eq_iff create name e)))))
      | inr e ↦ rw e (elim (Bool-cases (strcmp_eq toggle name)) [
        | inl f ↦ rw f ((λ h. cc), (λ other. absurd (other.1 (sym (strcmp_eq_iff toggle name f)))))
        | inr f ↦ rw f (elim (Bool-cases (strcmp_eq (codes "Exit") name)) [
          | inl g ↦
              rw g
                ((λ h. (strcmp_eq-ne create name e, strcmp_eq-ne toggle name f)), (λ other. refl))
          | inr g ↦
              rw g
                ((λ h. (strcmp_eq-ne create name e, strcmp_eq-ne toggle name f)), (λ other. refl))
        ])
      ])
    ]

module _ {M : Type 0} (env : HostEnv M) where
  abbrev leave : Desk M → Run (Bool × Desk M)
  leave d = ok (true, d)

  abbrev stay : Desk M → Run (Bool × Desk M)
  stay d = ok (false, d)

  goes_on : (m : Run (Desk M)) (d : Desk M) → (m >>= stay) ≢ leave d
  goes_on (ok x) d e = cc
  goes_on exited d e = cc
  goes_on hung d e = cc
  goes_on fault d e = cc

  -- The branches of menu_key that return.
  returning :
      (zero_key down up enter exit : Bool) (d d1 d2 d' : Desk M) (m : Run (Desk M))
      → (if zero_key
          then leave d
          else if down
          then stay d1
          else if up
          then stay d2
          else if enter
          then (if exit then leave d else (m >>= stay))
          else stay d)
        ≡ leave d'
      → (d' ≡ d) × ((zero_key ≡ true) ⊎ ((enter ≡ true) × (exit ≡ true)))
  returning true down up enter exit d d1 d2 d' m e = (cc, inl refl)
  returning false true up enter exit d d1 d2 d' m e = cc
  returning false false true enter exit d d1 d2 d' m e = cc
  returning false false false true true d d1 d2 d' m e = (cc, inr (refl, refl))
  returning false false false true false d d1 d2 d' m e = absurd (goes_on m d' e)
  returning false false false false exit d d1 d2 d' m e = cc

  -- At a key the loop of the main menu returns, as it stands, exactly if the key is 0, or is Enter on an item
  -- other than the two that do something.
  pub menu_key_leaves :
      (c : ℕ) (d d' : Desk M)
      → (menu_key env main_menu c d ≡ ok (true, d'))
        ↔ ((d' ≡ d) × ((c ≡ 0) ⊎ ((c ≡ enter_key) × IsOther (env.current_item d.menu))))
  unfolding menu_key
  menu_key_leaves c d d' =
      let item = env.current_item d.menu in
      (
        (λ e.
            let (same, why) =
              returning (c == 0) (c == b'j' || c == env.key_down) (c == b'k' || c == env.key_up)
                (c == enter_key) (eq_ℤ (get_type_from_string main_menu item) exit_value) d _ _ d' _
                e in
            (
              same,
              elim why [
                | inl z ↦ inl ((==_iff c 0).0 z)
                | inr (n, x) ↦ inr ((==_iff c enter_key).0 n, (type_of-IsOther item).0 x)
              ],
            )),
        (λ (same, why). elim why [
          | inl z ↦ rw (z, same) refl
          | inr (n, other) ↦
              rw
                (
                  n,
                  same,
                  ==_ne enter_key env.key_down (omega (arith, env.key_codes.0)),
                  ==_ne enter_key env.key_up (omega (arith, env.key_codes.1)),
                  (type_of-IsOther item).1 other,
                )
                refl
        ]),
      )
