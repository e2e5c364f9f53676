-- ===== src/UiButton/Hold.antt =====
-- A button that is held.
use poor_mans_smu.Prelude.{
  ℕ, ◌≡◌, refl, sym, ap, ◌∙◌, inl, inr, Bool, true, false, not, ◌&&◌, List, [], ◌∷◌, ◌++◌, arith,
  Bool-cases, if_true, if_false, if◌then◌else◌,
}
use mathlib.Core.Path.{subst}
use poor_mans_smu.UiButton.{
  PressType, long_press_holding, Button, Presses, Result, is_past, check_press_type, press_held,
}

-- The call for a long press, when one came between two states of the mark.
abbrev pub long_call : ℕ → Bool → Bool → List (ℕ × PressType)
long_call id before after = if not before && after then (id, long_press_holding) ∷ [] else []

-- The button is down since a time.
pub record IsDown (b : Button) (since : ℕ) (s : Presses) : Type 0 where
  pub down : s.pressed ≡ true
  pub by : s.pressed_id ≡ b.id
  pub at : s.pressed_at ≡ since
  pub marked : s.need_release_first ≡ s.has_been_pressed_long

-- The button stays down, and the call for a long press comes when it is marked, which is for good.
pub record IsHeld (b : Button) (since : ℕ) (s : Presses) (r : Result) : Type 0 where
  pub still : IsDown b since r.0
  pub calls : r.1 ≡ long_call b.id s.has_been_pressed_long r.0.has_been_pressed_long
  pub stays : s.has_been_pressed_long ≡ true → r.0.has_been_pressed_long ≡ true

pub long_call_same : (id : ℕ) (l : Bool) → [] ≡ long_call id l l
long_call_same id true = refl
long_call_same id false = refl

IsHeld-waiting :
    (b : Button) (since timer : ℕ) (s : Presses)
    → IsDown b since s
    → IsHeld b since s (record s { debounce_timer = timer }, [])
IsHeld-waiting b since timer s h = record {
  still = record { down = h.down; by = h.by; at = h.at; marked = h.marked };
  calls = long_call_same b.id s.has_been_pressed_long;
  stays = λ q. q;
}

IsHeld-long :
    (b : Button) (since now : ℕ) (s : Presses)
    → IsDown b since s
    → s.has_been_pressed_long ≡ false
    → IsHeld b since s (
      record s { debounce_timer = now; has_been_pressed_long = true; need_release_first = true },
      (b.id, long_press_holding) ∷ [],
    )
IsHeld-long b since now s h q = record {
  still = record { down = h.down; by = h.by; at = h.at; marked = refl };
  calls = ap (λ l. long_call b.id l true) (sym q);
  stays = λ _. refl;
}

press_held-IsHeld :
    (b : Button) (since now : ℕ) (s : Presses)
    → b.single_press_mode ≡ true
    → IsDown b since s
    → IsHeld b since s (press_held b now s)
press_held-IsHeld b since now s hb h =
    subst (IsHeld b since s) (sym (if_false (not b.single_press_mode) _ _ (rw hb refl)))
      (elim (Bool-cases (is_past 1000 now s.pressed_at && not s.need_release_first)) [
        | inl q ↦
            subst (IsHeld b since s) (sym (if_true _ _ _ q))
              (IsHeld-long b since now s h (sym h.marked ∙ unmarked _ _ q))
        | inr q ↦ subst (IsHeld b since s) (sym (if_false _ _ _ q)) (IsHeld-waiting b since now s h)
      ])
  where
    unmarked : (x y : Bool) → (x && not y) ≡ true → y ≡ false
    unmarked x y q = ground arith

pub check_press_type-IsHeld :
    (b : Button) (since now : ℕ) (s : Presses)
    → b.single_press_mode ≡ true
    → IsDown b since s
    → IsHeld b since s (check_press_type b now s)
unfolding check_press_type
check_press_type-IsHeld b since now s hb h =
    subst (IsHeld b since s) (sym (if_false (not s.pressed) _ _ (rw h.down refl)))
      (elim (Bool-cases (is_past s.debounce_timeout now s.debounce_timer)) [
        | inl q ↦
            subst (IsHeld b since s) (sym (if_true _ _ _ q)) (press_held-IsHeld b since now s hb h)
        | inr q ↦
            subst (IsHeld b since s) (sym (if_false _ _ _ q))
              (IsHeld-waiting b since s.debounce_timer s h)
      ])

pub long_call_trans :
    (id : ℕ) (l m n : Bool)
    → (l ≡ true → m ≡ true)
    → (m ≡ true → n ≡ true)
    → long_call id l m ++ long_call id m n ≡ long_call id l n
long_call_trans id true true true h k = refl
long_call_trans id true true false h k = refl
long_call_trans id true false n h k = cc (h refl)
long_call_trans id false true true h k = refl
long_call_trans id false true false h k = cc (k refl)
long_call_trans id false false n h k = refl
