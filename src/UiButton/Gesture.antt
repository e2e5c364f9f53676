-- ===== src/UiButton/Gesture.antt =====
-- A press of a button, over frames that draw it among others.
use poor_mans_smu.Prelude.{
  ℕ, ◌+◌, ◌≤◌, ◌<◌, ◌%◌, ◌^◌, ◌≡◌, ◌≢◌, refl, sym, ap, ap₂, ◌∙◌, Bool, true, false, not, ◌&&◌, List,
  [], ◌∷◌, ◌++◌, arith, ltb, ltb-false, ◌==◌, ==_iff, if_true, if_false, if◌then◌else◌,
}
use mathlib.Core.Path.{subst}
use poor_mans_smu.UiButton.Hold.{
  IsDown, IsHeld, long_call, long_call_same, long_call_trans, check_press_type-IsHeld,
}
use poor_mans_smu.UiButton.Frame.{IsOther, IsIdle, frame-one, touched-IsIdle, released-IsIdle}
use poor_mans_smu.UiButton.{
  initial_press, short_press_after_release, long_press_holding, long_press_after_release, Button,
  Presses, Result, check_press_type, press_first, release, handle, frame, end_press,
}

==_false : (m n : ℕ) → m ≢ n → (n == m) ≡ false
==_false m n h = ground arith

==_refl : (n : ℕ) → (n == n) ≡ true
==_refl n = (==_iff n n).1 refl

-- Frames at the times in turn, with a tag.
abbrev pub frames : List ℕ → ℕ → List Button → Presses → Result
frames [] tag bs s = (s, [])
frames (t ∷ ts) tag bs s =
    let (s₁, calls₁) = frame t tag bs s in
    let (s₂, calls₂) = frames ts tag bs s₁ in (s₂, calls₁ ++ calls₂)

-- The state and the callback of a release.
abbrev after_release : Button → Presses → Result
after_release b s = (
  record s {
    need_release_first = false;
    released = true;
    pressed = false;
    has_been_pressed_long = false;
    pressed_at = 0;
    debounce_timer = 0;
  },
  (b.id, if s.has_been_pressed_long then long_press_after_release else short_press_after_release)
      ∷ [],
)

release_lem :
    (b : Button) (now since : ℕ) (s : Presses)
    → b.single_press_mode ≡ true
    → IsDown b since s
    → since ≤ now
    → since < 2 ^ 32
    → release b now s ≡ after_release b s
unfolding release
release_lem b now since s hb h hn hs =
    ap (λ (x : Presses). closed (end_press b x)) (if_false _ _ _ (slow s.pressed))
    ∙ ap closed (if_true _ _ _ (both h.down hb))
  where
    closed : Result → Result
    closed r = (record r.0 { pressed_at = 0; debounce_timer = 0 }, r.1)

    slow : (x : Bool) → (x && ltb now ((s.pressed_at + 0) % 2 ^ 32)) ≡ false
    slow x = rw (ltb-false now ((s.pressed_at + 0) % 2 ^ 32) (omega (arith, h.at))) (ground arith)

    both : {x y : Bool} → x ≡ true → y ≡ true → (x && y) ≡ true
    both p q = rw (p, q) refl

release_calls :
    (id : ℕ) (l : Bool)
    → long_call id false l
        ++ ((id, if l then long_press_after_release else short_press_after_release) ∷ [])
      ≡ (if l
          then (id, long_press_holding) ∷ (id, long_press_after_release) ∷ []
          else (id, short_press_after_release) ∷ [])
release_calls id true = refl
release_calls id false = refl

-- What a press gives, from a first frame to the frame of the release.
pub record IsGesture (b : Button) (down up : Result) : Type 0 where
  pub calls :
      down.1 ++ up.1
      ≡ (b.id, initial_press)
        ∷ (if down.0.has_been_pressed_long
            then (b.id, long_press_holding) ∷ (b.id, long_press_after_release) ∷ []
            else (b.id, short_press_after_release) ∷ [])
  pub up_again : up.0.pressed ≡ false
  pub ready : up.0.need_release_first ≡ false

-- The button is touched, and drawn among others.
module _ (b : Button) (us vs : List Button) (single : b.single_press_mode ≡ true)
    (stays_there : b.resets ≡ false) (has_tag : b.id ≢ 0) (before : IsOther b us)
    (after : IsOther b vs) where
  frame-touched :
      (now : ℕ) (s : Presses) → frame now b.id (us ++ b ∷ vs) s ≡ check_press_type b now s
  unfolding handle
  frame-touched now s =
      frame-one now b.id us vs b s (touched-IsIdle b us s.pressed_id has_tag before)
        (touched-IsIdle b vs _ has_tag after)
      ∙ if_true (b.id == b.id) _ _ (==_refl b.id)

  frames-IsHeld :
      (since : ℕ) (ts : List ℕ) (s : Presses)
      → IsDown b since s
      → IsHeld b since s (frames ts b.id (us ++ b ∷ vs) s)
  frames-IsHeld since [] s h = record {
    still = h;
    calls = long_call_same b.id s.has_been_pressed_long;
    stays = λ q. q;
  }
  frames-IsHeld since (t ∷ ts) s h =
      (let one =
          subst (IsHeld b since s) (sym (frame-touched t s))
            (check_press_type-IsHeld b since t s single h) in
        let s₁ = (frame t b.id (us ++ b ∷ vs) s).0 in
        let rest = frames-IsHeld since ts s₁ one.still in
        record {
          still = rest.still;
          calls =
              ap₂ (λ x y. x ++ y) one.calls rest.calls
              ∙ long_call_trans b.id _ _ _ one.stays rest.stays;
          stays = λ q. rest.stays (one.stays q);
        })

  handle-released :
      (now since : ℕ) (s : Presses)
      → IsDown b since s
      → since ≤ now
      → since < 2 ^ 32
      → handle now 0 b s ≡ after_release b s
  unfolding handle
  handle-released now since s h hn hs =
      if_false (0 == b.id) _ _ (==_false b.id 0 has_tag)
      ∙ if_true (0 == 0 && s.pressed_id == b.id) _ (s, [])
          (subst (λ n. (n == b.id) ≡ true) (sym h.by) (==_refl b.id))
      ∙ release_lem b now since s single h hn hs

  frame-released :
      (now since : ℕ) (s : Presses)
      → IsDown b since s
      → since ≤ now
      → since < 2 ^ 32
      → frame now 0 (us ++ b ∷ vs) s ≡ after_release b s
  frame-released now since s h hn hs =
      frame-one now 0 us vs b s
        (subst (λ n. IsIdle 0 n us) (sym h.by) (released-IsIdle b us before))
        (subst (λ n. IsIdle 0 n vs)
          (sym (ap (λ (r : Result). r.0.pressed_id) (handle-released now since s h hn hs) ∙ h.by))
          (released-IsIdle b vs after))
      ∙ handle-released now since s h hn hs

  first-IsDown :
      (start : ℕ) (s : Presses)
      → s.pressed ≡ false
      → s.need_release_first ≡ false
      → IsDown b start (press_first b start s)
        × ((press_first b start s).has_been_pressed_long ≡ false)
  first-IsDown start s hp hn =
      subst (λ (x : Presses). IsDown b start x × (x.has_been_pressed_long ≡ false))
        (sym (if_false (b.single_press_mode && b.resets) _ _ (no_reset _ stays_there)))
        (record { down = refl; by = refl; at = refl; marked = hn }, refl)
    where
      no_reset : (x : Bool) {y : Bool} → y ≡ false → (x && y) ≡ false
      no_reset x q = rw q (ground arith)

  check_press_type-up :
      (now : ℕ) (s : Presses)
      → s.pressed ≡ false
      → check_press_type b now s ≡ (press_first b now s, (b.id, initial_press) ∷ [])
  unfolding check_press_type
  check_press_type-up now s h = if_true (not s.pressed) _ _ (rw h refl)

  -- A button in the mode for single presses, whose callback does not ask for a reset, is drawn in each
  -- frame among buttons with other ids. When none was pressed, it is touched in one frame, then in any
  -- number of frames, and in a last frame nothing is touched, then its callbacks, and all there are,
  -- are: the initial press, and either the release after a short press, or the long press once and the
  -- release after a long press. Then none is pressed, and the next press may be a long one.
  pub frames-IsGesture :
      (start : ℕ) (ts : List ℕ) (stop : ℕ) (s : Presses)
      → s.pressed ≡ false
      → s.need_release_first ≡ false
      → start ≤ stop
      → start < 2 ^ 32
      → IsGesture b
          (frames (start ∷ ts) b.id (us ++ b ∷ vs) s)
          (frame stop 0 (us ++ b ∷ vs) (frames (start ∷ ts) b.id (us ++ b ∷ vs) s).0)
  frames-IsGesture start ts stop s hp hn hl hs = subst gesture_from (sym first) (record {
    calls =
        ap (λ l. (b.id, initial_press) ∷ l)
          (ap₂ (λ x y. x ++ y)
              (held.calls ∙ ap (λ l. long_call b.id l r.0.has_been_pressed_long) start_down.1)
              (ap (λ (x : Result). x.1) freed)
            ∙ release_calls b.id r.0.has_been_pressed_long);
    up_again = ap (λ (x : Result). x.0.pressed) freed;
    ready = ap (λ (x : Result). x.0.need_release_first) freed;
  })
    where
      gesture_from : Result → Type 0
      gesture_from x =
          IsGesture b
            ((frames ts b.id (us ++ b ∷ vs) x.0).0, x.1 ++ (frames ts b.id (us ++ b ∷ vs) x.0).1)
            (frame stop 0 (us ++ b ∷ vs) (frames ts b.id (us ++ b ∷ vs) x.0).0)

      first :
          frame start b.id (us ++ b ∷ vs) s ≡ (press_first b start s, (b.id, initial_press) ∷ [])
      first = frame-touched start s ∙ check_press_type-up start s hp

      start_down :
          IsDown b start (press_first b start s)
          × ((press_first b start s).has_been_pressed_long ≡ false)
      start_down = first-IsDown start s hp hn

      r : Result
      r = frames ts b.id (us ++ b ∷ vs) (press_first b start s)

      held : IsHeld b start (press_first b start s) r
      held = frames-IsHeld start ts (press_first b start s) start_down.0

      freed : frame stop 0 (us ++ b ∷ vs) r.0 ≡ after_release b r.0
      freed = frame-released stop start r.0 held.still hl hs
