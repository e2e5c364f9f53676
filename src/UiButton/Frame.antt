-- ===== src/UiButton/Frame.antt =====
-- A frame with one button that the tag means.
use poor_mans_smu.Prelude.{
  ℕ, ◌≡◌, ◌≢◌, refl, ap, ap₂, ◌∙◌, Bool, true, false, ◌&&◌, List, [], ◌∷◌, ◌++◌, append-nil, arith,
  ◌==◌, ==_iff, if_false,
}
use poor_mans_smu.UiButton.{Button, Presses, Result, release, handle, frame}

==_refl : (n : ℕ) → (n == n) ≡ true
==_refl n = (==_iff n n).1 refl

-- None of the buttons is meant by the tag, or by the press that is remembered.
abbrev pub IsIdle : ℕ → ℕ → List Button → Type 0
IsIdle tag id [] = Unit
IsIdle tag id (u ∷ us) = (u.id ≢ tag) × ((tag == 0 && id == u.id) ≡ false) × IsIdle tag id us

==_false : (m n : ℕ) → m ≢ n → (n == m) ≡ false
==_false m n h = ground arith

handle-idle :
    (now tag : ℕ) (u : Button) (s : Presses)
    → u.id ≢ tag
    → (tag == 0 && s.pressed_id == u.id) ≡ false
    → handle now tag u s ≡ (s, [])
unfolding handle
handle-idle now tag u s h₀ h₁ =
    if_false (tag == u.id) _ _ (==_false u.id tag h₀) ∙ if_false _ (release u now s) (s, []) h₁

frame-idle :
    (now tag : ℕ) (us : List Button) (s : Presses)
    → IsIdle tag s.pressed_id us
    → frame now tag us s ≡ (s, [])
unfolding frame
frame-idle now tag [] s h = refl
frame-idle now tag (u ∷ us) s (h₀, h₁, h) =
    ap₂ (λ (x y : Result). (y.0, x.1 ++ y.1)) (handle-idle now tag u s h₀ h₁)
      (ap (λ (x : Result). frame now tag us x.0) (handle-idle now tag u s h₀ h₁)
        ∙ frame-idle now tag us s h)

-- A frame does what its one button does that is meant.
pub frame-one :
    (now tag : ℕ) (us vs : List Button) (b : Button) (s : Presses)
    → IsIdle tag s.pressed_id us
    → IsIdle tag (handle now tag b s).0.pressed_id vs
    → frame now tag (us ++ b ∷ vs) s ≡ handle now tag b s
unfolding frame
frame-one now tag [] vs b s h k =
    ap (λ (y : Result). (y.0, (handle now tag b s).1 ++ y.1))
      (frame-idle now tag vs (handle now tag b s).0 k)
    ∙ ap (λ l. ((handle now tag b s).0, l)) (append-nil (handle now tag b s).1)
frame-one now tag (u ∷ us) vs b s (h₀, h₁, h) k =
    ap₂ (λ (x y : Result). (y.0, x.1 ++ y.1)) (handle-idle now tag u s h₀ h₁)
      (ap (λ (x : Result). frame now tag (us ++ b ∷ vs) x.0) (handle-idle now tag u s h₀ h₁)
        ∙ frame-one now tag us vs b s h k)

-- The ids of the other buttons are not that of the button, and none is 0, the tag of no touch.
abbrev pub IsOther : Button → List Button → Type 0
IsOther b [] = Unit
IsOther b (u ∷ us) = (u.id ≢ b.id) × (u.id ≢ 0) × IsOther b us

pub touched-IsIdle :
    (b : Button) (us : List Button) (id : ℕ) → b.id ≢ 0 → IsOther b us → IsIdle b.id id us
touched-IsIdle b [] id hb h = tt
touched-IsIdle b (u ∷ us) id hb (h₀, h₁, h) =
    (h₀, no_release b.id _ hb, touched-IsIdle b us id hb h)
  where
    no_release : (n : ℕ) (c : Bool) → n ≢ 0 → (n == 0 && c) ≡ false
    no_release n c q = ground arith

pub released-IsIdle : (b : Button) (us : List Button) → IsOther b us → IsIdle 0 b.id us
released-IsIdle b [] h = tt
released-IsIdle b (u ∷ us) (h₀, h₁, h) = (h₁, not_it u.id b.id h₀, released-IsIdle b us h)
  where
    not_it : (m n : ℕ) → m ≢ n → (n == m) ≡ false
    not_it m n q = ground arith
