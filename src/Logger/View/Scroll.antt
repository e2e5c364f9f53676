-- ===== src/Logger/View/Scroll.antt =====
-- The manual scroll of the log's view.
use poor_mans_smu.Prelude.{
  ℕ, ◌<◌, ◌≤◌, ◌≡◌, refl, sym, ap, ◌∙◌, inl, inr, ◌⊎◌, ◌^◌, true, false, Bool-cases, if◌then◌else◌,
  arith, Bool,
}
use poor_mans_smu.Prelude.Int.{ℤ, pos, negsuc, ◌-ℤ◌}
use poor_mans_smu.Prelude.Real.{Arith}
use poor_mans_smu.Logger.View.{View, scroll, scroll_target, is_future, eq_int, sub32}

module _ (a : Arith) where
  sub32-exact : (b t : ℕ) (z : ℤ) → b < 2 ^ 31 → t < 2 ^ 31 → pos b -ℤ z ≡ pos t → sub32 a b z ≡ t
  unfolding ◌-ℤ◌
  sub32-exact b t (pos n) hb ht h = ground arith
  sub32-exact b t (negsuc n) hb ht h = ground arith

  is_future-after : (x t : ℕ) → x < 2 ^ 31 → t < 2 ^ 31 → is_future a x t ≡ true → x ≤ t
  unfolding ◌-ℤ◌
  is_future-after x t hx ht h = ground arith

  is_future-before : (x t : ℕ) → x < 2 ^ 31 → t < 2 ^ 31 → is_future a x t ≡ false → t < x
  unfolding ◌-ℤ◌
  is_future-before x t hx ht h = ground arith

  -- The address that the view stands at, and the turns since.
  abbrev pub stands_at : View a → ℕ
  stands_at v = if v.auto_scrolling then v.log.address else v.scroll_address

  abbrev pub turns_since : View a → ℤ
  turns_since v = if v.auto_scrolling then v.scroll_rotary else (v.scroll_rotary -ℤ v.old_rot)

  -- The view stands at an address, and follows the newest sample no more.
  pub record StandsAt (t : ℕ) (v w : View a) : Type 0 where
    pub past : t < v.log.address
    pub still : w.auto_scrolling ≡ false
    pub at_target : w.scroll_address ≡ t
    pub count_kept : w.scroll_rotary ≡ v.scroll_rotary
    pub used_up : w.old_rot ≡ v.scroll_rotary

  -- The view follows the newest sample, and the encoder's count starts again.
  pub record Follows (t : ℕ) (v w : View a) : Type 0 where
    pub reached : v.log.address ≤ t
    pub follows : w.auto_scrolling ≡ true
    pub at_newest : w.scroll_address ≡ v.log.address
    pub count_reset : w.scroll_rotary ≡ pos 0
    pub used_up : w.old_rot ≡ pos 0

  abbrev target : View a → ℕ
  target v = scroll_target a (record v { scroll_address = stands_at v })

  abbrev stands : Bool → View a → ℕ
  stands b v = if b then v.log.address else v.scroll_address

  abbrev turned : Bool → View a → ℤ
  turned b v = if b then v.scroll_rotary else (v.scroll_rotary -ℤ v.old_rot)

  abbrev aimed : Bool → View a → ℕ
  aimed b v =
      if b
      then sub32 a v.log.address v.scroll_rotary
      else sub32 a (stands b v) (v.scroll_rotary -ℤ v.old_rot)

  aimed-exact :
      (b : Bool) (v : View a) (t : ℕ)
      → stands b v < 2 ^ 31
      → t < 2 ^ 31
      → pos (stands b v) -ℤ turned b v ≡ pos t
      → aimed b v ≡ t
  aimed-exact true v t = sub32-exact v.log.address t v.scroll_rotary
  aimed-exact false v t = sub32-exact v.scroll_address t (v.scroll_rotary -ℤ v.old_rot)

  target-exact :
      (v : View a) (t : ℕ)
      → stands_at v < 2 ^ 31
      → t < 2 ^ 31
      → pos (stands_at v) -ℤ turns_since v ≡ pos t
      → target v ≡ t
  target-exact v t = aimed-exact v.auto_scrolling v t

  -- A turn of the encoder while scrolling moves the view from the newest address by the encoder's
  -- count, when it followed the newest, and otherwise from where it stood by the turns since the last
  -- call; a positive count is back in the log. From and to an address below 2^31, that one not below 0:
  -- when it is before the newest, the view stands at exactly that address and does not follow; when it
  -- is the newest or after it, the view follows the newest, with the encoder's count back at 0. Either
  -- way the turn is used up.
  pub scroll-turned :
      (v : View a) (t : ℕ)
      → eq_int a v.old_rot v.scroll_rotary ≡ false
      → v.log.address < 2 ^ 31
      → stands_at v < 2 ^ 31
      → t < 2 ^ 31
      → pos (stands_at v) -ℤ turns_since v ≡ pos t
      → StandsAt t v (scroll a v) ⊎ Follows t v (scroll a v)
  unfolding scroll
  scroll-turned v t h ha hb ht he =
      let ht' = target-exact v t hb ht he in
      elim (Bool-cases (is_future a v.log.address (target v))) [
        | inl q ↦ inr (
            rw (h, q)
              (record {
                reached =
                    is_future-after v.log.address t ha ht
                      (sym (ap (is_future a v.log.address) ht') ∙ q);
                follows = refl;
                at_newest = refl;
                count_reset = refl;
                used_up = refl;
              }))
        | inr q ↦ inl (
            rw (h, q)
              (record {
                past =
                    is_future-before v.log.address t ha ht
                      (sym (ap (is_future a v.log.address) ht') ∙ q);
                still = refl;
                at_target = ht';
                count_kept = refl;
                used_up = refl;
              }))
      ]
