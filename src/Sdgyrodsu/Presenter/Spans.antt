-- ===== src/Sdgyrodsu/Presenter/Spans.antt =====
-- The largest span that src/sdgyrodsu/presenter.cpp shows.
use steam_deck_gyro_dsu_exte.Base.{
  ℕ, ◌+◌, ◌-◌, ◌%◌, ◌^◌, ◌≤◌, ◌==◌, ltb, ◌≡◌, refl, subst, arith, true, false, List, [], ◌∷◌,
  if◌then◌else◌, All, Bool-cases, inl, inr,
}
use steam_deck_gyro_dsu_exte.Sdgyrodsu.Floats.{Floats}
use steam_deck_gyro_dsu_exte.Sdgyrodsu.Frame.{SdHidFrame}
use steam_deck_gyro_dsu_exte.Sdgyrodsu.Presenter.{
  Presenter, new_presenter, inc_span, widen, present, present_all,
}

-- The steps, as words, from each increment that is not 0 to the one behind it.
spans : ℕ → List SdHidFrame → List ℕ
spans l [] = []
spans l (f ∷ fs) =
    let rest = spans f.increment fs in
    if l == 0 then rest else (f.increment + 2 ^ 32 - l) % 2 ^ 32 ∷ rest

-- The largest number of a list and of a number.
record IsLargest (m start : ℕ) (ds : List ℕ) : Type 0 where
  pub above_start : start ≤ m
  pub above : All (λ d. d ≤ m) ds
  pub least : (b : ℕ) → start ≤ b → All (λ d. d ≤ b) ds → m ≤ b

-- A span in front.
IsLargest-cons :
    (m s d : ℕ) (ds : List ℕ) → IsLargest m (if ltb s d then d else s) ds → IsLargest m s (d ∷ ds)
IsLargest-cons m s d ds h =
    let at = h.above_start in
    record {
      above_start = ground (arith, at);
      above = (ground (arith, at), h.above);
      least = λ b hs hd. h.least b (ground (arith, hs, hd.0)) hd.1;
    }

module _ (fl : Floats) where
  present_inc : (f : SdHidFrame) (p : Presenter) → (present fl f p).0.last_inc ≡ f.increment
  unfolding present widen
  present_inc f p = refl

  present_first :
      (f : SdHidFrame) (p : Presenter)
      → (p.last_inc == 0) ≡ true
      → (present fl f p).0.max_span ≡ p.max_span
  unfolding present widen
  present_first f p start = ground (arith, start)

  present_later :
      (f : SdHidFrame) (p : Presenter)
      → (p.last_inc == 0) ≡ false
      → (present fl f p).0.max_span
        ≡ (if ltb p.max_span (inc_span f p) then inc_span f p else p.max_span)
  unfolding present widen
  present_later f p some' = ground (arith, some')

  all-IsLargest :
      (fs : List SdHidFrame) (p : Presenter)
      → IsLargest (present_all fl fs p).max_span p.max_span (spans p.last_inc fs)
  unfolding present_all spans inc_span
  all-IsLargest [] p = record { above_start = omega arith; above = tt; least = λ b hs hd. hs }
  all-IsLargest (f ∷ fs) p =
      let ih = all-IsLargest fs (present fl f p).0 in
      let m = (present_all fl (f ∷ fs) p).max_span in
      elim (Bool-cases (p.last_inc == 0)) [
        | inl start ↦
            rw start
              (subst (λ s. IsLargest m s (spans f.increment fs)) (present_first f p start) ih)
        | inr some' ↦ rw some' (
            IsLargest-cons m p.max_span (inc_span f p) (spans f.increment fs)
              (subst (λ s. IsLargest m s (spans f.increment fs)) (present_later f p some') ih))
      ]

  -- After any frames, the span that is shown as the largest is the largest of the steps from one
  -- increment to the next, those behind an increment of 0 left out.
  present_all-IsLargest :
      (fs : List SdHidFrame) → IsLargest (present_all fl fs new_presenter).max_span 0 (spans 0 fs)
  unfolding new_presenter
  present_all-IsLargest fs = all-IsLargest fs new_presenter
