-- ===== src/Texts/Order.antt =====
-- The order of texts is total and transitive, and only equal texts come before each other.
use feathr_events.Prelude.{[], ◌∷◌, true, false, ◌≡◌, refl, arith}
use feathr_events.Models.{Text}
use feathr_events.Texts.{text_leb}

pub text_leb-total : (s t : Text) → text_leb s t ≡ false → text_leb t s ≡ true
text_leb-total [] t h = ground arith
text_leb-total (a ∷ s) [] h = refl
text_leb-total (a ∷ s) (b ∷ t) h = ground (arith, text_leb-total s t)

pub text_leb_refl : (s : Text) → text_leb s s ≡ true
text_leb_refl [] = refl
text_leb_refl (a ∷ s) = ground (arith, text_leb_refl s)

pub text_leb_trans :
    (s t u : Text) → text_leb s t ≡ true → text_leb t u ≡ true → text_leb s u ≡ true
text_leb_trans [] t u h k = refl
text_leb_trans (a ∷ s) [] u h k = ground arith
text_leb_trans (a ∷ s) (b ∷ t) [] h k = ground arith
text_leb_trans (a ∷ s) (b ∷ t) (c ∷ u) h k = ground (arith, text_leb_trans s t u)

pub text_leb-antisym : (s t : Text) → text_leb s t ≡ true → text_leb t s ≡ true → s ≡ t
text_leb-antisym [] [] h k = refl
text_leb-antisym [] (b ∷ t) h k = ground arith
text_leb-antisym (a ∷ s) [] h k = ground arith
text_leb-antisym (a ∷ s) (b ∷ t) h k = ground (arith, text_leb-antisym s t)
