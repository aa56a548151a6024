-- ===== src/Value/Order.antt =====
-- Tuples of texts are totally ordered.
use mysql_redshift_agent.Prelude.{◌≡◌, refl, true, false, List, [], ◌∷◌, arith}
use mysql_redshift_agent.Prelude.Sort.{IsOrder}
use mysql_redshift_agent.Text.{Text}
use mysql_redshift_agent.Text.Laws.{text_eq_iff, text_le-IsOrder}
use mysql_redshift_agent.Value.{texts_le}

texts_le-total : (s t : List Text) → texts_le s t ≡ false → texts_le t s ≡ true
unfolding texts_le
texts_le-total [] t h = cc
texts_le-total (a ∷ s) [] h = refl
texts_le-total (a ∷ s) (b ∷ t) h =
    ground (arith, text_eq_iff a b, text_eq_iff b a, text_le-IsOrder.total a b, texts_le-total s t)

texts_le_trans :
    (s t r : List Text) → texts_le s t ≡ true → texts_le t r ≡ true → texts_le s r ≡ true
unfolding texts_le
texts_le_trans [] t r h k = refl
texts_le_trans (a ∷ s) [] r h k = cc
texts_le_trans (a ∷ s) (b ∷ t) [] h k = cc
texts_le_trans (a ∷ s) (b ∷ t) (c ∷ r) h k = ground (
  arith,
  text_eq_iff a b,
  text_eq_iff b c,
  text_eq_iff a c,
  text_le-IsOrder.trans a b c,
  text_le-IsOrder.antisymm a b,
  texts_le_trans s t r,
)

texts_le_antisymm : (s t : List Text) → texts_le s t ≡ true → texts_le t s ≡ true → s ≡ t
unfolding texts_le
texts_le_antisymm [] [] h k = refl
texts_le_antisymm [] (b ∷ t) h k = cc
texts_le_antisymm (a ∷ s) [] h k = cc
texts_le_antisymm (a ∷ s) (b ∷ t) h k =
    ground
      (arith, text_eq_iff a b, text_eq_iff b a, text_le-IsOrder.antisymm a b, texts_le_antisymm s t)

pub texts_le-IsOrder : IsOrder texts_le
texts_le-IsOrder = record {
  total = texts_le-total;
  trans = texts_le_trans;
  antisymm = texts_le_antisymm;
}
