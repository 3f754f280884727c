-- ===== src/Width/Graphemes.antt =====
-- Joins of lists of graphemes: lengths, and cuts between graphemes.
use camouflage.Prelude.{List, [], ◌∷◌, ◌++◌, ◌≡◌, refl, sym, ap, ◌∙◌, length, All, append_assoc}
use camouflage.Text.{Str}
use camouflage.Text.Utf8.{IsStr, IsStr-nil, well_formed-append}
use camouflage.Text.Boundary.{Boundary, Boundary-append}
use camouflage.Width.{concat}

pub concat-append : (gs hs : List Str) → concat (gs ++ hs) ≡ concat gs ++ concat hs
unfolding concat
concat-append [] hs = refl
concat-append (g ∷ gs) hs =
    ap (g ++◌) (concat-append gs hs) ∙ sym (append_assoc g (concat gs) (concat hs))

pub concat-IsStr : (gs : List Str) → All IsStr gs → IsStr (concat gs)
unfolding concat
concat-IsStr [] h = IsStr-nil
concat-IsStr (g ∷ gs) h = well_formed-append 0 g (concat gs) h.0 (concat-IsStr gs h.1)

-- Between two groups of graphemes a text may be cut.
pub Boundary-concat :
    (gs hs : List Str)
    → All IsStr gs
    → All IsStr hs
    → Boundary (concat (gs ++ hs)) (length (concat gs))
Boundary-concat gs hs h k =
    rw (concat-append gs hs)
      (Boundary-append (concat gs) (concat hs) (concat-IsStr gs h) (concat-IsStr hs k))
