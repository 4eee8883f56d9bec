-- ===== src/Square/Sequences/Squares.antt =====
-- The loop over the elements of a request.
use dp.Base.{◌*◌, ◌<◌, ◌≡◌, refl, arith, some, List, [], ◌∷◌, length}
use dp.Base.Int.{ℤ, magnitude, hyper_limit, AllHyper}
use dp.Square.Simple.Replies.{squared, square_fits}
use dp.Square.Sequences.{cons_square, squares}

-- No square overflows.
abbrev pub AllSquaresFit : List ℤ → Type 0
AllSquaresFit [] = Unit
AllSquaresFit (v ∷ vs) = (magnitude v * magnitude v < hyper_limit) × AllSquaresFit vs

abbrev pub map_squared : List ℤ → List ℤ
map_squared [] = []
map_squared (v ∷ vs) = squared v ∷ map_squared vs

pub squares-map_squared : (vs : List ℤ) → AllSquaresFit vs → squares vs ≡ some (map_squared vs)
unfolding squares cons_square
squares-map_squared [] fits = refl
squares-map_squared (v ∷ vs) (fit, fits) = rw (square_fits v fit, squares-map_squared vs fits) refl

pub length-map_squared : (vs : List ℤ) → length (map_squared vs) ≡ length vs
length-map_squared [] = refl
length-map_squared (v ∷ vs) = omega (arith, length-map_squared vs)

pub map_squared-AllHyper : (vs : List ℤ) → AllSquaresFit vs → AllHyper (map_squared vs)
map_squared-AllHyper [] fits = tt
map_squared-AllHyper (v ∷ vs) (fit, fits) = (fit, map_squared-AllHyper vs fits)
