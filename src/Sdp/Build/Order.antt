-- ===== src/Sdp/Build/Order.antt =====
-- The canonical order that the builder of modules/wl2_sdp/src/sdp.cpp gives the lines of a scope.
use winglib.Base.{not, List, [], ◌∷◌, ◌++◌, Text, if◌then◌else◌, ◌==◌, leb, keep}
use winglib.Sdp.Lines.{Line}
use winglib.Sdp.Build.{position}

-- The lines of each type of an order, one type after the other, and then those of the types that the
-- order does not name.
unfoldable pub group : Text → List Line → List Line
group [] lines = lines
group (c ∷ order) lines =
    keep (λ l. l.type == c) lines ++ group order (keep (λ l. not (l.type == c)) lines)

-- The stable sort by a line's place in any order.
unfoldable insert_by : Text → Line → List Line → List Line
unfolding position
insert_by order line [] = line ∷ []
insert_by order line (l ∷ lines) =
    if leb (position line.type order) (position l.type order)
    then line ∷ l ∷ lines
    else l ∷ insert_by order line lines

unfoldable sort_by : Text → List Line → List Line
unfolding insert_by
sort_by order [] = []
sort_by order (line ∷ lines) = insert_by order line (sort_by order lines)
