-- ===== src/Tests/Texts.antt =====
-- Strings in memory of 8 bytes.
use dcrud.Base.{refl, some, [], ◌∷◌, arith}
use dcrud.Util.Pool
use dcrud.Util.Strings
use dcrud.Util.Strings.{Text}
use dcrud.Util.Strings.Laws.{ConcatOutcome, concat-ConcatOutcome}

abbrev greeting : Text
greeting = record { capacity = 8; chars = 104 ∷ 105 ∷ [] }

concat-ConcatOutcome_example :
    ConcatOutcome greeting (33 ∷ []) 6 (Strings.concat (some greeting) (some (33 ∷ [])) (some 6))
concat-ConcatOutcome_example = concat-ConcatOutcome greeting (33 ∷ []) 6 refl (omega arith)

-- Of two pools the second has the string.
abbrev small : Pool.Pool
small = record { address = 1; entries = record { item = 100; ref_count = 1 } ∷ [] }

abbrev large : Pool.Pool
large = record { address = 2; entries = record { item = 200; ref_count = 1 } ∷ [] }
