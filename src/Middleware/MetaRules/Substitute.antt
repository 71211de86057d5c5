-- ===== src/Middleware/MetaRules/Substitute.antt =====
-- What `substitute` of common/config/src/lib.rs replaces in a template.
use Prim.Native.String.{String}
use logdna_agent_v.Base.{◌≡◌, none, some, List, [], ◌∷◌}
use logdna_agent_v.Middleware.MetaRules.{TextMap, text_get, LineFields}

-- The pieces of the template that are replaced, each with what stands for it: first the variables that
-- are known, then those with a default, known or not.
abbrev pub known_pieces : List (String × String) → TextMap → List (String × String)
known_pieces [] vars = []
known_pieces ((key, whole) ∷ caps) vars =
    let rest = known_pieces caps vars in
    elim (text_get vars key) [ none ↦ rest | some v ↦ (whole, v) ∷ rest ]

abbrev pub default_pieces : List (String × String × String) → TextMap → List (String × String)
default_pieces [] vars = []
default_pieces ((key, whole, default) ∷ caps) vars =
    let rest = default_pieces caps vars in
    elim (text_get vars key) [ none ↦ (whole, default) ∷ rest | some v ↦ (whole, v) ∷ rest ]

-- None of the variables is known.
abbrev pub AllUnknown : List (String × String) → TextMap → Type 0
AllUnknown [] vars = Unit
AllUnknown ((key, whole) ∷ caps) vars = (text_get vars key ≡ none) × AllUnknown caps vars

module _ (fs : LineFields) where
  abbrev pub replaced : List (String × String) → String → String
  replaced [] text = text
  replaced ((piece, value) ∷ pieces) text = replaced pieces (fs.replace text piece value)
