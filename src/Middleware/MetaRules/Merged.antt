-- ===== src/Middleware/MetaRules/Merged.antt =====
-- What the overrides of labels and annotations leave.
use Prim.Native.String.{String}
use text.Mathlib.Text.{◌==◌ as text_eq}
use logdna_agent_v.Base.{
  ◌≡◌, refl, ap, ◌∙◌, inl, inr, Bool, true, false, Bool-cases, Option, none, some, [], ◌∷◌,
  if◌then◌else◌,
}
use logdna_agent_v.Middleware.MetaRules.{
  TextMap, text_put, LineFields, substitute, put_or_drop, merge_over,
}

-- The documented behaviour of the maps of a line.
pub record MapLaws (fs : LineFields) : Type 0 where
  pub value_of-put :
      (m : fs.KeyValueMap) (k v j : String)
      → fs.value_of (fs.put_value m k v) j ≡ (if text_eq k j then some v else fs.value_of m j)
  pub value_of-drop :
      (m : fs.KeyValueMap) (k j : String)
      → fs.value_of (fs.drop_value m k) j ≡ (if text_eq k j then none else fs.value_of m j)

abbrev pub or_else : Option String → Option String → Option String
or_else none other = other
or_else (some v) other = some v

-- The value of the last entry of a key.
abbrev pub last_get : TextMap → String → Option String
last_get [] j = none
last_get ((k, v) ∷ m) j =
    let rest = last_get m j in or_else rest (if text_eq k j then some v else none)

-- A key that was set: it has the new value, or none if that is empty. Another key is as it was.
abbrev pub settled : Option String → Option String → Option String
settled none old = old
settled (some v) old = if text_eq v "" then none else some v

module _ (fs : LineFields) where
  -- The overrides with their templates filled in, each with the values of those in front of it.
  abbrev pub filled : String → TextMap → TextMap → TextMap
  filled prefix [] vars = []
  filled prefix ((k, template) ∷ over) vars =
      (k, substitute fs template vars)
      ∷ filled prefix over (text_put (fs.concat prefix k) (substitute fs template vars) vars)

  module _ (laws : MapLaws fs) where
    put_or_drop-value :
        (m : fs.KeyValueMap) (k v j : String)
        → fs.value_of (put_or_drop fs k v m) j
          ≡ (if text_eq k j then settled (some v) none else fs.value_of m j)
    put_or_drop-value m k v j = elim (Bool-cases (text_eq v "")) [
      | inl e ↦ rw e (laws.value_of-drop m k j)
      | inr e ↦ rw e (laws.value_of-put m k v j)
    ]

    settle_in :
        (o : Option String) (b : Bool) (v : String) (old : Option String)
        → settled o (if b then settled (some v) none else old)
          ≡ settled (or_else o (if b then some v else none)) old
    settle_in none true v old = refl
    settle_in none false v old = refl
    settle_in (some x) b v old = refl

    -- A key of the line that no override names keeps its value. A key that is named gets the last of its
    -- templates, filled in from the map as it is then, and no value at all if that is empty.
    pub merge_over-value :
        (prefix : String) (over vars : TextMap) (m : fs.KeyValueMap) (j : String)
        → fs.value_of (merge_over fs prefix over vars m).1 j
          ≡ settled (last_get (filled prefix over vars) j) (fs.value_of m j)
    unfolding merge_over
    merge_over-value prefix [] vars m j = refl
    merge_over-value prefix ((k, template) ∷ over) vars m j =
        let v = substitute fs template vars in
        let vars' = text_put (fs.concat prefix k) v vars in
        let later = last_get (filled prefix over vars') j in
        merge_over-value prefix over vars' (put_or_drop fs k v m) j
        ∙ ap (settled later) (put_or_drop-value m k v j)
        ∙ settle_in later (text_eq k j) v (fs.value_of m j)
