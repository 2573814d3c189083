-- ===== src/Storage/OrderedMap.antt =====
-- std::map<std::string, V>, the container of KVStore: pairs in the order of their keys.
use distributed_key_value_st.Base.{
  ◌≡◌, refl, true, Option, none, some, List, [], ◌∷◌, arith, if◌then◌else◌, Text, text_eq, text_lt,
  text_eq_iff, text_lt_irrefl, text_lt_trans, text_lt_connex,
}

abbrev pub Entries {ℓ} : Type ℓ → Type ℓ
Entries V = List (Text × V)

module _ {ℓ} {V : Type ℓ} where
  unfoldable pub find : Text → Entries V → Option V
  find k [] = none
  find k ((j, v) ∷ m) = if text_eq j k then some v else find k m

  -- m[k] = v
  unfoldable pub assign : Text → V → Entries V → Entries V
  assign k v [] = (k, v) ∷ []
  assign k v ((j, w) ∷ m) =
      let rest = assign k v m in
      if text_eq j k then (k, v) ∷ m else if text_lt k j then (k, v) ∷ (j, w) ∷ m else (j, w) ∷ rest

  unfoldable pub erase : Text → Entries V → Entries V
  erase k [] = []
  erase k ((j, v) ∷ m) = let rest = erase k m in if text_eq j k then rest else (j, v) ∷ rest

  -- Every key is above `k`.
  abbrev pub Above : Text → Entries V → Type 0
  Above k [] = Unit
  Above k ((j, v) ∷ m) = (text_lt k j ≡ true) × Above k m

  -- The keys rise strictly, so no key stands twice.
  abbrev pub IsOrdered : Entries V → Type 0
  IsOrdered [] = Unit
  IsOrdered ((j, v) ∷ m) = Above j m × IsOrdered m

  pub find-assign :
      (k j : Text) (v : V) (m : Entries V)
      → find j (assign k v m) ≡ (if text_eq k j then some v else find j m)
  unfolding find assign
  find-assign k j v [] = refl
  find-assign k j v ((i, w) ∷ m) =
      ground (arith, text_eq_iff k j, text_eq_iff i k, text_eq_iff i j, find-assign k j v m)

  pub find-erase :
      (k j : Text) (m : Entries V) → find j (erase k m) ≡ (if text_eq k j then none else find j m)
  unfolding find erase
  find-erase k j [] = ground arith
  find-erase k j ((i, w) ∷ m) =
      ground (arith, text_eq_iff k j, text_eq_iff i k, text_eq_iff i j, find-erase k j m)

  pub Above-trans : (k j : Text) (m : Entries V) → text_lt k j ≡ true → Above j m → Above k m
  Above-trans k j [] h a = tt
  Above-trans k j ((i, w) ∷ m) h a = (text_lt_trans k j i h a.0, Above-trans k j m h a.1)

  pub Above-assign :
      (i k : Text) (v : V) (m : Entries V) → text_lt i k ≡ true → Above i m → Above i (assign k v m)
  unfolding assign
  Above-assign i k v [] h a = (h, tt)
  Above-assign i k v ((j, w) ∷ m) h a = ground (arith, Above-assign i k v m h a.1)

  pub Above-erase : (i k : Text) (m : Entries V) → Above i m → Above i (erase k m)
  unfolding erase
  Above-erase i k [] a = tt
  Above-erase i k ((j, w) ∷ m) a = ground (arith, Above-erase i k m a.1)

  pub assign-IsOrdered : (k : Text) (v : V) (m : Entries V) → IsOrdered m → IsOrdered (assign k v m)
  unfolding assign
  assign-IsOrdered k v [] o = (tt, tt)
  assign-IsOrdered k v ((j, w) ∷ m) o = ground (
    arith,
    text_eq_iff j k,
    text_lt_connex k j,
    text_eq_iff k j,
    Above-trans k j m,
    Above-assign j k v m,
    assign-IsOrdered k v m o.1,
  )

  pub erase-IsOrdered : (k : Text) (m : Entries V) → IsOrdered m → IsOrdered (erase k m)
  unfolding erase
  erase-IsOrdered k [] o = tt
  erase-IsOrdered k ((j, w) ∷ m) o = ground (arith, Above-erase j k m o.0, erase-IsOrdered k m o.1)

  -- A key below all keys of a map is not in it.
  pub find-Above : (k : Text) (m : Entries V) → Above k m → find k m ≡ none
  unfolding find
  find-Above k [] a = refl
  find-Above k ((j, w) ∷ m) a =
      ground (arith, text_eq_iff j k, text_lt_irrefl k, find-Above k m a.1)

  pub find-Above_eq :
      (k j : Text) (m : Entries V) → Above k m → text_eq k j ≡ true → find j m ≡ none
  find-Above_eq k j m a h = rw (← (text_eq_iff k j).0 h) (find-Above k m a)
