-- ===== src/Storage/KvStore/Scan.antt =====
-- storage/KVStore.cpp: Scan, over an ordered table.
use Prim.Native.Nat.{max}
use distributed_key_value_st.Base.{
  ℕ, suc, ◌-◌, ◌≡◌, refl, ap, sym, ◌∙◌, Bool, true, false, ◌&&◌, not, Option, none, some, [], ◌∷◌,
  arith, Bool-cases, inl, inr, if◌then◌else◌, Text, text_eq, text_lt, starts_with, text_lt_trans,
  take, leb, tests, keep_if, All,
}
use distributed_key_value_st.Storage.OrderedMap.{Entries, Above, IsOrdered}
use distributed_key_value_st.Storage.KvStore.{
  KvEntry, KvStore, expired, lower_bound, limit_reached, scan_loop, scan,
}

-- What Scan is to return: a key with the prefix whose entry has not run out.
abbrev pub wanted : ℕ → Text → Text × KvEntry → Bool
wanted now prefix (k, e) = starts_with k prefix && not (expired now e)

abbrev pub at_most : Option ℕ → Entries KvEntry → Entries KvEntry
at_most none m = m
at_most (some limit) m = take (max 1 limit) m

abbrev at_most_from : Option ℕ → ℕ → Entries KvEntry → Entries KvEntry
at_most_from none n m = m
at_most_from (some limit) n m = take (max 1 (limit - n)) m

-- A key below the prefix does not have it.
lt-starts_with : (k p : Text) → text_lt k p ≡ true → starts_with k p ≡ false
unfolding text_lt starts_with text_eq
lt-starts_with [] [] h = cc
lt-starts_with [] (b ∷ bs) h = refl
lt-starts_with (a ∷ k) [] h = cc
lt-starts_with (a ∷ k) (b ∷ bs) h = ground (arith, lt-starts_with k bs)

-- Once past the prefix, no later key has it.
past-starts_with :
    (k j p : Text)
    → text_lt k p ≡ false
    → starts_with k p ≡ false
    → text_lt k j ≡ true
    → starts_with j p ≡ false
unfolding text_lt starts_with text_eq
past-starts_with [] j [] h n l = cc
past-starts_with [] j (b ∷ bs) h n l = cc
past-starts_with (a ∷ k) j [] h n l = cc
past-starts_with (a ∷ k) [] (b ∷ bs) h n l = refl
past-starts_with (a ∷ k) (c ∷ j) (b ∷ bs) h n l = ground (arith, past-starts_with k j bs)

not_below : (k j p : Text) → text_lt k p ≡ false → text_lt k j ≡ true → text_lt j p ≡ false
not_below k j p h l = elim (Bool-cases (text_lt j p)) [
  | inl below ↦ cc (text_lt_trans k j p l below)
  | inr not_lt ↦ not_lt
]

abbrev IsNotBelow : Text → Entries KvEntry → Type 0
IsNotBelow p = All (λ x. text_lt x.0 p ≡ false)

Above-IsNotBelow :
    (k p : Text) (m : Entries KvEntry) → text_lt k p ≡ false → Above k m → IsNotBelow p m
Above-IsNotBelow k p [] h a = tt
Above-IsNotBelow k p ((j, e) ∷ m) h a = (not_below k j p h a.0, Above-IsNotBelow k p m h a.1)

take_nil : (limit : Option ℕ) (n : ℕ) → at_most_from limit n [] ≡ []
take_nil none n = refl
take_nil (some limit) n =
    let one : max 1 (limit - n) ≡ suc (max 1 (limit - n) - 1) = omega arith in rw one refl

at_most_step :
    (limit : Option ℕ) (n : ℕ) (x : Text × KvEntry) (m : Entries KvEntry)
    → at_most_from limit n (x ∷ m)
      ≡ (if limit_reached limit (suc n) then x ∷ [] else x ∷ at_most_from limit (suc n) m)
unfolding limit_reached
at_most_step none n x m = refl
at_most_step (some limit) n x m = elim (Bool-cases (leb limit (suc n))) [
  | inl full ↦ let one : max 1 (limit - n) ≡ 1 = omega tests in rw full (rw one refl)
  | inr room ↦
      let one : max 1 (limit - n) ≡ suc (max 1 (limit - suc n)) = ground arith in
      rw room (rw one refl)
]

module _ (now : ℕ) (p : Text) where
  keep_if_past :
      (k : Text) (m : Entries KvEntry)
      → text_lt k p ≡ false
      → starts_with k p ≡ false
      → Above k m
      → keep_if (wanted now p) m ≡ []
  keep_if_past k [] h n a = refl
  keep_if_past k ((j, e) ∷ m) h n a = rw (past-starts_with k j p h n a.0) (keep_if_past k m h n a.1)

  lower_bound_lem :
      (m : Entries KvEntry)
      → IsOrdered m
      → IsNotBelow p (lower_bound p m)
        × IsOrdered (lower_bound p m)
        × (keep_if (wanted now p) (lower_bound p m) ≡ keep_if (wanted now p) m)
  unfolding lower_bound
  lower_bound_lem [] o = (tt, tt, refl)
  lower_bound_lem ((k, e) ∷ m) o = elim (Bool-cases (text_lt k p)) [
    | inl below ↦ rw (below, lt-starts_with k p below) (lower_bound_lem m o.1)
    | inr above ↦ rw above ((above, Above-IsNotBelow k p m above o.0), o, refl)
  ]

  scan_loop_lem :
      (limit : Option ℕ) (n : ℕ) (m : Entries KvEntry)
      → IsNotBelow p m
      → IsOrdered m
      → scan_loop now p limit n m ≡ at_most_from limit n (keep_if (wanted now p) m)
  unfolding scan_loop
  scan_loop_lem limit n [] b o = sym (take_nil limit n)
  scan_loop_lem limit n ((k, e) ∷ m) b o = elim (Bool-cases (starts_with k p)) [
    | inl has ↦ rw has (
        ground (
          arith,
          scan_loop_lem limit n m b.1 o.1,
          scan_loop_lem limit (suc n) m b.1 o.1,
          at_most_step limit n (k, e) (keep_if (wanted now p) m),
        ))
    | inr misses ↦ rw (misses, keep_if_past k m b.0 misses o.0) (sym (take_nil limit n))
  ]

from_zero : (limit : Option ℕ) (m : Entries KvEntry) → at_most_from limit 0 m ≡ at_most limit m
from_zero none m = refl
from_zero (some limit) m = let same : limit - 0 ≡ limit = omega arith in rw same refl

-- Over an ordered table Scan returns the entries whose key has the prefix and which have not run out,
-- in the order of their keys: all of them without a limit, with a limit the first ones, as many as the
-- limit says, but one where the limit is 0.
pub scan_lem :
    (now : ℕ) (prefix : Text) (limit : Option ℕ) (s : KvStore)
    → IsOrdered s.table
    → scan now prefix limit s ≡ at_most limit (keep_if (wanted now prefix) s.table)
unfolding scan
scan_lem now prefix limit s o =
    let bound = lower_bound_lem now prefix s.table o in
    scan_loop_lem now prefix limit 0 (lower_bound prefix s.table) bound.0 bound.1
    ∙ ap (at_most_from limit 0) bound.2
    ∙ from_zero limit (keep_if (wanted now prefix) s.table)
