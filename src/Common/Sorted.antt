-- ===== src/Common/Sorted.antt =====
-- `BTreeMap<String, _>` as a list of entries and `BTreeSet<String>` as a list of texts, both in
-- ascending order of the key, which is the order in which the source iterates over them.
use text.Mathlib.TextEquality.{path_by_compare}
use text.Mathlib.TextPositions.{compare_refl}
use Prim.Native.String.{compare}
use litellm_relay.Common.{
  String, Ordering, ◌≡◌, ◌||◌, Option, none, some, List, [], ◌∷◌, arith, if◌then◌else◌, ◌==◌,
  ==_iff, string_eq, contains,
}
use litellm_relay.Common.TextOrder.{Lt, lt_of_gt}

abbrev pub BTreeMap {ℓ} : Type ℓ → Type ℓ
BTreeMap V = List (String × V)

module _ {ℓ} {V : Type ℓ} where
  unfoldable pub lookup : String → BTreeMap V → Option V
  lookup k [] = none
  lookup k ((j, v) ∷ m) = if k == j then some v else lookup k m

  unfoldable pub insert : String → V → BTreeMap V → BTreeMap V
  insert k v [] = (k, v) ∷ []
  insert k v ((j, w) ∷ m) = elim (compare k j) [
    | Ordering.lt ↦ (k, v) ∷ (j, w) ∷ m
    | Ordering.eq ↦ (k, v) ∷ m
    | Ordering.gt ↦ (j, w) ∷ insert k v m
  ]

  -- The entries' keys ascend, and are above a given one.
  abbrev pub Above : String → BTreeMap V → Type 0
  Above k [] = Unit
  Above k ((j, _) ∷ m) = Lt k j × Above j m

  abbrev pub IsSorted : BTreeMap V → Type 0
  IsSorted [] = Unit
  IsSorted ((j, _) ∷ m) = Above j m

  abbrev pub values : BTreeMap V → List V
  values [] = []
  values ((_, v) ∷ m) = v ∷ values m

  abbrev pub keys : BTreeMap V → List String
  keys [] = []
  keys ((k, _) ∷ m) = k ∷ keys m

  pub lookup-insert :
      (k j : String) (v : V) (m : BTreeMap V)
      → lookup j (insert k v m) ≡ (if j == k then some v else lookup j m)
  unfolding lookup insert
  lookup-insert k j v [] = ground arith
  lookup-insert k j v ((i, w) ∷ m) =
      ground
        (arith, ==_iff j k, ==_iff j i, compare_refl k, path_by_compare k i, lookup-insert k j v m)

  Above-insert :
      (l k : String) (v : V) (m : BTreeMap V) → Lt l k → Above l m → Above l (insert k v m)
  unfolding insert
  Above-insert l k v [] h a = (h, tt)
  Above-insert l k v ((j, w) ∷ m) h (a, b) =
      ground (arith, path_by_compare k j, lt_of_gt k j, Above-insert j k v m)

  pub insert-IsSorted : (k : String) (v : V) (m : BTreeMap V) → IsSorted m → IsSorted (insert k v m)
  unfolding insert
  insert-IsSorted k v [] h = tt
  insert-IsSorted k v ((j, w) ∷ m) h =
      ground (arith, path_by_compare k j, lt_of_gt k j, Above-insert j k v m)

-- `BTreeSet<String>`
unfoldable pub insert_text : String → List String → List String
insert_text k [] = k ∷ []
insert_text k (j ∷ l) = elim (compare k j) [
  | Ordering.lt ↦ k ∷ j ∷ l
  | Ordering.eq ↦ k ∷ l
  | Ordering.gt ↦ j ∷ insert_text k l
]

-- collect::<BTreeSet<_>>()
unfoldable pub text_set : List String → List String
text_set [] = []
text_set (k ∷ l) = insert_text k (text_set l)

pub contains-insert_text :
    (k j : String) (l : List String) → contains (insert_text k l) j ≡ (k == j || contains l j)
unfolding insert_text
contains-insert_text k j [] = ground arith
contains-insert_text k j (i ∷ l) =
    ground (arith, ==_iff k j, ==_iff i j, path_by_compare k i, contains-insert_text k j l)

pub contains-text_set : (l : List String) (j : String) → contains (text_set l) j ≡ contains l j
unfolding text_set
contains-text_set [] j = ground arith
contains-text_set (k ∷ l) j =
    ground (arith, contains-insert_text k j (text_set l), contains-text_set l j)

abbrev pub Ascends : String → List String → Type 0
Ascends k [] = Unit
Ascends k (j ∷ l) = Lt k j × Ascends j l

-- In ascending order with no repetition.
abbrev pub IsAscending : List String → Type 0
IsAscending [] = Unit
IsAscending (k ∷ l) = Ascends k l

Ascends-insert_text :
    (l k : String) (m : List String) → Lt l k → Ascends l m → Ascends l (insert_text k m)
unfolding insert_text
Ascends-insert_text l k [] h a = (h, tt)
Ascends-insert_text l k (j ∷ m) h (a, b) =
    ground (arith, path_by_compare k j, lt_of_gt k j, Ascends-insert_text j k m)

insert_text-IsAscending :
    (k : String) (l : List String) → IsAscending l → IsAscending (insert_text k l)
unfolding insert_text
insert_text-IsAscending k [] h = tt
insert_text-IsAscending k (j ∷ l) h =
    ground (arith, path_by_compare k j, lt_of_gt k j, Ascends-insert_text j k l)

pub text_set-IsAscending : (l : List String) → IsAscending (text_set l)
unfolding text_set
text_set-IsAscending [] = tt
text_set-IsAscending (k ∷ l) = insert_text-IsAscending k (text_set l) (text_set-IsAscending l)
