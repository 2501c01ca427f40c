-- ===== src/Correlation/Forest.antt =====
-- The components of `_correlate_pairs` of correlation/engine.py: `find` and `union`.
pub mod Roots
mod Joining
pub mod Joined
pub mod Placed
use retail_print_guard.Base.{
  ℕ, zero, suc, ◌-◌, String, Bool, true, false, not, ◌&&◌, ◌||◌, Option, none, some, List, [], ◌∷◌,
  ◌++◌, if◌then◌else◌, str_eq, is_some, is_empty, any_of, all_of, ltb, keep, max, min,
}
use retail_print_guard.Base.Dict.{Dict, lookup, insert, erase}
use retail_print_guard.Base.Sort.{text_le}
use retail_print_guard.Domain.{is_kitchen_order, is_management}
use retail_print_guard.Correlation.Types.{Platform, NormalizedDocument}
use retail_print_guard.Correlation.Conflicts.{
  seconds, document_time, is_prebill_source, shared_strong_sale_identity, identity_conflict,
  episode_boundary_conflict,
}

infixl 5 ◌>>=◌
abbrev pub ◌>>=◌ {ℓ κ} : {A : Type ℓ} {B : Type κ} → Option A → (A → Option B) → Option B
none >>= f = none
some a >>= f = f a

-- `find`: the root, and `parent` after the paths that were halved. `none` is a KeyError, or the end
-- of the fuel.
unfoldable pub find : ℕ → String → Dict String → Option (String × Dict String)
unfolding lookup insert
find zero value parent = none
find (suc fuel) value parent = elim (lookup value parent) [
  | none ↦ none
  | some up ↦ elim (str_eq up value) [
    | true ↦ some (value, parent)
    | false ↦ elim (lookup up parent) [
      | none ↦ none
      | some top ↦ find fuel top (insert value top parent)
    ]
  ]
]

-- `max(times)` and `min(times)` of a list that is not empty.
abbrev latest : List ℕ → ℕ
latest [] = 0
latest (t ∷ ts) = max t (latest ts)

abbrev earliest_of : ℕ → List ℕ → ℕ
earliest_of t [] = t
earliest_of t (u ∷ us) = min t (earliest_of u us)

abbrev span : List ℕ → ℕ
span [] = 0
span (t ∷ ts) = latest (t ∷ ts) - earliest_of t ts

module _ (p : Platform) where
  abbrev Document : Type 0
  Document = NormalizedDocument p

  -- A component is listed by its documents, where the source lists their ids.
  pub record Forest : Type 0 where
    pub parent : Dict String
    pub members : Dict (List Document)

  abbrev pub are_apart : Document → Document → Bool
  are_apart a b = is_some (identity_conflict p a b) || is_some (episode_boundary_conflict p a b)

  -- The two loops over the pairs of `proposed`.
  unfoldable pub any_apart : List Document → Bool
  any_apart [] = false
  any_apart (d ∷ ds) = any_of (are_apart d) ds || any_apart ds

  abbrev times_of : List Document → List ℕ
  times_of [] = []
  times_of (d ∷ ds) = document_time p d ∷ times_of ds

  abbrev spread_dispatch : List Document → Bool
  spread_dispatch proposed =
      not (is_empty proposed)
      && all_of (λ d. is_kitchen_order d.kind) proposed
      && ltb (seconds 30) (span (times_of proposed))

  abbrev is_opening_source : Document → Bool
  is_opening_source d = is_kitchen_order d.kind || is_management d.kind && is_prebill_source p d

  abbrev repeated_opening : List Document → Bool
  repeated_opening sources =
      any_of (λ d. is_kitchen_order d.kind) sources
      && any_of (λ d. is_management d.kind) sources
      && ltb (seconds 30) (span (times_of sources))
      && not (shared_strong_sale_identity p sources)

  -- Whether `union` refuses the documents that it proposes.
  unfoldable pub refuses : List Document → Bool
  unfolding any_apart
  refuses proposed =
      any_apart proposed
      || spread_dispatch proposed
      || repeated_opening (keep is_opening_source proposed)

  abbrev join_roots : String → String → List Document → Dict String → Dict (List Document) → Forest
  join_roots first second proposed parent members = record {
    parent = insert second first parent;
    members = erase second (insert first proposed members);
  }

  -- `union`, from the two roots on.
  unfoldable pub union_roots :
      String → String → Dict String → Dict (List Document) → Option (Bool × Forest)
  unfolding lookup insert erase refuses
  union_roots left_root right_root parent members =
      if str_eq left_root right_root
      then some (true, record { parent = parent; members = members })
      else (do
        left ← lookup left_root members
        right ← lookup right_root members
        (if refuses (left ++ right)
            then some (false, record { parent = parent; members = members })
            else some (
              true,
              if text_le left_root right_root
                  then join_roots left_root right_root (left ++ right) parent members
                  else join_roots right_root left_root (left ++ right) parent members,
            )))

  -- `union`
  unfoldable pub union : ℕ → String → String → Forest → Option (Bool × Forest)
  unfolding find union_roots
  union fuel left_id right_id forest = do
    (left_root, halved) ← find fuel left_id forest.parent
    (right_root, parent) ← find fuel right_id halved
    union_roots left_root right_root parent forest.members
