-- ===== src/Correlation/Groups.antt =====
-- The groups of `_correlate_pairs` of correlation/engine.py: the pairs, their edges, the unions in
-- order and the documents of each root.
pub mod Apart
pub mod Start
mod Assign
pub mod Sound
use retail_print_guard.Base.{
  ℕ, zero, suc, String, Bool, true, false, not, ◌&&◌, ◌||◌, Option, none, some, List, [], ◌∷◌, ◌++◌,
  if◌then◌else◌, str_eq, ltb, leb, ◌==◌, length, keep, map,
}
use retail_print_guard.Base.Dict.{Dict, lookup, insert}
use retail_print_guard.Base.Sort.{sort_by, text_le}
use retail_print_guard.Correlation.Types.{Platform, NormalizedDocument, PairScore}
use retail_print_guard.Correlation.Conflicts.{gap, document_time, is_auxiliary, not_later}
use retail_print_guard.Correlation.Score.{Engine}
use retail_print_guard.Correlation.Pairs.{score_candidate_pair}
use retail_print_guard.Correlation.Forest.{find, ◌>>=◌, Forest, union}

module _ (p : Platform) (engine : Engine) where
  open engine use {minimum_score}

  abbrev Document : Type 0
  Document = NormalizedDocument p

  abbrev pub Pair : Type 0
  Pair = Document × Document

  -- `{document.id: value(document) for document in ordered}`
  abbrev pub fill {ℓ} : {V : Type ℓ} → (Document → V) → List Document → Dict V → Dict V
  fill value [] known = known
  fill value (d ∷ ds) known = fill value ds (insert d.id (value d) known)

  abbrev pub by_id : List Document → Dict Document
  by_id ordered = fill (λ d. d) ordered []

  -- The documents of the pairs that are known, the smaller id first.
  unfoldable pub known_pairs : Dict Document → List (String × String) → List Pair
  unfolding lookup
  known_pairs known [] = []
  known_pairs known (pair ∷ pairs) =
      let rest = known_pairs known pairs in
      if str_eq pair.0 pair.1 then rest else elim (lookup pair.0 known) [
        | none ↦ rest
        | some a ↦ elim (lookup pair.1 known) [
          | none ↦ rest
          | some b ↦ (if text_le pair.0 pair.1 then (a, b) else (b, a)) ∷ rest
        ]
      ]

  abbrev same_pair : Pair → Pair → Bool
  same_pair a b = str_eq a.0.id b.0.id && str_eq a.1.id b.1.id

  abbrev ids_le : Pair → Pair → Bool
  ids_le a b = if str_eq a.0.id b.0.id then text_le a.1.id b.1.id else text_le a.0.id b.0.id

  abbrev pub unique_pairs : List Pair → List Pair
  unique_pairs [] = []
  unique_pairs (a ∷ pairs) = a ∷ keep (λ b. not (same_pair a b)) (unique_pairs pairs)

  pub record Edge : Type 0 where
    pub ends : Document × Document
    pub score : ℕ
    pub delta : ℕ
    pub pair_score : PairScore

  abbrev pub edge_of : Pair → Edge
  edge_of pair =
      let s = score_candidate_pair p engine pair.0 pair.1 in
      record {
        ends = pair;
        score = s.score;
        delta = gap (document_time p pair.0) (document_time p pair.1);
        pair_score = s;
      }

  abbrev pub edges_of : List Document → List (String × String) → List Edge
  edges_of ordered candidates =
      map edge_of (sort_by ids_le (unique_pairs (known_pairs (by_id ordered) candidates)))

  -- The higher score first, then the shorter time, then the ids, which are UUIDs of one length.
  abbrev sooner : Edge → Edge → Bool
  sooner a b =
      ltb b.score a.score
      || a.score == b.score && (ltb a.delta b.delta || a.delta == b.delta && ids_le a.ends b.ends)

  abbrev passes : Edge → Bool
  passes e = leb minimum_score e.score

  abbrev core_edges : List Edge → List Edge
  core_edges edges =
      sort_by sooner (
        keep (λ e. passes e && not (is_auxiliary p e.ends.0) && not (is_auxiliary p e.ends.1))
          edges)

  -- The edges between an auxiliary document and one that is not, the auxiliary one first.
  abbrev pub turned : Edge → Edge
  turned e = if is_auxiliary p e.ends.0 then e else record {
    ends = (e.ends.1, e.ends.0);
    score = e.score;
    delta = e.delta;
    pair_score = e.pair_score;
  }

  abbrev is_attachment : Edge → Bool
  is_attachment e =
      passes e
      && (is_auxiliary p e.ends.0 || is_auxiliary p e.ends.1)
      && not (is_auxiliary p e.ends.0 && is_auxiliary p e.ends.1)

  -- `min(candidates)`
  abbrev pub best : Edge → List Edge → Edge
  best e [] = e
  best e (f ∷ fs) = let b = best f fs in if sooner e b then e else b

  abbrev pub of_auxiliary : Edge → List Edge → List Edge
  of_auxiliary e = keep (λ f. str_eq e.ends.0.id f.ends.0.id)

  -- Each auxiliary document once, with its best edge.
  abbrev pub parents_of : List Edge → List Edge
  parents_of [] = []
  parents_of (e ∷ es) =
      best e (of_auxiliary e es) ∷ keep (λ f. not (str_eq e.ends.0.id f.ends.0.id)) (parents_of es)

  abbrev auxiliary_before : Edge → Edge → Bool
  auxiliary_before a b = text_le a.ends.0.id b.ends.0.id

  abbrev auxiliary_edges : List Edge → List Edge
  auxiliary_edges edges =
      sort_by auxiliary_before (parents_of (map turned (keep is_attachment edges)))

  -- The unions, in the order of the two loops.
  abbrev pub union_pairs : List Edge → List Pair
  union_pairs edges = map (λ e. e.ends) (core_edges edges ++ auxiliary_edges edges)

  abbrev pub start : List Document → Forest p
  start ordered = record {
    parent = fill (λ d. d.id) ordered [];
    members = fill (λ d. d ∷ []) ordered [];
  }

  unfoldable pub unite : ℕ → List Pair → Forest p → Option (Forest p)
  unfolding union
  unite fuel [] forest = some forest
  unite fuel (pair ∷ pairs) forest = do
    (joined, next) ← union p fuel pair.0.id pair.1.id forest
    unite fuel pairs next

  abbrev pub entry : String → Dict (List Document) → List Document
  entry root groups = elim (lookup root groups) [ none ↦ [] | some group ↦ group ]

  -- `groups[find(document.id)].append(document)`
  unfoldable pub assign :
      ℕ → List Document → Dict String → Dict (List Document) → Option (Dict (List Document))
  unfolding find lookup insert
  assign fuel [] parent groups = some groups
  assign fuel (d ∷ ds) parent groups = do
    (root, halved) ← find fuel d.id parent
    assign fuel ds halved (insert root (entry root groups ++ (d ∷ [])) groups)

  abbrev pub by_root : String × List Document → String × List Document → Bool
  by_root a b = text_le a.0 b.0

  abbrev pub grouped : ℕ → List Document → List Pair → Option (Dict (List Document))
  grouped fuel ordered pairs = do
    forest ← unite fuel pairs (start ordered)
    assign fuel ordered forest.parent []

  -- `_correlate_pairs`, up to the groups, in the order of their roots. One unit of fuel for each
  -- union, and one more, is enough.
  unfoldable pub groups_of : List Document → List (String × String) → Option (List (List Document))
  unfolding unite assign
  groups_of ordered candidates = do
    let pairs = union_pairs (edges_of ordered candidates)
    groups ← grouped (suc (length pairs)) ordered pairs
    some (map (λ g. g.1) (sort_by by_root groups))
