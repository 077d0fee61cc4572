-- ===== src/Client/Handlers/Filter.antt =====
-- filterSubs and SubscribeMultiple: which connections serve which topics.
use courier_go.Base.{
  ℕ, String, Bool, true, false, Option, none, some, List, [], ◌∷◌, ◌≡◌, refl, ◌∙◌, arith, lookup,
  insert, HasUniqueKeys, lookup-insert, lookup_absent, if◌then◌else◌, eq_iff, not,
}
use courier_go.Client.Handlers.{filter_from, filter_subs}

-- The entry of a map that a test lets through.
abbrev pub kept : Bool → Option ℕ → Option ℕ
kept true o = o
kept false o = none

-- What a loop over topics adds to a map for the topics with one answer of the predicate.
abbrev merged : Bool → Option ℕ → Option ℕ → Option ℕ
merged false new old = old
merged true none old = old
merged true (some q) old = some q

lookup-filter_from :
    (predicate : String → Bool) (topics shared normal : List (String × ℕ)) (j : String)
    → HasUniqueKeys topics
    → (lookup j (filter_from predicate shared normal topics).0
        ≡ merged (predicate j) (lookup j topics) (lookup j shared))
      × (lookup j (filter_from predicate shared normal topics).1
          ≡ merged (not (predicate j)) (lookup j topics) (lookup j normal))
unfolding filter_from
lookup-filter_from predicate [] shared normal j u = ground arith
lookup-filter_from predicate ((t, q) ∷ ts) shared normal j u = ground (
  arith,
  lookup-filter_from predicate ts (if predicate t then insert t q shared else shared)
      (if predicate t then normal else insert t q normal) j u.1,
  lookup-insert t j q shared,
  lookup-insert t j q normal,
  lookup_absent t ts u.0,
  eq_iff t j,
)

merged-none : (b : Bool) (o : Option ℕ) → merged b o none ≡ kept b o
merged-none true none = refl
merged-none true (some q) = refl
merged-none false o = refl

-- filterSubs splits the topics of a map by the predicate: the shared map has exactly the topics for
-- which it holds, the normal map the others, each with its level.
pub lookup-filter_subs :
    (predicate : String → Bool) (topics : List (String × ℕ)) (j : String)
    → HasUniqueKeys topics
    → (lookup j (filter_subs predicate topics).0 ≡ kept (predicate j) (lookup j topics))
      × (lookup j (filter_subs predicate topics).1 ≡ kept (not (predicate j)) (lookup j topics))
unfolding filter_subs
lookup-filter_subs predicate topics j u =
    let (shared, normal) = lookup-filter_from predicate topics [] [] j u in
    (shared ∙ merged-none (predicate j) _, normal ∙ merged-none (not (predicate j)) _)
