-- ===== src/Api/Offers.antt =====
-- What `list_models` of src/coordinator/src/api/models.rs lists.
use coordinator.Base.{
  ℕ, suc, ◌+◌, List, [], ◌∷◌, map, Text, true, false, Option, none, some, text_leb, text_eq, ◌==◌,
  All, Bool-cases, inl, inr, ◌≡◌, refl, ◌∙◌, arith,
}
use coordinator.Base.Map.{Map, get, insert, get-insert, IsKeyed, insert-IsKeyed}
use coordinator.Registry.{PeerId, PeerEntry, PeerRegistry, snapshot}
use coordinator.Api.Models.{
  ModelObject, incremented, count_models, count_entries, model_object, insert_by_id, sort_by_id,
  list_models,
}

text_leb-total : (s t : Text) → text_leb s t ≡ false → text_leb t s ≡ true
text_leb-total [] [] h = cc
text_leb-total [] (y ∷ t) h = cc
text_leb-total (x ∷ s) [] h = refl
text_leb-total (x ∷ s) (y ∷ t) h = ground (arith, text_leb-total s t)

abbrev pub Before : ModelObject → List ModelObject → Type 0
Before o [] = Unit
Before o (p ∷ ps) = text_leb o.id p.id ≡ true

-- By id, from the lowest to the highest.
abbrev pub Ascending : List ModelObject → Type 0
Ascending [] = Unit
Ascending (o ∷ os) = Before o os × Ascending os

insert_by_id-Before :
    (q o : ModelObject) (os : List ModelObject)
    → text_leb q.id o.id ≡ true
    → Before q os
    → Before q (insert_by_id o os)
insert_by_id-Before q o [] h b = h
insert_by_id-Before q o (p ∷ ps) h b = elim (Bool-cases (text_leb o.id p.id)) [
  | inl e ↦ rw e h
  | inr e ↦ rw e b
]

insert_by_id-Ascending :
    (o : ModelObject) (os : List ModelObject) → Ascending os → Ascending (insert_by_id o os)
insert_by_id-Ascending o [] h = (tt, tt)
insert_by_id-Ascending o (p ∷ ps) (b, h) = elim (Bool-cases (text_leb o.id p.id)) [
  | inl e ↦ rw e (e, (b, h))
  | inr e ↦
      rw e
        (insert_by_id-Before p o ps (text_leb-total o.id p.id e) b, insert_by_id-Ascending o ps h)
]

sort_by_id-Ascending : (os : List ModelObject) → Ascending (sort_by_id os)
sort_by_id-Ascending [] = tt
sort_by_id-Ascending (o ∷ os) = insert_by_id-Ascending o (sort_by_id os) (sort_by_id-Ascending os)

-- How often an id is offered.
abbrev pub occurrences : Text → List Text → ℕ
occurrences id [] = 0
occurrences id (m ∷ ms) = elim (m == id) [
  | true ↦ suc (occurrences id ms)
  | false ↦ occurrences id ms
]

abbrev pub offers : Text → List (PeerId × PeerEntry) → ℕ
offers id [] = 0
offers id ((p, entry) ∷ rest) = occurrences id entry.capabilities.models + offers id rest

abbrev pub or_zero : Option ℕ → ℕ
or_zero none = 0
or_zero (some n) = n

get-count_models :
    (id : Text) (ms : List Text) (counts : Map Text ℕ)
    → or_zero (get id (count_models ms counts)) ≡ or_zero (get id counts) + occurrences id ms
get-count_models id [] counts = omega arith
get-count_models id (m ∷ ms) counts = ground (
  arith,
  get-count_models id ms (insert m (incremented (get m counts)) counts),
  get-insert m id (incremented (get m counts)) counts,
  text_eq.beq_iff m id,
)

get-count_entries :
    (id : Text) (es : List (PeerId × PeerEntry)) (counts : Map Text ℕ)
    → or_zero (get id (count_entries es counts)) ≡ or_zero (get id counts) + offers id es
get-count_entries id [] counts = omega arith
get-count_entries id ((p, e) ∷ es) counts =
    get-count_entries id es (count_models e.capabilities.models counts)
    ∙ ground (arith, get-count_models id e.capabilities.models counts)

-- The number of nodes at the first entry with an id, and 0 where there is none.
abbrev pub nodes_at : Text → List ModelObject → ℕ
nodes_at id [] = 0
nodes_at id (o ∷ os) = elim (o.id == id) [ true ↦ o.nodes_available | false ↦ nodes_at id os ]

abbrev Absent : Text → List ModelObject → Type 0
Absent id = All (λ o. (o.id == id) ≡ false)

-- No id is listed twice.
abbrev pub IsDistinct : List ModelObject → Type 0
IsDistinct [] = Unit
IsDistinct (o ∷ os) = Absent o.id os × IsDistinct os

nodes_at-map : (id : Text) (m : Map Text ℕ) → nodes_at id (map model_object m) ≡ or_zero (get id m)
nodes_at-map id [] = refl
nodes_at-map id ((k, n) ∷ m) = ground (arith, nodes_at-map id m)

map-Absent : (id : Text) (m : Map Text ℕ) → get id m ≡ none → Absent id (map model_object m)
map-Absent id [] h = tt
map-Absent id ((k, n) ∷ m) h = ground (arith, map-Absent id m)

map-IsDistinct : (m : Map Text ℕ) → IsKeyed m → IsDistinct (map model_object m)
map-IsDistinct [] h = tt
map-IsDistinct ((k, n) ∷ m) (h, hs) = (map-Absent k m h, map-IsDistinct m hs)

insert_by_id-Absent :
    (id : Text) (o : ModelObject) (os : List ModelObject)
    → (o.id == id) ≡ false
    → Absent id os
    → Absent id (insert_by_id o os)
insert_by_id-Absent id o [] e h = (e, tt)
insert_by_id-Absent id o (p ∷ ps) e (h, hs) = elim (Bool-cases (text_leb o.id p.id)) [
  | inl t ↦ rw t (e, (h, hs))
  | inr t ↦ rw t (h, insert_by_id-Absent id o ps e hs)
]

sort_by_id-Absent : (id : Text) (os : List ModelObject) → Absent id os → Absent id (sort_by_id os)
sort_by_id-Absent id [] h = tt
sort_by_id-Absent id (o ∷ os) (h, hs) =
    insert_by_id-Absent id o (sort_by_id os) h (sort_by_id-Absent id os hs)

not_same : (o p : ModelObject) → (p.id == o.id) ≡ false → (o.id == p.id) ≡ false
not_same o p h = ground (arith, text_eq.beq_iff p.id o.id, text_eq.beq_iff o.id p.id)

insert_by_id-IsDistinct :
    (o : ModelObject) (os : List ModelObject)
    → Absent o.id os
    → IsDistinct os
    → IsDistinct (insert_by_id o os)
insert_by_id-IsDistinct o [] a d = (tt, tt)
insert_by_id-IsDistinct o (p ∷ ps) (a, as') (d, ds) = elim (Bool-cases (text_leb o.id p.id)) [
  | inl t ↦ rw t ((a, as'), (d, ds))
  | inr t ↦
      rw t (insert_by_id-Absent p.id o ps (not_same o p a) d, insert_by_id-IsDistinct o ps as' ds)
]

sort_by_id-IsDistinct : (os : List ModelObject) → IsDistinct os → IsDistinct (sort_by_id os)
sort_by_id-IsDistinct [] d = tt
sort_by_id-IsDistinct (o ∷ os) (a, d) =
    insert_by_id-IsDistinct o (sort_by_id os) (sort_by_id-Absent o.id os a)
      (sort_by_id-IsDistinct os d)

nodes_at-insert_by_id :
    (id : Text) (o : ModelObject) (os : List ModelObject)
    → Absent o.id os
    → nodes_at id (insert_by_id o os) ≡ nodes_at id (o ∷ os)
nodes_at-insert_by_id id o [] a = refl
nodes_at-insert_by_id id o (p ∷ ps) (a, as') = elim (Bool-cases (text_leb o.id p.id)) [
  | inl t ↦ rw t refl
  | inr t ↦ rw t (
      ground (
        arith,
        a,
        nodes_at-insert_by_id id o ps as',
        text_eq.beq_iff p.id o.id,
        text_eq.beq_iff p.id id,
        text_eq.beq_iff o.id id,
      ))
]

nodes_at-sort_by_id :
    (id : Text) (os : List ModelObject)
    → IsDistinct os
    → nodes_at id (sort_by_id os) ≡ nodes_at id os
nodes_at-sort_by_id id [] d = refl
nodes_at-sort_by_id id (o ∷ os) (a, d) =
    nodes_at-insert_by_id id o (sort_by_id os) (sort_by_id-Absent o.id os a)
    ∙ ground (arith, nodes_at-sort_by_id id os d)

count_models-IsKeyed :
    (ms : List Text) (counts : Map Text ℕ) → IsKeyed counts → IsKeyed (count_models ms counts)
count_models-IsKeyed [] counts h = h
count_models-IsKeyed (m ∷ ms) counts h =
    count_models-IsKeyed ms _ (insert-IsKeyed m (incremented (get m counts)) counts h)

count_entries-IsKeyed :
    (es : List (PeerId × PeerEntry)) (counts : Map Text ℕ)
    → IsKeyed counts
    → IsKeyed (count_entries es counts)
count_entries-IsKeyed [] counts h = h
count_entries-IsKeyed ((p, e) ∷ es) counts h =
    count_entries-IsKeyed es _ (count_models-IsKeyed e.capabilities.models counts h)

-- The list stands in the order of the ids and lists none twice, and it gives for each id the number
-- of times that the nodes of the registry offer it, an id that is not listed being offered by none.
pub list_models-offers :
    (r : PeerRegistry) (id : Text)
    → Ascending (list_models r)
      × IsDistinct (list_models r)
      × (nodes_at id (list_models r) ≡ offers id (snapshot r))
unfolding list_models
list_models-offers r id =
    let m = count_entries (snapshot r) [] in
    let zero_add : 0 + offers id (snapshot r) ≡ offers id (snapshot r) = omega arith in
    let d = map-IsDistinct m (count_entries-IsKeyed (snapshot r) [] tt) in
    (
      sort_by_id-Ascending (map model_object m),
      sort_by_id-IsDistinct (map model_object m) d,
      nodes_at-sort_by_id id (map model_object m) d
          ∙ nodes_at-map id m
          ∙ get-count_entries id (snapshot r) []
          ∙ zero_add,
    )
