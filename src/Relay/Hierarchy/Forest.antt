-- ===== src/Relay/Hierarchy/Forest.antt =====
-- The hierarchy of tasks as a forest, and the climb as a function of the table alone.
use noudle_agents.Base.{
  ◌≡◌, sym, ap, ◌∙◌, String, Option, none, some, false, eq_iff, eq_refl, ◌==◌, truthy, Bool-cases,
  inl, inr, subst,
}
use noudle_agents.Base.Map
use noudle_agents.Base.Map.{Map, get-set}
use noudle_agents.Protocol.{Task}

abbrev pub parent_of : Task → Option String
parent_of t = truthy t.parent_task_id

-- From this task, parents lead to a root in finitely many steps.
pub data Rooted (m : Map Task) : String → Type 0 where
  root : {id : String} {t : Task} → Map.get id m ≡ some t → parent_of t ≡ none → Rooted m id
  under :
      {id parent : String} {t : Task}
      → Map.get id m ≡ some t
      → parent_of t ≡ some parent
      → Rooted m parent
      → Rooted m id

-- The same, and none of the tasks on the way is `avoided`.
pub data Clear (m : Map Task) (avoided : String) : String → Type 0 where
  root :
      {id : String} {t : Task}
      → (avoided == id) ≡ false
      → Map.get id m ≡ some t
      → parent_of t ≡ none
      → Clear m avoided id
  under :
      {id parent : String} {t : Task}
      → (avoided == id) ≡ false
      → Map.get id m ≡ some t
      → parent_of t ≡ some parent
      → Clear m avoided parent
      → Clear m avoided id

-- Every task is stored under its id, and there is no cycle and no missing parent.
pub record IsForest (m : Map Task) : Type 0 where
  pub keyed : (id : String) (t : Task) → Map.get id m ≡ some t → t.id ≡ id
  pub rooted : (id : String) (t : Task) → Map.get id m ≡ some t → Rooted m id

-- Every task is stored under its id; there may be cycles and missing parents.
pub record IsKeyed (m : Map Task) : Type 0 where
  pub keyed : (id : String) (t : Task) → Map.get id m ≡ some t → t.id ≡ id

-- A stored task is stored under its own id.
pub IsKeyed-found :
    (m : Map Task) (id : String) (t : Task)
    → IsKeyed m
    → Map.get id m ≡ some t
    → Map.get t.id m ≡ some t
IsKeyed-found m id t h found = subst (λ j. Map.get j m ≡ some t) (sym (h.keyed id t found)) found

pub IsForest-found :
    (m : Map Task) (id : String) (t : Task)
    → IsForest m
    → Map.get id m ≡ some t
    → Map.get t.id m ≡ some t
IsForest-found m id t h found = IsKeyed-found m id t (record { keyed = h.keyed }) found

get-set_ne :
    (m : Map Task) (k j : String) (v : Task)
    → (k == j) ≡ false
    → Map.get j (Map.set k v m) ≡ Map.get j m
get-set_ne m k j v h = get-set k j v m ∙ rw h

get-set_self : (m : Map Task) (k : String) (v : Task) → Map.get k (Map.set k v m) ≡ some v
get-set_self m k v = get-set k k v m ∙ rw eq_refl

-- Writing `avoided` leaves the way of a clear task as it was.
Clear-Rooted : {m : Map Task} {k id : String} (v : Task) → Clear m k id → Rooted (Map.set k v m) id
Clear-Rooted {m} {k} {id} v (root ne found top) = root (get-set_ne m k id v ne ∙ found) top
Clear-Rooted {m} {k} {id} v (under ne found up rest) =
    under (get-set_ne m k id v ne ∙ found) up (Clear-Rooted v rest)

-- If the written task is rooted again, so is every other.
set-Rooted :
    {m : Map Task} {k id : String} (v : Task)
    → Rooted (Map.set k v m) k
    → Rooted m id
    → Rooted (Map.set k v m) id
set-Rooted {m} {k} {id} v top (root found r) = elim (Bool-cases (k == id)) [
  | inl same ↦ subst (Rooted (Map.set k v m)) ((eq_iff k id).0 same) top
  | inr other ↦ root (get-set_ne m k id v other ∙ found) r
]
set-Rooted {m} {k} {id} v top (under found r rest) = elim (Bool-cases (k == id)) [
  | inl same ↦ subst (Rooted (Map.set k v m)) ((eq_iff k id).0 same) top
  | inr other ↦ under (get-set_ne m k id v other ∙ found) r (set-Rooted v top rest)
]

-- Where the new version of a task may hang: nowhere, or under a task whose way avoids it.
pub data Fits (m : Map Task) (k : String) (v : Task) : Type 0 where
  top : parent_of v ≡ none → Fits m k v
  below : {parent : String} → parent_of v ≡ some parent → Clear m k parent → Fits m k v
  -- the parent that it had before
  kept : {t : Task} → Map.get k m ≡ some t → parent_of v ≡ parent_of t → Fits m k v

some-inj : (t u : Task) → some t ≡ some u → t ≡ u
some-inj t u e = cc

same_task :
    (m : Map Task) (k : String) (t u : Task) → Map.get k m ≡ some t → Map.get k m ≡ some u → t ≡ u
same_task m k t u p q = some-inj t u (sym p ∙ q)

-- A task that keeps its parent leaves every way as long as it was.
Rooted-same :
    {m : Map Task} (k : String) {id : String} (t v : Task)
    → Map.get k m ≡ some t
    → parent_of v ≡ parent_of t
    → Rooted m id
    → Rooted (Map.set k v m) id
Rooted-same {m} k {id} t v at_k same (root {t = u} found r) = elim (Bool-cases (k == id)) [
  | inl e ↦
      let i = (eq_iff k id).0 e in
      subst (Rooted (Map.set k v m)) i
        (root (get-set_self m k v) (same ∙ ap parent_of (same_task m k t u at_k (rw i found)) ∙ r))
  | inr other ↦ root (get-set_ne m k id v other ∙ found) r
]
Rooted-same {m} k {id} t v at_k same (under {t = u} found r rest) =
    let rest' = Rooted-same k t v at_k same rest in
    elim (Bool-cases (k == id)) [
      | inl e ↦
          let i = (eq_iff k id).0 e in
          subst (Rooted (Map.set k v m)) i (
            under (get-set_self m k v)
              (same ∙ ap parent_of (same_task m k t u at_k (rw i found)) ∙ r) rest')
      | inr other ↦ under (get-set_ne m k id v other ∙ found) r rest'
    ]

Fits-Rooted :
    {m : Map Task} {k id : String} (v : Task)
    → IsForest m
    → Fits m k v
    → Rooted m id
    → Rooted (Map.set k v m) id
Fits-Rooted {m} {k} v h (top e) r = set-Rooted v (root (get-set_self m k v) e) r
Fits-Rooted {m} {k} v h (below e c) r =
    set-Rooted v (under (get-set_self m k v) e (Clear-Rooted v c)) r
Fits-Rooted {m} {k} v h (kept {t} found e) r = Rooted-same k t v found e r

Fits-Rooted_self :
    {m : Map Task} {k : String} (v : Task) → IsForest m → Fits m k v → Rooted (Map.set k v m) k
Fits-Rooted_self {m} {k} v h (top e) = root (get-set_self m k v) e
Fits-Rooted_self {m} {k} v h (below e c) = under (get-set_self m k v) e (Clear-Rooted v c)
Fits-Rooted_self {m} {k} v h (kept {t} found e) = Rooted-same k t v found e (h.rooted k t found)

-- Writing a task that fits keeps the forest.
pub set-IsForest :
    {m : Map Task} {k : String} (v : Task)
    → IsForest m
    → v.id ≡ k
    → Fits m k v
    → IsForest (Map.set k v m)
set-IsForest {m} {k} v h key fits = record {
  keyed = λ id t found. elim (Bool-cases (k == id)) [
    | inl e ↦
        let i = (eq_iff k id).0 e in
        let written = subst (λ j. Map.get j (Map.set k v m) ≡ some v) i (get-set_self m k v) in
        ap (λ (u : Task). u.id) (some-inj t v (sym found ∙ written)) ∙ key ∙ i
    | inr other ↦ h.keyed id t (sym (get-set_ne m k id v other) ∙ found)
  ];
  rooted = λ id t found. elim (Bool-cases (k == id)) [
    | inl e ↦ subst (Rooted (Map.set k v m)) ((eq_iff k id).0 e) (Fits-Rooted_self v h fits)
    | inr other ↦ Fits-Rooted v h fits (h.rooted id t (sym (get-set_ne m k id v other) ∙ found))
  ];
}

some-ne-none : (t : Task) → some t ≡ none → ⊥
some-ne-none t e = cc

absent :
    (m : Map Task) (k id : String) (t : Task)
    → k ≡ id
    → Map.get k m ≡ none
    → Map.get id m ≡ some t
    → ⊥
absent m k id t i new found = some-ne-none t (sym found ∙ subst (λ j. Map.get j m ≡ none) i new)

-- A new id stands in nobody's way.
pub fresh-Clear : {m : Map Task} {k id : String} → Map.get k m ≡ none → Rooted m id → Clear m k id
fresh-Clear {m} {k} {id} new (root {t} found r) = elim (Bool-cases (k == id)) [
  | inl e ↦ absurd (absent m k id t ((eq_iff k id).0 e) new found)
  | inr other ↦ root other found r
]
fresh-Clear {m} {k} {id} new (under {t} found r rest) =
    let rest' = fresh-Clear new rest in
    elim (Bool-cases (k == id)) [
      | inl e ↦ absurd (absent m k id t ((eq_iff k id).0 e) new found)
      | inr other ↦ under other found r rest'
    ]
