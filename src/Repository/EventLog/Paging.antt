-- ===== src/Repository/EventLog/Paging.antt =====
-- Reading the log page by page.
use noudle_agents.Base.{
  inr, inl, sym, Bool-cases, subst, ℕ, zero, suc, ◌≤◌, ◌≡◌, refl, ap, List, [], ◌∷◌, ◌++◌, arith,
  keep, take, last?, last?-cons, value_or, Increasing, String, ltb, ◌&&◌, lt→ltb, le→ltb_false,
  keep-Increasing, Counting-Increasing,
}
use noudle_agents.Protocol.{RelayEvent}
use noudle_agents.Repository.State.{Repository}
use noudle_agents.Repository.EventLog.{events_after, all_after, in_workspace}
use noudle_agents.Repository.EventLog.Numbering.{IsLog}

module _ {ℓ} {A : Type ℓ} (f : A → ℕ) where
  -- Nothing is dropped by a test that every element passes.
  keep_above : (n c : ℕ) (xs : List A) → Increasing f n xs → c ≤ n → keep (λ x. ltb c (f x)) xs ≡ xs
  keep_above n c [] h l = refl
  keep_above n c (x ∷ xs) h l =
      rw (lt→ltb c (f x) (omega arith)) (ap (λ t. x ∷ t) (keep_above (f x) c xs h.1 (omega arith)))

  le-last : (k n : ℕ) (xs : List A) → Increasing f n xs → n ≤ value_or f n (last? (take k xs))
  le-last zero n xs h = omega arith
  le-last (suc k) n [] h = omega arith
  le-last (suc k) n (x ∷ xs) h =
      rw (last?-cons f x (take k xs) n) (omega (arith, le-last k (f x) xs h.1))

  page-rest_cons :
      (k c : ℕ) (x : A) (xs : List A)
      → f x ≤ c
      → take k xs ++ keep (λ y. ltb c (f y)) xs ≡ xs
      → (x ∷ take k xs) ++ keep (λ y. ltb c (f y)) (x ∷ xs) ≡ x ∷ xs
  page-rest_cons k c x xs l e = rw (le→ltb_false c (f x) l) (ap (λ t. x ∷ t) e)

  -- A page and what lies above its last element make up the list.
  page-rest :
      (k n : ℕ) (xs : List A)
      → Increasing f n xs
      → take k xs ++ keep (λ x. ltb (value_or f n (last? (take k xs))) (f x)) xs ≡ xs
  page-rest zero n xs h = keep_above n n xs h (omega arith)
  page-rest (suc k) n [] h = refl
  page-rest (suc k) n (x ∷ xs) h =
      subst (λ c. (x ∷ take k xs) ++ keep (λ y. ltb c (f y)) (x ∷ xs) ≡ x ∷ xs)
        (sym (last?-cons f x (take k xs) n))
        (page-rest_cons k _ x xs (le-last k (f x) xs h.1) (page-rest k (f x) xs h.1))

all_after-Increasing :
    (workspace_id : String) (a n : ℕ) (es : List RelayEvent)
    → Increasing (λ (e : RelayEvent). e.cursor) n es
    → Increasing (λ (e : RelayEvent). e.cursor) a (all_after workspace_id a es)
all_after-Increasing workspace_id a n [] h = tt
all_after-Increasing workspace_id a n (e ∷ es) h =
    elim (Bool-cases (in_workspace workspace_id e && ltb a e.cursor)) [
      | inl t ↦ rw t (ground arith, keep-Increasing _ _ e.cursor es h.1)
      | inr t ↦ rw t (all_after-Increasing workspace_id a e.cursor es h.1)
    ]

-- Filtering for the workspace and a later cursor, from what is after an earlier one.
keep-keep_after :
    (workspace_id : String) (a c : ℕ) (es : List RelayEvent)
    → a ≤ c
    → all_after workspace_id c es
      ≡ keep (λ (e : RelayEvent). ltb c e.cursor) (all_after workspace_id a es)
keep-keep_after workspace_id a c [] l = refl
keep-keep_after workspace_id a c (e ∷ es) l = ground (arith, keep-keep_after workspace_id a c es)

-- In a well numbered log, a page of at most `limit` events of the workspace after a cursor, followed
-- by all of its events after the page's last cursor (or the old cursor, if the page is empty), is
-- all of its events after the old cursor: reading on from the last cursor loses and repeats nothing.
pub paging :
    (workspace_id : String) (after limit : ℕ) (r : Repository)
    → IsLog r
    → let page = events_after workspace_id after limit r.events in
      let last = value_or (λ (e : RelayEvent). e.cursor) after (last? page) in
      page ++ all_after workspace_id last r.events ≡ all_after workspace_id after r.events
unfolding events_after
paging workspace_id after limit r h =
    let inc =
      all_after-Increasing workspace_id after 0 r.events
        (Counting-Increasing _ 0 r.events h.cursors) in
    rw (keep-keep_after workspace_id after _ r.events (le-last _ limit after _ inc))
      (page-rest _ limit after _ inc)
