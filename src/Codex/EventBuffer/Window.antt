-- ===== src/Codex/EventBuffer/Window.antt =====
-- The buffer is a window on the end of the stream of events.
use noudle_agents.Base.{
  ℕ, zero, suc, ◌+◌, ◌-◌, ◌≤◌, ◌<◌, ◌≡◌, refl, ap, ◌∙◌, subst, String, List, [], ◌∷◌, arith, ltb,
  length, length-append, drop, keep, Counting, Counting-append, lt→ltb, Bool-cases, inl, inr,
}
use noudle_agents.Codex.EventBuffer.{
  Json, WorkerEvent, EventBuffer, new_buffer, capacity, trimmed, append, after,
}

module _ {ℓ} {A : Type ℓ} (f : A → ℕ) where
  length-drop : (k : ℕ) (xs : List A) → k ≤ length xs → length (drop k xs) + k ≡ length xs
  length-drop zero xs h = omega arith
  length-drop (suc k) [] h = absurd (omega arith)
  length-drop (suc k) (x ∷ xs) h = omega (arith, length-drop k xs (omega arith))

  Counting-drop :
      (k n : ℕ) (xs : List A) → k ≤ length xs → Counting f n xs → Counting f (n + k) (drop k xs)
  Counting-drop zero n xs h c = subst (λ m. Counting f m xs) (omega arith) c
  Counting-drop (suc k) n [] h c = absurd (omega arith)
  Counting-drop (suc k) n (x ∷ xs) h c =
      subst (λ m. Counting f m (drop k xs)) (omega arith)
        (Counting-drop k (suc n) xs (omega arith) c.1)

  -- All of it lies after an earlier cursor.
  length-keep_all :
      (c n : ℕ) (xs : List A)
      → c ≤ n
      → Counting f n xs
      → length (keep (λ x. ltb c (f x)) xs) ≡ length xs
  length-keep_all c n [] h k = refl
  length-keep_all c n (x ∷ xs) h k =
      rw (lt→ltb c (f x) (omega (arith, k.0)))
        (ap suc (length-keep_all c (suc n) xs (omega arith) k.1))

  -- After a cursor within it lie as many as were counted since.
  length-keep_after :
      (c n : ℕ) (xs : List A)
      → n ≤ c
      → c ≤ n + length xs
      → Counting f n xs
      → length (keep (λ x. ltb c (f x)) xs) + c ≡ n + length xs
  length-keep_after c n [] l h k = omega arith
  length-keep_after c n (x ∷ xs) l h k = elim (Bool-cases (ltb c (f x))) [
    | inl above ↦
        let past : c < f x = ground (arith, above) in
        rw above
          (omega (arith, length-keep_all c (suc n) xs (omega (arith, past, k.0)) k.1, past, k.0))
    | inr below ↦
        let before : f x ≤ c = ground (arith, below) in
        rw below (
          omega
            (arith, length-keep_after c (suc n) xs (omega (arith, before, k.0)) (omega arith) k.1))
  ]

-- Not more events than the capacity, numbered without a gap up to the buffer's cursor.
pub record IsWindow (b : EventBuffer) : Type 0 where
  pub bounded : length b.events ≤ capacity
  pub base : ℕ
  pub reaches : base + length b.events ≡ b.cursor
  pub cursors : Counting (λ (e : WorkerEvent). e.cursor) base b.events

new_buffer-IsWindow : IsWindow new_buffer
new_buffer-IsWindow = record { bounded = omega arith; base = 0; reaches = refl; cursors = tt }

-- Trimming a counted list leaves a window that reaches as far.
trimmed-IsWindow :
    (n c : ℕ) (es : List WorkerEvent)
    → n + length es ≡ c
    → Counting (λ (e : WorkerEvent). e.cursor) n es
    → IsWindow (record { cursor = c; events = trimmed es })
unfolding trimmed
trimmed-IsWindow n c es reach k = elim (Bool-cases (ltb capacity (length es))) [
  | inl over ↦
      let excess = length es - capacity in
      let long : capacity < length es = ground (arith, over) in
      let kept = length-drop (λ (e : WorkerEvent). e.cursor) excess es (omega (arith, long)) in
      rw over (record {
        bounded = omega (arith, kept, long);
        base = n + excess;
        reaches = omega (arith, kept, long, reach);
        cursors = Counting-drop (λ (e : WorkerEvent). e.cursor) excess n es (omega (arith, long)) k;
      })
  | inr fits ↦
      rw fits (record { bounded = ground (arith, fits); base = n; reaches = reach; cursors = k })
]

append-IsWindow :
    (type : String) (payload : Json) (at : ℕ) (b : EventBuffer)
    → IsWindow b
    → IsWindow (append type payload at b)
unfolding append
append-IsWindow type payload at b h =
    trimmed-IsWindow h.base (suc b.cursor) _ (omega (arith, h.reaches, length-append {0} b.events))
      (Counting-append (λ (e : WorkerEvent). e.cursor) h.base b.events _ h.cursors
        (omega (arith, h.reaches)))

-- The buffer after a series of events, each with its type, its payload and the time.
unfoldable pub append_all : List (String × Json × ℕ) → EventBuffer → EventBuffer
append_all [] b = b
append_all ((type, payload, at) ∷ more) b = append_all more (append type payload at b)

append_all-IsWindow :
    (news : List (String × Json × ℕ)) (b : EventBuffer) → IsWindow b → IsWindow (append_all news b)
unfolding append_all
append_all-IsWindow [] b h = h
append_all-IsWindow ((type, payload, at) ∷ more) b h =
    append_all-IsWindow more _ (append-IsWindow type payload at b h)

-- However many events are appended to a new buffer, it holds at most 10,000 of them, numbered
-- without a gap up to its cursor; and a reader who asks for what came after a cursor gets one event
-- for each number since, as long as no event after that cursor has been dropped.
pub after-append_all :
    (news : List (String × Json × ℕ)) (c : ℕ)
    → c ≤ (append_all news new_buffer).cursor
    → (append_all news new_buffer).cursor ≤ c + length (append_all news new_buffer).events
    → let b = append_all news new_buffer in IsWindow b × (length (after c b) + c ≡ b.cursor)
unfolding after
after-append_all news c seen kept =
    let b = append_all news new_buffer in
    let h = append_all-IsWindow news new_buffer new_buffer-IsWindow in
    (
      h,
      length-keep_after (λ (e : WorkerEvent). e.cursor) c h.base b.events
            (omega (arith, h.reaches, kept)) (omega (arith, h.reaches, seen)) h.cursors
          ∙ h.reaches,
    )
