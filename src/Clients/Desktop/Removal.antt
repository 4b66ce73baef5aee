-- ===== src/Clients/Desktop/Removal.antt =====
-- What removing an agent leaves in the desktop's state, and what the state selects.
use noudle_agents.Base.{
  some_injective, ◌≡◌, ◌⊎◌, refl, sym, String, Option, none, some, List, [], ◌∷◌, Bool, true, false,
  not, ◌&&◌, ◌==◌, arith, All, All-keep, All-keep_test, any, find, keep, map, contains, is_empty,
  Bool-cases, inl, inr, if◌then◌else◌, eq_refl, truthy, subst,
}
use noudle_agents.Protocol.{Agent, Conversation}
use noudle_agents.Clients.Desktop.{
  RelaySnapshot, RelayState, RelayAction, ConnectionMode, relay_reducer, drop_agent, remaining,
  removed_ids, is_private, direct_conversation_id, prefer, preferred, without, id_of_conversation,
}

-- The selection is empty, or a private conversation of the list.
abbrev pub IsSelection : List Conversation → Option String → Type 0
IsSelection cs none = Unit
IsSelection cs (some id) = any (λ c. is_private c && (c.id == id)) cs ≡ true

if-some :
    (b : Bool) (d c : Conversation) (rest : Option Conversation)
    → (if b then some d else rest) ≡ some c
    → ((b ≡ true) × (d ≡ c)) ⊎ (rest ≡ some c)
if-some true d c rest h = inl (refl, some_injective d c h)
if-some false d c rest h = inr h

find-any :
    (p q : Conversation → Bool) (cs : List Conversation) (c : Conversation)
    → find p cs ≡ some c
    → (p c ≡ true → q c ≡ true)
    → any q cs ≡ true
find-any p q [] c h k = absurd cc
find-any p q (d ∷ cs) c h k = elim (if-some (p d) d c (find p cs) h) [
  | inl (t, same) ↦
      let here : q d ≡ true =
        subst (λ x. q x ≡ true) (sym same) (k (subst (λ x. p x ≡ true) same t)) in
      rw here refl
  | inr rest ↦ ground (arith, find-any p q cs c rest k)
]

fallback-IsSelection :
    (cs : List Conversation) (o : Option Conversation)
    → find is_private cs ≡ o
    → IsSelection cs (id_of_conversation o)
fallback-IsSelection cs none h = tt
fallback-IsSelection cs (some c) h = find-any _ _ cs c h (λ t. rw (t, eq_refl) refl)

prefer-IsSelection :
    (cs : List Conversation) (id : String) (o : Option Conversation)
    → find (λ c. c.id == id) cs ≡ o
    → IsSelection cs (prefer cs o)
prefer-IsSelection cs id none h = fallback-IsSelection cs _ refl
prefer-IsSelection cs id (some c) h = elim (Bool-cases (is_private c)) [
  | inl t ↦ rw t (find-any _ _ cs c h (λ u. rw (t, eq_refl) refl))
  | inr t ↦ rw t (fallback-IsSelection cs _ refl)
]

direct-IsSelection :
    (cs : List Conversation) (o : Option String) → IsSelection cs (prefer cs (preferred cs o))
direct-IsSelection cs none = fallback-IsSelection cs _ refl
direct-IsSelection cs (some id) = prefer-IsSelection cs id _ refl

-- A list that was filtered by a member has it no more.
without-contains :
    (id : String) (xs : List String) → contains id (keep (λ m. not (m == id)) xs) ≡ false
without-contains id [] = refl
without-contains id (x ∷ xs) = elim (Bool-cases (x == id)) [
  | inl t ↦ rw t (without-contains id xs)
  | inr t ↦ rw t (rw t (without-contains id xs))
]

All-without :
    (id : String) (cs : List Conversation)
    → All (λ (c : Conversation). contains id c.member_agent_ids ≡ false) (map (without id) cs)
All-without id [] = tt
All-without id (c ∷ cs) = (without-contains id c.member_agent_ids, All-without id cs)

-- Removing an agent leaves no agent with its id, and no conversation without members or with the
-- agent as a member; what is selected then is a private conversation that is left, or nothing.
pub remove_agent_gone :
    (s : RelayState) (id : String)
    → let s' = relay_reducer s (RelayAction.remove_agent id) in
      All (λ (a : Agent). (a.id == id) ≡ false) s'.agents
      × All (λ (c : Conversation). contains id c.member_agent_ids ≡ false) s'.conversations
      × All (λ (c : Conversation). is_empty c.member_agent_ids ≡ false) s'.conversations
      × IsSelection s'.conversations s'.selected_conversation_id
unfolding relay_reducer drop_agent remaining direct_conversation_id
remove_agent_gone s id =
    let left = keep (λ c. not (contains c.id (removed_ids id s.conversations))) s.conversations in
    let peopled = λ (c : Conversation). not (is_empty c.member_agent_ids) in
    (
      All-keep_test (λ (a : Agent). (a.id == id) ≡ false) _ s.agents (λ a t. ground arith),
      All-keep (λ (c : Conversation). contains id c.member_agent_ids ≡ false) peopled
          (map (without id) left) (All-without id left),
      All-keep_test (λ (c : Conversation). is_empty c.member_agent_ids ≡ false) peopled
          (map (without id) left) (λ c t. ground arith),
      direct-IsSelection (remaining id s.conversations) (truthy s.selected_conversation_id),
    )

-- After a snapshot of the server has come in, the desktop shows its conversations, and what is
-- selected is a private conversation among them, or nothing.
pub snapshot-IsSelection :
    (s : RelayState) (snap : RelaySnapshot) (mode : ConnectionMode)
    → let s' = relay_reducer s (RelayAction.snapshot snap mode) in
      (s'.conversations ≡ snap.conversations)
      × IsSelection s'.conversations s'.selected_conversation_id
unfolding relay_reducer direct_conversation_id
snapshot-IsSelection s snap mode =
    (refl, direct-IsSelection snap.conversations (truthy s.selected_conversation_id))
