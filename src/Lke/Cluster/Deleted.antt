-- ===== src/Lke/Cluster/Deleted.antt =====
-- What the wait for deleted nodes waits for, and that it ends.
use mathlib.Core.Path.{subst}
use terraform_provider_linod.Prelude.{
  ℕ, zero, suc, ◌<◌, ◌≤◌, String, Bool, true, false, not, ◌&&◌, ◌||◌, ◌≡◌, refl, ◌∙◌, inl, inr,
  List, [], ◌∷◌, any, is_empty, Result, ok, err, IsOk, ◌==◌, ==_refl, nat_eq, Bool-cases, arith,
  if◌then◌else◌,
}
use terraform_provider_linod.Prelude.Dict.{Dict, get, put, delete, has_key, get-put, get-delete}
use terraform_provider_linod.Prelude.Runs.{
  Made, Sure, Sure-holds, Sure-done, Sure-fail, Sure-step, after, explained,
}
use terraform_provider_linod.Lke.Cluster.{
  Node, EntityId, number, no_number, Call, list_events, Ack, Calls, Client, Run, as_set, forget,
  poll_deleted, wait_for_nodes_deleted,
}
use terraform_provider_linod.Lke.Cluster.Waits.{choice-Sure}

abbrev pub mentions : ℕ → List EntityId → Bool
mentions id [] = false
mentions id (number n ∷ events) = n == id || mentions id events
mentions id (no_number ∷ events) = mentions id events

has_key-forget :
    (id : ℕ) (events : List EntityId) (m : Dict ℕ Ack)
    → has_key id (forget events m) ≡ (has_key id m && not (mentions id events))
unfolding forget
has_key-forget id [] m = ground arith
has_key-forget id (number n ∷ events) m =
    ground (arith, has_key-forget id events (delete n m), get-delete n id m)
has_key-forget id (no_number ∷ events) m = has_key-forget id events m

has_key-as_set :
    (id : ℕ) (nodes : List Node) (m : Dict ℕ Ack)
    → has_key id (as_set nodes m) ≡ (any (λ n. n.instance_id == id) nodes || has_key id m)
unfolding as_set
has_key-as_set id [] m = refl
has_key-as_set id (n ∷ nodes) m =
    ground (arith, has_key-as_set id nodes (put n.instance_id tt m), get-put n.instance_id id tt m)

-- A map without keys is empty.
no_keys : (m : Dict ℕ Ack) → ((id : ℕ) → has_key id m ≡ false) → m ≡ []
unfolding get
no_keys [] none_there = refl
no_keys ((k, a) ∷ m) none_there = ground (arith, none_there k, ==_refl k)

not_empty : (id : ℕ) (m : Dict ℕ Ack) → has_key id m ≡ true → is_empty m ≡ true → ⊥
unfolding get
not_empty id [] here e = cc
not_empty id (entry ∷ m) here e = cc

-- The API reported an instance as deleted.
abbrev pub Reported : Client → ℕ → Call → Calls → Type 0
Reported client id c h =
    (c ≡ list_events)
    × ((events : List EntityId) × (client.answers_events c h ≡ ok events)
        × (mentions id events ≡ true))

module _ (client : Client) where
  poll-Made :
      (P : Call → Calls → Type 0) (ticks : ℕ) (m : Dict ℕ Ack) (h : Calls)
      → Made P h
      → Sure (λ a h'. Made P h') (poll_deleted client ticks m h)
  unfolding poll_deleted
  poll-Made P zero m h made = Sure-fail _ _ _
  poll-Made P (suc ticks) m h made = Sure-step _ _ _ _ _ (λ events e.
      choice-Sure client _ (is_empty (forget events m)) _ _ _ (λ b. Sure-done _ _ _ (inr made))
        (λ b. poll-Made P ticks (forget events m) _ (inr made)))

  poll-Reported :
      (id ticks : ℕ) (m : Dict ℕ Ack) (h : Calls)
      → has_key id m ≡ true
      → Sure (λ a h'. Made (Reported client id) h') (poll_deleted client ticks m h)
  unfolding poll_deleted
  poll-Reported id zero m h here = Sure-fail _ _ _
  poll-Reported id (suc ticks) m h here = Sure-step _ _ _ _ _ (λ events e.
      elim (Bool-cases (mentions id events)) [
        | inl seen ↦
            choice-Sure client _ (is_empty (forget events m)) _ _ _
              (λ b. Sure-done _ _ _ (inl (refl, (events, e, seen))))
              (λ b.
                poll-Made (Reported client id) ticks (forget events m) _
                  (inl (refl, (events, e, seen))))
        | inr unseen ↦
            let stays : has_key id (forget events m) ≡ true =
              has_key-forget id events m ∙ rw (here, unseen) refl in
            choice-Sure client _ (is_empty (forget events m)) _ _ _
              (λ b. absurd (not_empty id (forget events m) stays b))
              (λ b. poll-Reported id ticks (forget events m) _ stays)
      ])

  -- If the wait for deleted nodes succeeds, the API has reported each of the nodes as deleted.
  pub wait_for_nodes_deleted_reports :
      (ticks : ℕ) (nodes : List Node) (id : ℕ) (h h' : Calls) (a : Ack)
      → any (λ n. n.instance_id == id) nodes ≡ true
      → wait_for_nodes_deleted client ticks nodes h ≡ (ok a, h')
      → Made (Reported client id) h'
  unfolding wait_for_nodes_deleted
  wait_for_nodes_deleted_reports ticks nodes id h h' a here e =
      Sure-holds _
        (poll-Reported id ticks (as_set nodes []) h (has_key-as_set id nodes [] ∙ rw here refl)) e

  -- The history after so many polls.
  abbrev pub polls : ℕ → Calls → Calls
  polls zero h = h
  polls (suc n) h = polls n (list_events ∷ h)

  step-IsOk :
      {A B : Type 0} (message : String) (answer : Result String A) (f : A → Run B) (h : Calls)
      (a : A)
      → answer ≡ ok a
      → IsOk (f a h).0
      → IsOk (after f (explained message (answer, h))).0
  unfolding after explained
  step-IsOk message (ok b) f h a e next =
      let same : a ≡ b = cc in subst (λ c. IsOk (f c h).0) same next
  step-IsOk message (err m) f h a e next = cc

  choice-IsOk :
      {A : Type 0} (b : Bool) (m n : Run A) (h : Calls)
      → (b ≡ true → IsOk (m h).0)
      → (b ≡ false → IsOk (n h).0)
      → IsOk ((if b then m else n) h).0
  choice-IsOk true m n h first second = first refl
  choice-IsOk false m n h first second = second refl

  all_gone :
      (events : List EntityId) (m : Dict ℕ Ack)
      → ((id : ℕ) → has_key id m ≡ true → mentions id events ≡ true)
      → is_empty (forget events m) ≡ false
      → ⊥
  all_gone events m seen e =
      let empty : forget events m ≡ [] =
        no_keys (forget events m) (λ id. ground (arith, has_key-forget id events m, seen id)) in
      cc

  poll-IsOk :
      (k ticks : ℕ) (m : Dict ℕ Ack) (h : Calls) (events_at : ℕ → List EntityId)
      → ((j : ℕ) → j ≤ k → client.answers_events list_events (polls j h) ≡ ok (events_at j))
      → ((id : ℕ) → has_key id m ≡ true → mentions id (events_at k) ≡ true)
      → k < ticks
      → IsOk (poll_deleted client ticks m h).0
  unfolding poll_deleted
  poll-IsOk k zero m h events_at answered seen in_time = absurd (omega (arith, in_time))
  poll-IsOk zero (suc ticks) m h events_at answered seen in_time =
      step-IsOk _ _ _ _ (events_at 0) (answered 0 (omega arith)) (
        choice-IsOk (is_empty (forget (events_at 0) m)) _ _ _ (λ b. tt)
          (λ b. absurd (all_gone (events_at 0) m seen b)))
  poll-IsOk (suc k) (suc ticks) m h events_at answered seen in_time =
      step-IsOk _ _ _ _ (events_at 0) (answered 0 (omega arith)) (
        choice-IsOk (is_empty (forget (events_at 0) m)) _ _ _ (λ b. tt)
          (λ b.
            poll-IsOk k ticks (forget (events_at 0) m) (list_events ∷ h) (λ j. events_at (suc j))
              (λ j le. answered (suc j) (omega (arith, le)))
              (λ id here. seen id (ground (arith, has_key-forget id (events_at 0) m, here)))
              (omega (arith, in_time))))

  -- If the API answers every poll up to some poll, at which it reports all of the nodes as deleted, and
  -- the context lasts that long, then the wait for deleted nodes ends and succeeds.
  pub wait_for_nodes_deleted_ends :
      (k ticks : ℕ) (nodes : List Node) (h : Calls) (events_at : ℕ → List EntityId)
      → ((j : ℕ) → j ≤ k → client.answers_events list_events (polls j h) ≡ ok (events_at j))
      → ((id : ℕ) → any (λ n. n.instance_id == id) nodes ≡ true → mentions id (events_at k) ≡ true)
      → k < ticks
      → IsOk (wait_for_nodes_deleted client ticks nodes h).0
  unfolding wait_for_nodes_deleted get
  wait_for_nodes_deleted_ends k ticks nodes h events_at answered seen in_time =
      poll-IsOk k ticks (as_set nodes []) h events_at answered
        (λ id here. seen id (ground (arith, has_key-as_set id nodes [], here))) in_time
