-- ===== src/Dispatch/InFlight/Exclusion.antt =====
-- Tasks of one account and one handler exclude each other, however requests and tasks interleave.
use cryptokorr.Common.{
  ℕ, ◌+◌, ◌-◌, ◌≤◌, Text, text_eq, text_eq_iff, ◌≡◌, refl, sym, ◌∙◌, ap, ◌↔◌, inl, inr, Bool, true,
  false, Bool-cases, Option, none, some, List, [], ◌∷◌, arith, if◌then◌else◌,
}
use cryptokorr.Contracts.Primitives.{Zod}
use cryptokorr.Contracts.Permission.{DispatchGrantDelegation, grant_schema}
use cryptokorr.Effect.{Outcome, ok, thrown}
use cryptokorr.Dispatch.InFlight.{
  Registry, has, delete, remove, start_task, end_task, resume_revoke, handle_grant_dispatch,
}

abbrev pub count : Text → List Text → ℕ
count a [] = 0
count a (x ∷ s) = let rest = count a s in if text_eq a x then 1 + rest else rest

abbrev flag : Bool → ℕ
flag b = if b then 1 else 0

-- The module-level sets of the two handlers, which are independent of each other.
pub record Registries : Type 0 where
  pub revokes : Registry
  pub grants : Registry

-- A step of the process: a handler passes its check, with any outcome of what preceded it, or a task
-- that is running ends.
pub data Step : Registries → Registries → Type 0 where
  revoke_resumed :
      (a : Text) (o : Outcome (Unit {0})) (s : Registries)
      → Step s (record s { revokes = (resume_revoke a o s.revokes).1 })
  grant_handled :
      (zod : Zod) (body : Option DispatchGrantDelegation) (s : Registries)
      → Step s (record s { grants = (handle_grant_dispatch zod body s.grants).1 })
  revoke_ended :
      (a : Text) (s : Registries)
      → has a s.revokes.running ≡ true
      → Step s (record s { revokes = end_task a s.revokes })
  grant_ended :
      (a : Text) (s : Registries)
      → has a s.grants.running ≡ true
      → Step s (record s { grants = end_task a s.grants })

abbrev pub fresh : Registry
fresh = record { in_flight = []; running = [] }

pub data Reachable : Registries → Type 0 where
  at_start : Reachable (record { revokes = fresh; grants = fresh })
  after : {s t : Registries} → Reachable s → Step s t → Reachable t

-- The set holds an account exactly while it has a task, and it never has two.
abbrev IsExclusive : Registry → Type 0
IsExclusive r = (a : Text) → count a r.running ≡ flag (has a r.in_flight)

has-delete_same : (a : Text) (s : List Text) → has a (delete a s) ≡ false
has-delete_same a [] = refl
has-delete_same a (x ∷ s) = ground (arith, has-delete_same a s)

different : (a b x : Text) → text_eq b a ≡ false → text_eq a x ≡ true → text_eq b x ≡ false
different a b x h e = rw (sym ((text_eq_iff a x).0 e)) h

has-delete_other : (a b : Text) (s : List Text) → text_eq b a ≡ false → has b (delete a s) ≡ has b s
has-delete_other a b [] h = refl
has-delete_other a b (x ∷ s) h = ground (arith, has-delete_other a b s h, different a b x h)

count-remove_same : (a : Text) (s : List Text) → count a (remove a s) ≡ count a s - 1
count-remove_same a [] = refl
count-remove_same a (x ∷ s) = ground (arith, count-remove_same a s)

count-remove_other :
    (a b : Text) (s : List Text) → text_eq b a ≡ false → count b (remove a s) ≡ count b s
count-remove_other a b [] h = refl
count-remove_other a b (x ∷ s) h = ground (arith, count-remove_other a b s h, different a b x h)

start_task-IsExclusive : (a : Text) (r : Registry) → IsExclusive r → IsExclusive (start_task a r)
unfolding start_task
start_task-IsExclusive a r inv b = elim (Bool-cases (has a r.in_flight)) [
  | inl busy ↦ rw busy (inv b)
  | inr free ↦ elim (Bool-cases (text_eq b a)) [
    | inl same ↦
        let e : count b r.running ≡ 0 =
          inv b ∙ ap flag (ap (λ c. has c r.in_flight) ((text_eq_iff b a).0 same) ∙ free) in
        rw (free, same) (ap (λ n. 1 + n) e)
    | inr other ↦ rw (free, other) (inv b)
  ]
]

end_task-IsExclusive : (a : Text) (r : Registry) → IsExclusive r → IsExclusive (end_task a r)
unfolding end_task
end_task-IsExclusive a r inv b = elim (Bool-cases (text_eq b a)) [
  | inl same ↦ rw ((text_eq_iff b a).0 same) (
      count-remove_same a r.running
      ∙ rw (has-delete_same a r.in_flight, inv a) (one_less (has a r.in_flight)))
  | inr other ↦
      count-remove_other a b r.running other ∙ rw (has-delete_other a b r.in_flight other) (inv b)
]
  where
    one_less : (c : Bool) → flag c - 1 ≡ 0
    one_less true = refl
    one_less false = refl

resume_revoke-IsExclusive :
    (a : Text) (o : Outcome (Unit {0})) (r : Registry)
    → IsExclusive r
    → IsExclusive (resume_revoke a o r).1
unfolding resume_revoke
resume_revoke-IsExclusive a (ok u) r inv = start_task-IsExclusive a r inv
resume_revoke-IsExclusive a (thrown e) r inv = inv

handle_grant_dispatch-IsExclusive :
    (zod : Zod) (body : Option DispatchGrantDelegation) (r : Registry)
    → IsExclusive r
    → IsExclusive (handle_grant_dispatch zod body r).1
unfolding handle_grant_dispatch
handle_grant_dispatch-IsExclusive zod none r inv = inv
handle_grant_dispatch-IsExclusive zod (some d) r inv = elim (Bool-cases (grant_schema zod d)) [
  | inl valid ↦ rw valid (start_task-IsExclusive d.smart_account_id r inv)
  | inr invalid ↦ rw invalid inv
]

abbrev BothExclusive : Registries → Type 0
BothExclusive s = IsExclusive s.revokes × IsExclusive s.grants

Step-BothExclusive : {s t : Registries} → Step s t → BothExclusive s → BothExclusive t
Step-BothExclusive (revoke_resumed a o s) inv =
    (resume_revoke-IsExclusive a o s.revokes inv.0, inv.1)
Step-BothExclusive (grant_handled zod body s) inv =
    (inv.0, handle_grant_dispatch-IsExclusive zod body s.grants inv.1)
Step-BothExclusive (revoke_ended a s h) inv = (end_task-IsExclusive a s.revokes inv.0, inv.1)
Step-BothExclusive (grant_ended a s h) inv = (inv.0, end_task-IsExclusive a s.grants inv.1)

Reachable-BothExclusive : {s : Registries} → Reachable s → BothExclusive s
Reachable-BothExclusive at_start = (λ a. refl, λ a. refl)
Reachable-BothExclusive (after reached s) = Step-BothExclusive s (Reachable-BothExclusive reached)

flag-cases : (b : Bool) → (flag b ≤ 1) × ((flag b ≡ 1) ↔ (b ≡ true))
flag-cases true = (omega arith, (λ _. refl, λ _. refl))
flag-cases false = (omega arith, (λ e. absurd (omega arith), λ e. absurd (Bool-cases-absurd e)))
  where
    Bool-cases-absurd : false ≡ true → ⊥
    Bool-cases-absurd e = cc

-- The account has at most one task of this kind, and is in the set exactly while it has one.
abbrev pub HasOneTask : Text → Registry → Type 0
HasOneTask a r = (count a r.running ≤ 1) × ((count a r.running ≡ 1) ↔ (has a r.in_flight ≡ true))

exclusive_one : (a : Text) (r : Registry) → IsExclusive r → HasOneTask a r
exclusive_one a r inv = rw (inv a) (flag-cases (has a r.in_flight))

-- However requests and tasks of revokes and grants interleave, an account has at most one running
-- revoke and at most one running grant, and it is in the set of either handler exactly while it has
-- a task of that handler.
pub in_flight_exclusive :
    (s : Registries) (a : Text) → Reachable s → HasOneTask a s.revokes × HasOneTask a s.grants
in_flight_exclusive s a reached =
    let (revokes, grants) = Reachable-BothExclusive reached in
    (exclusive_one a s.revokes revokes, exclusive_one a s.grants grants)
