-- ===== src/Trace/Rules.antt =====
-- The rules of the program logic, one to a way of building an action.
use cryptokorr.Common.{Text, refl}
use cryptokorr.Effect.{
  Reply, answered, failed, Thrown, Outcome, ok, thrown, Event, History, Action, pure, throw, ◌>>=◌,
  ◌>>◌, rethrow_as, resume, recover, settle, message_of, intercept, try_catch, call_out,
}
use cryptokorr.Trace.{next, Moved, Asked, Follows}

module _ {P : Type 0} (L : History → P → Event → P → Type 0) where
  module _ {A : Type 0} where
    pub pure-Follows :
        (Post : Outcome A → P → Type 0) (p : P) (a : A) → Post (ok a) p → Follows L p (pure a) Post
    unfolding pure
    pure-Follows Post p a h from start w c = (p, c, h)

    pub throw-Follows :
        (Post : Outcome A → P → Type 0) (p : P) (e : Thrown)
        → Post (thrown e) p
        → Follows L p (throw e) Post
    unfolding throw
    throw-Follows Post p e h from start w c = (p, c, h)

  module _ {A B : Type 0} (Mid : Outcome A → P → Type 0) (Post : Outcome B → P → Type 0) where
    resume-Follows :
        (f : A → Action B)
        → ((a : A) (q : P) → Mid (ok a) q → Follows L q (f a) Post)
        → ((e : Thrown) (q : P) → Mid (thrown e) q → Post (thrown e) q)
        → (o : Outcome A) (q : P) → Mid o q
        → Follows L q (resume f o) Post
    unfolding resume
    resume-Follows f rest fault (ok a) q h from start w c = rest a q h from start w c
    resume-Follows f rest fault (thrown e) q h from start w c = (q, c, fault e q h)

    pub bind-Follows :
        (p : P) (m : Action A) (f : A → Action B)
        → Follows L p m Mid
        → ((a : A) (q : P) → Mid (ok a) q → Follows L q (f a) Post)
        → ((e : Thrown) (q : P) → Mid (thrown e) q → Post (thrown e) q)
        → Follows L p (m >>= f) Post
    unfolding ◌>>=◌
    bind-Follows p m f first rest fault from start w c =
        let (q, c', h) = first from start w c in
        resume-Follows f rest fault (m w).0 q h from start (m w).1 c'

    pub seq-Follows :
        (p : P) (m : Action A) (k : Action B)
        → Follows L p m Mid
        → ((a : A) (q : P) → Mid (ok a) q → Follows L q k Post)
        → ((e : Thrown) (q : P) → Mid (thrown e) q → Post (thrown e) q)
        → Follows L p (m >> k) Post
    unfolding ◌>>◌
    seq-Follows p m k first rest fault = bind-Follows p m (λ _. k) first rest fault

  module _ {A : Type 0} (Mid Post : Outcome A → P → Type 0) where
    recover-Follows :
        (handler : Text → Action A)
        → ((a : A) (q : P) → Mid (ok a) q → Post (ok a) q)
        → ((e : Thrown) (q : P) → Mid (thrown e) q → Follows L q (handler (message_of e)) Post)
        → (o : Outcome A) (q : P) → Mid o q
        → Follows L q (recover handler o) Post
    unfolding recover
    recover-Follows handler fine caught (ok a) q h from start w c = (q, c, fine a q h)
    recover-Follows handler fine caught (thrown e) q h from start w c = caught e q h from start w c

    pub rethrow-Follows :
        (p : P) (m : Action A) (handler : Text → Action A)
        → Follows L p m Mid
        → ((a : A) (q : P) → Mid (ok a) q → Post (ok a) q)
        → ((e : Thrown) (q : P) → Mid (thrown e) q → Follows L q (handler (message_of e)) Post)
        → Follows L p (rethrow_as m handler) Post
    unfolding rethrow_as
    rethrow-Follows p m handler first fine caught from start w c =
        let (q, c', h) = first from start w c in
        recover-Follows handler fine caught (m w).0 q h from start (m w).1 c'

  settle-Moved : {A : Type 0} (r : Reply A) (q : P) → Moved (λ _. Unit {0}) q (settle r) q
  unfolding settle
  settle-Moved (answered a) q = (tt, refl)
  settle-Moved (failed message) q = refl

  pub call_out-Follows :
      {A : Type 0} (p q : P) (e : Event) (ask : History → Reply A)
      → ((hist : History) → L hist p e q)
      → Follows L p (call_out e ask) (Moved (λ _. Unit {0}) q)
  unfolding call_out
  call_out-Follows p q e ask l from start w c =
      (q, next c (l w.history), settle-Moved (ask w.history) q)

  settle-Asked : {A : Type 0} (to : Reply A → P) (r : Reply A) → Asked to (settle r) (to r)
  unfolding settle
  settle-Asked to (answered a) = refl
  settle-Asked to (failed message) = refl

  -- A call whose answer is part of the phase that it leads to.
  pub ask-Follows :
      {A : Type 0} (p : P) (to : Reply A → P) (e : Event) (ask : History → Reply A)
      → ((hist : History) → L hist p e (to (ask hist)))
      → Follows L p (call_out e ask) (Asked to)
  unfolding call_out
  ask-Follows p to e ask l from start w c =
      (to (ask w.history), next c (l w.history), settle-Asked to (ask w.history))

  -- A call that leaves the phase alone, and what comes after it.
  pub call_then-Follows :
      {A B : Type 0} (Got : B → Type 0) (p : P) (e : Event) (ask : History → Reply A)
      (f : A → Action B)
      → ((hist : History) → L hist p e p)
      → ((a : A) → Follows L p (f a) (Moved Got p))
      → Follows L p (call_out e ask >>= f) (Moved Got p)
  call_then-Follows Got p e ask f l rest =
      bind-Follows (Moved (λ _. Unit {0}) p) (Moved Got p) p _ f (call_out-Follows p p e ask l)
        (λ a q h. rw h.1 (rest a)) (λ x q h. h)

  module _ {A : Type 0} (Mid Post : Outcome A → P → Type 0) where
    intercept-Follows :
        (handler : Thrown → Action A)
        → ((a : A) (q : P) → Mid (ok a) q → Post (ok a) q)
        → ((e : Thrown) (q : P) → Mid (thrown e) q → Follows L q (handler e) Post)
        → (o : Outcome A) (q : P) → Mid o q
        → Follows L q (intercept handler o) Post
    unfolding intercept
    intercept-Follows handler fine caught (ok a) q h from start w c = (q, c, fine a q h)
    intercept-Follows handler fine caught (thrown e) q h from start w c =
        caught e q h from start w c

    pub try_catch-Follows :
        (p : P) (m : Action A) (handler : Thrown → Action A)
        → Follows L p m Mid
        → ((a : A) (q : P) → Mid (ok a) q → Post (ok a) q)
        → ((e : Thrown) (q : P) → Mid (thrown e) q → Follows L q (handler e) Post)
        → Follows L p (try_catch m handler) Post
    unfolding try_catch
    try_catch-Follows p m handler first fine caught from start w c =
        let (q, c', h) = first from start w c in
        intercept-Follows handler fine caught (m w).0 q h from start (m w).1 c'

    -- A weaker postcondition.
    pub weaken-Follows :
        (p : P) (m : Action A)
        → ((o : Outcome A) (q : P) → Mid o q → Post o q)
        → Follows L p m Mid
        → Follows L p m Post
    weaken-Follows p m f h from start w c =
        let (q, c', mid) = h from start w c in (q, c', f (m w).0 q mid)
