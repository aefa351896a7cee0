-- ===== src/ConnectionPool/Sharing.antt =====
-- What is the same of every pool that is reached: each connection is in the queue or in use.
use hft_backtester.Prelude.{
  ℕ, zero, suc, ◌+◌, ◌<◌, ◌≡◌, refl, sym, subst, ◌∙◌, ap, Bool, false≢true, true, false, some, List,
  [], ◌∷◌, ◌++◌, leb, ◌==◌, Bool-cases, inl, inr, arith,
}
use hft_backtester.Heap.{put}
use hft_backtester.Limit.Chain.{has, has-snoc}
use hft_backtester.ConnectionPool.{
  Ended, returned, waiting, deadlocked, thrown, Pool, opened, add_connection, open_all, new_pool,
  release_connection,
}
use hft_backtester.ConnectionPool.Lease.{
  Distinct-snoc, IsPool, lease-IsLeased, without_front, release_connection-IsPool,
}

-- Of `n` connections each is in the queue or in use.
pub record IsShared (n max : ℕ) (p : Pool) : Type 0 where
  pub pool : IsPool p
  pub size_eq : p.current_size ≡ n
  pub max_eq : p.max_size ≡ max
  pub running : p.shutdown ≡ false
  pub offered : (c : ℕ) → c < n → p.in_use c ≡ false → has c p.available_connections ≡ true

-- A pool of `n` connections that are all free, of those that are given back.
IsIdle : (n max : ℕ) → Ended Pool → Type 0
IsIdle n max (returned p) = IsShared n max p × ((c : ℕ) → p.in_use c ≡ false)
IsIdle n max waiting = Unit
IsIdle n max deadlocked = Unit
IsIdle n max thrown = Unit

module _ (opens : ℕ → Bool) where
  -- The new connection is the last of the queue.
  grown :
      (n max : ℕ) (p : Pool)
      → IsShared n max p
      → ((c : ℕ) → p.in_use c ≡ false)
      → IsShared (n + 1) max (record p {
        available_connections = p.available_connections ++ p.current_size ∷ [];
        current_size = p.current_size + 1;
        locked = false;
      })
  grown n max p s idle =
      let size_eq = s.size_eq in
      record {
        pool = record {
          distinct =
              Distinct-snoc p.current_size p.available_connections s.pool.distinct
                (elim (Bool-cases (has p.current_size p.available_connections)) [
                  | inl in_queue ↦ absurd (omega (arith, (s.pool.ready p.current_size in_queue).0))
                  | inr out ↦ out
                ]);
          ready = λ q m.
              let split = sym (has-snoc q p.current_size p.available_connections) ∙ m in
              elim (Bool-cases (p.current_size == q)) [
                | inl same ↦ (ground arith, idle q)
                | inr other ↦ let r = s.pool.ready q (ground arith) in (omega (arith, r.0), r.1)
              ];
          unlocked = refl;
        };
        size_eq = omega arith;
        max_eq = s.max_eq;
        running = s.running;
        offered = λ c lt free.
            has-snoc c p.current_size p.available_connections
            ∙ elim (Bool-cases (c == p.current_size)) [
              | inl same ↦ ground arith
              | inr other ↦ rw (s.offered c (ground arith) free) refl
            ];
      }

  opened-IsIdle :
      (n max : ℕ) (p : Pool)
      → IsIdle n max (returned p)
      → IsIdle (n + 1) max (opened opens (add_connection opens p))
  unfolding IsIdle opened add_connection
  opened-IsIdle n max p (s, idle) = elim (Bool-cases (leb p.max_size p.current_size)) [
    | inl full ↦ rw full tt
    | inr room ↦ elim (Bool-cases (opens p.current_size)) [
      | inl good ↦ rw (room, good, s.pool.unlocked) (grown n max p s idle, idle)
      | inr bad ↦ rw (room, bad) tt
    ]
  ]

  open_all-IsIdle :
      (k n max : ℕ) (e : Ended Pool) → IsIdle n max e → IsIdle (n + k) max (open_all opens k e)
  unfolding IsIdle open_all
  open_all-IsIdle zero n max e s = subst (λ i. IsIdle i max e) (omega arith) s
  open_all-IsIdle (suc k) n max (returned p) s =
      subst (λ i. IsIdle i max (open_all opens (suc k) (returned p))) (omega arith)
        (open_all-IsIdle k (n + 1) max (opened opens (add_connection opens p))
          (opened-IsIdle n max p s))
  open_all-IsIdle (suc k) n max waiting s = tt
  open_all-IsIdle (suc k) n max deadlocked s = tt
  open_all-IsIdle (suc k) n max thrown s = tt

  pub new_pool-IsShared :
      (n max : ℕ) (p : Pool) → new_pool opens n max ≡ returned p → IsShared n max p
  unfolding new_pool IsIdle
  new_pool-IsShared n max p e =
      let start : Pool = record {
        available_connections = [];
        in_use = λ c. false;
        max_size = max;
        current_size = 0;
        shutdown = false;
        locked = false;
      } in
      let empty : IsShared 0 max start = record {
        pool = record { distinct = tt; ready = λ c m. absurd (false≢true m); unlocked = refl };
        size_eq = refl;
        max_eq = refl;
        running = refl;
        offered = λ c lt free. absurd (omega (arith, lt));
      } in
      let all : IsIdle (0 + n) max (new_pool opens n max) =
        open_all-IsIdle n 0 max (returned start) (empty, λ c. refl) in
      let zero_add : 0 + n ≡ n = omega arith in
      (subst (IsIdle n max) e (subst (λ i. IsIdle i max (new_pool opens n max)) zero_add all)).0

pub without_front-IsShared :
    (n max : ℕ) (p : Pool) (c : ℕ) (cs : List ℕ)
    → IsShared n max p
    → p.available_connections ≡ c ∷ cs
    → IsShared n max (without_front c cs p)
unfolding put
without_front-IsShared n max p c cs s e = record {
  pool = (lease-IsLeased p c cs s.pool e).pool;
  size_eq = s.size_eq;
  max_eq = s.max_eq;
  running = s.running;
  offered = λ d lt free. elim (Bool-cases (c == d)) [
    | inl same ↦ absurd (false≢true (sym free ∙ rw same refl))
    | inr other ↦
        let was : p.in_use d ≡ false = ground arith in
        let old : has d (c ∷ cs) ≡ true = sym (ap (has d) e) ∙ s.offered d lt was in ground arith
  ];
}

pub released-IsShared :
    (n max : ℕ) (p p' : Pool) (c : ℕ)
    → IsShared n max p
    → c < n
    → p.in_use c ≡ true
    → release_connection (some c) p ≡ returned p'
    → IsShared n max p'
unfolding release_connection put
released-IsShared n max p p' c s lt used e =
    let after : Pool = record p {
      available_connections = p.available_connections ++ c ∷ [];
      in_use = put p.in_use c false;
    } in
    let gives : release_connection (some c) p ≡ returned after = rw (s.pool.unlocked) refl in
    let size_eq = s.size_eq in
    let out : has c p.available_connections ≡ false =
      elim (Bool-cases (has c p.available_connections)) [
        | inl in_queue ↦ absurd (false≢true (sym ((s.pool.ready c in_queue).1) ∙ used))
        | inr out ↦ out
      ] in
    let (q, gives', pool, _, _) = release_connection-IsPool p c s.pool (omega arith) out in
    let same : q ≡ after = cc (gives, gives') in
    let result : IsShared n max after = record {
      pool = subst IsPool same pool;
      size_eq = s.size_eq;
      max_eq = s.max_eq;
      running = s.running;
      offered = λ d d_lt free. has-snoc d c p.available_connections ∙ elim (Bool-cases (d == c)) [
        | inl at ↦ ground arith
        | inr other ↦
            let was : p.in_use d ≡ false = ground arith in
            let old = s.offered d d_lt was in ground arith
      ];
    } in
    let ends : after ≡ p' = cc (gives, e) in subst (IsShared n max) ends result
