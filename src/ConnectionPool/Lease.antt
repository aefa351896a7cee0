-- ===== src/ConnectionPool/Lease.antt =====
-- What the pool promises of its leases.
use hft_backtester.Prelude.{
  ℕ, ◌<◌, ◌≡◌, refl, sym, subst, ◌∙◌, ap, Bool, false≢true, true, false, none, some, List, [], ◌∷◌,
  ◌++◌, if◌then◌else◌, ◌==◌, Bool-cases, inl, inr, arith,
}
use hft_backtester.Heap.{put}
use hft_backtester.Limit.Chain.{has, has-snoc}
use hft_backtester.ConnectionPool.{
  returned, deadlocked, Pool, lease, acquire_from, acquire_connection, release_connection,
}

-- No connection twice.
abbrev pub Distinct : List ℕ → Type 0
Distinct [] = Unit
Distinct (c ∷ cs) = (has c cs ≡ false) × Distinct cs

-- The queue has no connection twice, every connection of it is open and not in use, and the mutex is
-- free.
pub record IsPool (p : Pool) : Type 0 where
  pub distinct : Distinct p.available_connections
  pub ready :
      (c : ℕ) → has c p.available_connections ≡ true → (c < p.current_size) × (p.in_use c ≡ false)
  pub unlocked : p.locked ≡ false

-- What a lease promises: an open connection that was not in use and is now, of a pool that is well
-- formed, has its size, and no longer offers it.
pub record IsLeased (p : Pool) (c : ℕ) (p' : Pool) : Type 0 where
  pub pool : IsPool p'
  pub opened : c < p'.current_size
  pub before : p.in_use c ≡ false
  pub after : p'.in_use c ≡ true
  pub gone : has c p'.available_connections ≡ false
  pub size_eq : p'.current_size ≡ p.current_size

pub lease-IsLeased :
    (p : Pool) (c : ℕ) (cs : List ℕ)
    → IsPool p
    → p.available_connections ≡ c ∷ cs
    → IsLeased p c (record p { available_connections = cs; in_use = put p.in_use c true })
unfolding put
lease-IsLeased p c cs v e =
    let d : Distinct (c ∷ cs) = subst Distinct e v.distinct in
    let ready = λ (q : ℕ) (m : has q (c ∷ cs) ≡ true). v.ready q (ap (has q) e ∙ m) in
    let self = ready c (ground arith) in
    record {
      pool = record {
        distinct = d.1;
        ready = λ q m.
            let (lt, free) = ready q (ground arith) in
            (
              lt,
              elim (Bool-cases (c == q)) [
                | inl same ↦
                    let at : c ≡ q = ground arith in
                    let dup = sym (d.0) ∙ ap (λ x. has x cs) at ∙ m in absurd (false≢true dup)
                | inr other ↦ rw other free
              ],
            );
        unlocked = v.unlocked;
      };
      opened = self.0;
      before = self.1;
      after = ground arith;
      gone = d.0;
      size_eq = refl;
    }

-- The pool once the front of its queue is leased.
abbrev pub without_front : ℕ → List ℕ → Pool → Pool
without_front c cs p = record p { available_connections = cs; in_use = put p.in_use c true }

pub acquire_connection-front :
    (opens : ℕ → Bool) (p : Pool) (c : ℕ) (cs : List ℕ)
    → p.locked ≡ false
    → p.shutdown ≡ false
    → p.available_connections ≡ c ∷ cs
    → acquire_connection opens p ≡ returned (some c, without_front c cs p)
unfolding acquire_connection acquire_from lease
acquire_connection-front opens p c cs unlocked running e =
    ap (λ t. if t then deadlocked else acquire_from opens p.available_connections p) unlocked
    ∙ ap (λ q. acquire_from opens q p) e
    ∙ ap (λ t. if t then returned (none, p) else returned (lease opens (c ∷ cs) p)) running

-- With a connection in the queue of a well-formed pool that is not shut down, the front is leased.
pub acquire_connection-IsLeased :
    (opens : ℕ → Bool) (p : Pool) (c : ℕ) (cs : List ℕ)
    → IsPool p
    → p.shutdown ≡ false
    → p.available_connections ≡ c ∷ cs
    → (p' : Pool) × (acquire_connection opens p ≡ returned (some c, p')) × IsLeased p c p'
acquire_connection-IsLeased opens p c cs v running e = (
  without_front c cs p,
  acquire_connection-front opens p c cs v.unlocked running e,
  lease-IsLeased p c cs v e,
)

pub Distinct-snoc : (c : ℕ) (cs : List ℕ) → Distinct cs → has c cs ≡ false → Distinct (cs ++ c ∷ [])
Distinct-snoc c [] d out = (refl, tt)
Distinct-snoc c (x ∷ xs) d out =
    (has-snoc x c xs ∙ ground (arith, d.0), Distinct-snoc c xs d.1 (ground arith))

-- Releasing an open connection that is not in the queue puts it at the end of the queue of a
-- well-formed pool.
pub release_connection-IsPool :
    (p : Pool) (c : ℕ)
    → IsPool p
    → c < p.current_size
    → has c p.available_connections ≡ false
    → (p' : Pool) × (release_connection (some c) p ≡ returned p')
      × IsPool p'
      × (p'.available_connections ≡ p.available_connections ++ c ∷ [])
      × (p'.current_size ≡ p.current_size)
unfolding release_connection put
release_connection-IsPool p c v lt out = (
  record p {
    available_connections = p.available_connections ++ c ∷ [];
    in_use = put p.in_use c false;
  },
  rw (v.unlocked) refl,
  record {
    distinct = Distinct-snoc c p.available_connections v.distinct out;
    ready = λ q m.
        let split = sym (has-snoc q c p.available_connections) ∙ m in
        elim (Bool-cases (c == q)) [
          | inl same ↦ let at : c ≡ q = ground arith in (rw (← at) lt, rw same refl)
          | inr other ↦ let r = v.ready q (ground arith) in (r.0, rw other (r.1))
        ];
    unlocked = v.unlocked;
  },
  refl,
  refl,
)
