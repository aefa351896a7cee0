-- ===== src/ConnectionPool/Growth.antt =====
-- The pools that a program reaches, and how a lease ends in one.
use hft_backtester.Prelude.{
  ℕ, ◌<◌, ◌≡◌, refl, sym, subst, ◌∙◌, ap, Bool, true, false, ◌&&◌, Option, some, List, [], ◌∷◌,
  if◌then◌else◌, ltb, leb, Bool-cases, inl, inr, arith,
}
use hft_backtester.Limit.Chain.{has}
use hft_backtester.ConnectionPool.{
  Ended, returned, waiting, deadlocked, Pool, add_connection, new_pool, after_add, acquire_empty,
  acquire_from, acquire_connection, release_connection,
}
use hft_backtester.ConnectionPool.Sharing.{
  IsShared, new_pool-IsShared, without_front-IsShared, released-IsShared,
}
use hft_backtester.ConnectionPool.Lease.{IsPool, without_front, acquire_connection-front}

-- What the constructor, leases and releases reach, by callers that release what is in use.
pub data Reach (opens : ℕ → Bool) (n max : ℕ) : Pool → Type 0 where
  made : {p : Pool} → new_pool opens n max ≡ returned p → Reach opens n max p
  acquired :
      {p p' : Pool} {o : Option ℕ}
      → Reach opens n max p
      → acquire_connection opens p ≡ returned (o, p')
      → Reach opens n max p'
  released :
      {p p' : Pool} {c : ℕ}
      → Reach opens n max p
      → c < n
      → p.in_use c ≡ true
      → release_connection (some c) p ≡ returned p'
      → Reach opens n max p'

-- How a lease ends: with the front of the queue; and of an empty one in a lock of its own or, when
-- there is no room or the connection does not open, waiting.
abbrev pub Ends :
    (opens : ℕ → Bool) (n max : ℕ) (queue : List ℕ) (r : Ended (Option ℕ × Pool)) → Type 0
Ends opens n max [] r = r ≡ (if ltb n max && opens n then deadlocked else waiting)
Ends opens n max (c ∷ cs) r =
    (p' : Pool) × (r ≡ returned (some c, p')) × (p'.available_connections ≡ cs)

pub record IsFixed (opens : ℕ → Bool) (n max : ℕ) (p : Pool) : Type 0 where
  pub pool : IsPool p
  pub size_eq : p.current_size ≡ n
  pub offered : (c : ℕ) → c < n → p.in_use c ≡ false → has c p.available_connections ≡ true
  pub lease_ends : Ends opens n max p.available_connections (acquire_connection opens p)

module _ (opens : ℕ → Bool) where
  acquire_connection-empty :
      (n max : ℕ) (p : Pool)
      → IsShared n max p
      → p.available_connections ≡ []
      → acquire_connection opens p ≡ (if ltb n max && opens n then deadlocked else waiting)
  unfolding acquire_connection acquire_from acquire_empty after_add add_connection
  acquire_connection-empty n max p s e =
      let shut = s.running in
      let below = λ (h : ltb n max ≡ true). let test : leb max n ≡ false = ground arith in test in
      ap (λ t. if t then deadlocked else acquire_from opens p.available_connections p)
        s.pool.unlocked
      ∙ ap (λ q. acquire_from opens q p) e
      ∙ rw (shut, s.size_eq, s.max_eq)
          (elim (Bool-cases (ltb n max)) [
            | inl more ↦ elim (Bool-cases (opens n)) [
              | inl good ↦ rw (more, below more, good) refl
              | inr bad ↦ rw (more, below more, bad) refl
            ]
            | inr full ↦ rw full refl
          ])

  acquired-IsShared :
      (n max : ℕ) (p p' : Pool) (o : Option ℕ) (queue : List ℕ)
      → IsShared n max p
      → p.available_connections ≡ queue
      → acquire_connection opens p ≡ returned (o, p')
      → IsShared n max p'
  acquired-IsShared n max p p' o [] s q e =
      let ends = sym (acquire_connection-empty n max p s q) ∙ e in
      elim (Bool-cases (ltb n max && opens n)) [
        | inl grows ↦ absurd (cc (ends, grows))
        | inr stays ↦ absurd (cc (ends, stays))
      ]
  acquired-IsShared n max p p' o (c ∷ cs) s q e =
      let front = acquire_connection-front opens p c cs s.pool.unlocked s.running q in
      let same : without_front c cs p ≡ p' = cc (front, e) in
      subst (IsShared n max) same (without_front-IsShared n max p c cs s q)

  acquire_connection-Ends :
      (n max : ℕ) (p : Pool) (queue : List ℕ)
      → IsShared n max p
      → p.available_connections ≡ queue
      → Ends opens n max queue (acquire_connection opens p)
  acquire_connection-Ends n max p [] s q = acquire_connection-empty n max p s q
  acquire_connection-Ends n max p (c ∷ cs) s q = (
    without_front c cs p,
    acquire_connection-front opens p c cs s.pool.unlocked s.running q,
    refl,
  )

  Reach-IsShared : (n max : ℕ) (p : Pool) → Reach opens n max p → IsShared n max p
  Reach-IsShared n max p (made e) = new_pool-IsShared opens n max p e
  Reach-IsShared n max p (acquired {p = before} {o = o} r e) =
      acquired-IsShared n max before p o before.available_connections
        (Reach-IsShared n max before r) refl e
  Reach-IsShared n max p (released {p = before} {c = c} r lt used e) =
      released-IsShared n max before p c (Reach-IsShared n max before r) lt used e

-- In every pool that the constructor, leases and releases of connections in use reach, run one after
-- the other, there are as many connections as the constructor made, and each is in the queue, once, or
-- in use; a lease gives the front of the queue, and with an empty queue it ends in a lock of its own if
-- there is room for a connection that opens, and waits if not: no pool grows.
pub Reach-IsFixed :
    (opens : ℕ → Bool) (n max : ℕ) (p : Pool) → Reach opens n max p → IsFixed opens n max p
Reach-IsFixed opens n max p r =
    let s = Reach-IsShared opens n max p r in
    record {
      pool = s.pool;
      size_eq = s.size_eq;
      offered = s.offered;
      lease_ends = acquire_connection-Ends opens n max p p.available_connections s refl;
    }
